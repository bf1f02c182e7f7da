-- ===== src/Client/Process/Relaying.antt =====
-- `client_process` on a connected client: the client and its remote, and which way the bytes go.
pub mod Up
pub mod Down
use usbfluxd.Prelude.{◌≡◌, refl, true, false, some}
use usbfluxd.Utils.Collection.{Ptr}
use usbfluxd.System.{LibPlist, Env, Events}
use usbfluxd.World.{World, MuxClient, RemoteMux}
use usbfluxd.World.Monad.{update, ◌>>=◌, read_client, deref, primitives}
use usbfluxd.Client.Events.{is_connected}
use usbfluxd.Client.Process.{client_to_remote, remote_to_client, process_connected, process_client}
use usbfluxd.Remote.Output.{Version}

-- The world with other values of a client and a remote.
abbrev pub store_both :
    {Plist : Type 0} → World Plist → Ptr → MuxClient Plist → Ptr → RemoteMux → World Plist
store_both w p c q r = record w {
  clients = update w.clients p (some c);
  remotes = update w.remotes q (some r);
}

module _ {Plist : Type 0} where
  -- A client in CLIENT_CONNECTED and its remote, both live.
  pub record Linked (p q : Ptr) (w : World Plist) (c : MuxClient Plist) (r : RemoteMux)
      : Type 0 where
    pub live : w.clients p ≡ some c
    pub there : w.remotes q ≡ some r
    pub to_remote : c.remote ≡ some q
    pub connected : is_connected c.state ≡ true

module _ {Plist : Type 0} ⦃lib : LibPlist Plist⦄ ⦃env : Env⦄ ⦃v : Version⦄ where
  pub goes_up :
      (p q : Ptr) (w : World Plist) (c : MuxClient Plist) (r : RemoteMux) (events : Events)
      → Linked p q w c r
      → events.pollin ≡ true
      → process_client p events w ≡ client_to_remote p q w
  unfolding process_client process_connected primitives
  goes_up p q w c r events l in_ =
      rw
        (
          process_client, ◌>>=◌, read_client, l.live, l.connected, process_connected, ◌>>=◌,
          read_client, l.live, in_, l.to_remote, deref,
        )
        refl

  pub goes_down :
      (p q : Ptr) (w : World Plist) (c : MuxClient Plist) (r : RemoteMux) (events : Events)
      → Linked p q w c r
      → events.pollin ≡ false
      → events.pollout ≡ true
      → process_client p events w ≡ remote_to_client p q w
  unfolding process_client process_connected primitives
  goes_down p q w c r events l in_ out =
      rw
        (
          process_client, ◌>>=◌, read_client, l.live, l.connected, process_connected, ◌>>=◌,
          read_client, l.live, in_, out, l.to_remote, deref,
        )
        refl
