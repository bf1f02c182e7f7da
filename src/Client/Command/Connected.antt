-- ===== src/Client/Command/Connected.antt =====
-- What a client is told after `usbmux_remote_connect`.
use usbfluxd.Prelude.{ℕ, ◌≡◌, refl, Option, none, some}
use usbfluxd.Proto.{result_badcommand}
use usbfluxd.Utils.Collection.{Ptr}
use usbfluxd.System.{LibPlist, Env}
use usbfluxd.World.{ClientState, World, MuxClient}
use usbfluxd.World.Monad.{update, ◌>>=◌, ◌>>◌, read_client, write_client, on_client, primitives}
use usbfluxd.Client.Output.{send_result}
use usbfluxd.Client.Command.{handled, after_send, reply, connected_to}

module _ {Plist : Type 0} ⦃lib : LibPlist Plist⦄ ⦃env : Env⦄ where
  -- The client waits for the answer.
  abbrev pub waiting : MuxClient Plist → ℕ → ℕ → MuxClient Plist
  waiting c tag device_id = record c {
    connect_tag = tag;
    connect_device = device_id;
    state = ClientState.connecting1;
  }

  pub connected_to-some :
      (p : Ptr) (tag device_id : ℕ) (u : Unit {0}) (w : World Plist) (c : MuxClient Plist)
      → w.clients p ≡ some c
      → (res : Option ℕ) × (connected_to p tag device_id (some u) w
          ≡ some (res, record w { clients = update w.clients p (some (waiting c tag device_id)) }))
  unfolding connected_to primitives
  connected_to-some p tag device_id u w c live =
      (handled, rw (connected_to, ◌>>=◌, ◌>>◌, read_client, live, write_client, live) refl)

  pub connected_to-none :
      (p : Ptr) (tag device_id : ℕ) (w : World Plist) (c c' : MuxClient Plist) (sent : Option ℕ)
      → w.clients p ≡ some c
      → send_result tag result_badcommand c ≡ some (sent, c')
      → (res : Option ℕ) × (connected_to p tag device_id none w
          ≡ some (res, record w { clients = update w.clients p (some c') }))
  unfolding connected_to reply primitives
  connected_to-none p tag device_id w c c' sent live e =
      (after_send sent, rw (connected_to, reply, ◌>>=◌, on_client, live, e) refl)
