-- ===== src/Client/Process/Dispatch.antt =====
-- `client_process`: which function an event of a client calls.
use usbfluxd.Prelude.{◌≡◌, ◌==◌, refl, true, false, some, Bool-cases, inl, inr}
use usbfluxd.Utils.Collection.{Ptr}
use usbfluxd.System.{LibPlist, Env, Events, clear_pollout}
use usbfluxd.World.{World, MuxClient}
use usbfluxd.World.Monad.{update, ◌>>=◌, read_client, write_client, primitives}
use usbfluxd.Client.Events.{is_connected}
use usbfluxd.Client.Process.{process_send, process_connected, process_client}
use usbfluxd.Remote.Output.{Version}

module _ {Plist : Type 0} ⦃lib : LibPlist Plist⦄ ⦃env : Env⦄ ⦃v : Version⦄ where
  -- An event without POLLIN and POLLOUT does nothing.
  pub process_client-idle :
      (p : Ptr) (w : World Plist) (c : MuxClient Plist) (events : Events)
      → w.clients p ≡ some c
      → events.pollin ≡ false
      → events.pollout ≡ false
      → process_client p events w ≡ some (tt, w)
  unfolding process_client process_connected primitives
  process_client-idle p w c events live no_in no_out = elim (Bool-cases (is_connected c.state)) [
    | inl up ↦
        rw
          (
            process_client, ◌>>=◌, read_client, live, up, process_connected, ◌>>=◌, read_client,
            live, no_in, no_out,
          )
          refl
    | inr down ↦ rw (process_client, ◌>>=◌, read_client, live, down, no_in, no_out) refl
  ]

  pub process_client-sends :
      (p : Ptr) (w : World Plist) (c : MuxClient Plist) (events : Events)
      → w.clients p ≡ some c
      → is_connected c.state ≡ false
      → events.pollin ≡ false
      → events.pollout ≡ true
      → process_client p events w ≡ process_send p w
  unfolding process_client primitives
  process_client-sends p w c events live down no_in out =
      rw (process_client, ◌>>=◌, read_client, live, down, no_in, out) refl

module _ {Plist : Type 0} ⦃env : Env⦄ where
  pub process_send-nothing :
      (p : Ptr) (w : World Plist) (c : MuxClient Plist)
      → w.clients p ≡ some c
      → (c.ob.size == 0) ≡ true
      → process_send p w
        ≡ some (
          tt,
          record w {
            clients = update w.clients p (some (record c { events = clear_pollout c.events }));
          },
        )
  unfolding process_send primitives
  process_send-nothing p w c live empty =
      rw (process_send, ◌>>=◌, read_client, live, empty, write_client, live) refl
