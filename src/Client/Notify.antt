-- ===== src/Client/Notify.antt =====
-- What the remotes tell the clients: the answer to a connection request, and devices that come and
-- go.
pub mod Answer
use usbfluxd.Prelude.{ℕ, ◌==◌, if◌then◌else◌, Option, none, some}
use usbfluxd.Proto.{result_ok}
use usbfluxd.Utils.Collection
use usbfluxd.Utils.Collection.{Ptr}
use usbfluxd.System.{LibPlist, Env, pollout_only}
use usbfluxd.World.{ClientState, World, MuxClient}
use usbfluxd.World.Monad.{
  M, pure, ◌>>=◌, ◌>>◌, get, modify, for_each, read_client, on_client, lock_clients, unlock_clients,
}
use usbfluxd.Client.Events.{is_listen, is_connecting1}
use usbfluxd.Client.Output.{send_result, notify_device_add, notify_device_remove}

module _ {Plist : Type 0} ⦃lib : LibPlist Plist⦄ ⦃env : Env⦄ where
  -- The change of state once the answer is queued.
  abbrev pub connect_answered : ℕ → MuxClient Plist → MuxClient Plist
  connect_answered result c =
      if result == result_ok
      then record c {
        state = ClientState.connecting2;
        events = pollout_only;
        ib = record c.ib { buf = none };
      }
      else record c { state = ClientState.command }

  -- `none` is the code's -1.
  pub client_notify_connect : ℕ → M (MuxClient Plist) (Option (Unit {0}))
  client_notify_connect result = do
    c ← get
    if is_connecting1 c.state
        then (do
          res ← send_result c.connect_tag result
          elim res [
            | none ↦ pure none
            | some _ ↦ (do modify (connect_answered result); pure (some tt))
          ])
        else pure none

  -- FOREACH of the clients that listen, with a result that is ignored.
  pub for_listeners : M (MuxClient Plist) (Option ℕ) → M (World Plist) (Unit {0})
  for_listeners f = do
    lock_clients
    w ← get
    for_each (Collection.elements w.client_list) (λ p. do
      c ← read_client p
      if is_listen c.state then (do _ ← on_client p f; pure tt) else pure tt)
    unlock_clients

  pub client_device_add : Plist → M (World Plist) (Unit {0})
  client_device_add dev = for_listeners (notify_device_add dev)

  pub client_device_remove : ℕ → M (World Plist) (Unit {0})
  client_device_remove device_id = for_listeners (notify_device_remove device_id)
