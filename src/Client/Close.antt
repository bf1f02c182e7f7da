-- ===== src/Client/Close.antt =====
-- The end of a client, and its link to a remote: `client_close`, `client_notify_remote_close`,
-- `client_set_remote`, `client_clear_remote` and `client_remote_unset`.
pub mod Release
use usbfluxd.Prelude.{Bool, false, ◌==◌, ◌||◌, if◌then◌else◌, Option, none, some}
use usbfluxd.Utils.Collection
use usbfluxd.Utils.Collection.{Ptr}
use usbfluxd.World.{ClientState, World}
use usbfluxd.World.Monad.{
  M, pure, ◌>>=◌, ◌>>◌, get, modify, for_each, read_client, write_client, free_client, close_fd,
  lock_clients, unlock_clients,
}
use usbfluxd.Client.Events.{is_connecting1, is_connecting2}
use usbfluxd.Remote.Close.{usbmux_remote_clear_client, usbmux_remote_notify_client_close}

points_to : Option Ptr → Ptr → Bool
points_to none remote = false
points_to (some q) remote = q == remote

module _ {Plist : Type 0} where
  unfoldable pub client_set_remote : Ptr → Ptr → M (World Plist) (Unit {0})
  client_set_remote p remote = do
    c ← read_client p
    write_client p (record c { remote = some remote })

  pub client_clear_remote : Ptr → M (World Plist) (Unit {0})
  client_clear_remote p = do c ← read_client p; write_client p (record c { remote = none })

  -- The part of `client_close` for the remote of the client, if it has one.
  pub close_remote_of : Option Ptr → M (World Plist) (Unit {0})
  close_remote_of none = pure tt
  close_remote_of (some remote) = do
    usbmux_remote_clear_client remote
    usbmux_remote_notify_client_close remote

  pub client_close : Ptr → M (World Plist) (Unit {0})
  client_close p = do
    c ← read_client p
    if is_connecting1 c.state || is_connecting2 c.state
        then write_client p (record c { state = ClientState.dead })
        else pure tt
    close_fd c.fd
    close_remote_of c.remote
    lock_clients
    modify (λ w. record w { client_list = Collection.remove w.client_list p })
    unlock_clients
    free_client p

  unfoldable pub client_notify_remote_close : Ptr → M (World Plist) (Unit {0})
  client_notify_remote_close p = client_close p

  pub client_remote_unset : Ptr → M (World Plist) (Unit {0})
  client_remote_unset remote = do
    lock_clients
    w ← get
    for_each (Collection.elements w.client_list) (λ p. do
      c ← read_client p
      if points_to c.remote remote then write_client p (record c { remote = none }) else pure tt)
    unlock_clients
