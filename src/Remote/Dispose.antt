-- ===== src/Remote/Dispose.antt =====
-- The end of a remote that went away: `usbmux_remote_dispose`, `remote_mark_dead`,
-- `usbmux_remote_close` and what they call in usbfluxd/usbmux_remote.c.
pub mod MarkDead
use usbfluxd.Prelude.{
  ℕ, zero, suc, ◌+◌, ◌==◌, ◌&&◌, if◌then◌else◌, Bool, true, false, Option, none, some, List, [],
  ◌∷◌, get_elem?,
}
use usbfluxd.Text.{CString, strtol_hex}
use usbfluxd.DeviceId.{remote_mux_id}
use usbfluxd.Utils.Collection
use usbfluxd.Utils.Collection.{Ptr}
use usbfluxd.System.{LibPlist, Env, set_pollout}
use usbfluxd.World.{RemoteState, World}
use usbfluxd.World.Monad.{
  M, pure, fault, ◌>>=◌, ◌>>◌, get, modify, for_each, read_remote, write_remote, free_remote,
  close_fd, lock_remotes, unlock_remotes,
}
use usbfluxd.Remote.Events.{is_dead}
use usbfluxd.Remote.IdMap.{set_remote_id_used}
use usbfluxd.Remote.Close.{remote_close}
use usbfluxd.Client.Close.{client_clear_remote, client_notify_remote_close}
use usbfluxd.Client.Notify.{client_device_remove}

has_host : Option CString → Bool
has_host none = false
has_host (some h) = true

module _ {Plist : Type 0} where
  -- FOREACH over the remotes with a body that may remove some: each slot is read when its turn comes.
  -- The arguments are the rounds left and the index.
  pub for_remotes : ℕ → ℕ → (Ptr → M (World Plist) (Unit {0})) → M (World Plist) (Unit {0})
  for_remotes zero i body = pure tt
  for_remotes (suc n) i body = do
    w ← get
    elim (get_elem? w.remote_list.list i) [
      | none ↦ fault
      | some none ↦ for_remotes n (i + 1) body
      | some (some p) ↦ (do body p; for_remotes n (i + 1) body)
    ]

module _ {Plist : Type 0} ⦃lib : LibPlist Plist⦄ ⦃env : Env⦄ where
  pub remote_device_notify_remove : ℕ → CString → M (World Plist) (Unit {0})
  remote_device_notify_remove id key =
      if remote_mux_id (strtol_hex key) == id
      then (do
        client_device_remove (strtol_hex key)
        modify
            (λ w. record w { remote_device_list = lib.dict_remove_item w.remote_device_list key }))
      else pure tt

  -- The client of the remote, if it has one.
  pub dispose_client_of : Option Ptr → M (World Plist) (Unit {0})
  dispose_client_of none = pure tt
  dispose_client_of (some client) = do client_clear_remote client; client_notify_remote_close client

  pub usbmux_remote_dispose : Ptr → M (World Plist) (Unit {0})
  usbmux_remote_dispose p = do
    r ← read_remote p
    close_fd r.fd
    w ← get
    for_each (lib.dict_items w.remote_device_list) (λ item. remote_device_notify_remove r.id item.0)
    modify (λ v. record v { remote_list = Collection.remove v.remote_list p })
    dispose_client_of r.client
    if r.is_listener && has_host r.host
        then modify
            (λ v. record v { remote_id_map = set_remote_id_used v.remote_id_map r.id false })
        else pure tt
    free_remote p

  -- The first loop of `remote_mark_dead`: every remote with the id.
  pub mark_all_dead : ℕ → List Ptr → M (World Plist) (Unit {0})
  mark_all_dead id ps = for_each ps (λ q. do
    r ← read_remote q
    if r.id == id then write_remote q (record r { state = RemoteState.dead }) else pure tt)

  -- The second one: POLLOUT for the first remote that is not dead, if there is one.
  unfoldable pub wake_first : List Ptr → M (World Plist) (Option Ptr)
  wake_first [] = pure none
  wake_first (q ∷ qs) = do
    r ← read_remote q
    if is_dead r.state
        then wake_first qs
        else (do write_remote q (record r { events = set_pollout r.events }); pure (some q))

  unfoldable pub remote_mark_dead : Ptr → M (World Plist) (Unit {0})
  remote_mark_dead p = do
    r ← read_remote p
    write_remote p (record r { state = RemoteState.dead })
    w ← get
    mark_all_dead r.id (Collection.elements w.remote_list)
    rem ← wake_first (Collection.elements w.remote_list)
    elim rem [
      | some _ ↦ pure tt
      | none ↦ for_remotes w.remote_list.capacity 0 usbmux_remote_dispose
    ]

  pub usbmux_remote_mark_dead : Ptr → M (World Plist) (Unit {0})
  usbmux_remote_mark_dead p = do lock_remotes; remote_mark_dead p; unlock_remotes

  unfoldable pub usbmux_remote_close : Ptr → M (World Plist) (Unit {0})
  usbmux_remote_close p = do
    r ← read_remote p
    elim r.client [
      | some client ↦ client_notify_remote_close client
      | none ↦ (do lock_remotes; remote_close p; unlock_remotes)
    ]
