-- ===== src/Client/Poll.antt =====
-- The clients' descriptors for `poll`, and the end of all clients: `client_get_fds` and
-- `client_shutdown` of usbfluxd/client.c.
pub mod Fds
use usbfluxd.Prelude.{ℕ, zero, suc, ◌+◌, none, some, List, [], ◌∷◌, get_elem?}
use usbfluxd.Utils.Collection
use usbfluxd.Utils.Collection.{Ptr}
use usbfluxd.Utils.FdList.{FdList, FdOwner, fdlist_add}
use usbfluxd.World.{World}
use usbfluxd.World.Monad.{
  M, pure, fault, ◌>>=◌, ◌>>◌, get, modify, read_client, lock_clients, unlock_clients,
}
use usbfluxd.Client.Close.{client_close}

module _ {Plist : Type 0} where
  -- FOREACH of the clients.
  pub add_clients : List Ptr → FdList → M (World Plist) FdList
  add_clients [] list = pure list
  add_clients (p ∷ ps) list = do
    c ← read_client p
    elim (fdlist_add FdOwner.fd_client c.fd c.events list) [
      | none ↦ fault
      | some list' ↦ add_clients ps list'
    ]

  pub client_get_fds : FdList → M (World Plist) FdList
  client_get_fds list = do
    lock_clients
    w ← get
    list' ← add_clients (Collection.elements w.client_list) list
    unlock_clients
    pure list'

  -- FOREACH with a body that removes: each slot is read when its turn comes. The arguments are the
  -- rounds left and the index.
  pub close_clients : ℕ → ℕ → M (World Plist) (Unit {0})
  close_clients zero i = pure tt
  close_clients (suc n) i = do
    w ← get
    elim (get_elem? w.client_list.list i) [
      | none ↦ fault
      | some none ↦ close_clients n (i + 1)
      | some (some p) ↦ (do client_close p; close_clients n (i + 1))
    ]

  pub client_shutdown : M (World Plist) (Unit {0})
  client_shutdown = do
    w ← get
    close_clients w.client_list.capacity 0
    modify (λ v. record v { client_list = Collection.free v.client_list })
