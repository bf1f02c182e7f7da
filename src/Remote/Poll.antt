-- ===== src/Remote/Poll.antt =====
-- The remotes' descriptors for `poll`, and the end of all remotes: `usbmux_remote_get_fds` and
-- `usbmux_remote_shutdown` of usbfluxd/usbmux_remote.c.
pub mod Fds
use usbfluxd.Prelude.{
  ℕ, ◌+◌, ◌-◌, ◌%◌, ◌^◌, ◌==◌, ◌&&◌, not, ltb, if◌then◌else◌, Bool, none, some, List, [], ◌∷◌, ◌++◌,
}
use usbfluxd.Text.{CString}
use usbfluxd.Utils.Collection
use usbfluxd.Utils.Collection.{Ptr}
use usbfluxd.Utils.FdList.{FdList, FdOwner, fdlist_add}
use usbfluxd.System.{LibPlist, Env}
use usbfluxd.World.{World, RemoteMux}
use usbfluxd.World.Monad.{
  M, pure, fault, ◌>>=◌, ◌>>◌, get, modify, read_remote, write_remote, lock_remotes, unlock_remotes,
}
use usbfluxd.Remote.Dispose.{for_remotes, usbmux_remote_dispose}

-- `now - last_active`, as a `uint64_t`.
abbrev pub idle : ℕ → ℕ → ℕ
idle now last_active = (now + 2 ^ 64 - last_active) % 2 ^ 64

-- `!remote->is_unix && (now - remote->last_active) > 10000`.
pub is_stale : ℕ → RemoteMux → Bool
is_stale now r = not r.is_unix && ltb 10_000 (idle now r.last_active)

-- What `check_remote_func` is started with: a descriptor, a host and a port.
pub record Check : Type 0 where
  pub fd : ℕ
  pub host : CString
  pub port : ℕ

-- The check of a stale remote, which needs a host and a port.
pub check_of : RemoteMux → List Check
check_of r = elim r.host [
  | none ↦ []
  | some host ↦ if r.port == 0 then [] else record { fd = r.fd; host = host; port = r.port } ∷ []
]

module _ {Plist : Type 0} ⦃env : Env⦄ where
  -- One remote of the loop: the checks that were started so far, and the list.
  pub add_remote : Ptr → List Check → FdList → M (World Plist) (List Check × FdList)
  add_remote p checks list = do
    r ← read_remote p
    if is_stale env.now r then write_remote p (record r { last_active = env.now }) else pure tt
    elim (fdlist_add FdOwner.fd_remote r.fd r.events list) [
      | none ↦ fault
      | some list' ↦ pure ((if is_stale env.now r then check_of r ++ checks else checks), list')
    ]

  -- FOREACH of the remotes.
  pub add_remotes : List Ptr → List Check → FdList → M (World Plist) (List Check × FdList)
  add_remotes [] checks list = pure (checks, list)
  add_remotes (p ∷ ps) checks list = do
    result ← add_remote p checks list
    add_remotes ps result.0 result.1

  -- With the list, the checks for which a thread was started, the last one first.
  pub usbmux_remote_get_fds : FdList → M (World Plist) (List Check × FdList)
  usbmux_remote_get_fds list = do
    lock_remotes
    w ← get
    result ← add_remotes (Collection.elements w.remote_list) [] list
    unlock_remotes
    pure result

module _ {Plist : Type 0} ⦃lib : LibPlist Plist⦄ ⦃env : Env⦄ where
  -- The part after the mDNS thread has ended. The device list is freed; nothing reads it afterwards.
  pub usbmux_remote_shutdown : M (World Plist) (Unit {0})
  usbmux_remote_shutdown = do
    lock_remotes
    w ← get
    for_remotes w.remote_list.capacity 0 usbmux_remote_dispose
    unlock_remotes
    modify (λ v. record v { remote_list = Collection.free v.remote_list })
