-- ===== src/Socket.antt =====
-- usbfluxd/socket.c: connections to a socket file and to a host, and the daemon's own socket file. The
-- sizes and flags that are set on a socket, and failures that are only logged, are left out.
pub mod Connecting
use usbfluxd.Prelude.{
  ℕ, ◌==◌, ◌&&◌, Bool, true, false, if◌then◌else◌, Option, none, some, List, [], ◌∷◌,
}
use usbfluxd.Text.{CString}
use usbfluxd.World.Monad.{M, pure, fault, ◌>>=◌, ◌>>◌, modify}

-- `gethostbyname_mutex`, and the descriptors that are open.
pub record Net : Type 0 where
  pub locked : Bool
  pub open_fds : List ℕ

-- What `gethostbyname` finds.
pub data Resolved : Type 0 where
  unknown no_address : Resolved
  address : ℕ → Resolved

-- What `connect` returns: 0, EINPROGRESS or another error.
pub data Connected : Type 0 where
  at_once in_progress failed : Connected

-- What `select` returns: 1, with the error of the socket, 0, or -1.
pub data Selected : Type 0 where
  done : ℕ → Selected
  timed_out select_failed : Selected

-- The outcomes of the system calls of one function.
pub record SocketEnv : Type 0 where
  pub is_file : Bool
  pub is_socket : Bool
  pub resolved : CString → Resolved
  pub new_fd : Option ℕ
  -- SO_REUSEADDR, and SO_NOSIGPIPE where there is one.
  pub options_set : Bool
  pub no_sigpipe_set : Bool
  pub connected : Connected
  pub selected : Selected
  -- Whether there is no file at the path after `unlink`, `bind` and `listen`.
  pub unlinked : Bool
  pub bound : Bool
  pub listens : Bool

-- The first descriptor of the list that it is goes.
pub without : ℕ → List ℕ → List ℕ
without fd [] = []
without fd (x ∷ fds) = if x == fd then fds else x ∷ without fd fds

unfoldable pub lock_resolver : M Net (Unit {0})
lock_resolver n = if n.locked then none else some (tt, record n { locked = true })

unfoldable pub unlock_resolver : M Net (Unit {0})
unlock_resolver n = some (tt, record n { locked = false })

unfoldable pub open_fd : ℕ → M Net (Unit {0})
open_fd fd n = some (tt, record n { open_fds = fd ∷ n.open_fds })

unfoldable pub socket_close : ℕ → M Net (Unit {0})
unfolding without
socket_close fd n = some (tt, record n { open_fds = without fd n.open_fds })

pub close_failed : ℕ → M Net (Option ℕ)
close_failed fd = do socket_close fd; pure none

module _ (env : SocketEnv) where
  -- The last part of `socket_connect_timeout`, from `connect` on.
  pub await_connection : ℕ → M Net (Option ℕ)
  await_connection fd = elim env.connected [
    | at_once ↦ pure (some fd)
    | failed ↦ close_failed fd
    | in_progress ↦ elim env.selected [
      | done so_error ↦ if so_error == 0 then pure (some fd) else close_failed fd
      | timed_out ↦ close_failed fd
      | select_failed ↦ close_failed fd
    ]
  ]

  -- The part behind the lookup of the host.
  pub connect_address : M Net (Option ℕ)
  connect_address = elim env.new_fd [
    | none ↦ pure none
    | some fd ↦ (do
      open_fd fd
      if env.options_set && env.no_sigpipe_set then await_connection fd else close_failed fd)
  ]

  -- The host is looked up under the mutex, which both early returns leave locked.
  pub socket_connect_timeout : Option CString → M Net (Option ℕ)
  socket_connect_timeout none = pure none
  socket_connect_timeout (some addr) = do
    lock_resolver
    elim (env.resolved addr) [
      | unknown ↦ pure none
      | no_address ↦ pure none
      | address a ↦ (do unlock_resolver; connect_address)
    ]

  pub socket_connect : Option CString → M Net (Option ℕ)
  socket_connect addr = socket_connect_timeout addr

  pub socket_connect_unix : M Net (Option ℕ)
  socket_connect_unix =
      if env.is_file && env.is_socket
      then elim env.new_fd [
        | none ↦ pure none
        | some fd ↦ (do
          open_fd fd
          if env.no_sigpipe_set
              then elim env.connected [
                | at_once ↦ pure (some fd)
                | in_progress ↦ close_failed fd
                | failed ↦ close_failed fd
              ]
              else close_failed fd)
      ]
      else pure none

  -- The descriptor stays open where `bind` or `listen` fails.
  pub socket_create_unix : M Net (Option ℕ)
  socket_create_unix =
      if env.unlinked
      then elim env.new_fd [
        | none ↦ pure none
        | some fd ↦ (do open_fd fd; if env.bound && env.listens then pure (some fd) else pure none)
      ]
      else pure none
