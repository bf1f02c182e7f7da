-- ===== src/Socket/Connecting.antt =====
-- `socket_connect_timeout`: what becomes of the descriptor and of the mutex.
use usbfluxd.Prelude.{
  ℕ, ◌==◌, ◌≡◌, refl, ◌∙◌, ◌&&◌, ◌⊎◌, inl, inr, Bool, true, false, Option, none, some, ◌∷◌, arith,
  Bool-cases, Option-cases, sym, ap,
}
use mathlib.Core.Path.{subst}
use usbfluxd.Text.{CString}
use usbfluxd.World.Monad.{◌>>=◌, ◌>>◌}
use usbfluxd.Socket.{
  Net, Resolved, Connected, Selected, SocketEnv, without, lock_resolver, unlock_resolver, open_fd,
  socket_close, close_failed, await_connection, connect_address, socket_connect_timeout,
  socket_connect_unix,
}

-- A connection is returned and is open, or there is none, and no descriptor is left open.
pub data Balanced (n : Net) (res : Option (Option ℕ × Net)) : Type 0 where
  open_one :
      (fd : ℕ) → res ≡ some (some fd, record n { open_fds = fd ∷ n.open_fds }) → Balanced n res
  none_open : res ≡ some (none, n) → Balanced n res

closes :
    (fd : ℕ) (n : Net) → close_failed fd (record n { open_fds = fd ∷ n.open_fds }) ≡ some (none, n)
unfolding close_failed socket_close without
closes fd n = ground arith

module _ (env : SocketEnv) where
  await_connection-Balanced :
      (fd : ℕ) (n : Net)
      → Balanced n (await_connection env fd (record n { open_fds = fd ∷ n.open_fds }))
  unfolding await_connection
  await_connection-Balanced fd n = go env.connected env.selected refl refl
    where
      go :
          (c : Connected) (s : Selected)
          → env.connected ≡ c
          → env.selected ≡ s
          → Balanced n (await_connection env fd (record n { open_fds = fd ∷ n.open_fds }))
      go Connected.at_once s e f = open_one fd (rw (await_connection, e) refl)
      go Connected.failed s e f = none_open (rw (await_connection, e) (closes fd n))
      go Connected.in_progress Selected.timed_out e f =
          none_open (rw (await_connection, e, f) (closes fd n))
      go Connected.in_progress Selected.select_failed e f =
          none_open (rw (await_connection, e, f) (closes fd n))
      go Connected.in_progress (Selected.done err) e f = elim (Bool-cases (err == 0)) [
        | inl ok ↦ open_one fd (rw (await_connection, e, f, ok) refl)
        | inr bad ↦ none_open (rw (await_connection, e, f, bad) (closes fd n))
      ]

  connect_address-Balanced : (n : Net) → Balanced n (connect_address env n)
  unfolding connect_address open_fd await_connection
  connect_address-Balanced n = elim (Option-cases env.new_fd) [
    | inl none_new ↦ none_open (rw (connect_address, none_new) refl)
    | inr (fd, new) ↦ elim (Bool-cases (env.options_set && env.no_sigpipe_set)) [
      | inl ready ↦
          subst (Balanced n) (sym (rw (connect_address, new, ◌>>=◌, ◌>>◌, open_fd, ready) refl))
            (await_connection-Balanced fd n)
      | inr not_ready ↦
          none_open (rw (connect_address, new, ◌>>=◌, ◌>>◌, open_fd, not_ready) (closes fd n))
    ]
  ]

  connect_unix-Balanced : (n : Net) → Balanced n (socket_connect_unix env n)
  unfolding socket_connect_unix open_fd
  connect_unix-Balanced n = elim (Bool-cases (env.is_file && env.is_socket)) [
    | inr no_socket ↦ none_open (rw (socket_connect_unix, no_socket) refl)
    | inl there ↦ elim (Option-cases env.new_fd) [
      | inl none_new ↦ none_open (rw (socket_connect_unix, there, none_new) refl)
      | inr (fd, new) ↦ elim (Bool-cases env.no_sigpipe_set) [
        | inr not_ready ↦
            none_open
              (rw (socket_connect_unix, there, new, ◌>>=◌, ◌>>◌, open_fd, not_ready) (closes fd n))
        | inl ready ↦ go fd env.connected refl there new ready
      ]
    ]
  ]
    where
      go :
          (fd : ℕ) (c : Connected)
          → env.connected ≡ c
          → (env.is_file && env.is_socket) ≡ true
          → env.new_fd ≡ some fd
          → env.no_sigpipe_set ≡ true
          → Balanced n (socket_connect_unix env n)
      go fd Connected.at_once e there new ready =
          open_one fd (rw (socket_connect_unix, there, new, ◌>>=◌, ◌>>◌, open_fd, ready, e) refl)
      go fd Connected.in_progress e there new ready =
          none_open
            (rw (socket_connect_unix, there, new, ◌>>=◌, ◌>>◌, open_fd, ready, e) (closes fd n))
      go fd Connected.failed e there new ready =
          none_open
            (rw (socket_connect_unix, there, new, ◌>>=◌, ◌>>◌, open_fd, ready, e) (closes fd n))

  resolves :
      (addr : CString) (a : ℕ) (n : Net)
      → n.locked ≡ false
      → env.resolved addr ≡ Resolved.address a
      → socket_connect_timeout env (some addr) n ≡ connect_address env (record n { locked = false })
  unfolding socket_connect_timeout lock_resolver unlock_resolver
  resolves addr a n free e =
      rw (socket_connect_timeout, ◌>>=◌, ◌>>◌, lock_resolver, free, e, unlock_resolver) refl

  -- A connection to the socket file, and one to a host whose address is found while no thread holds the
  -- mutex of the lookup: either the new descriptor is returned and open, or -1 is returned and every
  -- descriptor that was opened is closed again; nothing else changes.
  pub socket_connect-Balanced :
      (addr : CString) (a : ℕ) (n : Net)
      → n.locked ≡ false
      → env.resolved addr ≡ Resolved.address a
      → Balanced n (socket_connect_unix env n)
        × Balanced n (socket_connect_timeout env (some addr) n)
  socket_connect-Balanced addr a n free e =
      let same : record n { locked = false } ≡ n =
        ap (λ (b : Bool). record n { locked = b }) (sym free) in
      (
        connect_unix-Balanced n,
        subst (Balanced n) (sym (resolves addr a n free e ∙ ap (connect_address env) same))
            (connect_address-Balanced n),
      )

-- A connection to a host without an address, while no thread holds the mutex of the lookup, returns -1
-- and leaves the mutex locked, so that the next connection to any host waits for ever.
pub socket_connect_timeout-hangs :
    (env : SocketEnv) (addr : CString) (n : Net)
    → n.locked ≡ false
    → (env.resolved addr ≡ Resolved.unknown) ⊎ (env.resolved addr ≡ Resolved.no_address)
    → (socket_connect_timeout env (some addr) n ≡ some (none, record n { locked = true }))
      × ((later : SocketEnv) (next : CString)
          → socket_connect_timeout later (some next) (record n { locked = true }) ≡ none)
unfolding socket_connect_timeout lock_resolver
socket_connect_timeout-hangs env addr n free (inl e) =
    (rw (socket_connect_timeout, ◌>>=◌, ◌>>◌, lock_resolver, free, e) refl, λ later next. refl)
socket_connect_timeout-hangs env addr n free (inr e) =
    (rw (socket_connect_timeout, ◌>>=◌, ◌>>◌, lock_resolver, free, e) refl, λ later next. refl)
