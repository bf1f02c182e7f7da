-- ===== src/World/Monad.antt =====
-- Code that works on a state and may fault. A fault is an access to freed memory or through NULL, a
-- write outside a block, or locking a mutex that the thread holds.
use mathlib.Core.Path.{fun_ext}
use usbfluxd.Prelude.{
  arith, ◌≡◌, ℕ, suc, ◌==◌, if◌then◌else◌, true, false, Option, none, some, List, [], ◌∷◌,
}
use usbfluxd.Utils.Collection.{Ptr}
use usbfluxd.World.{World, MuxClient, RemoteMux}

abbrev pub M : Type 0 → Type 0 → Type 0
M S A = S → Option (A × S)

module _ {S : Type 0} where
  abbrev pub pure : {A : Type 0} → A → M S A
  pure a s = some (a, s)

  abbrev pub fault : {A : Type 0} → M S A
  fault s = none

  infixl 5 ◌>>=◌ ◌>>◌
  abbrev pub ◌>>=◌ : {A B : Type 0} → M S A → (A → M S B) → M S B
  ◌>>=◌ m f s = elim (m s) [ none ↦ none | some (a, s') ↦ f a s' ]

  abbrev pub ◌>>◌ : {B : Type 0} → M S (Unit {0}) → M S B → M S B
  m >> k = m >>= λ _. k

  abbrev pub get : M S S
  get s = some (s, s)

  abbrev pub modify : (S → S) → M S (Unit {0})
  modify f s = some (tt, f s)

  -- `for` over a list, with a body that keeps going.
  unfoldable pub for_each : {A : Type 0} → List A → (A → M S (Unit {0})) → M S (Unit {0})
  for_each [] f = pure tt
  for_each (a ∷ as') f = f a >> for_each as' f

abbrev pub update : {A : Type 0} → (Ptr → Option A) → Ptr → Option A → Ptr → Option A
update f p v q = if p == q then v else f q

pub eq_self : (p : Ptr) → (p == p) ≡ true
eq_self p = ground arith

pub update_self : {A : Type 0} (f : Ptr → Option A) (p : Ptr) → update f p (f p) ≡ f
update_self f p = fun_ext λ q. ground arith

pub update-update :
    {A : Type 0} (f : Ptr → Option A) (p : Ptr) (a b : Option A)
    → update (update f p a) p b ≡ update f p b
update-update f p a b = fun_ext λ q. ground arith

pub update-update-update :
    {A : Type 0} (f : Ptr → Option A) (p : Ptr) (a b c : Option A)
    → update (update (update f p a) p b) p c ≡ update f p c
update-update-update f p a b c = fun_ext λ q. ground arith

module _ {Plist : Type 0} where
  -- `*p`, for a pointer to a client and to a remote.
  unfoldable pub read_client : Ptr → M (World Plist) (MuxClient Plist)
  read_client p w = elim (w.clients p) [ none ↦ none | some c ↦ some (c, w) ]

  unfoldable pub read_remote : Ptr → M (World Plist) RemoteMux
  read_remote p w = elim (w.remotes p) [ none ↦ none | some r ↦ some (r, w) ]

  -- `*p = c`, for memory that is there.
  unfoldable pub write_client : Ptr → MuxClient Plist → M (World Plist) (Unit {0})
  write_client p c w = elim (w.clients p) [
    | none ↦ none
    | some _ ↦ some (tt, record w { clients = update w.clients p (some c) })
  ]

  unfoldable pub write_remote : Ptr → RemoteMux → M (World Plist) (Unit {0})
  write_remote p r w = elim (w.remotes p) [
    | none ↦ none
    | some _ ↦ some (tt, record w { remotes = update w.remotes p (some r) })
  ]

  -- A function on a client, applied to the client behind a pointer.
  unfoldable pub on_client : {A : Type 0} → Ptr → M (MuxClient Plist) A → M (World Plist) A
  on_client p f w = elim (w.clients p) [
    | none ↦ none
    | some c ↦ elim (f c) [
      | none ↦ none
      | some (a, c') ↦ some (a, record w { clients = update w.clients p (some c') })
    ]
  ]

  unfoldable pub on_remote : {A : Type 0} → Ptr → M RemoteMux A → M (World Plist) A
  on_remote p f w = elim (w.remotes p) [
    | none ↦ none
    | some r ↦ elim (f r) [
      | none ↦ none
      | some (a, r') ↦ some (a, record w { remotes = update w.remotes p (some r') })
    ]
  ]

  -- Following a pointer that may be NULL.
  unfoldable pub deref : Option Ptr → M (World Plist) Ptr
  deref none w = none
  deref (some p) w = some (p, w)

  unfoldable pub alloc_client : MuxClient Plist → M (World Plist) Ptr
  alloc_client c w =
      some (w.next, record w { clients = update w.clients w.next (some c); next = suc w.next })

  unfoldable pub alloc_remote : RemoteMux → M (World Plist) Ptr
  alloc_remote r w =
      some (w.next, record w { remotes = update w.remotes w.next (some r); next = suc w.next })

  unfoldable pub free_client : Ptr → M (World Plist) (Unit {0})
  free_client p w = elim (w.clients p) [
    | none ↦ none
    | some _ ↦ some (tt, record w { clients = update w.clients p none })
  ]

  unfoldable pub free_remote : Ptr → M (World Plist) (Unit {0})
  free_remote p w = elim (w.remotes p) [
    | none ↦ none
    | some _ ↦ some (tt, record w { remotes = update w.remotes p none })
  ]

  unfoldable pub close_fd : ℕ → M (World Plist) (Unit {0})
  close_fd fd w = some (tt, record w { closed = fd ∷ w.closed })

  -- The mutexes are not recursive: a thread that locks one twice waits for ever.
  unfoldable pub lock_clients : M (World Plist) (Unit {0})
  lock_clients w =
      if w.client_list_mutex then none else some (tt, record w { client_list_mutex = true })

  unfoldable pub unlock_clients : M (World Plist) (Unit {0})
  unlock_clients w = some (tt, record w { client_list_mutex = false })

  unfoldable pub lock_remotes : M (World Plist) (Unit {0})
  lock_remotes w =
      if w.remote_list_mutex then none else some (tt, record w { remote_list_mutex = true })

  unfoldable pub unlock_remotes : M (World Plist) (Unit {0})
  unlock_remotes w = some (tt, record w { remote_list_mutex = false })

  -- A line `unfolding primitives` opens all of the above.
  unfoldable pub primitives : M (World Plist) (Unit {0})
  unfolding read_client read_remote write_client write_remote on_client on_remote deref alloc_client
      alloc_remote free_client free_remote close_fd lock_clients unlock_clients lock_remotes
      unlock_remotes
  primitives = pure tt
