-- ===== src/Remote/Service/Return.antt =====
-- An instance that is removed and added again before its remote is disposed of.
use usbfluxd.Prelude.{
  ℕ, ◌==◌, ◌≡◌, ◌≢◌, refl, ◌∙◌, ap, true, false, Option, none, some, List, [], ◌∷◌, arith, inl, inr,
  Bool-cases,
}
use usbfluxd.Text.{CString, str_eq}
use usbfluxd.Utils.Collection
use usbfluxd.Utils.Collection.{Ptr}
use usbfluxd.System.{LibPlist, Env, set_pollout}
use usbfluxd.World.{RemoteState, World, RemoteMux}
use usbfluxd.World.Monad.{update, ◌>>=◌, ◌>>◌, read_remote, write_remote, lock_remotes, primitives}
use usbfluxd.Remote.Events.{is_dead}
use usbfluxd.Remote.Output.{Version}
use usbfluxd.Remote.Dispose.{mark_all_dead, wake_first, remote_mark_dead}
use usbfluxd.Remote.Dispose.MarkDead.{listed, killed, mark_all_dead-killed}
use usbfluxd.Remote.Service.{
  AddResult, str_eq_at, same_service, named_service, find_remote, remote_mux_service_add,
  remote_mux_service_remove,
}

str_eq_self : (s : CString) → str_eq s s ≡ true
unfolding str_eq
str_eq_self [] = refl
str_eq_self (c ∷ s) = ground (arith, str_eq_self s)

abbrev pub dead : RemoteMux → RemoteMux
dead r = record r { state = RemoteState.dead }

abbrev woken : RemoteMux → RemoteMux
woken r = record r { events = set_pollout r.events }

module _ {Plist : Type 0} where
  -- The local usbmuxd comes first in the list of remotes and the instance of the service second, both are
  -- listeners with ids of their own, and the others of the list are live.
  pub record TwoFirst (w : World Plist) (u p : Ptr) (ps : List Ptr) (ru r : RemoteMux)
      (name : CString) : Type 0 where
    pub order : Collection.elements w.remote_list ≡ u ∷ p ∷ ps
    pub local : w.remotes u ≡ some ru
    pub there : w.remotes p ≡ some r
    pub unix : ru.is_unix ≡ true
    pub host : r.is_unix ≡ false
    pub listens : r.is_listener ≡ true
    pub named : r.service_name ≡ some name
    pub own_ids : (ru.id == r.id) ≡ false
    pub awake : is_dead ru.state ≡ false
    pub live : (q : Ptr) → listed ps q ≡ true → w.remotes q ≢ none
    pub free : w.remote_list_mutex ≡ false

  apart :
      (w : World Plist) (u p : Ptr) (ps : List Ptr) (ru r : RemoteMux) (name : CString)
      → TwoFirst w u p ps ru r name
      → (u == p) ≡ false
  apart w u p ps ru r name t = elim (Bool-cases (u == p)) [
    | inr other ↦ other
    | inl same ↦
        let is_r : some ru ≡ some r = ground (arith, same, t.local, t.there) in
        absurd (ground (arith, is_r, t.unix, t.host))
  ]

module _ {Plist : Type 0} ⦃lib : LibPlist Plist⦄ ⦃env : Env⦄ where
  live_still :
      (w : World Plist) (u p : Ptr) (ps : List Ptr) (ru r : RemoteMux) (name : CString)
      → TwoFirst w u p ps ru r name
      → (q : Ptr) → listed (u ∷ p ∷ ps) q ≡ true
      → update w.remotes p (some (dead r)) q ≢ none
  unfolding listed
  live_still w u p ps ru r name t q there gone = elim (Bool-cases (p == q)) [
    | inl hit ↦ ground (arith, hit, gone)
    | inr miss ↦ elim (Bool-cases (u == q)) [
      | inl hit ↦
          let same : w.remotes u ≡ w.remotes q = ground (arith, hit) in
          ground (arith, hit, miss, gone, same, t.local)
      | inr other ↦ t.live q (ground (arith, there, other, miss)) (ground (arith, gone, miss))
    ]
  ]

  -- What `remote_mark_dead` makes of the remotes.
  marked :
      (w : World Plist) (u p : Ptr) (ps : List Ptr) (ru r : RemoteMux) (name : CString)
      → TwoFirst w u p ps ru r name
      → (f : Ptr → Option RemoteMux) × (remote_mark_dead p (record w { remote_list_mutex = true })
          ≡ some (tt, record w { remotes = f; remote_list_mutex = true }))
        × (f u ≡ some (woken ru))
        × (f p ≡ some (dead r))
  unfolding remote_mark_dead wake_first listed killed primitives
  marked w u p ps ru r name t =
      let other = apart w u p ps ru r name t in
      let w1 : World Plist = record w {
        remotes = update w.remotes p (some (dead r));
        remote_list_mutex = true;
      } in
      let (w2, e, same, each) =
        mark_all_dead-killed r.id (u ∷ p ∷ ps) w1 (live_still w u p ps ru r name t) in
      let e1 : mark_all_dead r.id (u ∷ p ∷ ps) w1 ≡ some (tt, record w1 { remotes = w2.remotes }) =
        e ∙ ap (λ (v : World Plist). some (tt, v)) same in
      let at_u : w2.remotes u ≡ some ru = each u ∙ ground (arith, other, t.local, t.own_ids) in
      let at_p : w2.remotes p ≡ some (dead r) = each p ∙ ground (arith, other) in
      (
        update w2.remotes u (some (woken ru)),
        rw
            (
              remote_mark_dead, ◌>>=◌, ◌>>◌, read_remote, t.there, write_remote, t.there, t.order,
              e1, t.order, wake_first, at_u, t.awake, at_u,
            )
            refl,
        ground arith,
        ground (arith, other, at_p),
      )

  -- The two calls, one after the other.
  pub service_add-removed :
      ⦃v : Version⦄
      → (later : Env) (w : World Plist) (u p : Ptr) (ps : List Ptr) (ru r : RemoteMux)
        (name host : CString) (port : ℕ)
      → TwoFirst w u p ps ru r name
      → (w' : World Plist) × (remote_mux_service_remove (some name) none 0 w ≡ some (some tt, w'))
        × (remote_mux_service_add ⦃env = later⦄ name host port w'
            ≡ some (AddResult.already_present, w'))
        × (w'.remotes p ≡ some (dead r))
        × (w'.remote_list ≡ w.remote_list)
  unfolding remote_mux_service_remove remote_mux_service_add find_remote named_service same_service
      str_eq_at primitives
  service_add-removed later w u p ps ru r name host port t =
      let (f, e, at_u, at_p) = marked w u p ps ru r name t in
      let same = str_eq_self name in
      (
        record w { remotes = f; remote_list_mutex = false },
        rw
            (
              remote_mux_service_remove, ◌>>=◌, ◌>>◌, lock_remotes, t.free, t.order, find_remote,
              read_remote, t.local, named_service, t.unix, find_remote, read_remote, t.there,
              named_service, t.host, t.listens, t.named, str_eq_at, same, e,
            )
            refl,
        rw
            (
              remote_mux_service_add, ◌>>=◌, ◌>>◌, lock_remotes, t.order, find_remote, read_remote,
              at_u, same_service, t.unix, find_remote, read_remote, at_p, same_service, t.host,
              t.listens, t.named, str_eq_at, same,
            )
            refl,
        at_p,
        refl,
      )
