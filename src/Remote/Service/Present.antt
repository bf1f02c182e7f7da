-- ===== src/Remote/Service/Present.antt =====
-- `remote_mux_service_add`: whether an instance is known, among remotes whose listeners have their names.
use usbfluxd.Prelude.{
  ℕ, ◌<◌, ◌==◌, ◌≡◌, refl, ◌⊎◌, inl, inr, ◌&&◌, ◌||◌, not, Bool, true, false, Option, none, some,
  List, [], ◌∷◌, arith, Bool-cases, Option-cases,
}
use usbfluxd.Text.{CString, str_eq}
use usbfluxd.Utils.Collection
use usbfluxd.Utils.Collection.{Ptr}
use usbfluxd.Utils.Collection.Bag.{occurs}
use usbfluxd.System.{LibPlist, Env}
use usbfluxd.World.{World, RemoteMux}
use usbfluxd.World.Monad.{◌>>=◌, ◌>>◌, read_remote, lock_remotes, primitives}
use usbfluxd.Remote.Output.{Version}
use usbfluxd.Remote.Service.{
  AddResult, str_eq_at, same_service, find_remote, remote_mux_service_add,
}
use usbfluxd.Remote.Service.Fresh.{Absent, none_there, absent}

abbrev has_string : Option CString → Bool
has_string none = false
has_string (some s) = true

-- A listener that is not the local usbmuxd has the names that it is looked up by.
abbrev pub has_names : RemoteMux → Bool
has_names r =
    not (not r.is_unix && r.is_listener) || (has_string r.service_name && has_string r.host)

module _ {Plist : Type 0} ⦃lib : LibPlist Plist⦄ ⦃env : Env⦄ where
  -- The test of a remote gives a result, and changes nothing.
  same_service-total :
      (name host : CString) (port : ℕ) (r : RemoteMux)
      → has_names r ≡ true
      → (b : Bool) × ((v : World Plist) → same_service name host port r v ≡ some (b, v))
  unfolding same_service str_eq_at primitives
  same_service-total name host port r named = elim (Bool-cases (not r.is_unix && r.is_listener)) [
    | inr other ↦ (false, λ v. rw (same_service, other) refl)
    | inl listens ↦ elim (Option-cases r.service_name) [
      | inl lost ↦ absurd (ground (arith, named, listens, lost))
      | inr (s, by_name) ↦ elim (Option-cases r.host) [
        | inl lost ↦ absurd (ground (arith, named, listens, by_name, lost))
        | inr (h, by_host) ↦ elim (Bool-cases (str_eq s name)) [
          | inl same ↦ (true, λ v. rw (same_service, listens, ◌>>=◌, by_name, str_eq_at, same) refl)
          | inr differs ↦ (
            str_eq h host && r.port == port,
            λ v.
                rw (same_service, listens, ◌>>=◌, by_name, str_eq_at, differs, by_host, str_eq_at)
                  refl,
          )
        ]
      ]
    ]
  ]

  -- No remote of the list is the instance, or one is found.
  pub find-Absent :
      (name host : CString) (port : ℕ) (w : World Plist) (ps : List Ptr)
      → ((q : Ptr)
          → 0 < occurs q ps
          → (r : RemoteMux) × (w.remotes q ≡ some r) × (has_names r ≡ true))
      → Absent w (same_service name host port) ps
        ⊎ ((q : Ptr) × (find_remote
                (same_service name host port)
                ps
                (record w { remote_list_mutex = true })
              ≡ some (some q, record w { remote_list_mutex = true })))
  unfolding find_remote occurs primitives
  find-Absent name host port w [] live = inl none_there
  find-Absent name host port w (p ∷ ps) live =
      let (r, there, named) = live p (ground arith) in
      let (b, total) = same_service-total name host port r named in
      elim (Bool-cases b) [
        | inl hit ↦ inr (p, rw (find_remote, ◌>>=◌, read_remote, there, total, hit) refl)
        | inr miss ↦ elim (find-Absent name host port w ps (λ q h. live q (ground (arith, h)))) [
          | inl rest ↦ inl (absent p ps r there (λ v. rw (total v, miss) refl) rest)
          | inr (q, e) ↦ inr (q, rw (find_remote, ◌>>=◌, read_remote, there, total, miss) e)
        ]
      ]

  pub service_add-present :
      ⦃v : Version⦄
      → (name host : CString) (port : ℕ) (w : World Plist) (q : Ptr) → w.remote_list_mutex ≡ false
      → find_remote
          (same_service name host port)
          (Collection.elements w.remote_list)
          (record w { remote_list_mutex = true })
        ≡ some (some q, record w { remote_list_mutex = true })
      → remote_mux_service_add name host port w
        ≡ some (AddResult.already_present, record w { remote_list_mutex = false })
  unfolding remote_mux_service_add primitives
  service_add-present name host port w q free e =
      rw (remote_mux_service_add, ◌>>=◌, ◌>>◌, lock_remotes, free, e) refl
