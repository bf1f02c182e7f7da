-- ===== src/Remote/Dispose/MarkDead.antt =====
-- `remote_mark_dead`: which remotes its first loop marks.
use usbfluxd.Prelude.{
  ℕ, ◌==◌, ◌≡◌, ◌≢◌, refl, ◌∙◌, ap, sym, Bool, true, false, ◌||◌, if◌then◌else◌, Option, none, some,
  List, [], ◌∷◌, inl, inr, Bool-cases, Option-cases, arith,
}
use mathlib.Core.Option
use usbfluxd.Utils.Collection.{Ptr}
use usbfluxd.World.{RemoteState, World, RemoteMux}
use usbfluxd.World.Monad.{
  update, update_self, eq_self, ◌>>=◌, ◌>>◌, for_each, read_remote, write_remote,
}
use usbfluxd.System.{LibPlist, Env}
use usbfluxd.Remote.Dispose.{mark_all_dead}

-- Whether a list holds a pointer.
unfoldable pub listed : List Ptr → Ptr → Bool
listed [] q = false
listed (p ∷ ps) q = p == q || listed ps q

-- A remote with the id is dead, any other is as it was.
unfoldable pub killed : ℕ → RemoteMux → RemoteMux
killed id r = if r.id == id then record r { state = RemoteState.dead } else r

killed_twice : (id : ℕ) (r : RemoteMux) → killed id (killed id r) ≡ killed id r
unfolding killed
killed_twice id r = elim (Bool-cases (r.id == id)) [
  | inl hit ↦ rw (killed, hit, hit) refl
  | inr miss ↦ rw (killed, miss, miss) refl
]

-- What the rest of the loop makes of the first remote, and of the others.
still :
    (id : ℕ) (f : Ptr → Option RemoteMux) (p q : Ptr) (r : RemoteMux)
    → f p ≡ some r
    → (rest : Bool)
    → (if rest
        then Option.map (killed id) (update f p (some (killed id r)) q)
        else update f p (some (killed id r)) q)
      ≡ (if p == q || rest then Option.map (killed id) (f q) else f q)
still id f p q r there rest = ground (arith, killed_twice id r)

live_after :
    (id : ℕ) (p : Ptr) (ps : List Ptr) (f : Ptr → Option RemoteMux) (r : RemoteMux)
    → ((q : Ptr) → listed (p ∷ ps) q ≡ true → f q ≢ none)
    → (q : Ptr) → listed ps q ≡ true
    → update f p (some (killed id r)) q ≢ none
unfolding listed
live_after id p ps f r live q there gone = elim (Bool-cases (p == q)) [
  | inl hit ↦ ground (arith, hit, gone)
  | inr miss ↦ live q (ground (arith, there)) (ground (arith, gone, miss))
]

module _ {Plist : Type 0} ⦃lib : LibPlist Plist⦄ ⦃env : Env⦄ where
  -- One round of the loop.
  mark_one :
      (id : ℕ) (p : Ptr) (ps : List Ptr) (w : World Plist) (r : RemoteMux)
      → w.remotes p ≡ some r
      → mark_all_dead id (p ∷ ps) w
        ≡ mark_all_dead id ps (record w { remotes = update w.remotes p (some (killed id r)) })
  unfolding mark_all_dead for_each killed read_remote write_remote
  mark_one id p ps w r live = elim (Bool-cases (r.id == id)) [
    | inl hit ↦
        rw
          (live, mark_all_dead, for_each, ◌>>◌, ◌>>=◌, read_remote, hit, write_remote, live, killed)
          refl
    | inr miss ↦
        let same : update w.remotes p (some r) ≡ w.remotes =
          ap (update w.remotes p) (sym live) ∙ update_self w.remotes p in
        rw (killed, miss, same, mark_all_dead, for_each, ◌>>◌, ◌>>=◌, read_remote, live, miss) refl
  ]

  -- The loop ends, it changes the remotes only, and of these those that are listed and have the id.
  abbrev pub Marked : ℕ → List Ptr → World Plist → Type 0
  Marked id ps w =
      (w' : World Plist) × (mark_all_dead id ps w ≡ some (tt, w'))
      × (w' ≡ record w { remotes = w'.remotes })
      × ((q : Ptr)
          → w'.remotes q
            ≡ (if listed ps q then Option.map (killed id) (w.remotes q) else w.remotes q))

  -- The loop of `remote_mark_dead` over any list of live remotes ends without a fault, and marks exactly
  -- the listed remotes with the id as dead; every other remote, and the rest of the state, is as it was.
  pub mark_all_dead-killed :
      (id : ℕ) (ps : List Ptr) (w : World Plist)
      → ((q : Ptr) → listed ps q ≡ true → w.remotes q ≢ none)
      → Marked id ps w
  unfolding mark_all_dead for_each listed
  mark_all_dead-killed id [] w live = (w, refl, refl, λ q. refl)
  mark_all_dead-killed id (p ∷ ps) w live = elim (Option-cases (w.remotes p)) [
    | inl gone ↦ absurd (live p (rw (eq_self p) refl) gone)
    | inr (r, there) ↦
        let w1 : World Plist = record w { remotes = update w.remotes p (some (killed id r)) } in
        let (w', e, same, each) =
          mark_all_dead-killed id ps w1 (live_after id p ps w.remotes r live) in
        (
          w',
          mark_one id p ps w r there ∙ e,
          same,
          λ q. each q ∙ still id w.remotes p q r there (listed ps q),
        )
  ]
