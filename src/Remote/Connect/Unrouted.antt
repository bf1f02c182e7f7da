-- ===== src/Remote/Connect/Unrouted.antt =====
-- The requests of clients for which no usbmuxd can be reached, and where a request goes at all.
use usbfluxd.Prelude.{
  ℕ, ◌<◌, ◌==◌, ◌≡◌, refl, ◌∙◌, ap, ◌&&◌, ◌⊎◌, inl, inr, true, false, none, some, List, [], ◌∷◌,
  ◌++◌, arith, Bool-cases, Option-cases,
}
use usbfluxd.DeviceId.{remote_mux_id}
use usbfluxd.Utils.Collection
use usbfluxd.Utils.Collection.{Ptr}
use usbfluxd.Utils.Collection.Bag.{occurs}
use usbfluxd.System.{LibPlist, Env}
use usbfluxd.World.{World, RemoteMux}
use usbfluxd.World.Monad.{◌>>=◌, ◌>>◌, lock_remotes, primitives}
use usbfluxd.Remote.Events.{is_listen}
use usbfluxd.Remote.Connect.{
  remote_mux_new_with_unix_socket, remote_mux_new_with_host, connect_like, open_remote,
  usbmux_remote_connect,
}
use usbfluxd.Remote.Connect.Routing.{
  Passed, none_passed, passed, Route, to_local, to_host, connect_like-first, connect_like-none,
}

module _ {Plist : Type 0} ⦃lib : LibPlist Plist⦄ ⦃env : Env⦄ where
  -- The remotes of a list are live.
  abbrev pub AllLive : World Plist → List Ptr → Type 0
  AllLive w ps = (q : Ptr) → 0 < occurs q ps → (r : RemoteMux) × (w.remotes q ≡ some r)

  -- The first remote that listens for the id, behind those that do not.
  record Hit (w : World Plist) (id : ℕ) (ps : List Ptr) : Type 0 where
    before : List Ptr
    at : Ptr
    after : List Ptr
    there : RemoteMux
    split : ps ≡ before ++ (at ∷ after)
    skipped : Passed w id before
    live : w.remotes at ≡ some there
    listens : (there.id == id && is_listen there.state) ≡ true

  search : (w : World Plist) (id : ℕ) (ps : List Ptr) → AllLive w ps → Passed w id ps ⊎ Hit w id ps
  unfolding occurs
  search w id [] all = inl none_passed
  search w id (p ∷ ps) all =
      let (r, live) = all p (ground arith) in
      elim (Bool-cases (r.id == id && is_listen r.state)) [
        | inl hit ↦ inr (record {
          before = [];
          at = p;
          after = ps;
          there = r;
          split = refl;
          skipped = none_passed;
          live = live;
          listens = hit;
        })
        | inr miss ↦ elim (search w id ps (λ q h. all q (ground (arith, h)))) [
          | inl rest ↦ inl (passed p ps r live miss rest)
          | inr h ↦ inr (record {
            before = p ∷ h.before;
            at = h.at;
            after = h.after;
            there = h.there;
            split = ap (λ xs. p ∷ xs) h.split;
            skipped = passed p h.before r live miss h.skipped;
            live = h.live;
            listens = h.listens;
          })
        ]
      ]

  no_socket :
      (w : World Plist) (id : ℕ)
      → (id == 0) ≡ true
      → env.unix_fd ≡ none
      → open_remote id w ≡ some (none, w)
  unfolding open_remote remote_mux_new_with_unix_socket
  no_socket w id zero_id e =
      rw (open_remote, ◌>>=◌, zero_id, remote_mux_new_with_unix_socket, e) refl

  open_other :
      (w : World Plist) (id : ℕ)
      → (id == 0) ≡ false
      → open_remote id w ≡ connect_like id (Collection.elements w.remote_list) w
  unfolding open_remote
  open_other w id other = rw (open_remote, ◌>>=◌, other) refl

  no_host : (w : World Plist) (port : ℕ) → remote_mux_new_with_host none port w ≡ some (none, w)
  unfolding remote_mux_new_with_host
  no_host w port = refl

  unreachable :
      (w : World Plist) (host : _) (port : ℕ)
      → env.host_fd host port ≡ none
      → remote_mux_new_with_host (some host) port w ≡ some (none, w)
  unfolding remote_mux_new_with_host
  unreachable w host port e = rw (remote_mux_new_with_host, e) refl

  open_found :
      (w : World Plist) (id : ℕ) (h : Hit w id (Collection.elements w.remote_list))
      → (id == 0) ≡ false
      → (open_remote id w ≡ some (none, w)) ⊎ ((r : RemoteMux) × Route w id r)
  open_found w id h other =
      let goes : open_remote id w ≡ remote_mux_new_with_host h.there.host h.there.port w =
        open_other w id other
        ∙ (rw h.split
            (connect_like-first id h.before h.after h.at w h.there h.skipped h.live h.listens)) in
      elim (Option-cases h.there.host) [
        | inl nameless ↦ inl (
            goes
            ∙ ap (λ o. remote_mux_new_with_host o h.there.port w) nameless
            ∙ no_host w h.there.port)
        | inr (host, named) ↦ elim (Option-cases (env.host_fd host h.there.port)) [
          | inl e ↦ inl (
              goes
              ∙ ap (λ o. remote_mux_new_with_host o h.there.port w) named
              ∙ unreachable w host h.there.port e)
          | inr (fd, e) ↦ inr (
            _,
            to_host fd host h.before h.at h.after h.there other h.split h.skipped h.live h.listens
                named e,
          )
        ]
      ]

  -- Either no remote is opened and nothing changes, or there is a route.
  pub open_remote-Route_or :
      (w : World Plist) (id : ℕ)
      → AllLive w (Collection.elements w.remote_list)
      → (open_remote id w ≡ some (none, w)) ⊎ ((r : RemoteMux) × Route w id r)
  open_remote-Route_or w id all = elim (Bool-cases (id == 0)) [
    | inl zero_id ↦ elim (Option-cases env.unix_fd) [
      | inl e ↦ inl (no_socket w id zero_id e)
      | inr (fd, e) ↦ inr (_, to_local fd zero_id e)
    ]
    | inr other ↦ elim (search w id (Collection.elements w.remote_list) all) [
      | inl missed ↦ inl (
          open_other w id other ∙ connect_like-none id (Collection.elements w.remote_list) w missed)
      | inr h ↦ open_found w id h other
    ]
  ]

  Passed-unlocked :
      (w : World Plist) (id : ℕ) (ps : List Ptr)
      → Passed (record w { remote_list_mutex = true }) id ps
      → Passed w id ps
  Passed-unlocked w id [] none_passed = none_passed
  Passed-unlocked w id (p ∷ ps) (passed _ _ r at miss rest) =
      passed p ps r at miss (Passed-unlocked w id ps rest)

  pub Route-unlocked :
      (w : World Plist) (id : ℕ) (r : RemoteMux)
      → Route (record w { remote_list_mutex = true }) id r
      → Route w id r
  Route-unlocked w id r (to_local fd z e) = to_local fd z e
  Route-unlocked w id r (to_host fd h ps q qs l o i b t hi ho e) =
      to_host fd h ps q qs l o i (Passed-unlocked w id ps b) t hi ho e

  -- Without a route, a request to connect fails and changes nothing.
  pub usbmux_remote_connect-none :
      (device_id tag : ℕ) (req : Plist) (client : Ptr) (w : World Plist)
      → w.remote_list_mutex ≡ false
      → open_remote (remote_mux_id device_id) (record w { remote_list_mutex = true })
        ≡ some (none, record w { remote_list_mutex = true })
      → usbmux_remote_connect device_id tag req client w
        ≡ some (none, record w { remote_list_mutex = false })
  unfolding usbmux_remote_connect primitives
  usbmux_remote_connect-none device_id tag req client w free e =
      rw (usbmux_remote_connect, ◌>>=◌, ◌>>◌, lock_remotes, free, e) refl
