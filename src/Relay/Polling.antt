-- ===== src/Relay/Polling.antt =====
-- A round of `main_loop` polls what is there, and leaves the state sound.
use usbfluxd.Prelude.{ℕ, ◌<◌, ◌≡◌, refl, ◌∙◌, ap, sym, Option, none, some, List, [], ◌∷◌, arith}
use mathlib.Core.Path.{subst}
use usbfluxd.Buffer.Contents.{IsValid}
use usbfluxd.Utils.Collection
use usbfluxd.Utils.Collection.{Ptr}
use usbfluxd.Utils.Collection.Bag.{occurs}
use usbfluxd.Utils.FdList.{FdList, FdOwner, PollFd}
use usbfluxd.Utils.FdList.Polled
use usbfluxd.Utils.FdList.Polled.{polled}
use usbfluxd.System.{LibPlist, Env}
use usbfluxd.World.{World, MuxClient, RemoteMux}
use usbfluxd.Client.Poll.Fds.{Fds, no_client, next_client}
use usbfluxd.Remote.Output.{Version}
use usbfluxd.Remote.Poll.Fds.{RemoteFds, no_remote, next_remote, timeless}
use usbfluxd.Main.Loop.{poll_list}
use usbfluxd.Main.Loop.PollList.{poll_list-polled}
use usbfluxd.Relay.Listed.{Tracks-live, present}
use usbfluxd.Remote.Service.Present.{has_names}
use usbfluxd.Relay.Sound.{Sound, remote_relays}

module _ {Plist : Type 0} where
  live-Fds :
      (w : World Plist) (ps : List Ptr)
      → ((p : Ptr) → 0 < occurs p ps → (c : MuxClient Plist) × (w.clients p ≡ some c))
      → (fds : List (FdOwner × PollFd)) × Fds w ps fds
  unfolding occurs
  live-Fds w [] live = ([], no_client)
  live-Fds w (p ∷ ps) live =
      let (c, e) = live p (ground arith) in
      let (rest, there) = live-Fds w ps (λ x h. live x (ground (arith, h))) in
      (_, next_client p ps c rest e there)

  live-RemoteFds :
      (w : World Plist) (ps : List Ptr)
      → ((p : Ptr) → 0 < occurs p ps → (r : RemoteMux) × (w.remotes p ≡ some r))
      → (fds : List (FdOwner × PollFd)) × RemoteFds w ps fds
  unfolding occurs
  live-RemoteFds w [] live = ([], no_remote)
  live-RemoteFds w (p ∷ ps) live =
      let (r, e) = live p (ground arith) in
      let (rest, there) = live-RemoteFds w ps (λ x h. live x (ground (arith, h))) in
      (_, next_remote p ps r rest e there)

-- Remotes that differ in their times only.
same_time :
    (o : Option RemoteMux) (r : RemoteMux)
    → timeless o ≡ timeless (some r)
    → (r' : RemoteMux) × (o ≡ some r')
      × (record r' { last_active = 0 } ≡ record r { last_active = 0 })
same_time none r e = absurd (ground (arith, e))
same_time (some r') r e = (r', refl, ground (arith, e))

nothing : (o : Option RemoteMux) → timeless o ≡ none → o ≡ none
nothing none e = refl
nothing (some r) e = absurd (ground (arith, e))

timeless-present : (o o' : Option RemoteMux) → timeless o ≡ timeless o' → present o ≡ present o'
unfolding present
timeless-present none none e = refl
timeless-present none (some r) e = absurd (ground (arith, e))
timeless-present (some r) none e = absurd (ground (arith, e))
timeless-present (some r) (some r') e = refl

IsValid-out :
    (r r' : RemoteMux)
    → record r' { last_active = 0 } ≡ record r { last_active = 0 }
    → IsValid r.ob
    → IsValid r'.ob
IsValid-out r r' e v = subst IsValid (ap (λ (m : RemoteMux). m.ob) (sym e)) v

IsValid-in :
    (r r' : RemoteMux)
    → record r' { last_active = 0 } ≡ record r { last_active = 0 }
    → IsValid r.ib
    → IsValid r'.ib
IsValid-in r r' e v = subst IsValid (ap (λ (m : RemoteMux). m.ib) (sym e)) v

module _ {Plist : Type 0} where
  times-Sound :
      (w : World Plist) (f : Ptr → Option RemoteMux)
      → ((q : Ptr) → timeless (f q) ≡ timeless (w.remotes q))
      → Sound w
      → Sound (record w { remotes = f })
  times-Sound w f same s = record {
    forward = λ p q c e to.
        (let (r, there, back) = s.forward p q c e to in
          let (r', here, k) = same_time (f q) r (same q ∙ ap timeless there) in
          (r', here, ap (λ (m : RemoteMux). m.client) k ∙ back));
    back = λ p q r here from.
        (let (r', there, k) = same_time (w.remotes q) r (sym (same q) ∙ ap timeless here) in
          s.back p q r' there (ap (λ (m : RemoteMux). m.client) k ∙ from));
    client_linked = s.client_linked;
    remote_linked = λ q r here up.
        (let (r', there, k) = same_time (w.remotes q) r (sym (same q) ∙ ap timeless here) in
          let (p, to) = s.remote_linked q r' there (ap remote_relays k ∙ up) in
          (p, ap (λ (m : RemoteMux). m.client) (sym k) ∙ to));
    sendable = s.sendable;
    remote_out = λ q r here.
        (let (r', there, k) = same_time (w.remotes q) r (sym (same q) ∙ ap timeless here) in
          IsValid-out r' r (sym k) (s.remote_out q r' there));
    remote_in = λ q r here.
        (let (r', there, k) = same_time (w.remotes q) r (sym (same q) ∙ ap timeless here) in
          IsValid-in r' r (sym k) (s.remote_in q r' there));
    listeners_named = λ q r here.
        (let (r', there, k) = same_time (w.remotes q) r (sym (same q) ∙ ap timeless here) in
          ap has_names (sym k) ∙ s.listeners_named q r' there);
    unused = s.unused;
    unused_remotes = λ q h. nothing (f q) (same q ∙ ap timeless (s.unused_remotes q h));
    clients_listed = s.clients_listed;
    remotes_listed = record {
      valid = s.remotes_listed.valid;
      exact = λ q. s.remotes_listed.exact q ∙ sym (timeless-present (f q) (w.remotes q) (same q));
    };
    clients_free = s.clients_free;
    remotes_free = s.remotes_free;
  }

module _ {Plist : Type 0} ⦃lib : LibPlist Plist⦄ ⦃v : Version⦄ where
  -- In a sound state, a round of `main_loop` makes its list of descriptors without a fault, and the
  -- state is sound afterwards.
  pub poll_list-Sound :
      (env : Env) (listenfd : ℕ) (list : FdList) (w : World Plist)
      → Sound w
      → Polled.IsValid list
      → (list' : FdList) × (w' : World Plist) × (poll_list env listenfd list w ≡ some (list', w'))
        × Polled.IsValid list'
        × Sound w'
  poll_list-Sound env listenfd list w s valid =
      let (cfds, clients) =
        live-Fds w (Collection.elements w.client_list)
          (λ p h. Tracks-live w.client_list w.clients p s.clients_listed h) in
      let (rfds, remotes) =
        live-RemoteFds w (Collection.elements w.remote_list)
          (λ q h. Tracks-live w.remote_list w.remotes q s.remotes_listed h) in
      let (list', w', e, valid', _, k) =
        poll_list-polled env listenfd w cfds rfds list clients remotes valid s.clients_free
          s.remotes_free in
      (
        list',
        w',
        e,
        valid',
        subst Sound (sym k.rest_same) (times-Sound w w'.remotes k.remotes_same s),
      )
