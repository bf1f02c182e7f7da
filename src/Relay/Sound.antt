-- ===== src/Relay/Sound.antt =====
-- The state between two events: the pointers between clients and remotes, and the buffers.
use usbfluxd.Prelude.{
  ◌≤◌, ◌==◌, ◌≡◌, ◌∙◌, ap, sym, ◌⊎◌, ◌||◌, Bool, true, false, Option, none, some, arith, Bool-cases,
  inl, inr,
}
use mathlib.Core.Path.{subst}
use usbfluxd.Buffer.Contents.{IsValid}
use usbfluxd.Utils.Collection.{Ptr}
use usbfluxd.World.{World, MuxClient, RemoteMux}
use usbfluxd.World.Monad.{update}
use usbfluxd.Relay.Listed.{Tracks, Tracks-store}
use usbfluxd.Client.Events.{is_connected, is_connecting2}
use usbfluxd.Remote.Events as RemoteEvents
use usbfluxd.Remote.Service.Present.{has_names}

-- The states in which a client, or a remote, must have the other.
abbrev pub relays : {Plist : Type 0} → MuxClient Plist → Bool
relays c = is_connected c.state || is_connecting2 c.state

abbrev pub remote_relays : RemoteMux → Bool
remote_relays r =
    RemoteEvents.is_connected r.state
    || RemoteEvents.is_connecting2 r.state
    || RemoteEvents.is_connecting1 r.state

-- What the code relies on: a client and its remote point to each other and both are there, a connected
-- one has the other, the lists hold those that are there, each once, remotes that listen have their
-- names, the buffers are within their memory, addresses from `next` on are unused, and no thread holds a
-- mutex.
pub record Sound {Plist : Type 0} (w : World Plist) : Type 0 where
  pub forward :
      (p q : Ptr) (c : MuxClient Plist)
      → w.clients p ≡ some c
      → c.remote ≡ some q
      → (r : RemoteMux) × (w.remotes q ≡ some r) × (r.client ≡ some p)
  pub back :
      (p q : Ptr) (r : RemoteMux)
      → w.remotes q ≡ some r
      → r.client ≡ some p
      → (c : MuxClient Plist) × (w.clients p ≡ some c) × (c.remote ≡ some q)
  pub client_linked :
      (p : Ptr) (c : MuxClient Plist)
      → w.clients p ≡ some c
      → relays c ≡ true
      → (q : Ptr) × (c.remote ≡ some q)
  pub remote_linked :
      (q : Ptr) (r : RemoteMux)
      → w.remotes q ≡ some r
      → remote_relays r ≡ true
      → (p : Ptr) × (r.client ≡ some p)
  pub sendable :
      (p : Ptr) (c : MuxClient Plist)
      → w.clients p ≡ some c
      → is_connected c.state ≡ false
      → IsValid c.ob
  pub remote_out : (q : Ptr) (r : RemoteMux) → w.remotes q ≡ some r → IsValid r.ob
  pub remote_in : (q : Ptr) (r : RemoteMux) → w.remotes q ≡ some r → IsValid r.ib
  pub listeners_named : (q : Ptr) (r : RemoteMux) → w.remotes q ≡ some r → has_names r ≡ true
  pub unused : (p : Ptr) → w.next ≤ p → w.clients p ≡ none
  pub unused_remotes : (q : Ptr) → w.next ≤ q → w.remotes q ≡ none
  pub clients_listed : Tracks w.client_list w.clients
  pub remotes_listed : Tracks w.remote_list w.remotes
  pub clients_free : w.client_list_mutex ≡ false
  pub remotes_free : w.remote_list_mutex ≡ false

-- What is behind a pointer after an update: the new value, or the old one of another pointer.
pub at_update :
    {A : Type 0} (f : Ptr → Option A) (p x : Ptr) (a b : A)
    → update f p (some a) x ≡ some b
    → ((p ≡ x) × (b ≡ a)) ⊎ (f x ≡ some b)
at_update f p x a b e = elim (Bool-cases (p == x)) [
  | inl same ↦ inl (ground (arith, same), ground (arith, same, e))
  | inr other ↦ inr (ground (arith, other, e))
]

pub update_here :
    {A : Type 0} (f : Ptr → Option A) (p : Ptr) (a : A) → update f p (some a) p ≡ some a
update_here f p a = ground arith

pub update_there :
    {A : Type 0} (f : Ptr → Option A) (p x : Ptr) (a b : A)
    → f x ≡ some b
    → (p == x) ≡ false
    → update f p (some a) x ≡ some b
update_there f p x a b e other = ground (arith, e, other)

-- A client that keeps its remote, and does not begin to relay.
pub record KeepsClient {Plist : Type 0} (c c' : MuxClient Plist) : Type 0 where
  pub same_remote : c'.remote ≡ c.remote
  pub no_more : relays c' ≡ true → relays c ≡ true
  pub valid : is_connected c'.state ≡ false → IsValid c'.ob

pub record KeepsRemote (r r' : RemoteMux) : Type 0 where
  pub same_client : r'.client ≡ r.client
  pub same_names : has_names r' ≡ has_names r
  pub no_more : remote_relays r' ≡ true → remote_relays r ≡ true
  pub valid_out : IsValid r'.ob
  pub valid_in : IsValid r'.ib

module _ {Plist : Type 0} where
  -- A client that keeps its remote, and relays only if it has one.
  pub store_linked_client-Sound :
      (p : Ptr) (c c' : MuxClient Plist) (w : World Plist)
      → Sound w
      → w.clients p ≡ some c
      → c'.remote ≡ c.remote
      → (relays c' ≡ true → (q : Ptr) × (c.remote ≡ some q))
      → (is_connected c'.state ≡ false → IsValid c'.ob)
      → Sound (record w { clients = update w.clients p (some c') })
  store_linked_client-Sound p c c' w s live same_remote has valid = record {
    forward = λ x q d e linked. elim (at_update w.clients p x c' d e) [
      | inl (same, is_new) ↦
          (let (r, there, back) =
              s.forward p q c live (ground (arith, is_new, linked, same_remote)) in
            (r, there, back ∙ ap some same))
      | inr old ↦ s.forward x q d old linked
    ];
    back = λ x q r there linked. elim (Bool-cases (p == x)) [
      | inl same ↦
          (let (d, e, to) = s.back x q r there linked in
            let is_c : d ≡ c = ground (arith, same, e, live) in
            (
              c',
              ground (arith, same),
              same_remote ∙ ap (λ (m : MuxClient Plist). m.remote) (sym is_c) ∙ to,
            ))
      | inr other ↦
          (let (d, e, to) = s.back x q r there linked in
            (d, update_there w.clients p x c' d e other, to))
    ];
    client_linked = λ x d e up. elim (at_update w.clients p x c' d e) [
      | inl (same, is_new) ↦
          (let (q, to) = has (ap relays (sym is_new) ∙ up) in
            (q, ground (arith, is_new, same_remote, to)))
      | inr old ↦ s.client_linked x d old up
    ];
    remote_linked = s.remote_linked;
    sendable = λ x d e down. elim (at_update w.clients p x c' d e) [
      | inl (same, is_new) ↦
          subst (λ (m : MuxClient Plist). IsValid m.ob) (sym is_new)
            (valid (ap (λ (m : MuxClient Plist). is_connected m.state) (sym is_new) ∙ down))
      | inr old ↦ s.sendable x d old down
    ];
    remote_out = s.remote_out;
    remote_in = s.remote_in;
    listeners_named = s.listeners_named;
    unused = λ x h. ground (arith, s.unused x h, live);
    unused_remotes = s.unused_remotes;
    clients_listed = Tracks-store w.client_list w.clients p c c' s.clients_listed live;
    remotes_listed = s.remotes_listed;
    clients_free = s.clients_free;
    remotes_free = s.remotes_free;
  }

  pub store_client-Sound :
      (p : Ptr) (c c' : MuxClient Plist) (w : World Plist)
      → Sound w
      → w.clients p ≡ some c
      → KeepsClient c c'
      → Sound (record w { clients = update w.clients p (some c') })
  store_client-Sound p c c' w s live k =
      store_linked_client-Sound p c c' w s live k.same_remote
        (λ up. s.client_linked p c live (k.no_more up)) k.valid

  pub store_remote-Sound :
      (q : Ptr) (r r' : RemoteMux) (w : World Plist)
      → Sound w
      → w.remotes q ≡ some r
      → KeepsRemote r r'
      → Sound (record w { remotes = update w.remotes q (some r') })
  store_remote-Sound q r r' w s live k = record {
    forward = λ p x c e linked. elim (Bool-cases (q == x)) [
      | inl same ↦
          (let (d, there, back) = s.forward p x c e linked in
            let is_r : d ≡ r = ground (arith, same, there, live) in
            (
              r',
              ground (arith, same),
              k.same_client ∙ ap (λ (m : RemoteMux). m.client) (sym is_r) ∙ back,
            ))
      | inr other ↦
          (let (d, there, back) = s.forward p x c e linked in
            (d, update_there w.remotes q x r' d there other, back))
    ];
    back = λ p x d e linked. elim (at_update w.remotes q x r' d e) [
      | inl (same, is_new) ↦
          (let (c, there, to) = s.back p q r live (ground (arith, is_new, linked, k.same_client)) in
            (c, there, to ∙ ap some same))
      | inr old ↦ s.back p x d old linked
    ];
    client_linked = s.client_linked;
    remote_linked = λ x d e up. elim (at_update w.remotes q x r' d e) [
      | inl (same, is_new) ↦
          (let (p, to) =
              s.remote_linked q r live (k.no_more (ap remote_relays (sym is_new) ∙ up)) in
            (p, ground (arith, is_new, k.same_client, to)))
      | inr old ↦ s.remote_linked x d old up
    ];
    sendable = s.sendable;
    remote_out = λ x d e. elim (at_update w.remotes q x r' d e) [
      | inl (same, is_new) ↦ subst (λ (m : RemoteMux). IsValid m.ob) (sym is_new) k.valid_out
      | inr old ↦ s.remote_out x d old
    ];
    remote_in = λ x d e. elim (at_update w.remotes q x r' d e) [
      | inl (same, is_new) ↦ subst (λ (m : RemoteMux). IsValid m.ib) (sym is_new) k.valid_in
      | inr old ↦ s.remote_in x d old
    ];
    listeners_named = λ x d e. elim (at_update w.remotes q x r' d e) [
      | inl (same, is_new) ↦ ap has_names is_new ∙ k.same_names ∙ s.listeners_named q r live
      | inr old ↦ s.listeners_named x d old
    ];
    unused = s.unused;
    unused_remotes = λ x h. ground (arith, s.unused_remotes x h, live);
    clients_listed = s.clients_listed;
    remotes_listed = Tracks-store w.remote_list w.remotes q r r' s.remotes_listed live;
    clients_free = s.clients_free;
    remotes_free = s.remotes_free;
  }
