-- ===== src/Tests/Rounds.antt =====
-- The theorems on collections and on rounds of the main loop, applied.
use usbfluxd.Prelude.{◌≡◌, refl, ap, sym, none, some, List, [], ◌∷◌, arith, inl, inr}
use usbfluxd.Utils.Collection.{Ptr, init, elements}
use usbfluxd.Utils.Collection.Capacity.{IsValid, init-IsValid}
use usbfluxd.Utils.Collection.Bag as Bag
use usbfluxd.Utils.Collection.Bag.{Op, adds, removes, occurs, bag_run, elements-run}
use usbfluxd.Utils.FdList.{FdList, fdlist_create}
use usbfluxd.Utils.FdList.Polled
use usbfluxd.Utils.FdList.Polled.{fdlist_create-IsValid}
use mathlib.Core.Path.{subst}
use usbfluxd.Buffer.Contents
use usbfluxd.Text.{cstr}
use usbfluxd.System.{Env, pollin_only, pollout_only}
use usbfluxd.World.{World, MuxClient, RemoteMux}
use usbfluxd.Relay.Listed.{Tracks-init, Tracks-add}
use usbfluxd.Remote.Service.Present.{has_names}
use usbfluxd.Relay.Sound.{Sound, at_update}
use usbfluxd.Relay.Events.{
  Event, accepts, asks, answers, appears, client_ready, remote_ready, rounds,
}
use usbfluxd.Relay.Sending.{ShortResults}
use usbfluxd.Relay.Appearing.{ShortListen}
use usbfluxd.Relay.Running.{rounds-Sound}
use usbfluxd.Tests.Node.{Node, dict, node_lib}
use usbfluxd.Tests.Clients.{calm, version, joined, holding-IsValid_out}
use usbfluxd.Tests.Relay.{peer, linked}

abbrev calls : List Op
calls = adds 7 ∷ adds 7 ∷ removes 7 ∷ removes 9 ∷ []

elements-run_example :
    IsValid (Bag.run calls init)
    × ((x : Ptr)
        → occurs x (elements (Bag.run calls init))
          ≡ bag_run calls (λ y. occurs y (elements init)) x)
elements-run_example = elements-run calls init init-IsValid

is_joined : (p : Ptr) (c : MuxClient Node) → linked.clients p ≡ some c → (0 ≡ p) × (c ≡ joined)
is_joined p c e = elim (at_update (λ x. none) 0 p joined c e) [
  | inl both ↦ both
  | inr old ↦ absurd (ground (arith, old))
]

is_peer : (q : Ptr) (r : RemoteMux) → linked.remotes q ≡ some r → (1 ≡ q) × (r ≡ peer)
is_peer q r e = elim (at_update (λ x. none) 1 q peer r e) [
  | inl both ↦ both
  | inr old ↦ absurd (ground (arith, old))
]

linked-Sound : Sound linked
linked-Sound = record {
  forward = λ p q c e to.
      (let (at, same) = is_joined p c e in
        (peer, ground (arith, ap (λ (m : MuxClient Node). m.remote) same, to), ap some at));
  back = λ p q r e to.
      (let (at, same) = is_peer q r e in
        (joined, ground (arith, ap (λ (m : RemoteMux). m.client) same, to), ap some at));
  client_linked = λ p c e up. (1, ap (λ (m : MuxClient Node). m.remote) (is_joined p c e).1);
  remote_linked = λ q r e up. (0, ap (λ (m : RemoteMux). m.client) (is_peer q r e).1);
  sendable = λ p c e down.
      subst (λ (m : MuxClient Node). Contents.IsValid m.ob) (sym (is_joined p c e).1)
        holding-IsValid_out;
  remote_out = λ q r e.
      subst (λ (m : RemoteMux). Contents.IsValid m.ob) (sym (is_peer q r e).1) holding-IsValid_out;
  remote_in = λ q r e.
      subst (λ (m : RemoteMux). Contents.IsValid m.ib) (sym (is_peer q r e).1) holding-IsValid_out;
  listeners_named = λ q r e. ap has_names (is_peer q r e).1;
  unused = λ p h. ground (arith, h);
  unused_remotes = λ q h. ground (arith, h);
  clients_listed = Tracks-add init (λ p. none) 0 joined Tracks-init refl;
  remotes_listed = Tracks-add init (λ p. none) 1 peer Tracks-init refl;
  clients_free = refl;
  remotes_free = refl;
}

listen-short : ShortListen Node
listen-short = record { listen = λ xml e. ground (arith, e) }

results-short : ShortResults Node
results-short = record { short = λ n xml e. ground (arith, e) }

-- The client and its remote copy to each other, another client comes, the remote hangs up, an
-- instance is added, and the other client asks for a device and is answered.
abbrev two_rounds : List (Env × List (Env × Event Node))
two_rounds =
    (
      calm,
      (calm, client_ready 0 pollin_only)
          ∷ (calm, remote_ready 1 pollin_only)
          ∷ (calm, accepts)
          ∷ [],
    )
    ∷ (
      calm,
      (record calm { incoming = none }, remote_ready 1 pollin_only)
          ∷ (calm, client_ready 0 pollout_only)
          ∷ (calm, appears (cstr "x") (cstr "b") 5000)
          ∷ (calm, asks 2 4 7 dict)
          ∷ (calm, answers 4 0)
          ∷ [],
    )
    ∷ []

rounds-Sound_example :
    (list' : FdList) × (w' : World Node) × (rounds 3 two_rounds fdlist_create linked
      ≡ some (list', w'))
    × Polled.IsValid list'
    × Sound w'
rounds-Sound_example =
    rounds-Sound 3 two_rounds fdlist_create linked results-short listen-short linked-Sound
      fdlist_create-IsValid.0
