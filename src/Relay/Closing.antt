-- ===== src/Relay/Closing.antt =====
-- The end of a client, of a remote or of both leaves the state sound, and the same of a new client.
use usbfluxd.Prelude.{
  ℕ, ◌==◌, ◌≡◌, refl, ◌∙◌, ap, sym, false, Option, none, some, ◌∷◌, arith, Bool-cases, Option-cases,
  inl, inr,
}
use usbfluxd.Buffer.Contents.{IsValid}
use usbfluxd.Utils.Collection
use usbfluxd.Utils.Collection.{Ptr}
use usbfluxd.System.{LibPlist, Env}
use usbfluxd.World.{World, MuxClient, RemoteMux}
use usbfluxd.World.Monad.{update, ◌>>=◌, ◌>>◌, read_remote, free_remote, primitives}
use usbfluxd.Client.Close.{client_close, client_notify_remote_close}
use usbfluxd.Client.Close.Release.{
  without_client, without_both, client_close-alone, client_close-linked,
}
use usbfluxd.Client.Accept.{new_client, client_accept}
use usbfluxd.Client.Accept.New.{with_client, client_accept-New}
use usbfluxd.Remote.Close.{remote_close}
use usbfluxd.Remote.Dispose.{usbmux_remote_close}
use mathlib.Core.Path.{subst}
use usbfluxd.Relay.Listed.{Tracks-remove, Tracks-add}
use usbfluxd.Relay.Sound.{Sound, relays, at_update, update_there}

pub at_removal :
    {A : Type 0} (f : Ptr → Option A) (p x : Ptr) (b : A)
    → update f p none x ≡ some b
    → ((p == x) ≡ false) × (f x ≡ some b)
at_removal f p x b e = elim (Bool-cases (p == x)) [
  | inl same ↦ absurd (ground (arith, same, e))
  | inr other ↦ (other, ground (arith, other, e))
]

pub still_there :
    {A : Type 0} (f : Ptr → Option A) (p x : Ptr) (b : A)
    → f x ≡ some b
    → (p == x) ≡ false
    → update f p none x ≡ some b
still_there f p x b e other = ground (arith, e, other)

module _ {Plist : Type 0} where
  without_client-Sound :
      (p : Ptr) (c : MuxClient Plist) (w : World Plist)
      → Sound w
      → w.clients p ≡ some c
      → c.remote ≡ none
      → Sound (without_client w p c)
  unfolding without_client
  without_client-Sound p c w s live alone = record {
    forward = λ x q d e linked. s.forward x q d (at_removal w.clients p x d e).1 linked;
    back = λ x q r there linked.
        (let (d, e, to) = s.back x q r there linked in
          elim (Bool-cases (p == x)) [
            | inl same ↦ absurd (ground (arith, same, e, live, to, alone))
            | inr other ↦ (d, still_there w.clients p x d e other, to)
          ]);
    client_linked = λ x d e up. s.client_linked x d (at_removal w.clients p x d e).1 up;
    remote_linked = s.remote_linked;
    sendable = λ x d e down. s.sendable x d (at_removal w.clients p x d e).1 down;
    remote_out = s.remote_out;
    remote_in = s.remote_in;
    listeners_named = s.listeners_named;
    unused = λ x h. ground (arith, s.unused x h);
    unused_remotes = s.unused_remotes;
    clients_listed = Tracks-remove w.client_list w.clients p s.clients_listed;
    remotes_listed = s.remotes_listed;
    clients_free = refl;
    remotes_free = s.remotes_free;
  }

  without_both-Sound :
      (p q : Ptr) (c : MuxClient Plist) (r : RemoteMux) (w : World Plist)
      → Sound w
      → w.clients p ≡ some c
      → c.remote ≡ some q
      → w.remotes q ≡ some r
      → r.client ≡ some p
      → Sound (without_both w p c q r)
  unfolding without_both
  without_both-Sound p q c r w s live linked there back = record {
    forward = λ x y d e to.
        (let (other, old) = at_removal w.clients p x d e in
          let (r', here, from) = s.forward x y d old to in
          elim (Bool-cases (q == y)) [
            | inl same ↦ absurd (ground (arith, same, here, there, back, from, other))
            | inr differs ↦ (r', still_there w.remotes q y r' here differs, from)
          ]);
    back = λ x y r' here from.
        (let (differs, old) = at_removal w.remotes q y r' here in
          let (d, e, to) = s.back x y r' old from in
          elim (Bool-cases (p == x)) [
            | inl same ↦ absurd (ground (arith, same, e, live, to, linked, differs))
            | inr other ↦ (d, still_there w.clients p x d e other, to)
          ]);
    client_linked = λ x d e up. s.client_linked x d (at_removal w.clients p x d e).1 up;
    remote_linked = λ y r' e up. s.remote_linked y r' (at_removal w.remotes q y r' e).1 up;
    sendable = λ x d e down. s.sendable x d (at_removal w.clients p x d e).1 down;
    remote_out = λ y r' e. s.remote_out y r' (at_removal w.remotes q y r' e).1;
    remote_in = λ y r' e. s.remote_in y r' (at_removal w.remotes q y r' e).1;
    listeners_named = λ y r' e. s.listeners_named y r' (at_removal w.remotes q y r' e).1;
    unused = λ x h. ground (arith, s.unused x h);
    unused_remotes = λ x h. ground (arith, s.unused_remotes x h);
    clients_listed = Tracks-remove w.client_list w.clients p s.clients_listed;
    remotes_listed = Tracks-remove w.remote_list w.remotes q s.remotes_listed;
    clients_free = refl;
    remotes_free = refl;
  }

  -- A remote without a client is closed.
  abbrev without_remote : World Plist → Ptr → RemoteMux → World Plist
  without_remote w q r = record w {
    remotes = update w.remotes q none;
    remote_list = Collection.remove w.remote_list q;
    remote_list_mutex = false;
    closed = r.fd ∷ w.closed;
  }

  without_remote-Sound :
      (q : Ptr) (r : RemoteMux) (w : World Plist)
      → Sound w
      → w.remotes q ≡ some r
      → r.client ≡ none
      → Sound (without_remote w q r)
  without_remote-Sound q r w s there alone = record {
    forward = λ x y d e to.
        (let (r', here, from) = s.forward x y d e to in
          elim (Bool-cases (q == y)) [
            | inl same ↦ absurd (ground (arith, same, here, there, alone, from))
            | inr differs ↦ (r', still_there w.remotes q y r' here differs, from)
          ]);
    back = λ x y r' here from. s.back x y r' (at_removal w.remotes q y r' here).1 from;
    client_linked = s.client_linked;
    remote_linked = λ y r' e up. s.remote_linked y r' (at_removal w.remotes q y r' e).1 up;
    sendable = s.sendable;
    remote_out = λ y r' e. s.remote_out y r' (at_removal w.remotes q y r' e).1;
    remote_in = λ y r' e. s.remote_in y r' (at_removal w.remotes q y r' e).1;
    listeners_named = λ y r' e. s.listeners_named y r' (at_removal w.remotes q y r' e).1;
    unused = s.unused;
    unused_remotes = λ x h. ground (arith, s.unused_remotes x h);
    clients_listed = s.clients_listed;
    remotes_listed = Tracks-remove w.remote_list w.remotes q s.remotes_listed;
    clients_free = s.clients_free;
    remotes_free = refl;
  }

  -- The result is a sound state, not a fault.
  abbrev pub GoesOn : {A : Type 0} → Option (A × World Plist) → Type 0
  GoesOn {A} res = (a : A) × (w' : World Plist) × (res ≡ some (a, w')) × Sound w'

  pub client_close-Sound :
      (p : Ptr) (c : MuxClient Plist) (w : World Plist)
      → Sound w
      → w.clients p ≡ some c
      → GoesOn (client_close p w)
  client_close-Sound p c w s live = elim (Option-cases c.remote) [
    | inl alone ↦ (
      tt,
      without_client w p c,
      client_close-alone p w c live alone s.clients_free,
      without_client-Sound p c w s live alone,
    )
    | inr (q, linked) ↦
        let (r, there, back) = s.forward p q c live linked in
        (
          tt,
          without_both w p c q r,
          client_close-linked p q w c r live linked there s.clients_free s.remotes_free,
          without_both-Sound p q c r w s live linked there back,
        )
  ]

module _ {Plist : Type 0} ⦃lib : LibPlist Plist⦄ ⦃env : Env⦄ where
  close_alone :
      (q : Ptr) (r : RemoteMux) (w : World Plist)
      → w.remotes q ≡ some r
      → r.client ≡ none
      → w.remote_list_mutex ≡ false
      → usbmux_remote_close q w ≡ some (tt, without_remote w q r)
  unfolding usbmux_remote_close remote_close primitives
  close_alone q r w there alone free =
      rw
        (
          usbmux_remote_close, ◌>>=◌, ◌>>◌, read_remote, there, alone, free, remote_close,
          read_remote, there, free_remote, there,
        )
        refl

  close_client :
      (q p : Ptr) (r : RemoteMux) (w : World Plist)
      → w.remotes q ≡ some r
      → r.client ≡ some p
      → usbmux_remote_close q w ≡ client_close p w
  unfolding usbmux_remote_close client_notify_remote_close primitives
  close_client q p r w there linked =
      rw (usbmux_remote_close, ◌>>=◌, read_remote, there, linked) refl

  pub usbmux_remote_close-Sound :
      (q : Ptr) (r : RemoteMux) (w : World Plist)
      → Sound w
      → w.remotes q ≡ some r
      → GoesOn (usbmux_remote_close q w)
  usbmux_remote_close-Sound q r w s there = elim (Option-cases r.client) [
    | inl alone ↦ (
      tt,
      without_remote w q r,
      close_alone q r w there alone s.remotes_free,
      without_remote-Sound q r w s there alone,
    )
    | inr (p, linked) ↦
        let (c, live, to) = s.back p q r there linked in
        let (a, w', e, s') = client_close-Sound p c w s live in
        (tt, w', close_client q p r w there linked ∙ e, s')
  ]

module _ {Plist : Type 0} ⦃env : Env⦄ where
  with_client-Sound :
      (cfd : ℕ) (w : World Plist)
      → Sound w
      → IsValid (new_client {Plist = Plist} cfd w.client_number).ob
      → Sound (with_client w cfd)
  unfolding with_client new_client
  with_client-Sound cfd w s valid =
      let new : MuxClient Plist = new_client cfd w.client_number in
      record {
        forward = λ x q d e linked. elim (at_update w.clients w.next x new d e) [
          | inl (same, is_new) ↦ absurd (ground (arith, is_new, linked))
          | inr old ↦ s.forward x q d old linked
        ];
        back = λ x q r there linked.
            (let (d, e, to) = s.back x q r there linked in
              elim (Bool-cases (w.next == x)) [
                | inl same ↦ absurd (ground (arith, same, e, s.unused w.next))
                | inr other ↦ (d, update_there w.clients w.next x new d e other, to)
              ]);
        client_linked = λ x d e up. elim (at_update w.clients w.next x new d e) [
          | inl (same, is_new) ↦ absurd (ground (arith, up, ap relays is_new))
          | inr old ↦ s.client_linked x d old up
        ];
        remote_linked = s.remote_linked;
        sendable = λ x d e down. elim (at_update w.clients w.next x new d e) [
          | inl (same, is_new) ↦ subst (λ (m : MuxClient Plist). IsValid m.ob) (sym is_new) valid
          | inr old ↦ s.sendable x d old down
        ];
        remote_out = s.remote_out;
        remote_in = s.remote_in;
        listeners_named = s.listeners_named;
        unused = λ x h. ground (arith, s.unused x, h);
        unused_remotes = λ x h. s.unused_remotes x (omega (arith, h));
        clients_listed =
            Tracks-add w.client_list w.clients w.next new s.clients_listed
              (s.unused w.next (omega arith));
        remotes_listed = s.remotes_listed;
        clients_free = refl;
        remotes_free = s.remotes_free;
      }

  pub client_accept-Sound : (w : World Plist) → Sound w → GoesOn (client_accept w)
  client_accept-Sound w s = elim (client_accept-New w s.clients_free) [
    | inl (failed, e) ↦ (none, w, e, s)
    | inr (cfd, got, e, valid, _, _, _, _) ↦
        (some cfd, with_client w cfd, e, with_client-Sound cfd w s valid)
  ]
