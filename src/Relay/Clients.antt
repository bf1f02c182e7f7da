-- ===== src/Relay/Clients.antt =====
-- Each event of a client leaves the state sound.
use usbfluxd.Prelude.{
  ℕ, ◌==◌, ◌≡◌, ◌≢◌, refl, ◌∙◌, ap, sym, true, false, Option, some, arith, Bool-cases, inl, inr,
}
use usbfluxd.Buffer.{Buffer}
use usbfluxd.Buffer.Contents.{IsValid}
use usbfluxd.Utils.Collection.{Ptr}
use usbfluxd.System.{LibPlist, Env, Events}
use usbfluxd.World.{World, MuxClient, RemoteMux}
use usbfluxd.Client.Events.{is_connected, is_connecting2}
use usbfluxd.Client.Process.{process_send, process_client}
use usbfluxd.Client.Process.Sending as Sending
use usbfluxd.Client.Process.Dispatch.{
  process_client-idle, process_client-sends, process_send-nothing,
}
use usbfluxd.Client.Process.Sending.{process_send_lem, Sent}
use usbfluxd.Client.Process.Relaying.{Linked}
use usbfluxd.Client.Process.Relaying.Up as Up
use usbfluxd.Client.Process.Relaying.Up.{process_client-up}
use usbfluxd.Client.Process.Relaying.Down as Down
use usbfluxd.Client.Process.Relaying.Down.{process_client-down}
use usbfluxd.Remote.Output.{Version}
use usbfluxd.Relay.Sound.{Sound, KeepsClient, relays, store_client-Sound, store_remote-Sound}
use usbfluxd.Relay.Events.{relays_client_event}
use usbfluxd.Relay.Closing.{GoesOn, client_close-Sound}

pub emptied : (b : Buffer) → IsValid b → IsValid (record b { size = 0 })
emptied b v = record {
  block = v.block;
  stored = v.stored;
  sized = v.sized;
  fits = omega arith;
  small = v.small;
}

module _ {Plist : Type 0} where
  -- A result that is known to be another one.
  pub same_result : {A : Type 0} {r r' : Option (A × World Plist)} → r ≡ r' → GoesOn r' → GoesOn r
  same_result e (a, w', e', s) = (a, w', e ∙ e', s)

  emptied-KeepsClient : (c : MuxClient Plist) → IsValid c.ob → KeepsClient c (Sending.emptied c)
  emptied-KeepsClient c v = record {
    same_remote = refl;
    no_more = λ up. up;
    valid = λ down. emptied c.ob v;
  }

  joined-KeepsClient :
      (c : MuxClient Plist) → is_connecting2 c.state ≡ true → KeepsClient c (Sending.joined c)
  joined-KeepsClient c soon = record {
    same_remote = refl;
    no_more = λ up. ground (arith, soon);
    valid = λ down. absurd (ground (arith, down));
  }

  Sent-KeepsClient : ⦃env : Env⦄ → (n : ℕ) (c c' : MuxClient Plist) → Sent n c c' → KeepsClient c c'
  Sent-KeepsClient n c c' s = record {
    same_remote = ap (λ (m : MuxClient Plist). m.remote) s.same;
    no_more = λ up. ap relays (sym s.same) ∙ up;
    valid = λ down. s.valid;
  }

module _ {Plist : Type 0} ⦃env : Env⦄ where
  -- A client in CLIENT_CONNECTING2 has its remote.
  all_sent-Sound :
      (p : Ptr) (c : MuxClient Plist) (w : World Plist) (res : Option (Unit {0} × World Plist))
      → Sound w
      → w.clients p ≡ some c
      → IsValid c.ob
      → Sending.AllSent p w c res
      → GoesOn res
  all_sent-Sound p c w res s live valid (Sending.goes_on _ e) =
      (tt, _, e, store_client-Sound p c _ w s live (emptied-KeepsClient c valid))
  all_sent-Sound p c w res s live valid (Sending.connects q r soon _ _ e) =
      (tt, _, e, store_client-Sound p c _ w s live (joined-KeepsClient c soon))
  all_sent-Sound p c w res s live valid (Sending.no_remote soon alone _) =
      (let (q, to) = s.client_linked p c live (ground (arith, soon)) in
        absurd (ground (arith, alone, to)))
  all_sent-Sound p c w res s live valid (Sending.freed_remote q soon to gone _) =
      (let (r, there, _) = s.forward p q c live to in absurd (ground (arith, gone, there)))

  process_send-Sound :
      (p : Ptr) (c : MuxClient Plist) (w : World Plist)
      → Sound w
      → w.clients p ≡ some c
      → is_connected c.state ≡ false
      → GoesOn (process_send p w)
  process_send-Sound p c w s live down =
      let valid : IsValid c.ob = s.sendable p c live down in
      elim (Bool-cases (c.ob.size == 0)) [
        | inl empty ↦ (
          tt,
          _,
          process_send-nothing p w c live empty,
          store_client-Sound p c _ w s live
              (record { same_remote = refl; no_more = λ up. up; valid = λ d. valid }),
        )
        | inr busy ↦
            let some_left : c.ob.size ≢ 0 = λ e. ground (arith, busy, e) in
            elim (process_send_lem p w c live valid some_left) [
              | inl (_, e) ↦ same_result e (client_close-Sound p c w s live)
              | inr (inl (_, e)) ↦ same_result e (client_close-Sound p c w s live)
              | inr (inr (inl (_, k))) ↦ all_sent-Sound p c w _ s live valid k
              | inr (inr (inr (n, c', _, _, _, e, k))) ↦
                  (tt, _, e, store_client-Sound p c c' w s live (Sent-KeepsClient n c c' k))
            ]
      ]

module _ {Plist : Type 0} ⦃lib : LibPlist Plist⦄ ⦃env : Env⦄ ⦃v : Version⦄ where
  up-Sound :
      (p q : Ptr) (c : MuxClient Plist) (r : RemoteMux) (w : World Plist)
      (res : Option (Unit {0} × World Plist))
      → Sound w
      → Linked p q w c r
      → Up.UpOutcome p q w c r res
      → GoesOn res
  up-Sound p q c r w res s l (Up.full _ e) = (tt, w, e, s)
  up-Sound p q c r w res s l (Up.ended _ e) = same_result e (client_close-Sound p c w s l.live)
  up-Sound p q c r w res s l (Up.taken bytes ob _ _ valid _ e) =
      let s1 = store_client-Sound p c _ w s l.live (record {
        same_remote = refl;
        no_more = λ up. up;
        valid = λ down. absurd (ground (arith, down, l.connected));
      }) in
      (
        tt,
        _,
        e,
        store_remote-Sound q r _ _ s1 l.there (record {
          same_client = refl;
          same_names = refl;
          no_more = λ up. up;
          valid_out = valid;
          valid_in = s.remote_in q r l.there;
        }),
      )

  down-Sound :
      (p q : Ptr) (c : MuxClient Plist) (r : RemoteMux) (w : World Plist)
      (res : Option (Unit {0} × World Plist))
      → Sound w
      → Linked p q w c r
      → Down.DownOutcome p q w c r res
      → GoesOn res
  down-Sound p q c r w res s l (Down.nothing_there _ e) = (tt, w, e, s)
  down-Sound p q c r w res s l (Down.refused _ e) =
      same_result e (client_close-Sound p c w s l.live)
  down-Sound p q c r w res s l (Down.all_out _ _ e) =
      let s1 = store_client-Sound p c _ w s l.live (record {
        same_remote = refl;
        no_more = λ up. up;
        valid = λ down. absurd (ground (arith, down, l.connected));
      }) in
      (
        tt,
        _,
        e,
        store_remote-Sound q r _ _ s1 l.there (record {
          same_client = refl;
          same_names = refl;
          no_more = λ up. up;
          valid_out = s.remote_out q r l.there;
          valid_in = emptied r.ib (s.remote_in q r l.there);
        }),
      )
  down-Sound p q c r w res s l (Down.part_out n ib _ _ _ valid _ e) = (
    tt,
    _,
    e,
    store_remote-Sound q r _ w s l.there (record {
      same_client = refl;
      same_names = refl;
      no_more = λ up. up;
      valid_out = s.remote_out q r l.there;
      valid_in = valid;
    }),
  )

  -- A connected client has its remote.
  connected-Linked :
      (p : Ptr) (c : MuxClient Plist) (w : World Plist)
      → Sound w
      → w.clients p ≡ some c
      → is_connected c.state ≡ true
      → (q : Ptr) × (r : RemoteMux) × Linked p q w c r
  connected-Linked p c w s live up =
      let (q, to) = s.client_linked p c live (ground (arith, up)) in
      let (r, there, back) = s.forward p q c live to in
      (q, r, record { live = live; there = there; to_remote = to; connected = up })

  connected-Sound :
      (p : Ptr) (c : MuxClient Plist) (events : Events) (w : World Plist)
      → Sound w
      → w.clients p ≡ some c
      → is_connected c.state ≡ true
      → GoesOn (process_client p events w)
  connected-Sound p c events w s live up =
      let (q, r, l) = connected-Linked p c w s live up in
      elim (Bool-cases events.pollin) [
        | inl in_ ↦
            up-Sound p q c r w _ s l
              (process_client-up p q w c r events l (s.remote_out q r l.there) in_)
        | inr no_in ↦ elim (Bool-cases events.pollout) [
          | inl out ↦
              down-Sound p q c r w _ s l
                (process_client-down p q w c r events l (s.remote_in q r l.there) no_in out)
          | inr no_out ↦ (tt, w, process_client-idle p w c events live no_in no_out, s)
        ]
      ]

  pub process_client-Sound :
      (p : Ptr) (c : MuxClient Plist) (events : Events) (w : World Plist)
      → Sound w
      → w.clients p ≡ some c
      → relays_client_event c events ≡ true
      → GoesOn (process_client p events w)
  unfolding relays_client_event
  process_client-Sound p c events w s live relayed = elim (Bool-cases (is_connected c.state)) [
    | inl up ↦ connected-Sound p c events w s live up
    | inr down ↦
        let no_in : events.pollin ≡ false = ground (arith, relayed, down) in
        elim (Bool-cases events.pollout) [
          | inl out ↦
              same_result (process_client-sends p w c events live down no_in out)
                (process_send-Sound p c w s live down)
          | inr no_out ↦ (tt, w, process_client-idle p w c events live no_in no_out, s)
        ]
  ]
