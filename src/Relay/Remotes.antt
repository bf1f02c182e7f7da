-- ===== src/Relay/Remotes.antt =====
-- Each event of a remote leaves the state sound.
use usbfluxd.Prelude.{ℕ, ◌≡◌, refl, true, false, Option, some, arith, Bool-cases, inl, inr}
use usbfluxd.Buffer.Contents.{IsValid}
use usbfluxd.Utils.Collection.{Ptr}
use usbfluxd.System.{LibPlist, Env, Events, pollout_only}
use usbfluxd.World.{World, MuxClient, RemoteMux}
use usbfluxd.Client.Events as ClientEvents
use usbfluxd.Remote.Events.{is_connected, is_connecting2}
use usbfluxd.Remote.Process.{process_remote}
use usbfluxd.Remote.Process.Dispatch.{
  process_remote-reads, process_remote-closes, process_remote-connects, process_remote-sends,
  process_remote-idle,
}
use usbfluxd.Remote.Process.Sending as Sending
use usbfluxd.Remote.Process.Sending.{remote_process_send_lem}
use usbfluxd.Remote.Process.Reading as Reading
use usbfluxd.Remote.Process.Reading.{woken, read_connected-Copied}
use usbfluxd.Relay.Sound.{Sound, KeepsClient, KeepsRemote, store_client-Sound, store_remote-Sound}
use usbfluxd.Relay.Events.{relays_remote_event}
use usbfluxd.Relay.Closing.{GoesOn, usbmux_remote_close-Sound}
use usbfluxd.Relay.Clients.{emptied, same_result}

emptied-KeepsRemote :
    (now : ℕ) (r : RemoteMux) → IsValid r.ob → IsValid r.ib → KeepsRemote r (Sending.emptied now r)
emptied-KeepsRemote now r out in_ = record {
  same_client = refl;
  same_names = refl;
  no_more = λ up. up;
  valid_out = emptied r.ob out;
  valid_in = in_;
}

joined-KeepsRemote :
    (now : ℕ) (r : RemoteMux)
    → is_connecting2 r.state ≡ true
    → IsValid r.ob
    → IsValid r.ib
    → KeepsRemote r (Sending.joined now r)
joined-KeepsRemote now r soon out in_ = record {
  same_client = refl;
  same_names = refl;
  no_more = λ up. ground (arith, soon);
  valid_out = emptied r.ob out;
  valid_in = in_;
}

woken-KeepsClient :
    {Plist : Type 0} (events : Events) (c : MuxClient Plist)
    → (ClientEvents.is_connected c.state ≡ false → IsValid c.ob)
    → KeepsClient c (woken events c)
unfolding woken
woken-KeepsClient events c valid = elim (Bool-cases (ClientEvents.is_connected c.state)) [
  | inl up ↦ rw (woken, up) (record { same_remote = refl; no_more = λ k. k; valid = valid })
  | inr down ↦ elim (Bool-cases (ClientEvents.is_connecting2 c.state)) [
    | inl soon ↦
        rw (woken, down, soon) (record { same_remote = refl; no_more = λ k. k; valid = valid })
    | inr other ↦
        rw (woken, down, other) (record { same_remote = refl; no_more = λ k. k; valid = valid })
  ]
]

module _ {Plist : Type 0} ⦃lib : LibPlist Plist⦄ ⦃env : Env⦄ where
  -- A remote that keeps its client and its buffers, and does not begin to relay.
  kept :
      (q : Ptr) (r r' : RemoteMux) (w : World Plist) (res : Option (Unit {0} × World Plist))
      → Sound w
      → w.remotes q ≡ some r
      → KeepsRemote r r'
      → res ≡ some (tt, Sending.store w q r')
      → GoesOn res
  kept q r r' w res s there k e = (tt, _, e, store_remote-Sound q r r' w s there k)

  send-Sound :
      (q : Ptr) (r : RemoteMux) (w : World Plist) (res : Option (Unit {0} × World Plist))
      → Sound w
      → w.remotes q ≡ some r
      → Sending.SendOutcome q w r res
      → GoesOn res
  send-Sound q r w res s there (Sending.nothing_to_send _ e) =
      kept q r _ w res s there
        (record {
          same_client = refl;
          same_names = refl;
          no_more = λ up. up;
          valid_out = s.remote_out q r there;
          valid_in = s.remote_in q r there;
        })
        e
  send-Sound q r w res s there (Sending.refused _ e) =
      same_result e (usbmux_remote_close-Sound q r w s there)
  send-Sound q r w res s there (Sending.all_out _ _ _ e) =
      kept q r _ w res s there
        (emptied-KeepsRemote env.now r (s.remote_out q r there) (s.remote_in q r there)) e
  send-Sound q r w res s there (Sending.connects _ _ soon e) =
      kept q r _ w res s there
        (joined-KeepsRemote env.now r soon (s.remote_out q r there) (s.remote_in q r there)) e
  send-Sound q r w res s there (Sending.part_out n b _ _ _ valid _ e) =
      kept q r _ w res s there
        (record {
          same_client = refl;
          same_names = refl;
          no_more = λ up. up;
          valid_out = valid;
          valid_in = s.remote_in q r there;
        })
        e

  read-Sound :
      (q p : Ptr) (r : RemoteMux) (c : MuxClient Plist) (w : World Plist)
      (res : Option (Unit {0} × World Plist))
      → Sound w
      → w.remotes q ≡ some r
      → w.clients p ≡ some c
      → Reading.ReadOutcome q p w r c res
      → GoesOn res
  read-Sound q p r c w res s there live (Reading.full _ _ e) = (tt, w, e, s)
  read-Sound q p r c w res s there live (Reading.lost _ e) =
      same_result e (usbmux_remote_close-Sound q r w s there)
  read-Sound q p r c w res s there live (Reading.drained _ e) =
      kept q r _ w res s there
        (record {
          same_client = refl;
          same_names = refl;
          no_more = λ up. up;
          valid_out = s.remote_out q r there;
          valid_in = s.remote_in q r there;
        })
        e
  read-Sound q p r c w res s there live (Reading.copied bytes ib _ _ valid _ e) =
      let s1 = store_remote-Sound q r _ w s there (record {
        same_client = refl;
        same_names = refl;
        no_more = λ up. up;
        valid_out = s.remote_out q r there;
        valid_in = valid;
      }) in
      (
        tt,
        _,
        e,
        store_client-Sound p c _ _ s1 live (woken-KeepsClient pollout_only c (s.sendable p c live)),
      )

  connected-Sound :
      (q : Ptr) (r : RemoteMux) (events : Events) (w : World Plist)
      → Sound w
      → w.remotes q ≡ some r
      → is_connected r.state ≡ true
      → relays_remote_event r events ≡ true
      → GoesOn (process_remote q events w)
  unfolding relays_remote_event
  connected-Sound q r events w s there up relayed = elim (Bool-cases events.pollin) [
    | inl in_ ↦
        let (p, linked) = s.remote_linked q r there (ground (arith, up)) in
        let (c, live, to) = s.back p q r there linked in
        same_result (process_remote-reads q w r events there up in_) (
          read-Sound q p r c w _ s there live
            (read_connected-Copied q p w r c there linked live (s.remote_in q r there)))
    | inr no_in ↦
        same_result
          (process_remote-closes q w r events there up no_in (ground (arith, relayed, up, no_in)))
          (usbmux_remote_close-Sound q r w s there)
  ]

  pub process_remote-Sound :
      (q : Ptr) (r : RemoteMux) (events : Events) (w : World Plist)
      → Sound w
      → w.remotes q ≡ some r
      → relays_remote_event r events ≡ true
      → GoesOn (process_remote q events w)
  unfolding relays_remote_event
  process_remote-Sound q r events w s there relayed = elim (Bool-cases (is_connected r.state)) [
    | inl up ↦ connected-Sound q r events w s there up relayed
    | inr down ↦ elim (Bool-cases events.pollin) [
      | inl in_ ↦
          let soon : is_connecting2 r.state ≡ true = ground (arith, relayed, down, in_) in
          kept q r _ w _ s there
            (record {
              same_client = refl;
              same_names = refl;
              no_more = λ up. ground (arith, soon);
              valid_out = s.remote_out q r there;
              valid_in = s.remote_in q r there;
            })
            (process_remote-connects q w r events there down in_ soon)
      | inr no_in ↦ elim (Bool-cases events.pollout) [
        | inl out ↦ same_result (process_remote-sends q w r events there down no_in out) (
            send-Sound q r w _ s there
              (remote_process_send_lem q w r there (s.remote_out q r there)))
        | inr no_out ↦ (tt, w, process_remote-idle q w r events there down no_in no_out, s)
      ]
    ]
  ]
