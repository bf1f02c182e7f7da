-- ===== src/Relay/Asking.antt =====
-- A client that asks to be connected, and the answer to it: the state stays sound.
use usbfluxd.Prelude.{
  ℕ, ◌^◌, ◌<◌, ◌==◌, ◌≡◌, refl, ◌∙◌, ap, sym, true, false, Option, none, some, List, length, arith,
  Bool-cases, inl, inr,
}
use usbfluxd.Proto.{result_badcommand}
use usbfluxd.DeviceId.{remote_mux_id}
use usbfluxd.Utils.Collection.{Ptr}
use usbfluxd.System.{LibPlist, Env}
use usbfluxd.World.{ClientState, World, MuxClient, RemoteMux}
use usbfluxd.World.Monad.{update, ◌>>=◌, eq_self}
use usbfluxd.Client.Events.{is_connected, is_connecting1}
use usbfluxd.Client.Command.Connected.{waiting, connected_to-some, connected_to-none}
use usbfluxd.Client.Notify.{client_notify_connect}
use usbfluxd.Client.Notify.Answer.{
  Answered, refused, unwritten, no_room, accepted, rejected, joining, notify_refused,
  client_notify_connect-Answered,
}
use usbfluxd.Remote.Connect.{usbmux_remote_connect, open_remote}
use usbfluxd.Remote.Connect.Routing.{Route}
use usbfluxd.Remote.Connect.Forwarding.{Route-Fresh, set_up, linked, request, connects}
use usbfluxd.Remote.Connect.Unrouted.{
  Route-unlocked, open_remote-Route_or, usbmux_remote_connect-none,
}
use usbfluxd.Remote.Events as RemoteEvents
use usbfluxd.Remote.Result.{connect_answer}
use usbfluxd.Remote.Result.Answered as Result
use usbfluxd.Remote.Result.Answered.{connect_answer-tells}
use usbfluxd.Relay.Listed.{Tracks-live}
use usbfluxd.Relay.Sound.{Sound, store_client-Sound, store_linked_client-Sound, store_remote-Sound}
use usbfluxd.Relay.Closing.{GoesOn}
use usbfluxd.Relay.Events.{ask}
use usbfluxd.Relay.Sending.{ShortResults, send_result-KeepsClient, message-short}
use usbfluxd.Relay.Connecting.{linked-Sound, Route-in, Route-names, requests}

not_both : (state : ClientState) → is_connecting1 state ≡ true → is_connected state ≡ false
not_both ClientState.connecting1 e = refl
not_both ClientState.connecting2 e = refl
not_both ClientState.command e = refl
not_both ClientState.listen e = refl
not_both ClientState.connected e = absurd (ground (arith, e))
not_both ClientState.dead e = refl

module _ {Plist : Type 0} ⦃lib : LibPlist Plist⦄ ⦃env : Env⦄ where
  ask_unrouted :
      (p : Ptr) (tag device_id : ℕ) (req : Plist) (c : MuxClient Plist) (w : World Plist)
      → ShortResults Plist
      → Sound w
      → w.clients p ≡ some c
      → is_connected c.state ≡ false
      → c.ob.capacity < 2 ^ 31
      → open_remote (remote_mux_id device_id) (record w { remote_list_mutex = true })
        ≡ some (none, record w { remote_list_mutex = true })
      → GoesOn (ask p tag device_id req w)
  ask_unrouted p tag device_id req c w sh s live down room nowhere =
      let same : record w { remote_list_mutex = false } ≡ w =
        ap (λ (b : _). record w { remote_list_mutex = b }) (sym s.remotes_free) in
      let e : usbmux_remote_connect device_id tag req p w ≡ some (none, w) =
        usbmux_remote_connect-none device_id tag req p w s.remotes_free nowhere
        ∙ ap (λ v. some (none, v)) same in
      let (sent, c', e', k, _) =
        send_result-KeepsClient sh tag result_badcommand c (s.sendable p c live down) room in
      let (res, e'') = connected_to-none p tag device_id w c c' sent live e' in
      (res, _, rw (◌>>=◌, e) e'', store_client-Sound p c c' w s live k)

  ask_routed :
      (p : Ptr) (tag device_id : ℕ) (req : Plist) (c : MuxClient Plist) (r : RemoteMux)
      (w : World Plist)
      → Sound w
      → w.clients p ≡ some c
      → c.remote ≡ none
      → is_connected c.state ≡ false
      → ((xml : List ℕ) → lib.to_xml (request device_id req) ≡ some xml → length xml < 2 ^ 31)
      → Route w (remote_mux_id device_id) r
      → GoesOn (ask p tag device_id req w)
  unfolding linked
  ask_routed p tag device_id req c r w s live alone down small route =
      let fresh = Route-Fresh w (remote_mux_id device_id) r route in
      let (_, r', sent, back, names, out, in_) =
        requests device_id req (set_up r device_id p) fresh.valid
          (Route-in w (remote_mux_id device_id) r route) fresh.capacity small in
      let e = connects device_id tag req p w c r r' _ route live s.remotes_free sent in
      let s1 =
        linked-Sound p c r' w s live alone down back out in_
          (names ∙ Route-names w (remote_mux_id device_id) r route) in
      let c1 : MuxClient Plist = record c { remote = some w.next } in
      let here : (linked w p c r').clients p ≡ some c1 = rw (eq_self p) refl in
      let (res, e') = connected_to-some p tag device_id tt (linked w p c r') c1 here in
      (
        res,
        _,
        rw (◌>>=◌, e) e',
        store_client-Sound p c1 (waiting c1 tag device_id) (linked w p c r') s1 here (record {
          same_remote = refl;
          no_more = λ up. absurd (ground (arith, up));
          valid = λ d. s.sendable p c live down;
        }),
      )

  -- A request to connect of a client without a remote, whose output buffer and whose request are below
  -- 2 ^ 31 bytes.
  pub ask-Sound :
      (p : Ptr) (tag device_id : ℕ) (req : Plist) (c : MuxClient Plist) (w : World Plist)
      → ShortResults Plist
      → Sound w
      → w.clients p ≡ some c
      → c.remote ≡ none
      → is_connected c.state ≡ false
      → c.ob.capacity < 2 ^ 31
      → ((xml : List ℕ) → lib.to_xml (request device_id req) ≡ some xml → length xml < 2 ^ 31)
      → GoesOn (ask p tag device_id req w)
  ask-Sound p tag device_id req c w sh s live alone down room small =
      elim (open_remote-Route_or (record w { remote_list_mutex = true }) (remote_mux_id device_id)
        (λ q h. Tracks-live w.remote_list w.remotes q s.remotes_listed h)) [
          | inl nowhere ↦ ask_unrouted p tag device_id req c w sh s live down room nowhere
          | inr (r, route) ↦
              ask_routed p tag device_id req c r w s live alone down small
                (Route-unlocked w (remote_mux_id device_id) r route)
        ]

  -- What the client is after it was told, or not.
  told-Sound :
      (p q : Ptr) (result : ℕ) (c : MuxClient Plist) (w : World Plist)
      → Sound w
      → w.clients p ≡ some c
      → c.remote ≡ some q
      → (res : Option (Option (Unit {0}) × MuxClient Plist)) → Answered result c res
      → (told : Option (Unit {0})) × (c' : MuxClient Plist) × (res ≡ some (told, c'))
        × Sound (record w { clients = update w.clients p (some c') })
  told-Sound p q result c w s live to res (refused _ e) = (
    none,
    c,
    e,
    store_linked_client-Sound p c c w s live refl (λ up. (q, to)) (s.sendable p c live),
  )
  told-Sound p q result c w s live to res (unwritten _ _ e) = (
    none,
    c,
    e,
    store_linked_client-Sound p c c w s live refl (λ up. (q, to)) (s.sendable p c live),
  )
  told-Sound p q result c w s live to res (no_room _ _ _ _ e) = (
    none,
    c,
    e,
    store_linked_client-Sound p c c w s live refl (λ up. (q, to)) (s.sendable p c live),
  )
  told-Sound p q result c w s live to res (accepted m c' _ _ _ k e) = (
    some tt,
    joining c',
    e,
    store_linked_client-Sound p c _ w s live (ap (λ (d : MuxClient Plist). d.remote) k.same)
        (λ up. (q, to)) (λ down. k.valid),
  )
  told-Sound p q result c w s live to res (rejected m c' _ _ _ k e) = (
    some tt,
    record c' { state = ClientState.command },
    e,
    store_linked_client-Sound p c _ w s live (ap (λ (d : MuxClient Plist). d.remote) k.same)
        (λ up. (q, to)) (λ down. k.valid),
  )

  told :
      (p q : Ptr) (result : ℕ) (c : MuxClient Plist) (w : World Plist)
      → ShortResults Plist
      → Sound w
      → w.clients p ≡ some c
      → c.remote ≡ some q
      → c.ob.capacity < 2 ^ 31
      → (told : Option (Unit {0})) × (c' : MuxClient Plist) × (client_notify_connect result c
          ≡ some (told, c'))
        × Sound (record w { clients = update w.clients p (some c') })
  told p q result c w sh s live to room = elim (Bool-cases (is_connecting1 c.state)) [
    | inl waits ↦ told-Sound p q result c w s live to _ (
        client_notify_connect-Answered result c (s.sendable p c live (not_both c.state waits))
          (λ m e. (
            omega (arith, room, message-short sh c result m e),
            omega (arith, message-short sh c result m e),
          )))
    | inr other ↦ (
      none,
      c,
      notify_refused result c other,
      store_linked_client-Sound p c c w s live refl (λ up. (q, to)) (s.sendable p c live),
    )
  ]

  -- The answer to a request to connect, where the client's output buffer is below 2 ^ 31 bytes.
  pub connect_answer-Sound :
      (q p : Ptr) (result : ℕ) (r : RemoteMux) (c : MuxClient Plist) (w : World Plist)
      → ShortResults Plist
      → Sound w
      → w.remotes q ≡ some r
      → r.client ≡ some p
      → RemoteEvents.is_connecting1 r.state ≡ true
      → w.clients p ≡ some c
      → c.remote ≡ some q
      → c.ob.capacity < 2 ^ 31
      → GoesOn (connect_answer q result w)
  connect_answer-Sound q p result r c w sh s there linked_ up live to room =
      let (res, c', e, s1) = told p q result c w sh s live to room in
      let e' = connect_answer-tells q p result w r c c' res there linked_ live e in
      elim (Bool-cases (result == 0)) [
        | inl ok ↦ (
          tt,
          _,
          e' ∙ rw ok refl,
          store_remote-Sound q r (Result.answered r) _ s1 there (record {
            same_client = refl;
            same_names = refl;
            no_more = λ k. ground (arith, up);
            valid_out = s.remote_out q r there;
            valid_in = s.remote_in q r there;
          }),
        )
        | inr failed ↦ (tt, _, e' ∙ rw failed refl, s1)
      ]
