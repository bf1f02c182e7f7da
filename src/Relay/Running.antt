-- ===== src/Relay/Running.antt =====
-- Rounds of the main loop with events of the relay do not fault, and leave the state sound.
use usbfluxd.Prelude.{
  ℕ, ◌^◌, ◌<◌, ltb, length, ◌&&◌, ◌≡◌, refl, true, false, none, some, List, [], ◌∷◌, arith,
  Bool-cases, Option-cases, inl, inr,
}
use usbfluxd.System.{LibPlist, Env}
use usbfluxd.Utils.FdList.{FdList}
use usbfluxd.Utils.FdList.Polled
use usbfluxd.Relay.Polling.{poll_list-Sound}
use usbfluxd.World.{World}
use usbfluxd.World.Monad.{◌>>=◌, ◌>>◌}
use usbfluxd.Remote.Output.{Version}
use usbfluxd.Relay.Sound.{Sound}
use usbfluxd.Relay.Events.{
  Event, accepts, asks, answers, appears, client_ready, remote_ready, relays_client_event,
  relays_remote_event, may_ask, has_room, on_event, run, rounds,
}
use usbfluxd.Utils.Collection.{Ptr}
use usbfluxd.World.{ClientState, MuxClient, RemoteMux}
use usbfluxd.Client.Events.{is_command, is_connected}
use usbfluxd.Remote.Events as RemoteEvents
use usbfluxd.Remote.Connect.Forwarding.{request}
use usbfluxd.Remote.Result.{connect_answer}
use usbfluxd.Relay.Sending.{ShortResults}
use usbfluxd.Relay.Appearing.{ShortListen, remote_mux_service_add-Sound}
use usbfluxd.Relay.Asking.{ask-Sound, connect_answer-Sound}
use usbfluxd.Relay.Closing.{GoesOn, client_accept-Sound}
use usbfluxd.Relay.Clients.{same_result, process_client-Sound}
use usbfluxd.Relay.Remotes.{process_remote-Sound}

commands : (state : ClientState) → is_command state ≡ true → is_connected state ≡ false
commands ClientState.command e = refl
commands ClientState.connecting1 e = absurd (ground (arith, e))
commands ClientState.connecting2 e = absurd (ground (arith, e))
commands ClientState.listen e = absurd (ground (arith, e))
commands ClientState.connected e = absurd (ground (arith, e))
commands ClientState.dead e = absurd (ground (arith, e))

module _ {Plist : Type 0} ⦃lib : LibPlist Plist⦄ ⦃v : Version⦄ where
  -- What the guard of `asks` gives.
  record Asks ⦃env : Env⦄ (c : MuxClient Plist) (device_id : ℕ) (req : Plist) : Type 0 where
    alone : c.remote ≡ none
    down : is_connected c.state ≡ false
    room : c.ob.capacity < 2 ^ 31
    small : (xml : List ℕ) → lib.to_xml (request device_id req) ≡ some xml → length xml < 2 ^ 31

  may_ask-Asks :
      ⦃env : Env⦄
      → (c : MuxClient Plist) (device_id : ℕ) (req : Plist) → may_ask c device_id req ≡ true
      → Asks c device_id req
  unfolding may_ask
  may_ask-Asks c device_id req e = record {
    alone = elim (Option-cases c.remote) [
      | inl none_yet ↦ none_yet
      | inr (q, to) ↦ absurd (ground (arith, to, e))
    ];
    down = elim (Bool-cases (is_command c.state)) [
      | inl command ↦ commands c.state command
      | inr other ↦ absurd (ground (arith, other, e))
    ];
    room = elim (Bool-cases (ltb c.ob.capacity (2 ^ 31))) [
      | inl below ↦ ground (arith, below)
      | inr above ↦ absurd (ground (arith, above, e))
    ];
    small = λ xml made. elim (Bool-cases (ltb (length xml) (2 ^ 31))) [
      | inl below ↦ ground (arith, below)
      | inr above ↦ absurd (ground (arith, made, above, e))
    ];
  }

  answered :
      ⦃env : Env⦄
      → (q : Ptr) (result : ℕ) (r : RemoteMux) (w : World Plist) → ShortResults Plist
      → Sound w
      → w.remotes q ≡ some r
      → (RemoteEvents.is_connecting1 r.state && has_room w r) ≡ true
      → GoesOn (connect_answer q result w)
  unfolding has_room
  answered q result r w sh s there may =
      let waits : RemoteEvents.is_connecting1 r.state ≡ true = ground (arith, may) in
      let (p, linked) = s.remote_linked q r there (ground (arith, waits)) in
      let (c, live, to) = s.back p q r there linked in
      connect_answer-Sound q p result r c w sh s there linked waits live to
        (ground (arith, linked, live, may))

  on_event-Sound :
      ⦃env : Env⦄
      → ShortResults Plist
      → ShortListen Plist
      → (e : Event Plist) (w : World Plist) → Sound w
      → GoesOn (on_event e w)
  unfolding on_event
  on_event-Sound sh sl accepts w s =
      (let (a, w', e, s') = client_accept-Sound w s in (tt, w', rw (on_event, ◌>>=◌, e) refl, s'))
  on_event-Sound sh sl (asks p tag device_id req) w s = elim (Option-cases (w.clients p)) [
    | inl gone ↦ (tt, w, rw (on_event, gone) refl, s)
    | inr (c, live) ↦ elim (Bool-cases (may_ask c device_id req)) [
      | inl may ↦
          (let k = may_ask-Asks c device_id req may in
            let (res, w', e, s') =
              ask-Sound p tag device_id req c w sh s live k.alone k.down k.room k.small in
            (tt, w', rw (on_event, live, may, ◌>>=◌, e) refl, s'))
      | inr other ↦ (tt, w, rw (on_event, live, other) refl, s)
    ]
  ]
  on_event-Sound sh sl (answers q result) w s = elim (Option-cases (w.remotes q)) [
    | inl gone ↦ (tt, w, rw (on_event, gone) refl, s)
    | inr (r, there) ↦ elim (Bool-cases (RemoteEvents.is_connecting1 r.state && has_room w r)) [
      | inl may ↦
          same_result (rw (on_event, there, may) refl) (answered q result r w sh s there may)
      | inr other ↦ (tt, w, rw (on_event, there, other) refl, s)
    ]
  ]
  on_event-Sound sh sl (appears name host port) w s =
      (let (a, w', e, s') = remote_mux_service_add-Sound name host port w sl s in
        (tt, w', rw (on_event, ◌>>=◌, e) refl, s'))
  on_event-Sound sh sl (client_ready p events) w s = elim (Option-cases (w.clients p)) [
    | inl gone ↦ (tt, w, rw (on_event, gone) refl, s)
    | inr (c, live) ↦ elim (Bool-cases (relays_client_event c events)) [
      | inl relayed ↦
          same_result (rw (on_event, live, relayed) refl)
            (process_client-Sound p c events w s live relayed)
      | inr other ↦ (tt, w, rw (on_event, live, other) refl, s)
    ]
  ]
  on_event-Sound sh sl (remote_ready q events) w s = elim (Option-cases (w.remotes q)) [
    | inl gone ↦ (tt, w, rw (on_event, gone) refl, s)
    | inr (r, there) ↦ elim (Bool-cases (relays_remote_event r events)) [
      | inl relayed ↦
          same_result (rw (on_event, there, relayed) refl)
            (process_remote-Sound q r events w s there relayed)
      | inr other ↦ (tt, w, rw (on_event, there, other) refl, s)
    ]
  ]

  run-Sound :
      ShortResults Plist
      → ShortListen Plist
      → (steps : List (Env × Event Plist)) (w : World Plist) → Sound w
      → GoesOn (run steps w)
  unfolding run
  run-Sound sh sl [] w s = (tt, w, refl, s)
  run-Sound sh sl ((env, e) ∷ rest) w s =
      let (a, w1, e1, s1) = on_event-Sound ⦃env = env⦄ sh sl e w s in
      let (b, w2, e2, s2) = run-Sound sh sl rest w1 s1 in (b, w2, rw (run, ◌>>=◌, ◌>>◌, e1) e2, s2)

  -- From a state where clients and remotes point to each other, connected ones have each other, the
  -- lists hold those that are there, other hosts that are listened to have their names, the buffers are
  -- within their memory, unused addresses are free and no thread holds a mutex: any number of rounds,
  -- each of which makes the list for `ppoll` and handles any sequence of the events below, whatever the
  -- outcomes of the system calls are, end without a fault, so without a use of freed memory, in such a
  -- state again. The events are a new connection, a "Connect" of a client in CLIENT_COMMAND without a
  -- remote, the result that a remote in REMOTE_CONNECTING1 gets, an instance to be added, all events of a
  -- connected client, POLLIN and hangup of a connected remote, and POLLOUT of clients and remotes that
  -- are not connected; an event of what is gone does nothing. The output buffer of a client that asks or
  -- is answered and the request are below 2 ^ 31 bytes, and so is the message "Listen"; a result as a
  -- property list is below 2 ^ 30 bytes.
  pub rounds-Sound :
      (listenfd : ℕ) (all : List (Env × List (Env × Event Plist))) (list : FdList) (w : World Plist)
      → ShortResults Plist
      → ShortListen Plist
      → Sound w
      → Polled.IsValid list
      → (list' : FdList) × (w' : World Plist) × (rounds listenfd all list w ≡ some (list', w'))
        × Polled.IsValid list'
        × Sound w'
  unfolding rounds
  rounds-Sound listenfd [] list w sh sl s v = (list, w, refl, v, s)
  rounds-Sound listenfd ((env, steps) ∷ rest) list w sh sl s v =
      let (list1, w1, e1, v1, s1) = poll_list-Sound env listenfd list w s v in
      let (a, w2, e2, s2) = run-Sound sh sl steps w1 s1 in
      let (list', w', e', v', s') = rounds-Sound listenfd rest list1 w2 sh sl s2 v1 in
      (list', w', rw (rounds, ◌>>=◌, ◌>>◌, e1, e2) e', v', s')
