-- ===== src/Client/Notify/Answer.antt =====
-- The answer to a connection request: `client_notify_connect` on every branch.
use usbfluxd.Prelude.{
  ℕ, ◌+◌, ◌<◌, ◌≡◌, ◌≢◌, refl, ◌∙◌, true, false, Option, none, some, List, ◌++◌, length, ◌==◌, inl,
  inr, if◌then◌else◌, Bool-cases, Option-cases, arith,
}
use usbfluxd.Proto.{
  int_mod, u32_mod, header_size, message_plist, message_result, bytes_of_u32, bytes_of_header,
}
use usbfluxd.Text.{cstr}
use usbfluxd.Buffer.{new_size}
use usbfluxd.Buffer.Contents.{IsValid}
use usbfluxd.System.{LibPlist, Env}
use usbfluxd.World.{ClientState, MuxClient}
use usbfluxd.World.Monad.{◌>>=◌, ◌>>◌}
use usbfluxd.Client.Events.{is_connecting1}
use usbfluxd.Client.Output.{send_pkt, send_plist_pkt, send_result}
use usbfluxd.Client.Output.Queueing.{Queued, send_pkt-Sends}
use usbfluxd.Client.Notify.{connect_answered, client_notify_connect}

module _ {Plist : Type 0} ⦃lib : LibPlist Plist⦄ where
  -- A result as a property list.
  abbrev pub result_plist : ℕ → Plist
  result_plist result =
      lib.dict_set_item
        (lib.dict_set_item lib.new_dict (cstr "MessageType") (lib.new_string (cstr "Result")))
        (cstr "Number") (lib.new_uint result)

  -- The message type and the payload that carry a result in the client's protocol version; `none` if the property
  -- list cannot be written.
  abbrev pub result_message : MuxClient Plist → ℕ → Option (ℕ × List ℕ)
  result_message c result =
      if c.proto_version == 1
      then elim (lib.to_xml (result_plist result)) [
        | none ↦ none
        | some xml ↦ some (message_plist, xml)
      ]
      else some (message_result, bytes_of_u32 result)

  -- The packet of the protocol for a message.
  abbrev pub packet : MuxClient Plist → ℕ → ℕ × List ℕ → List ℕ
  packet c tag (msg, payload) =
      bytes_of_header (record {
        length = header_size + length payload;
        version = c.proto_version;
        message = msg;
        tag = tag;
      })
      ++ payload

  -- A client whose connection stands, once the answer is queued: it waits for the answer to go out, polls
  -- for nothing but POLLOUT, and has no memory for input.
  abbrev pub joining : MuxClient Plist → MuxClient Plist
  joining c = record c {
    state = ClientState.connecting2;
    events = record {
      pollin = false;
      pollout = true;
      pollerr = false;
      pollhup = false;
      pollnval = false;
    };
    ib = record c.ib { buf = none };
  }

  module _ ⦃env : Env⦄ where
    -- What `client_notify_connect` may do with a client.
    pub data Answered (result : ℕ) (c : MuxClient Plist)
        (r : Option (Option (Unit {0}) × MuxClient Plist)) : Type 0 where
      refused : is_connecting1 c.state ≡ false → r ≡ some (none, c) → Answered result c r
      unwritten :
          is_connecting1 c.state ≡ true
          → result_message c result ≡ none
          → r ≡ some (none, c)
          → Answered result c r
      no_room :
          (m : ℕ × List ℕ)
          → is_connecting1 c.state ≡ true
          → result_message c result ≡ some m
          → env.can_alloc (new_size c.ob.capacity (header_size + length m.1)) ≡ false
          → r ≡ some (none, c)
          → Answered result c r
      accepted :
          (m : ℕ × List ℕ) (c' : MuxClient Plist)
          → is_connecting1 c.state ≡ true
          → result ≡ 0
          → result_message c result ≡ some m
          → Queued (packet c c.connect_tag m) c c'
          → r ≡ some (some tt, joining c')
          → Answered result c r
      rejected :
          (m : ℕ × List ℕ) (c' : MuxClient Plist)
          → is_connecting1 c.state ≡ true
          → result ≢ 0
          → result_message c result ≡ some m
          → Queued (packet c c.connect_tag m) c c'
          → r ≡ some (some tt, record c' { state = ClientState.command })
          → Answered result c r

    pub send_result-none :
        (tag result : ℕ) (c : MuxClient Plist)
        → result_message c result ≡ none
        → send_result tag result c ≡ some (none, c)
    unfolding send_result send_plist_pkt
    send_result-none tag result c e = elim (Bool-cases (c.proto_version == 1)) [
      | inl xml ↦ elim (Option-cases (lib.to_xml (result_plist result))) [
        | inl lost ↦ ground (arith, lost)
        | inr (bytes, made) ↦ ground (arith, made)
      ]
      | inr bin ↦ ground (arith, e)
    ]

    pub send_result-some :
        (tag result : ℕ) (c : MuxClient Plist) (m : ℕ × List ℕ)
        → result_message c result ≡ some m
        → send_result tag result c ≡ send_pkt tag m.0 m.1 c
    unfolding send_result send_plist_pkt
    send_result-some tag result c m e = elim (Bool-cases (c.proto_version == 1)) [
      | inl xml ↦ elim (Option-cases (lib.to_xml (result_plist result))) [
        | inl lost ↦ ground (arith, lost)
        | inr (bytes, made) ↦ ground (arith, made)
      ]
      | inr bin ↦ ground (arith, e)
    ]

    pub notify_refused :
        (result : ℕ) (c : MuxClient Plist)
        → is_connecting1 c.state ≡ false
        → client_notify_connect result c ≡ some (none, c)
    unfolding client_notify_connect
    notify_refused result c e = rw (client_notify_connect, ◌>>=◌, e) refl

    notify_failed :
        (result : ℕ) (c : MuxClient Plist)
        → is_connecting1 c.state ≡ true
        → send_result c.connect_tag result c ≡ some (none, c)
        → client_notify_connect result c ≡ some (none, c)
    unfolding client_notify_connect
    notify_failed result c up e = rw (client_notify_connect, ◌>>=◌, ◌>>◌, up, e) refl

    notify_sent :
        (result : ℕ) (c c' : MuxClient Plist) (n : ℕ)
        → is_connecting1 c.state ≡ true
        → send_result c.connect_tag result c ≡ some (some n, c')
        → client_notify_connect result c ≡ some (some tt, connect_answered result c')
    unfolding client_notify_connect
    notify_sent result c c' n up e = rw (client_notify_connect, ◌>>=◌, ◌>>◌, up, e) refl

    -- The state after an answer that was queued.
    notified :
        (result : ℕ) (c c' : MuxClient Plist) (m : ℕ × List ℕ)
        → is_connecting1 c.state ≡ true
        → result_message c result ≡ some m
        → Queued (packet c c.connect_tag m) c c'
        → client_notify_connect result c ≡ some (some tt, connect_answered result c')
        → Answered result c (client_notify_connect result c)
    notified result c c' m up made q e = elim (Bool-cases (result == 0)) [
      | inl ok ↦ accepted m c' up (ground (arith, ok)) made q (e ∙ rw ok refl)
      | inr failed ↦ rejected m c' up (λ z. ground (arith, failed, z)) made q (e ∙ rw failed refl)
    ]

    -- `client_notify_connect` on a client whose output buffer is valid and stays below 2 ^ 32 bytes, where
    -- the answer is below 2 ^ 31: it is refused, the client left alone, exactly where the client does not
    -- wait for an answer; it fails, the client left alone, only where the property list cannot be written
    -- or `realloc` fails; else the answer is queued in the client's protocol version, under the tag of its
    -- request. For RESULT_OK the client then is in CLIENT_CONNECTING2, polls for POLLOUT alone and has no
    -- memory for input; for any other result it is in CLIENT_COMMAND, and nothing else changes.
    pub client_notify_connect-Answered :
        (result : ℕ) (c : MuxClient Plist)
        → IsValid c.ob
        → ((m : ℕ × List ℕ)
            → result_message c result ≡ some m
            → (c.ob.capacity + (header_size + length m.1) + 4096 < u32_mod)
              × (header_size + length m.1 < int_mod))
        → Answered result c (client_notify_connect result c)
    client_notify_connect-Answered result c v small = elim (Bool-cases (is_connecting1 c.state)) [
      | inr idle ↦ refused idle (notify_refused result c idle)
      | inl up ↦ elim (Option-cases (result_message c result)) [
        | inl lost ↦
            unwritten up lost
              (notify_failed result c up (send_result-none c.connect_tag result c lost))
        | inr (m, made) ↦
            elim (send_pkt-Sends c.connect_tag m.0 m.1 c v (small m made).0 (small m made).1) [
              | inl (e, full) ↦
                  no_room m up made full
                    (notify_failed result c up (send_result-some c.connect_tag result c m made ∙ e))
              | inr (c', e, q) ↦ notified result c c' m up made q (
                  notify_sent result c c' _ up (send_result-some c.connect_tag result c m made ∙ e))
            ]
      ]
    ]
