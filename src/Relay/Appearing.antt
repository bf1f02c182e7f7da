-- ===== src/Relay/Appearing.antt =====
-- An instance that is added, by a command or by mDNS, leaves the state sound.
use usbfluxd.Prelude.{
  ℕ, suc, ◌+◌, ◌*◌, ◌^◌, ◌<◌, ◌==◌, ◌≡◌, refl, ◌∙◌, ap, sym, true, false, Option, ltb, none, some,
  List, ◌∷◌, length, arith, Bool-cases, Option-cases, inl, inr,
}
use mathlib.Core.Path.{subst}
use usbfluxd.Text.{CString, cstr}
use usbfluxd.Proto.{header_size, as_int, message_plist}
use usbfluxd.Buffer.Contents.{IsValid, malloc-IsValid}
use usbfluxd.Utils.Collection
use usbfluxd.Utils.Collection.{Ptr}
use usbfluxd.System.{LibPlist, Env}
use usbfluxd.World.{World, RemoteMux}
use usbfluxd.World.Monad.{update}
use usbfluxd.Remote.IdMap.{get_new_remote_id}
use usbfluxd.Remote.Connect.{reply_buf_size, new_remote}
use usbfluxd.Remote.Output.{Version, create_plist_message, remote_send_plist_pkt}
use usbfluxd.Remote.Output.Queueing.{remote_send_pkt-Sends}
use usbfluxd.Remote.Connect.Forwarding.{send_xml, send_unwritten}
use usbfluxd.Remote.Service.{AddResult, note_listen, same_service, remote_mux_service_add}
use usbfluxd.Remote.Service.Fresh.{
  connected, registered, new_buffer, Absent, with_instance, service_add-unreachable,
  service_add-full, service_add-accepted,
}
use usbfluxd.Remote.Service.Present.{has_names, find-Absent, service_add-present}
use usbfluxd.Relay.Listed.{Tracks-add, Tracks-live, Tracks-unused}
use usbfluxd.Relay.Sound.{Sound, remote_relays, at_update, update_there}
use usbfluxd.Relay.Closing.{GoesOn, at_removal, still_there}

-- The message "Listen" that libplist writes is short.
pub record ShortListen (Plist : Type 0) ⦃lib : LibPlist Plist⦄ ⦃v : Version⦄ : Type 0 where
  pub listen :
      (xml : List ℕ)
      → lib.to_xml (create_plist_message {Plist = Plist} (cstr "Listen")) ≡ some xml
      → length xml < 2 ^ 31

-- A remote that may be added: it has no client.
record Addable (r : RemoteMux) : Type 0 where
  alone : r.client ≡ none
  down : remote_relays r ≡ false
  out : IsValid r.ob
  in_ : IsValid r.ib
  named : has_names r ≡ true

module _ ⦃env : Env⦄ where
  registered-Addable :
      (name host : CString) (port id fd : ℕ)
      → Addable (registered name id (connected env.now fd host port))
  unfolding new_remote
  registered-Addable name host port id fd = record {
    alone = refl;
    down = refl;
    out = (new_buffer fd env.now).0;
    in_ = (malloc-IsValid (reply_buf_size * 8) (omega arith)).0;
    named = refl;
  }

note_listen-Addable : (res : Option ℕ) (r : RemoteMux) → Addable r → Addable (note_listen res r)
note_listen-Addable none r k = k
note_listen-Addable (some n) r k = elim (Bool-cases (ltb 0 n)) [
  | inl sent ↦
      rw sent (record { alone = k.alone; down = k.down; out = k.out; in_ = k.in_; named = k.named })
  | inr empty ↦ rw empty k
]

module _ {Plist : Type 0} ⦃lib : LibPlist Plist⦄ ⦃env : Env⦄ where
  unlocked : (w : World Plist) → Sound w → record w { remote_list_mutex = false } ≡ w
  unlocked w s = ap (λ b. record w { remote_list_mutex = b }) (sym s.remotes_free)

  with_instance-Sound :
      (id : ℕ) (r : RemoteMux) (w : World Plist)
      → Sound w
      → Addable r
      → Sound (with_instance w id r)
  unfolding with_instance
  with_instance-Sound id r w s k = record {
    forward = λ x q d e to.
        (let (r', there, from) = s.forward x q d e to in
          elim (Bool-cases (w.next == q)) [
            | inl same ↦ absurd (ground (arith, same, there, s.unused_remotes w.next))
            | inr other ↦ (r', update_there w.remotes w.next q r r' there other, from)
          ]);
    back = λ x q r' here from. elim (at_update w.remotes w.next q r r' here) [
      | inl (same, is_new) ↦ absurd (ground (arith, is_new, from, k.alone))
      | inr old ↦ s.back x q r' old from
    ];
    client_linked = s.client_linked;
    remote_linked = λ q r' e up. elim (at_update w.remotes w.next q r r' e) [
      | inl (same, is_new) ↦ absurd (ground (arith, up, k.down, ap remote_relays is_new))
      | inr old ↦ s.remote_linked q r' old up
    ];
    sendable = s.sendable;
    remote_out = λ q r' e. elim (at_update w.remotes w.next q r r' e) [
      | inl (same, is_new) ↦ subst (λ (m : RemoteMux). IsValid m.ob) (sym is_new) k.out
      | inr old ↦ s.remote_out q r' old
    ];
    remote_in = λ q r' e. elim (at_update w.remotes w.next q r r' e) [
      | inl (same, is_new) ↦ subst (λ (m : RemoteMux). IsValid m.ib) (sym is_new) k.in_
      | inr old ↦ s.remote_in q r' old
    ];
    listeners_named = λ q r' e. elim (at_update w.remotes w.next q r r' e) [
      | inl (same, is_new) ↦ ap has_names is_new ∙ k.named
      | inr old ↦ s.listeners_named q r' old
    ];
    unused = λ x h. s.unused x (omega (arith, h));
    unused_remotes = λ q h. ground (arith, s.unused_remotes q, h);
    clients_listed = s.clients_listed;
    remotes_listed =
        Tracks-add w.remote_list w.remotes w.next r s.remotes_listed
          (s.unused_remotes w.next (omega arith));
    clients_free = s.clients_free;
    remotes_free = refl;
  }

  -- An address that was used and given back.
  passed-Sound :
      (fd : ℕ) (w : World Plist)
      → Sound w
      → Sound (record w {
        remotes = update w.remotes w.next none;
        next = suc w.next;
        remote_list_mutex = false;
        closed = fd ∷ w.closed;
      })
  passed-Sound fd w s = record {
    forward = λ x q d e to.
        (let (r', there, from) = s.forward x q d e to in
          elim (Bool-cases (w.next == q)) [
            | inl same ↦ absurd (ground (arith, same, there, s.unused_remotes w.next))
            | inr other ↦ (r', still_there w.remotes w.next q r' there other, from)
          ]);
    back = λ x q r' here from. s.back x q r' (at_removal w.remotes w.next q r' here).1 from;
    client_linked = s.client_linked;
    remote_linked = λ q r' e up. s.remote_linked q r' (at_removal w.remotes w.next q r' e).1 up;
    sendable = s.sendable;
    remote_out = λ q r' e. s.remote_out q r' (at_removal w.remotes w.next q r' e).1;
    remote_in = λ q r' e. s.remote_in q r' (at_removal w.remotes w.next q r' e).1;
    listeners_named = λ q r' e. s.listeners_named q r' (at_removal w.remotes w.next q r' e).1;
    unused = λ x h. s.unused x (omega (arith, h));
    unused_remotes = λ q h. ground (arith, s.unused_remotes q, h);
    clients_listed = s.clients_listed;
    remotes_listed =
        Tracks-unused w.remote_list w.remotes w.next s.remotes_listed
          (s.unused_remotes w.next (omega arith));
    clients_free = s.clients_free;
    remotes_free = refl;
  }

  -- The message "Listen" is queued or not; the remote may be added with or without it.
  asked :
      ⦃v : Version⦄
      → (r : RemoteMux) → ShortListen Plist
      → Addable r
      → r.ob.capacity ≡ reply_buf_size
      → (res : Option ℕ) × (r' : RemoteMux) × (remote_send_plist_pkt 0
            (create_plist_message {Plist = Plist} (cstr "Listen"))
            r
          ≡ some (res, r'))
        × Addable (note_listen res r')
  asked r sh k cap =
      elim (Option-cases (lib.to_xml (create_plist_message {Plist = Plist} (cstr "Listen")))) [
        | inl lost ↦ (none, r, send_unwritten _ r lost, k)
        | inr (xml, made) ↦
            elim (remote_send_pkt-Sends 0 message_plist xml r k.out
              (omega (arith, cap, sh.listen xml made)) (sh.listen xml made)) [
                | inl (e, full) ↦ (none, r, send_xml _ xml r made ∙ e, k)
                | inr (r', e, q) ↦ (
                  as_int (header_size + length xml),
                  r',
                  send_xml _ xml r made ∙ e,
                  note_listen-Addable (as_int (header_size + length xml)) r' (record {
                    alone = ap (λ (m : RemoteMux). m.client) q.same ∙ k.alone;
                    down = ap remote_relays q.same ∙ k.down;
                    out = q.valid;
                    in_ = subst (λ (m : RemoteMux). IsValid m.ib) (sym q.same) k.in_;
                    named = ap has_names q.same ∙ k.named;
                  }),
                )
              ]
      ]

  fresh-Sound :
      ⦃v : Version⦄
      → (name host : CString) (port : ℕ) (w : World Plist) → ShortListen Plist
      → Sound w
      → Absent w (same_service name host port) (Collection.elements w.remote_list)
      → GoesOn (remote_mux_service_add name host port w)
  fresh-Sound name host port w sh s missing = elim (Option-cases (env.host_fd host port)) [
    | inl lost ↦ (
      AddResult.add_failed,
      w,
      service_add-unreachable name host port w missing s.remotes_free lost
          ∙ ap (λ v. some (AddResult.add_failed, v)) (unlocked w s),
      s,
    )
    | inr (fd, reached) ↦
        let id = get_new_remote_id w.remote_id_map in
        elim (Bool-cases (id == 0)) [
          | inl full ↦ (
            _,
            _,
            service_add-full name host port fd w missing s.remotes_free reached full,
            passed-Sound fd w s,
          )
          | inr some_id ↦
              let (_, _, cap) = new_buffer fd env.now in
              let (res, r', sent, k) =
                asked (registered name id (connected env.now fd host port)) sh
                  (registered-Addable name host port id fd) cap in
              (
                _,
                _,
                service_add-accepted name host port fd w r' res missing s.remotes_free reached
                    some_id sent,
                with_instance-Sound id (note_listen res r') w s k,
              )
        ]
  ]

  -- Adding an instance, whether it is known, can be reached and gets an id or not.
  pub remote_mux_service_add-Sound :
      ⦃v : Version⦄
      → (name host : CString) (port : ℕ) (w : World Plist) → ShortListen Plist
      → Sound w
      → GoesOn (remote_mux_service_add name host port w)
  remote_mux_service_add-Sound name host port w sh s =
      elim (find-Absent name host port w (Collection.elements w.remote_list) (λ q h.
        let (r, there) = Tracks-live w.remote_list w.remotes q s.remotes_listed h in
        (r, there, s.listeners_named q r there))) [
          | inl missing ↦ fresh-Sound name host port w sh s missing
          | inr (q, found) ↦ (
            AddResult.already_present,
            w,
            service_add-present name host port w q s.remotes_free found
                ∙ ap (λ v. some (AddResult.already_present, v)) (unlocked w s),
            s,
          )
        ]
