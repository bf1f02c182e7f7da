-- ===== src/Relay/Connecting.antt =====
-- A request to connect, and its answer, leave the state sound.
use usbfluxd.Prelude.{
  ℕ, ◌+◌, ◌*◌, ◌^◌, ◌<◌, ◌==◌, ◌≡◌, refl, ◌∙◌, ap, sym, true, false, Option, none, some, List,
  length, arith, Bool-cases, Option-cases, inl, inr,
}
use mathlib.Core.Path.{subst}
use usbfluxd.Proto.{header_size, as_int, message_plist}
use usbfluxd.Buffer.Contents.{IsValid, malloc-IsValid}
use usbfluxd.Utils.Collection.{Ptr}
use usbfluxd.System.{LibPlist, Env}
use usbfluxd.World.{World, MuxClient, RemoteMux}
use usbfluxd.Client.Events.{is_connected}
use usbfluxd.Remote.Connect.{reply_buf_size, new_remote}
use usbfluxd.Remote.Connect.Routing.{Route, to_local, to_host}
use usbfluxd.Remote.Connect.Forwarding.{linked, request, send_xml, send_unwritten}
use usbfluxd.Remote.Output.{remote_send_plist_pkt}
use usbfluxd.Remote.Output.Queueing.{remote_send_pkt-Sends}
use usbfluxd.Relay.Listed.{Tracks-store, Tracks-add}
use usbfluxd.Remote.Service.Present.{has_names}
use usbfluxd.Relay.Sound.{Sound, at_update, update_there}

module _ {Plist : Type 0} ⦃lib : LibPlist Plist⦄ ⦃env : Env⦄ where
  pub linked-Sound :
      (p : Ptr) (c : MuxClient Plist) (r : RemoteMux) (w : World Plist)
      → Sound w
      → w.clients p ≡ some c
      → c.remote ≡ none
      → is_connected c.state ≡ false
      → r.client ≡ some p
      → IsValid r.ob
      → IsValid r.ib
      → has_names r ≡ true
      → Sound (linked w p c r)
  unfolding linked
  linked-Sound p c r w s live alone down back out in_ named =
      let c1 : MuxClient Plist = record c { remote = some w.next } in
      record {
        forward = λ x q d e to. elim (at_update w.clients p x c1 d e) [
          | inl (same, is_new) ↦
              (let at : w.next ≡ q = ground (arith, is_new, to) in
                (r, ground (arith, at), back ∙ ap some same))
          | inr old ↦
              (let (r', there, from) = s.forward x q d old to in
                elim (Bool-cases (w.next == q)) [
                  | inl same ↦ absurd (ground (arith, same, there, s.unused_remotes w.next))
                  | inr other ↦ (r', update_there w.remotes w.next q r r' there other, from)
                ])
        ];
        back = λ x q r' here from. elim (at_update w.remotes w.next q r r' here) [
          | inl (same, is_new) ↦
              (let at : p ≡ x = ground (arith, is_new, from, back) in
                (c1, ground (arith, at), ap some same))
          | inr old ↦
              (let (d, e, to) = s.back x q r' old from in
                elim (Bool-cases (p == x)) [
                  | inl same ↦ absurd (ground (arith, same, e, live, to, alone))
                  | inr other ↦ (d, update_there w.clients p x c1 d e other, to)
                ])
        ];
        client_linked = λ x d e up. elim (at_update w.clients p x c1 d e) [
          | inl (same, is_new) ↦ (w.next, ap (λ (m : MuxClient Plist). m.remote) is_new)
          | inr old ↦ s.client_linked x d old up
        ];
        remote_linked = λ q r' e up. elim (at_update w.remotes w.next q r r' e) [
          | inl (same, is_new) ↦ (p, ap (λ (m : RemoteMux). m.client) is_new ∙ back)
          | inr old ↦ s.remote_linked q r' old up
        ];
        sendable = λ x d e d_down. elim (at_update w.clients p x c1 d e) [
          | inl (same, is_new) ↦
              subst (λ (m : MuxClient Plist). IsValid m.ob) (sym is_new) (s.sendable p c live down)
          | inr old ↦ s.sendable x d old d_down
        ];
        remote_out = λ q r' e. elim (at_update w.remotes w.next q r r' e) [
          | inl (same, is_new) ↦ subst (λ (m : RemoteMux). IsValid m.ob) (sym is_new) out
          | inr old ↦ s.remote_out q r' old
        ];
        remote_in = λ q r' e. elim (at_update w.remotes w.next q r r' e) [
          | inl (same, is_new) ↦ subst (λ (m : RemoteMux). IsValid m.ib) (sym is_new) in_
          | inr old ↦ s.remote_in q r' old
        ];
        listeners_named = λ q r' e. elim (at_update w.remotes w.next q r r' e) [
          | inl (same, is_new) ↦ ap has_names is_new ∙ named
          | inr old ↦ s.listeners_named q r' old
        ];
        unused = λ x h. ground (arith, s.unused x, h, live);
        unused_remotes = λ q h. ground (arith, s.unused_remotes q, h);
        clients_listed = Tracks-store w.client_list w.clients p c c1 s.clients_listed live;
        remotes_listed =
            Tracks-add w.remote_list w.remotes w.next r s.remotes_listed
              (s.unused_remotes w.next (omega arith));
        clients_free = s.clients_free;
        remotes_free = refl;
      }

module _ {Plist : Type 0} ⦃lib : LibPlist Plist⦄ ⦃env : Env⦄ where
  pub Route-in : (w : World Plist) (id : ℕ) (r : RemoteMux) → Route w id r → IsValid r.ib
  unfolding new_remote
  Route-in w id r (to_local fd z e) = (malloc-IsValid (reply_buf_size * 8) (omega arith)).0
  Route-in w id r (to_host fd h ps q qs l o i b t hi ho e) =
      (malloc-IsValid (reply_buf_size * 8) (omega arith)).0

  pub Route-names : (w : World Plist) (id : ℕ) (r : RemoteMux) → Route w id r → has_names r ≡ true
  unfolding new_remote
  Route-names w id r (to_local fd z e) = refl
  Route-names w id r (to_host fd h ps q qs l o i b t hi ho e) = refl

  -- The request is queued or not; the remote keeps its client and its buffers.
  pub requests :
      (device_id : ℕ) (req : Plist) (r : RemoteMux)
      → IsValid r.ob
      → IsValid r.ib
      → r.ob.capacity ≡ reply_buf_size
      → ((xml : List ℕ) → lib.to_xml (request device_id req) ≡ some xml → length xml < 2 ^ 31)
      → (res : Option ℕ) × (r' : RemoteMux) × (remote_send_plist_pkt 0 (request device_id req) r
          ≡ some (res, r'))
        × (r'.client ≡ r.client)
        × (has_names r' ≡ has_names r)
        × IsValid r'.ob
        × IsValid r'.ib
  requests device_id req r out in_ cap small =
      elim (Option-cases (lib.to_xml (request device_id req))) [
        | inl lost ↦ (none, r, send_unwritten (request device_id req) r lost, refl, refl, out, in_)
        | inr (xml, made) ↦
            elim (remote_send_pkt-Sends 0 message_plist xml r out
              (omega (arith, cap, small xml made)) (small xml made)) [
                | inl (e, full) ↦
                    (none, r, send_xml (request device_id req) xml r made ∙ e, refl, refl, out, in_)
                | inr (r', e, q) ↦ (
                  as_int (header_size + length xml),
                  r',
                  send_xml (request device_id req) xml r made ∙ e,
                  ap (λ (m : RemoteMux). m.client) q.same,
                  ap has_names q.same,
                  q.valid,
                  subst (λ (m : RemoteMux). IsValid m.ib) (sym q.same) in_,
                )
              ]
      ]
