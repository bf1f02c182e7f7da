-- ===== src/Ctl/Tool/Answers.antt =====
-- What `usbfluxctl add` and `usbfluxctl del` tell of the answers of the daemon.
use usbfluxd.Prelude.{
  ℕ, ◌+◌, ◌-◌, ◌%◌, ◌∙◌, ap, sym, ◌≡◌, ◌<◌, ltb, refl, true, false, Option, none, some, List, [],
  ◌++◌, length, take, drop, arith,
}
use mathlib.Core.List.{append-nil}
use mathlib.Core.Path.{subst}
use usbfluxd.Address.{host_and_port}
use usbfluxd.Text.{CString, cstr}
use usbfluxd.Proto.{Header, header_size, u32_mod, message_plist, bytes_of_header, header_at}
use usbfluxd.Proto.RoundTrip.{IsHeader, header_at-bytes_of_header, length-bytes_of_header}
use usbfluxd.Buffer.Memory.{drop-append, take-append}
use usbfluxd.System.{LibPlist}
use usbfluxd.Utils.Strings.Concat.{concat}
use usbfluxd.World.{MuxClient}
use usbfluxd.Remote.Service.{AddResult}
use usbfluxd.Client.Command.{add_result, remove_result}
use usbfluxd.Client.Notify.Answer.{result_plist, result_message, packet}
use usbfluxd.Ctl.{
  Payload, Exchange, is_answer, read_payload, answered, returns, Message, success, already_present,
  wrong_address, add_message, del_message, instance_request,
}
use usbfluxd.Ctl.Receiving.{delivered, receive-delivered}
use usbfluxd.Ctl.Tool.{usbfluxd_query, parse_payload, result_number, handle_add, handle_del}

-- The packet comes over: everything is sent and received, the header with one call of `recv`, the rest
-- in any pieces.
pub record Delivers (packet_bytes : List ℕ) (x : Exchange) : Type 0 where
  pub chunks : List (List ℕ)
  pub connected : x.connected ≡ true
  pub header_sent : x.header_sent ≡ true
  pub request_sent : x.request_sent ≡ true
  pub header : x.header ≡ some (take header_size packet_bytes)
  pub pieces : x.chunks ≡ delivered chunks
  pub together : concat chunks ≡ drop header_size packet_bytes
  pub memory : (n : ℕ) → x.can_malloc n ≡ true

-- What the tool is to say of a result.
pub told_of_add : AddResult → Message
told_of_add AddResult.added = success
told_of_add AddResult.already_present = already_present
told_of_add AddResult.add_failed = wrong_address

pub told_of_remove : Option (Unit {0}) → Message
told_of_remove none = wrong_address
told_of_remove (some _) = success

add_message-add_result : (rv : AddResult) → add_message (add_result rv) ≡ told_of_add rv
unfolding add_message add_result told_of_add
add_message-add_result AddResult.added = refl
add_message-add_result AddResult.already_present = refl
add_message-add_result AddResult.add_failed = refl

del_message-remove_result :
    (rv : Option (Unit {0})) → del_message (remove_result rv) ≡ told_of_remove rv
unfolding del_message remove_result told_of_remove
del_message-remove_result none = refl
del_message-remove_result (some _) = refl

add_result-small : (rv : AddResult) → add_result rv < u32_mod
unfolding add_result
add_result-small AddResult.added = omega arith
add_result-small AddResult.already_present = omega arith
add_result-small AddResult.add_failed = omega arith

remove_result-small : (rv : Option (Unit {0})) → remove_result rv < u32_mod
unfolding remove_result
remove_result-small none = omega arith
remove_result-small (some _) = omega arith

header_at-bytes : (h : Header) → IsHeader h → header_at (bytes_of_header h) ≡ h
header_at-bytes h v = rw (sym (append-nil (bytes_of_header h))) (header_at-bytes_of_header h [] v)

-- The header of an answer of so many bytes.
abbrev answer_header : ℕ → Header
answer_header n = record { length = header_size + n; version = 1; message = message_plist; tag = 0 }

payload_arrives :
    (x : Exchange) (xml : List ℕ)
    → Delivers (bytes_of_header (answer_header (length xml)) ++ xml) x
    → header_size + length xml < u32_mod
    → read_payload x (answer_header (length xml)) ≡ Payload.whole xml
unfolding read_payload
payload_arrives x xml d small =
    let hdr = answer_header (length xml) in
    let rest : concat d.chunks ≡ xml =
      d.together ∙ drop-append header_size (bytes_of_header hdr) xml (length-bytes_of_header hdr) in
    let total : (header_size + length xml + u32_mod - header_size) % u32_mod ≡ length xml =
      omega arith in
    let all : ltb (length (concat d.chunks)) (length xml) ≡ false = ground (arith, rest) in
    let room = d.memory (length xml) in
    rw (read_payload, total, room, d.pieces)
      (ground (arith, receive-delivered (length xml) d.chunks (ground (arith, rest)), all, rest))

module _ {Plist : Type 0} ⦃lib : LibPlist Plist⦄ where
  usbfluxd_query-Delivers :
      (x : Exchange) (xml : List ℕ)
      → Delivers (bytes_of_header (answer_header (length xml)) ++ xml) x
      → header_size + length xml < u32_mod
      → usbfluxd_query x ≡ answered (lib.from_xml xml)
  unfolding usbfluxd_query is_answer parse_payload
  usbfluxd_query-Delivers x xml d small =
      let hdr = answer_header (length xml) in
      let front : x.header ≡ some (bytes_of_header hdr) =
        d.header
        ∙ ap some
            (take-append header_size (bytes_of_header hdr) xml (length-bytes_of_header hdr)) in
      let read : header_at (bytes_of_header hdr) ≡ hdr = header_at-bytes hdr (record {
        length_in = small;
        version_in = omega arith;
        message_in = omega arith;
        tag_in = omega arith;
      }) in
      rw
        (
          usbfluxd_query,
          d.connected,
          d.header_sent,
          d.request_sent,
          front,
          length-bytes_of_header hdr,
          read,
          is_answer,
          payload_arrives x xml d small,
          parse_payload,
        )
        refl

-- Two laws of libplist: a number that was put into the dictionary of a result is found there.
pub record KeepsNumber (Plist : Type 0) ⦃lib : LibPlist Plist⦄ : Type 0 where
  pub found : (n : ℕ) → lib.dict_get_item (result_plist n) (cstr "Number") ≡ some (lib.new_uint n)
  pub value : (n : ℕ) → lib.get_uint_val (lib.new_uint n) ≡ some n

module _ {Plist : Type 0} ⦃lib : LibPlist Plist⦄ (keeps : KeepsNumber Plist) where
  result_number-result_plist :
      (n : ℕ) → n < u32_mod → result_number (result_plist {Plist = Plist} n) ≡ n
  unfolding result_number
  result_number-result_plist n small =
      rw (result_number, keeps.found n, keeps.value n) (omega arith)

  -- The daemon's answer to a request in version 1, as a packet under the tag 0, is the tool's answer.
  result_arrives :
      (c : MuxClient Plist) (n : ℕ) (xml : List ℕ) (x : Exchange)
      → c.proto_version ≡ 1
      → result_message c n ≡ some (message_plist, xml)
      → lib.from_xml xml ≡ some (result_plist n)
      → header_size + length xml < u32_mod
      → Delivers (packet c 0 (message_plist, xml)) x
      → usbfluxd_query x ≡ answered (some (result_plist {Plist = Plist} n))
  result_arrives c n xml x version made parsed small d =
      usbfluxd_query-Delivers x xml
        (subst
          (λ (v : ℕ).
            Delivers
              (bytes_of_header (record {
                length = header_size + length xml;
                version = v;
                message = message_plist;
                tag = 0;
              })
                ++ xml)
              x)
          version d)
        small
      ∙ ap answered parsed

  -- What `usbfluxctl add` says of the daemon's answer to its request, that the daemon sends in version 1
  -- and under the tag 0, that libplist writes and reads back and that is delivered in any pieces: success
  -- where the instance was added, that it is already present where the daemon has it, and that the
  -- address may be wrong where no connection was made; the exit status is the daemon's number.
  pub handle_add-told :
      (c : MuxClient Plist) (rv : AddResult) (arg : CString) (xml : List ℕ) (x : CString → Exchange)
      → c.proto_version ≡ 1
      → result_message c (add_result rv) ≡ some (message_plist, xml)
      → lib.from_xml xml ≡ some (result_plist (add_result rv))
      → header_size + length xml < u32_mod
      → ((req : CString) → Delivers (packet c 0 (message_plist, xml)) (x req))
      → handle_add {Plist = Plist} arg (λ req. usbfluxd_query (x req))
        ≡ returns (some (told_of_add rv)) (add_result rv)
  unfolding handle_add
  handle_add-told c rv arg xml x version made parsed small d =
      let req = instance_request (cstr "AddInstance") (host_and_port arg) in
      rw
        (
          handle_add,
          result_arrives c (add_result rv) xml (x req) version made parsed small (d req),
          result_number-result_plist (add_result rv) (add_result-small rv),
          add_message-add_result rv,
        )
        refl

  -- The same of `usbfluxctl del`: success where an instance was removed, and that the address may be
  -- wrong where there is none.
  pub handle_del-told :
      (c : MuxClient Plist) (rv : Option (Unit {0})) (arg : CString) (xml : List ℕ)
      (x : CString → Exchange)
      → c.proto_version ≡ 1
      → result_message c (remove_result rv) ≡ some (message_plist, xml)
      → lib.from_xml xml ≡ some (result_plist (remove_result rv))
      → header_size + length xml < u32_mod
      → ((req : CString) → Delivers (packet c 0 (message_plist, xml)) (x req))
      → handle_del {Plist = Plist} arg (λ req. usbfluxd_query (x req))
        ≡ returns (some (told_of_remove rv)) (remove_result rv)
  unfolding handle_del
  handle_del-told c rv arg xml x version made parsed small d =
      let req = instance_request (cstr "RemoveInstance") (host_and_port arg) in
      rw
        (
          handle_del,
          result_arrives c (remove_result rv) xml (x req) version made parsed small (d req),
          result_number-result_plist (remove_result rv) (remove_result-small rv),
          del_message-remove_result rv,
        )
        refl
