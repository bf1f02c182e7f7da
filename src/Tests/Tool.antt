-- ===== src/Tests/Tool.antt =====
-- The theorems on the command line tool, applied.
use usbfluxd.Prelude.{
  ℕ, ◌≡◌, refl, sym, true, if◌then◌else◌, ltb, some, List, [], ◌∷◌, length, drop, take, arith,
}
use usbfluxd.Text.{cstr, str_eq}
use usbfluxd.Proto.{header_size, message_plist, bytes_of_u32, bytes_of_header}
use usbfluxd.Proto.RoundTrip.{length-bytes_of_header}
use usbfluxd.Buffer.Memory.{drop-append}
use usbfluxd.System.{LibPlist}
use usbfluxd.World.{ClientState, MuxClient}
use usbfluxd.Utils.Strings.Concat.{concat}
use usbfluxd.Remote.Service.{AddResult}
use usbfluxd.Client.Command.{add_result}
use usbfluxd.Client.Notify.Answer.{packet}
use usbfluxd.Ctl.{Payload, Exchange, receive, returns}
use usbfluxd.Ctl.Receiving.{delivered, receive-delivered}
use usbfluxd.Ctl.Tool.{usbfluxd_query, handle_add}
use usbfluxd.Ctl.Tool.Answers.{Delivers, KeepsNumber, told_of_add, handle_add-told}
use usbfluxd.Tests.Node.{
  Node, dict, with_item, text, number, node_lib, get_item, number_of, remove_item,
}
use usbfluxd.Tests.Clients.{client}

abbrev pieces : List (List ℕ)
pieces = (1 ∷ 2 ∷ []) ∷ [] ∷ (3 ∷ []) ∷ []

receive-delivered_example : receive 4 [] (delivered pieces) ≡ (
    if ltb (length (concat pieces)) 4
    then Payload.waiting (concat pieces)
    else Payload.whole (concat pieces))
unfolding concat
receive-delivered_example = receive-delivered 4 pieces (omega arith)

-- A library that reads the answer to a request that went well.
abbrev reading : LibPlist Node
reading = record node_lib {
  from_xml = λ bytes. some (
      with_item (with_item dict (cstr "MessageType") (text (cstr "Result"))) (cstr "Number")
        (number 0));
}

reading-KeepsNumber : KeepsNumber Node ⦃lib = reading⦄
unfolding get_item number_of cstr str_eq
reading-KeepsNumber = record { found = λ n. refl; value = λ n. refl }

abbrev asking : MuxClient Node
asking = record (client ClientState.command) { proto_version = 1 }

abbrev answering : Exchange
answering = record {
  connected = true;
  header_sent = true;
  request_sent = true;
  header = some (take header_size (packet ⦃lib = reading⦄ asking 0 (message_plist, 60 ∷ [])));
  chunks = some (60 ∷ []) ∷ [];
  can_malloc = λ n. true;
}

answering-Delivers : Delivers (packet ⦃lib = reading⦄ asking 0 (message_plist, 60 ∷ [])) answering
unfolding concat delivered bytes_of_u32
answering-Delivers = record {
  chunks = (60 ∷ []) ∷ [];
  connected = refl;
  header_sent = refl;
  request_sent = refl;
  header = refl;
  pieces = refl;
  together = drops;
  memory = λ n. refl;
}
  where
    drops :
        concat ((60 ∷ []) ∷ [])
        ≡ drop header_size (packet ⦃lib = reading⦄ asking 0 (message_plist, 60 ∷ []))
    drops = sym (drop-append header_size (bytes_of_header _) (60 ∷ []) (length-bytes_of_header _))

handle_add-told_example :
    handle_add ⦃lib = reading⦄ (cstr "b") (λ req. usbfluxd_query ⦃lib = reading⦄ answering)
    ≡ returns (some (told_of_add AddResult.added)) (add_result AddResult.added)
unfolding add_result remove_item cstr str_eq
handle_add-told_example =
    handle_add-told ⦃lib = reading⦄ reading-KeepsNumber asking AddResult.added (cstr "b") (60 ∷ [])
      (λ req. answering) refl refl refl (omega arith) (λ req. answering-Delivers)
