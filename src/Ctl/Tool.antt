-- ===== src/Ctl/Tool.antt =====
-- The commands of tools/usbfluxctl.c, on what the daemon answers.
pub mod Answers
use usbfluxd.Prelude.{
  ℕ, ◌%◌, ◌^◌, ◌==◌, ◌&&◌, Bool, true, false, if◌then◌else◌, Option, none, some, List, [], ◌∷◌,
  ◌++◌, length,
}
use usbfluxd.Text.{CString, cstr, str_eq}
use usbfluxd.Proto.{header_size, u32_mod, header_at}
use usbfluxd.System.{LibPlist, NodeType}
use usbfluxd.Address.{host_and_port}
use usbfluxd.Client.Info.{is_dict, is_string, is_uint}
use usbfluxd.Ctl.{
  Payload, Exchange, is_answer, read_payload, Queried, answered, unanswered, Handled, returns,
  hangs, Message, Line, local_instance, remote_instance, device, minus_one, add_message,
  del_message, instance_request, list_request, listeners_request,
}

is_bool : NodeType → Bool
is_bool NodeType.bool_node = true
is_bool _ = false

-- What a command prints, as output of the program.
printed : {A B : Type 0} → (A → B) → Handled A → Handled B
printed f (returns a result) = returns (f a) result
printed f hangs = hangs

module _ {Plist : Type 0} ⦃lib : LibPlist Plist⦄ where
  pub plist_dict_get_uint_val : Plist → CString → ℕ
  plist_dict_get_uint_val dict key =
      if is_dict (lib.node_type dict)
      then elim (lib.dict_get_item dict key) [
        | none ↦ 0
        | some node ↦
            if is_uint (lib.node_type node)
            then elim (lib.get_uint_val node) [ none ↦ 0 | some n ↦ n ]
            else 0
      ]
      else 0

  pub plist_dict_copy_string_val : Plist → CString → Option CString
  plist_dict_copy_string_val dict key =
      if is_dict (lib.node_type dict)
      then elim (lib.dict_get_item dict key) [
        | none ↦ none
        | some node ↦ if is_string (lib.node_type node) then lib.get_string_val node else none
      ]
      else none

  pub parse_payload : Payload → Queried Plist
  parse_payload Payload.broken = answered none
  parse_payload (Payload.whole bytes) = answered (lib.from_xml bytes)
  parse_payload (Payload.waiting bytes) = unanswered

  -- The requests are sent as `sent_bytes` says; this is what comes of it.
  pub usbfluxd_query : Exchange → Queried Plist
  usbfluxd_query x =
      if x.connected && x.header_sent && x.request_sent
      then elim x.header [
        | none ↦ answered none
        | some bytes ↦
            if length bytes == header_size && is_answer (header_at bytes)
            then parse_payload (read_payload x (header_at bytes))
            else answered none
      ]
      else answered none

  -- The lines of one instance; a missing array of devices has no elements.
  pub device_lines : List Plist → List Line
  device_lines [] = []
  device_lines (dev ∷ devs) = device (lib.get_string_val dev) ∷ device_lines devs

  -- `(int)val` of the number in an answer, or -1.
  pub result_number : Plist → ℕ
  result_number pl = elim (lib.dict_get_item pl (cstr "Number")) [
    | none ↦ minus_one
    | some node ↦ elim (lib.get_uint_val node) [ none ↦ 0 | some val ↦ val % u32_mod ]
  ]

  pub handle_add : CString → (CString → Queried Plist) → Handled (Option Message)
  handle_add arg ask = elim (ask (instance_request (cstr "AddInstance") (host_and_port arg))) [
    | answered none ↦ returns none minus_one
    | answered (some pl) ↦ returns (some (add_message (result_number pl))) (result_number pl)
    | unanswered ↦ hangs
  ]

  pub handle_del : CString → (CString → Queried Plist) → Handled (Option Message)
  handle_del arg ask = elim (ask (instance_request (cstr "RemoveInstance") (host_and_port arg))) [
    | answered none ↦ returns none minus_one
    | answered (some pl) ↦ returns (some (del_message (result_number pl))) (result_number pl)
    | unanswered ↦ hangs
  ]

  pub handle_listeners : (CString → Queried Plist) → Handled (Option Plist)
  handle_listeners ask = elim (ask listeners_request) [
    | answered pl ↦ returns pl 0
    | unanswered ↦ hangs
  ]

-- What `list` prints: a text, or lines. `puts` of NULL is a fault, which is no output here.
pub data Listing : Type 0 where
  nothing : Listing
  text : Option (List ℕ) → Listing
  lines : List Line → Listing

-- What the command prints.
pub data Output (Plist : Type 0) : Type 0 where
  usage : Output Plist
  told : Option Message → Output Plist
  listed : Listing → Output Plist
  listeners : Option Plist → Output Plist

-- With `get_bool_val` of libplist.
module _ {Plist : Type 0} ⦃lib : LibPlist Plist⦄ (get_bool_val : Plist → Option Bool) where
  pub plist_dict_get_bool_val : Plist → CString → Bool
  plist_dict_get_bool_val dict key =
      if is_dict (lib.node_type dict)
      then elim (lib.dict_get_item dict key) [
        | none ↦ false
        | some node ↦
            if is_bool (lib.node_type node)
            then elim (get_bool_val node) [ none ↦ false | some b ↦ b ]
            else false
      ]
      else false

  pub instance_lines : CString → Plist → List Line
  instance_lines key node =
      let devices : List Plist = elim (lib.dict_get_item node (cstr "Devices")) [
        | none ↦ []
        | some array ↦ lib.array_items array
      ] in
      (if plist_dict_get_bool_val node (cstr "IsUnix")
        then local_instance key (length devices)
        else remote_instance key (plist_dict_copy_string_val node (cstr "Host"))
            (plist_dict_get_uint_val node (cstr "Port") % 2 ^ 16) (length devices))
      ∷ device_lines devices

  pub all_lines : List (CString × Plist) → List Line
  all_lines [] = []
  all_lines ((key, node) ∷ items) = instance_lines key node ++ all_lines items

  -- A missing dictionary has no items.
  pub list_lines : Plist → List Line
  list_lines pl = elim (lib.dict_get_item pl (cstr "Instances")) [
    | none ↦ []
    | some insts ↦ all_lines (lib.dict_items insts)
  ]

  pub listing : Option CString → Plist → Listing
  listing none pl = lines (list_lines pl)
  listing (some arg) pl =
      if str_eq arg (cstr "xml") then text (lib.to_xml pl) else lines (list_lines pl)

  pub handle_list : Option CString → (CString → Queried Plist) → Handled Listing
  handle_list arg ask = elim (ask list_request) [
    | answered none ↦ returns nothing minus_one
    | answered (some pl) ↦ returns (listing arg pl) minus_one
    | unanswered ↦ hangs
  ]

  -- The commands by their arguments, without the name of the program.
  pub run_command : List CString → (CString → Queried Plist) → Handled (Output Plist)
  run_command [] ask = returns usage minus_one
  run_command (command ∷ args) ask =
      if str_eq command (cstr "add")
      then elim args [ [] ↦ returns usage minus_one | arg ∷ _ ↦ printed told (handle_add arg ask) ]
      else if str_eq command (cstr "del")
      then elim args [ [] ↦ returns usage minus_one | arg ∷ _ ↦ printed told (handle_del arg ask) ]
      else if str_eq command (cstr "list")
      then elim args [
        | [] ↦ printed listed (handle_list none ask)
        | arg ∷ _ ↦ printed listed (handle_list (some arg) ask)
      ]
      else if str_eq command (cstr "listeners")
      then printed listeners (handle_listeners ask)
      else returns usage minus_one

  -- `main`, with what comes of each request.
  pub main : List CString → (CString → Exchange) → Handled (Output Plist)
  main args daemon = run_command args (λ req. usbfluxd_query (daemon req))
