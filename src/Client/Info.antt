-- ===== src/Client/Info.antt =====
-- What a client's request says: the strings and numbers of a property list, and the `info` that
-- `update_client_info` keeps of it.
use usbfluxd.Prelude.{ℕ, if◌then◌else◌, Bool, true, false, Option, none, some}
use usbfluxd.Text.{CString, cstr}
use usbfluxd.System.{LibPlist, NodeType, dict_node, string_node, uint_node}

pub is_dict : NodeType → Bool
is_dict dict_node = true
is_dict _ = false

pub is_string : NodeType → Bool
is_string string_node = true
is_string _ = false

pub is_uint : NodeType → Bool
is_uint uint_node = true
is_uint _ = false

module _ {Plist : Type 0} ⦃lib : LibPlist Plist⦄ where
  -- A node, if it is a string.
  pub string_node_only : Option Plist → Option CString
  string_node_only none = none
  string_node_only (some item) =
      if is_string (lib.node_type item) then lib.get_string_val item else none

  pub plist_dict_copy_string_val : Plist → CString → Option CString
  plist_dict_copy_string_val dict key =
      if is_dict (lib.node_type dict) then string_node_only (lib.dict_get_item dict key) else none

  -- `info` with a string of the request, if that is a string.
  copy_string : CString → Plist → Plist → Plist
  copy_string key dict info = elim (string_node_only (lib.dict_get_item dict key)) [
    | none ↦ info
    | some s ↦ lib.dict_set_item info key (lib.new_string s)
  ]

  -- The number of a node, or 0, as `val` is initialised.
  pub uint_of : Plist → ℕ
  uint_of node = elim (lib.get_uint_val node) [ none ↦ 0 | some n ↦ n ]

  copy_uint : CString → Option Plist → Plist → Plist
  copy_uint key none info = info
  copy_uint key (some node) info =
      if is_uint (lib.node_type node)
      then lib.dict_set_item info key (lib.new_uint (uint_of node))
      else info

  -- The `info` that `update_client_info` makes.
  pub client_info : Plist → Plist
  client_info dict =
      let i1 = copy_string (cstr "BundleID") dict lib.new_dict in
      let i2 = copy_string (cstr "ClientVersionString") dict i1 in
      let i3 = copy_string (cstr "ProgName") dict i2 in
      copy_uint (cstr "kLibUSBMuxVersion") (lib.dict_get_item dict (cstr "kLibUSBMuxVersion")) i3

  -- The message type of a request, if there is a valid one.
  pub message_type : Plist → Option CString
  message_type dict = string_node_only (lib.dict_get_item dict (cstr "MessageType"))
