-- ===== src/Tests/Node.antt =====
-- A small property list library, enough to run the handlers on.
use usbfluxd.Prelude.{ℕ, Bool, Option, none, some, List, [], ◌∷◌, ◌++◌, if◌then◌else◌, ◌==◌}
use usbfluxd.Text.{CString, str_eq}
use usbfluxd.System.{NodeType, LibPlist}

-- A dictionary and an array are chains of their items, the last one first.
pub data Node : Type 0 where
  text : CString → Node
  number : ℕ → Node
  flag : Bool → Node
  dict : Node
  with_item : Node → CString → Node → Node
  array : Node
  with_element : Node → Node → Node

unfoldable pub get_item : Node → CString → Option Node
get_item (with_item d k v) key = let rest = get_item d key in if str_eq k key then some v else rest
get_item _ key = none

unfoldable pub remove_item : Node → CString → Node
remove_item (with_item d k v) key =
    let rest = remove_item d key in if str_eq k key then rest else with_item rest k v
remove_item d key = d

unfoldable pub items : Node → List (CString × Node)
items (with_item d k v) = items d ++ (k, v) ∷ []
items _ = []

unfoldable pub elements : Node → List Node
elements (with_element a v) = elements a ++ v ∷ []
elements _ = []

unfoldable pub kind : Node → NodeType
kind (text s) = NodeType.string_node
kind (number n) = NodeType.uint_node
kind (flag b) = NodeType.bool_node
kind dict = NodeType.dict_node
kind (with_item d k v) = NodeType.dict_node
kind array = NodeType.array_node
kind (with_element a v) = NodeType.array_node

unfoldable pub text_of : Node → Option CString
text_of (text s) = some s
text_of _ = none

unfoldable pub number_of : Node → Option ℕ
number_of (number n) = some n
number_of _ = none

-- No node for a text with a zero byte in front.
unfoldable pub parse : List ℕ → Option Node
parse [] = none
parse (b ∷ bytes) = if b == 0 then none else some dict

-- A text of one byte is written for every node.
instance abbrev pub node_lib : LibPlist Node
node_lib = record {
  from_xml = parse;
  to_xml = λ n. some (60 ∷ []);
  node_type = kind;
  new_dict = dict;
  new_array = array;
  new_string = text;
  new_uint = number;
  new_bool = flag;
  dict_get_item = get_item;
  dict_set_item = λ d k v. with_item (remove_item d k) k v;
  dict_remove_item = remove_item;
  dict_items = items;
  array_append_item = with_element;
  array_items = elements;
  get_string_val = text_of;
  get_uint_val = number_of;
}
