-- ===== src/Tests/Requests.antt =====
-- The theorems on requests that go to a remote, applied.
use usbfluxd.Prelude.{◌==◌, ◌≡◌, refl, true, false, none, some, [], ◌∷◌, if◌then◌else◌, arith}
use usbfluxd.Text.{cstr, str_eq, strtol_hex, hex_value, digit_value}
use usbfluxd.DeviceId.{remote_mux_id}
use usbfluxd.Utils.Collection.{elements, visit}
use usbfluxd.World.{ClientState, RemoteState, RemoteCommand, World, MuxClient, RemoteMux}
use usbfluxd.Remote.Connect.{
  buid_remote_id, serial_of, new_remote, usbmux_remote_read_buid, usbmux_remote_read_pair_record,
  usbmux_remote_save_pair_record, usbmux_remote_delete_pair_record,
}
use usbfluxd.Remote.Connect.Routing.{Route, to_host, none_passed}
use usbfluxd.Remote.Connect.Forwarding.{Forwards, usbmux_remote_connect-Forwards}
use usbfluxd.Remote.Connect.Records.{
  Found, none_differs, empty, first, has_serial, usbmux_remote_pair_record-null,
}
use usbfluxd.Client.Output.{access_path}
use usbfluxd.Remote.Connect.Asking.{Asked}
use usbfluxd.Remote.Connect.Requests.{
  usbmux_remote_read_buid-Asked, usbmux_remote_read_pair_record-Asked,
}
use usbfluxd.Tests.Node.{Node, dict, with_item, text, node_lib, items, get_item, text_of}
use usbfluxd.Tests.Clients.{calm, version, client, remote, world}

-- An instance on another host that listens with the id 3.
abbrev pub listener : RemoteMux
listener = record remote {
  state = RemoteState.listen;
  id = 3;
  is_listener = true;
  is_unix = false;
  host = some (cstr "b");
  port = 5000;
  client = none;
}

-- One device of it, with the serial number "s".
abbrev device : Node
device = with_item dict (cstr "Properties") (with_item dict (cstr "SerialNumber") (text (cstr "s")))

abbrev asking : MuxClient Node
asking = client ClientState.command

abbrev pub network : World Node
network = record (world asking) {
  remotes = λ p. if p == 1 then some listener else none;
  remote_list = record { list = some 1 ∷ []; capacity = 1 };
  remote_device_list = with_item dict (cstr "0x03000005") device;
}

-- The route to the listener.
abbrev pub opened : RemoteMux
opened = record (new_remote 9 0) { host = some (cstr "b"); port = 5000 }

listener-Route : Route network 3 opened
unfolding elements visit
listener-Route = to_host 9 (cstr "b") [] 1 [] listener refl refl none_passed refl refl refl refl

usbmux_remote_connect-Forwards_example :
    Forwards 0x0300_0005 4 dict 0 network asking opened (60 ∷ [])
unfolding remote_mux_id
usbmux_remote_connect-Forwards_example =
    usbmux_remote_connect-Forwards 0x0300_0005 4 dict 0 network asking opened (60 ∷ [])
      listener-Route refl refl refl (omega arith)

usbmux_remote_read_buid-Asked_example :
    Asked network 0 asking opened RemoteCommand.cmd_read_buid 4
      (60 ∷ [])
      (usbmux_remote_read_buid 4 0 network)
    × (opened.id ≡ 0)
unfolding buid_remote_id remote_mux_id strtol_hex hex_value digit_value cstr items
usbmux_remote_read_buid-Asked_example =
    usbmux_remote_read_buid-Asked 4 0 network asking opened (60 ∷ []) listener-Route refl refl refl
      (omega arith)

device-Found : Found (cstr "s") (items network.remote_device_list) 0x0300_0005
unfolding items strtol_hex hex_value digit_value cstr has_serial serial_of access_path get_item
    text_of str_eq
device-Found = first [] (cstr "0x03000005") device [] refl none_differs refl

usbmux_remote_read_pair_record-Asked_example :
    Asked network 0 asking opened RemoteCommand.cmd_read_pair_record 4
      (60 ∷ [])
      (usbmux_remote_read_pair_record (some (cstr "s")) 4 0 network)
unfolding remote_mux_id
usbmux_remote_read_pair_record-Asked_example =
    usbmux_remote_read_pair_record-Asked (cstr "s") 0x0300_0005 4 0 network asking opened (60 ∷ [])
      device-Found listener-Route refl refl refl (omega arith)

usbmux_remote_pair_record-null_example :
    (usbmux_remote_read_pair_record none 4 0 network ≡ none)
    × (usbmux_remote_save_pair_record none dict 4 0 network ≡ none)
    × (usbmux_remote_delete_pair_record none 4 0 network ≡ none)
unfolding items cstr serial_of access_path get_item text_of str_eq
usbmux_remote_pair_record-null_example =
    usbmux_remote_pair_record-null dict 4 0 [] (cstr "0x03000005") device [] (cstr "s") network refl
      refl empty refl
