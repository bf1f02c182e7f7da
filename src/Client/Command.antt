-- ===== src/Client/Command.antt =====
-- The commands of a client: `client_command` of usbfluxd/client.c and what it calls. A result `none`
-- is a negative result of the code.
pub mod Connected
pub mod Unreadable
use usbfluxd.Prelude.{
  ℕ, ◌-◌, ◌%◌, ◌==◌, ◌&&◌, if◌then◌else◌, not, Option, none, some, List, take, drop,
}
use usbfluxd.Text.{CString, cstr, str_eq}
use usbfluxd.Proto.{
  Header, u32_mod, u16_mod, header_size, connect_device_id, connect_port, result_ok,
  result_badcommand, result_baddev, result_connrefused, result_badversion, message_connect,
  message_listen, message_plist,
}
use usbfluxd.Utils.Collection.{Ptr}
use usbfluxd.System.{LibPlist, Env}
use usbfluxd.World.{ClientState, World}
use usbfluxd.World.Monad.{M, pure, ◌>>=◌, ◌>>◌, read_client, write_client, on_client}
use usbfluxd.Client.Events.{is_command}
use usbfluxd.Client.Output.{send_result, send_plist_pkt, notify_all}
use usbfluxd.Client.Close.{client_close}
use usbfluxd.Client.Lists.{usbmux_remote_copy_device_list, device_list, listener_list, instances}
use usbfluxd.Client.Info.{client_info, message_type, plist_dict_copy_string_val, uint_of}
use usbfluxd.Remote.Output.{Version}
use usbfluxd.Remote.Connect.{
  usbmux_remote_connect, usbmux_remote_read_buid, usbmux_remote_read_pair_record,
  usbmux_remote_save_pair_record, usbmux_remote_delete_pair_record,
}
use usbfluxd.Remote.Service.{
  AddResult, added, add_failed, already_present, usbmux_remote_add_remote,
  usbmux_remote_remove_remote,
}

-- What `client_command` returns when it has done its work with no count to report.
abbrev pub handled : Option ℕ
handled = some 0

-- The test on the result of a send that closes most branches.
after_send : Option ℕ → Option ℕ
after_send none = none
after_send (some n) = handled

-- A request that went to a remote: -1 if it did not.
forwarded : Option (Unit {0}) → Option ℕ
forwarded none = none
forwarded (some _) = handled

unfoldable pub add_result : AddResult → ℕ
add_result added = result_ok
add_result already_present = result_baddev
add_result add_failed = result_connrefused

unfoldable pub remove_result : Option (Unit {0}) → ℕ
remove_result none = result_baddev
remove_result (some _) = result_ok

module _ {Plist : Type 0} ⦃lib : LibPlist Plist⦄ ⦃env : Env⦄ where
  -- `if (send_result(client, tag, result) < 0) return -1; return 0;`
  pub reply : Ptr → ℕ → ℕ → M (World Plist) (Option ℕ)
  reply p tag result = do res ← on_client p (send_result tag result); pure (after_send res)

  pub reply_plist : Ptr → ℕ → Plist → M (World Plist) (Option ℕ)
  reply_plist p tag plist = do res ← on_client p (send_plist_pkt tag plist); pure (after_send res)

  -- How many of the devices that are there the new listener was told of.
  pub start_listen : Ptr → M (World Plist) ℕ
  start_listen p = do
    c ← read_client p
    write_client p (record c { state = ClientState.listen })
    devices ← usbmux_remote_copy_device_list
    on_client p (notify_all (lib.array_items devices) 0)

  pub listen_command : Ptr → ℕ → M (World Plist) (Option ℕ)
  listen_command p tag = do
    res ← on_client p (send_result tag 0)
    elim res [ none ↦ pure none | some _ ↦ (do count ← start_listen p; pure (some count)) ]

  pub update_client_info : Ptr → Plist → M (World Plist) (Unit {0})
  update_client_info p dict = do
    c ← read_client p
    write_client p (record c { info = some (client_info dict) })

  -- What follows `usbmux_remote_connect`.
  pub connected_to : Ptr → ℕ → ℕ → Option (Unit {0}) → M (World Plist) (Option ℕ)
  connected_to p tag device_id none = reply p tag result_badcommand
  connected_to p tag device_id (some _) = do
    c ← read_client p
    write_client p (record c {
      connect_tag = tag;
      connect_device = device_id;
      state = ClientState.connecting1;
    })
    pure handled

  -- "Connect".
  pub connect_command : Ptr → ℕ → Plist → M (World Plist) (Option ℕ)
  connect_command p tag dict = elim (lib.dict_get_item dict (cstr "DeviceID")) [
    | none ↦ reply p tag result_baddev
    | some node ↦ elim (lib.dict_get_item dict (cstr "PortNumber")) [
      | none ↦ reply p tag result_badcommand
      | some _ ↦ (do
        let device_id = uint_of node % u32_mod
        res ← usbmux_remote_connect device_id tag dict p
        connected_to p tag device_id res)
    ]
  ]

  -- "AddInstance" and "RemoveInstance": the host and the port of the request, or a refusal.
  pub with_instance :
      Ptr → ℕ → Plist → (CString → ℕ → M (World Plist) (Option ℕ)) → M (World Plist) (Option ℕ)
  with_instance p tag dict action = elim (plist_dict_copy_string_val dict (cstr "HostAddress")) [
    | none ↦ reply p tag result_badcommand
    | some hostaddr ↦ elim (lib.dict_get_item dict (cstr "PortNumber")) [
      | none ↦ reply p tag result_badcommand
      | some node ↦ action hostaddr (uint_of node % u16_mod)
    ]
  ]

  pub add_instance : ⦃v : Version⦄ → Ptr → ℕ → CString → ℕ → M (World Plist) (Option ℕ)
  add_instance p tag hostaddr portnum = do
    rv ← usbmux_remote_add_remote hostaddr portnum
    reply p tag (add_result rv)

  pub remove_instance : Ptr → ℕ → CString → ℕ → M (World Plist) (Option ℕ)
  remove_instance p tag hostaddr portnum = do
    rv ← usbmux_remote_remove_remote hostaddr portnum
    reply p tag (remove_result rv)

  -- The chain of `strcmp` on the message type of a property list.
  pub plist_command : ⦃v : Version⦄ → Ptr → ℕ → Plist → CString → M (World Plist) (Option ℕ)
  plist_command p tag dict message =
      if str_eq message (cstr "Listen")
      then listen_command p tag
      else if str_eq message (cstr "Connect")
      then connect_command p tag dict
      else if str_eq message (cstr "ListDevices")
      then (do list ← device_list; reply_plist p tag list)
      else if str_eq message (cstr "ListListeners")
      then (do list ← listener_list; reply_plist p tag list)
      else if str_eq message (cstr "ReadBUID")
      then (do res ← usbmux_remote_read_buid tag p; pure handled)
      else if str_eq message (cstr "ReadPairRecord")
      then (do
        res ←
            usbmux_remote_read_pair_record (plist_dict_copy_string_val dict (cstr "PairRecordID"))
              tag p
        pure (forwarded res))
      else if str_eq message (cstr "SavePairRecord")
      then (do
        res ←
            usbmux_remote_save_pair_record (plist_dict_copy_string_val dict (cstr "PairRecordID"))
              dict tag p
        pure (forwarded res))
      else if str_eq message (cstr "DeletePairRecord")
      then (do
        res ←
            usbmux_remote_delete_pair_record (plist_dict_copy_string_val dict (cstr "PairRecordID"))
              tag p
        pure (forwarded res))
      else if str_eq message (cstr "Instances")
      then (do list ← instances; reply_plist p tag list)
      else if str_eq message (cstr "AddInstance")
      then with_instance p tag dict (add_instance p tag)
      else if str_eq message (cstr "RemoveInstance")
      then with_instance p tag dict (remove_instance p tag)
      else reply p tag result_badcommand

  -- `case MESSAGE_PLIST`.
  pub plist_packet : ⦃v : Version⦄ → Ptr → ℕ → List ℕ → M (World Plist) (Option ℕ)
  plist_packet p tag payload = do
    c ← read_client p
    write_client p (record c { proto_version = 1 })
    elim (lib.from_xml payload) [
      | none ↦ pure none
      | some dict ↦ elim (message_type dict) [
        | none ↦ pure none
        | some message ↦ (do update_client_info p dict; plist_command p tag dict message)
      ]
    ]

  -- `case MESSAGE_CONNECT`: the fields of the packet, as a property list.
  pub connect_packet : Ptr → ℕ → List ℕ → M (World Plist) (Option ℕ)
  connect_packet p tag bytes = do
    let device_id = connect_device_id bytes
    let m1 = lib.dict_set_item lib.new_dict (cstr "MessageType") (lib.new_string (cstr "Connect"))
    let m2 = lib.dict_set_item m1 (cstr "DeviceID") (lib.new_uint device_id)
    let msg = lib.dict_set_item m2 (cstr "PortNumber") (lib.new_uint (connect_port bytes))
    res ← usbmux_remote_connect device_id tag msg p
    connected_to p tag device_id res

  -- A command in any other state than CLIENT_COMMAND ends the client, unless the answer fails.
  wrong_state : Ptr → ℕ → M (World Plist) (Option ℕ)
  wrong_state p tag = do
    res ← on_client p (send_result tag result_badcommand)
    elim res [ none ↦ pure none | some _ ↦ (do client_close p; pure none) ]

  -- `client_command`, on the bytes of the input buffer.
  pub client_command : ⦃v : Version⦄ → Ptr → Header → List ℕ → M (World Plist) (Option ℕ)
  client_command p hdr bytes = do
    c ← read_client p
    if not (is_command c.state)
        then wrong_state p hdr.tag
        else if not (hdr.version == 0) && not (hdr.version == 1)
        then (do res ← on_client p (send_result hdr.tag result_badversion); pure handled)
        else if hdr.message == message_plist
        then plist_packet p hdr.tag (take (hdr.length - header_size) (drop header_size bytes))
        else if hdr.message == message_listen
        then listen_command p hdr.tag
        else if hdr.message == message_connect
        then connect_packet p hdr.tag bytes
        else reply p hdr.tag result_badcommand
