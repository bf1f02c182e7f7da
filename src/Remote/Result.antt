-- ===== src/Remote/Result.antt =====
-- The packets that a remote sends: `message_get_result`, `create_device_attached_plist` and
-- `remote_handle_command_result` of usbfluxd/usbmux_remote.c.
pub mod Answered
use usbfluxd.Prelude.{
  ℕ, ◌-◌, ◌%◌, ◌==◌, ◌&&◌, if◌then◌else◌, Bool, true, false, not, Option, none, some, List, take,
  drop,
}
use usbfluxd.Text.{CString, cstr, str_eq, device_key}
use usbfluxd.DeviceId.{device_id}
use usbfluxd.Proto.{
  Header, u32_mod, header_size, header_at, u32_at, message_result, message_device_add,
  message_device_remove, message_plist,
}
use usbfluxd.Utils.Collection.{Ptr}
use usbfluxd.System.{LibPlist, Env, no_events}
use usbfluxd.World.{
  RemoteState, RemoteCommand, minus_one, zero_command, cmd_listen, cmd_read_pair_record,
  cmd_save_pair_record, cmd_delete_pair_record, cmd_read_buid, World,
}
use usbfluxd.World.Monad.{
  M, pure, fault, ◌>>=◌, ◌>>◌, modify, deref, read_remote, write_remote, on_client, lock_remotes,
  unlock_remotes,
}
use usbfluxd.Client.Output.{client_send_packet_data}
use usbfluxd.Client.Notify.{client_notify_connect, client_device_add, client_device_remove}

-- What a packet says of devices: one that came, one that went, or none.
pub data DeviceChange : Type 0 where
  no_change attached detached : DeviceChange

abbrev is_text : Option CString → CString → Bool
is_text none t = false
is_text (some s) t = str_eq s t

module _ {Plist : Type 0} ⦃lib : LibPlist Plist⦄ where
  -- The text of a node that may be missing.
  pub text_of : Option Plist → Option CString
  text_of none = none
  text_of (some node) = lib.get_string_val node

  -- The number of a node that is there, or `u64val` as it was initialised.
  uint_or : ℕ → Plist → ℕ
  uint_or d node = elim (lib.get_uint_val node) [ none ↦ d | some n ↦ n ]

  pub plist_result : Plist → ℕ
  plist_result msg =
      if is_text (text_of (lib.dict_get_item msg (cstr "MessageType"))) (cstr "Result")
      then elim (lib.dict_get_item msg (cstr "Number")) [
        | none ↦ 0xbaad
        | some node ↦ uint_or 0xfeed node % u32_mod
      ]
      else 0xbaad

  pub message_get_result : Header → List ℕ → Option Plist → ℕ
  message_get_result hdr payload msg =
      if hdr.message == message_result
      then u32_at payload 0
      else elim msg [ none ↦ 0xbaad | some m ↦ plist_result m ]

  -- What a property list says: an attached or detached device.
  plist_change : Plist → DeviceChange
  plist_change msg =
      let t = text_of (lib.dict_get_item msg (cstr "MessageType")) in
      if is_text t (cstr "Attached")
      then attached
      else if is_text t (cstr "Detached")
      then detached
      else no_change

  -- The device id of a property list, among those of the remote.
  plist_device : ℕ → Plist → ℕ
  plist_device id msg = elim (lib.dict_get_item msg (cstr "DeviceID")) [
    | none ↦ 0
    | some node ↦ device_id id (uint_or 0 node)
  ]

  -- `type` and `devid`.
  pub device_change : ℕ → Header → List ℕ → Option Plist → DeviceChange × ℕ
  device_change id hdr payload msg =
      if hdr.message == message_device_add
      then (attached, device_id id (u32_at payload 0))
      else if hdr.message == message_device_remove
      then (detached, device_id id (u32_at payload 0))
      else elim msg [ none ↦ (no_change, 0) | some m ↦ (plist_change m, plist_device id m) ]

  -- The message with the device id that the clients are to see.
  pub renumbered : ℕ → Plist → Plist
  renumbered devid msg =
      let m1 = lib.dict_set_item msg (cstr "DeviceID") (lib.new_uint devid) in
      elim (lib.dict_get_item m1 (cstr "Properties")) [
        | none ↦ m1
        | some props ↦
            lib.dict_set_item m1 (cstr "Properties")
              (lib.dict_set_item props (cstr "DeviceID") (lib.new_uint devid))
      ]

module _ {Plist : Type 0} ⦃lib : LibPlist Plist⦄ ⦃env : Env⦄ where
  -- A device that was attached. Without a property list the code follows a pointer that it takes from
  -- the packet (`di->serial`), which is a fault here.
  pub device_attached : Option Plist → ℕ → M (World Plist) (Unit {0})
  device_attached none devid = fault
  device_attached (some msg) devid = do
    let dev = renumbered devid msg
    lock_remotes
    modify (λ w. record w {
      remote_device_list = lib.dict_set_item w.remote_device_list (device_key devid) dev;
    })
    client_device_add dev
    unlock_remotes

  pub device_detached : ℕ → M (World Plist) (Unit {0})
  device_detached devid = do
    lock_remotes
    modify (λ w. record w {
      remote_device_list = lib.dict_remove_item w.remote_device_list (device_key devid);
    })
    client_device_remove devid
    unlock_remotes

  -- REMOTE_LISTEN.
  pub apply_change : DeviceChange × ℕ → Option Plist → M (World Plist) (Unit {0})
  apply_change (no_change, devid) msg = pure tt
  apply_change (attached, devid) msg = device_attached msg devid
  apply_change (detached, devid) msg = device_detached devid

  -- The answer to a request goes to the client as it is.
  pub forward : Ptr → Header → List ℕ → M (World Plist) (Unit {0})
  forward p hdr payload = do
    r ← read_remote p
    client ← deref r.client
    res ← on_client client (client_send_packet_data hdr (take (hdr.length - header_size) payload))
    pure tt

  -- The answer to "Listen".
  pub listen_answer : Ptr → ℕ → M (World Plist) (Unit {0})
  listen_answer p result = do
    r ← read_remote p
    if result == 0 then write_remote p (record r { state = RemoteState.listen }) else pure tt

  answer_of : RemoteCommand → Ptr → Header → List ℕ → Option Plist → M (World Plist) (Unit {0})
  answer_of cmd_listen p hdr payload msg = listen_answer p (message_get_result hdr payload msg)
  answer_of cmd_read_buid p hdr payload msg = forward p hdr payload
  answer_of cmd_read_pair_record p hdr payload msg = forward p hdr payload
  answer_of cmd_save_pair_record p hdr payload msg = forward p hdr payload
  answer_of cmd_delete_pair_record p hdr payload msg = forward p hdr payload
  answer_of minus_one p hdr payload msg = pure tt
  answer_of zero_command p hdr payload msg = pure tt

  -- REMOTE_COMMAND.
  pub command_answer : Ptr → Header → List ℕ → Option Plist → M (World Plist) (Unit {0})
  command_answer p hdr payload msg = do
    r ← read_remote p
    answer_of r.last_command p hdr payload msg
    r' ← read_remote p
    write_remote p (record r' { last_command = minus_one })

  -- REMOTE_CONNECTING1.
  pub connect_answer : Ptr → ℕ → M (World Plist) (Unit {0})
  connect_answer p result = do
    r ← read_remote p
    client ← deref r.client
    res ← on_client client (client_notify_connect result)
    if result == 0
        then write_remote p (record r {
          state = RemoteState.connected;
          events = record no_events { pollin = true; pollout = true };
        })
        else pure tt

  in_state : RemoteState → Ptr → Header → List ℕ → Option Plist → M (World Plist) (Unit {0})
  in_state RemoteState.command p hdr payload msg = command_answer p hdr payload msg
  in_state RemoteState.listen p hdr payload msg = do
    r ← read_remote p
    apply_change (device_change r.id hdr payload msg) msg
  in_state RemoteState.connecting1 p hdr payload msg =
      connect_answer p (message_get_result hdr payload msg)
  in_state RemoteState.connecting2 p hdr payload msg = pure tt
  in_state RemoteState.connected p hdr payload msg = pure tt
  in_state RemoteState.dead p hdr payload msg = pure tt

  -- On the bytes of the input buffer.
  pub remote_handle_command_result : Ptr → List ℕ → M (World Plist) (Unit {0})
  remote_handle_command_result p bytes =
      let hdr = header_at bytes in
      let payload = drop header_size bytes in
      let msg : Option Plist =
        if hdr.message == message_plist
        then lib.from_xml (take (hdr.length - header_size) payload)
        else none in
      if not (hdr.version == 0) && not (hdr.version == 1)
      then pure tt
      else (do r ← read_remote p; in_state r.state p hdr payload msg)
