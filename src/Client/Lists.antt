-- ===== src/Client/Lists.antt =====
-- The lists that a client can ask for: devices, listeners and instances.
use usbfluxd.Prelude.{
  ℕ, ◌==◌, ◌&&◌, if◌then◌else◌, false, Option, none, some, List, [], ◌∷◌, ◌++◌, length,
}
use usbfluxd.Text.{CString, cstr, strtol_hex, decimal}
use usbfluxd.DeviceId.{remote_mux_id}
use usbfluxd.Utils.Collection
use usbfluxd.Utils.Collection.{Ptr}
use usbfluxd.System.{LibPlist}
use usbfluxd.World.{World, MuxClient, RemoteMux}
use usbfluxd.World.Monad.{
  M, pure, fault, ◌>>=◌, ◌>>◌, get, read_client, read_remote, lock_clients, unlock_clients,
  lock_remotes, unlock_remotes,
}
use usbfluxd.Client.Events
use usbfluxd.Client.Output.{access_path}
use usbfluxd.Remote.Events.{is_listen}

prog_name : Option CString → CString
prog_name none = cstr "unknown"
prog_name (some s) = s

module _ {Plist : Type 0} ⦃lib : LibPlist Plist⦄ where
  -- `plist_dict_foreach` with `array_append_item_copy`.
  pub append_items : Plist → List (CString × Plist) → Plist
  append_items array [] = array
  append_items array ((key, value) ∷ items) = append_items (lib.array_append_item array value) items

  pub usbmux_remote_copy_device_list : M (World Plist) Plist
  usbmux_remote_copy_device_list = do
    lock_remotes
    w ← get
    unlock_remotes
    pure (append_items lib.new_array (lib.dict_items w.remote_device_list))

  -- The message of `send_device_list`.
  pub device_list : M (World Plist) Plist
  device_list = do
    devices ← usbmux_remote_copy_device_list
    pure (lib.dict_set_item lib.new_dict (cstr "DeviceList") devices)

  -- `plist_dict_get_item(lc->info, key)`, if there is an info.
  info_item : Option Plist → CString → Option Plist
  info_item none key = none
  info_item (some info) key = lib.dict_get_item info key

  string_of : Option Plist → Option CString
  string_of none = none
  string_of (some n) = lib.get_string_val n

  uint_of : Option Plist → ℕ
  uint_of none = 0
  uint_of (some n) = elim (lib.get_uint_val n) [ none ↦ 0 | some u ↦ u ]

  set_if : Plist → CString → Option Plist → Plist
  set_if l key none = l
  set_if l key (some n) = lib.dict_set_item l key n

  -- The entry of one listener.
  pub listener_entry : MuxClient Plist → Plist
  unfolding info_item string_of uint_of set_if prog_name
  listener_entry lc =
      let progname = prog_name (string_of (info_item lc.info (cstr "ProgName"))) in
      let l1 = lib.dict_set_item lib.new_dict (cstr "Blacklisted") (lib.new_bool false) in
      let l2 = set_if l1 (cstr "BundleID") (info_item lc.info (cstr "BundleID")) in
      let l3 = lib.dict_set_item l2 (cstr "ConnType") (lib.new_uint 0) in
      let l4 =
        lib.dict_set_item l3 (cstr "ID String")
          (lib.new_string (decimal lc.number ++ (cstr "-" ++ progname))) in
      let l5 = lib.dict_set_item l4 (cstr "ProgName") (lib.new_string progname) in
      lib.dict_set_item l5 (cstr "kLibUSBMuxVersion")
        (lib.new_uint (uint_of (info_item lc.info (cstr "kLibUSBMuxVersion"))))

  pub append_listeners : Plist → List Ptr → M (World Plist) Plist
  append_listeners listeners [] = pure listeners
  append_listeners listeners (p ∷ ps) = do
    lc ← read_client p
    append_listeners
        (if Events.is_listen lc.state
          then lib.array_append_item listeners (listener_entry lc)
          else listeners)
        ps

  -- The message of `send_listener_list`.
  pub listener_list : M (World Plist) Plist
  listener_list = do
    lock_clients
    w ← get
    listeners ← append_listeners lib.new_array (Collection.elements w.client_list)
    unlock_clients
    pure (lib.dict_set_item lib.new_dict (cstr "ListenerList") listeners)

  append_if : Plist → Option Plist → Plist
  append_if array none = array
  append_if array (some udid) = lib.array_append_item array udid

  -- `plist_dict_foreach` with `remote_device_get_for_instance`.
  pub instance_devices : ℕ → Plist → List (CString × Plist) → Plist
  instance_devices id array [] = array
  instance_devices id array ((key, value) ∷ items) =
      instance_devices id
        (if remote_mux_id (strtol_hex key) == id
          then append_if array (access_path value (cstr "Properties") (cstr "SerialNumber"))
          else array)
        items

  -- `plist_new_string` of a string that must be there.
  string_node_of : Option CString → M (World Plist) Plist
  string_node_of none = fault
  string_node_of (some s) = pure (lib.new_string s)

  -- The part of an entry for an instance that is reached by a host.
  set_host : RemoteMux → Plist → M (World Plist) Plist
  set_host r entry = if r.is_unix then pure entry else (do
    service ← string_node_of r.service_name
    host ← string_node_of r.host
    pure (
        lib.dict_set_item
          (lib.dict_set_item (lib.dict_set_item entry (cstr "ServiceName") service) (cstr "Host")
            host)
          (cstr "Port") (lib.new_uint r.port)))

  -- The entry of one instance.
  pub instance_entry : RemoteMux → Plist → M (World Plist) Plist
  instance_entry r list = do
    e1 ← set_host r (lib.dict_set_item lib.new_dict (cstr "IsUnix") (lib.new_bool r.is_unix))
    let devices = instance_devices r.id lib.new_array (lib.dict_items list)
    let e2 =
        lib.dict_set_item e1 (cstr "DeviceCount") (lib.new_uint (length (lib.array_items devices)))
    pure (lib.dict_set_item e2 (cstr "Devices") devices)

  pub append_instances : Plist → Plist → List Ptr → M (World Plist) Plist
  append_instances list dict [] = pure dict
  append_instances list dict (p ∷ ps) = do
    r ← read_remote p
    dict' ←
        if r.is_listener && is_listen r.state
        then (do entry ← instance_entry r list; pure (lib.dict_set_item dict (decimal r.id) entry))
        else pure dict
    append_instances list dict' ps

  pub usbmux_remote_copy_instances : M (World Plist) Plist
  usbmux_remote_copy_instances = do
    lock_remotes
    w ← get
    dict ← append_instances w.remote_device_list lib.new_dict (Collection.elements w.remote_list)
    unlock_remotes
    pure dict

  -- The message of `send_instances`.
  pub instances : M (World Plist) Plist
  instances = do
    dict ← usbmux_remote_copy_instances
    pure (lib.dict_set_item lib.new_dict (cstr "Instances") dict)
