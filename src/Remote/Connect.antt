-- ===== src/Remote/Connect.antt =====
-- New remotes for a client's requests: `remote_mux_new_...`, `usbmux_remote_connect`, and the
-- requests for the BUID and for pair records in usbfluxd/usbmux_remote.c. A negative result is `none`.
pub mod Routing
pub mod Forwarding
pub mod Records
pub mod Asking
pub mod Requests
pub mod Orphan
pub mod Unrouted
use usbfluxd.Prelude.{
  ℕ, ◌*◌, ◌==◌, ltb, ◌&&◌, if◌then◌else◌, Bool, true, false, Option, none, some, List, [], ◌∷◌,
}
use usbfluxd.Text.{CString, cstr, str_eq, strtol_hex}
use usbfluxd.DeviceId.{remote_mux_id, local_id}
use usbfluxd.Buffer.{malloc}
use usbfluxd.Utils.Collection
use usbfluxd.Utils.Collection.{Ptr}
use usbfluxd.System.{LibPlist, Env, no_events, pollin_only}
use usbfluxd.World.{
  RemoteState, RemoteCommand, cmd_read_buid, cmd_read_pair_record, cmd_save_pair_record,
  cmd_delete_pair_record, minus_one, World, RemoteMux,
}
use usbfluxd.World.Monad.{
  M, pure, fault, ◌>>=◌, ◌>>◌, get, modify, read_remote, write_remote, on_remote, alloc_remote,
  lock_remotes, unlock_remotes,
}
use usbfluxd.Client.Close.{client_set_remote}
use usbfluxd.Client.Output.{access_path}
use usbfluxd.Remote.Events.{is_listen}
use usbfluxd.Remote.Output.{Version, create_plist_message, remote_send_plist_pkt}

-- `REPLY_BUF_SIZE`.
abbrev pub reply_buf_size : ℕ
reply_buf_size = 0x10000

-- The remote that `remote_mux_new_with_fd` fills in.
unfoldable pub new_remote : ℕ → ℕ → RemoteMux
new_remote fd now = record {
  fd = fd;
  ob = malloc reply_buf_size;
  ib = malloc (reply_buf_size * 8);
  events = pollin_only;
  devents = no_events;
  state = RemoteState.command;
  last_command = minus_one;
  id = 0;
  is_listener = false;
  service_name = none;
  is_unix = false;
  host = none;
  port = 0;
  client = none;
  last_active = now;
}

module _ {Plist : Type 0} ⦃lib : LibPlist Plist⦄ ⦃env : Env⦄ where
  pub remote_mux_new_with_unix_socket : M (World Plist) (Option Ptr)
  remote_mux_new_with_unix_socket = elim env.unix_fd [
    | none ↦ pure none
    | some fd ↦ (do
      p ← alloc_remote (record (new_remote fd env.now) { is_unix = true })
      pure (some p))
  ]

  -- A host that is NULL is refused by `socket_connect_timeout`.
  unfoldable pub remote_mux_new_with_host : Option CString → ℕ → M (World Plist) (Option Ptr)
  remote_mux_new_with_host none port = pure none
  remote_mux_new_with_host (some hostname) port = elim (env.host_fd hostname port) [
    | none ↦ pure none
    | some fd ↦ (do
      p ← alloc_remote (record (new_remote fd env.now) { host = some hostname; port = port })
      pure (some p))
  ]

  -- FOREACH of the remotes, up to the first that listens and has the id: a connection to its host.
  pub connect_like : ℕ → List Ptr → M (World Plist) (Option Ptr)
  connect_like id [] = pure none
  connect_like id (q ∷ qs) = do
    r ← read_remote q
    if r.id == id && is_listen r.state
        then remote_mux_new_with_host r.host r.port
        else connect_like id qs

  -- A connection to the usbmuxd that the id stands for: the local one for 0.
  pub open_remote : ℕ → M (World Plist) (Option Ptr)
  open_remote id = do
    w ← get
    if id == 0
        then remote_mux_new_with_unix_socket
        else connect_like id (Collection.elements w.remote_list)

  add_remote_for : Ptr → Ptr → M (World Plist) (Unit {0})
  add_remote_for client p = do
    client_set_remote client p
    modify (λ w. record w { remote_list = Collection.add w.remote_list p })

  pub usbmux_remote_connect : ℕ → ℕ → Plist → Ptr → M (World Plist) (Option (Unit {0}))
  usbmux_remote_connect device_id tag req_plist client = do
    lock_remotes
    remote ← open_remote (remote_mux_id device_id)
    elim remote [
      | none ↦ (do unlock_remotes; pure none)
      | some p ↦ (do
        r ← read_remote p
        write_remote p (record r {
          id = remote_mux_id device_id;
          state = RemoteState.connecting1;
          client = some client;
        })
        add_remote_for client p
        unlock_remotes
        res ← on_remote p (
            remote_send_plist_pkt 0
              (lib.dict_set_item req_plist (cstr "DeviceID") (lib.new_uint (local_id device_id))))
        pure (some tt))
    ]

  -- The last part of the requests below: the remote is to be the client's once the request is queued.
  pub sent_to : Ptr → Ptr → RemoteCommand → Option ℕ → M (World Plist) (Option (Unit {0}))
  sent_to p client cmd none = pure none
  sent_to p client cmd (some n) =
      if ltb 0 n
      then (do
        r ← read_remote p
        write_remote p (record r { last_command = cmd; client = some client })
        pure (some tt))
      else pure none

  -- The remote of the first device of the list, or the local usbmuxd if the list is empty.
  unfoldable pub buid_remote_id : List (CString × Plist) → ℕ
  buid_remote_id [] = 0
  buid_remote_id ((key, val) ∷ items) = remote_mux_id (strtol_hex key)

  pub usbmux_remote_read_buid : ⦃v : Version⦄ → ℕ → Ptr → M (World Plist) (Option (Unit {0}))
  usbmux_remote_read_buid tag client = do
    lock_remotes
    w ← get
    remote ← open_remote (buid_remote_id (lib.dict_items w.remote_device_list))
    elim remote [
      | none ↦ (do unlock_remotes; pure none)
      | some p ↦ (do
        add_remote_for client p
        unlock_remotes
        res ← on_remote p (
            remote_send_plist_pkt {Plist = Plist} tag
              (create_plist_message {Plist = Plist} (cstr "ReadBUID")))
        sent_to p client cmd_read_buid res)
    ]

  -- The serial number of a device of the list.
  unfoldable pub serial_of : Plist → Option CString
  serial_of value = elim (access_path value (cstr "Properties") (cstr "SerialNumber")) [
    | none ↦ none
    | some node ↦ lib.get_string_val node
  ]

  -- `strcmp(device_udid, record_id) == 0`; a record id that is NULL faults.
  pub serial_matches : Option CString → Option CString → M (World Plist) Bool
  serial_matches record_id none = pure false
  serial_matches none (some s) = fault
  serial_matches (some wanted) (some s) = pure (str_eq s wanted)

  -- `plist_dict_foreach` with `match_device`: the id of the first device with the serial number, or 0.
  pub match_device : Option CString → List (CString × Plist) → M (World Plist) ℕ
  match_device record_id [] = pure 0
  match_device record_id ((key, value) ∷ items) = do
    hit ← serial_matches record_id (serial_of value)
    if hit then pure (strtol_hex key) else match_device record_id items

  -- `plist_new_string(record_id)`, of a string that is there.
  pub record_message : ⦃v : Version⦄ → CString → Option CString → M (World Plist) Plist
  record_message message_type none = fault
  record_message message_type (some wanted) = pure (
      lib.dict_set_item (create_plist_message message_type) (cstr "PairRecordID")
        (lib.new_string wanted))

  -- A request for a pair record, from the search of the device on; the message is made once the
  -- connection stands.
  pub pair_record_request :
      Option CString
      → Ptr
      → RemoteCommand
      → ℕ
      → M (World Plist) Plist
      → M (World Plist) (Option (Unit {0}))
  pair_record_request record_id client cmd tag message = do
    lock_remotes
    w ← get
    device_id ← match_device record_id (lib.dict_items w.remote_device_list)
    remote ← open_remote (remote_mux_id device_id)
    elim remote [
      | none ↦ (do unlock_remotes; pure none)
      | some p ↦ (do
        add_remote_for client p
        unlock_remotes
        msg ← message
        res ← on_remote p (remote_send_plist_pkt tag msg)
        sent_to p client cmd res)
    ]

  pub usbmux_remote_read_pair_record :
      ⦃v : Version⦄ → Option CString → ℕ → Ptr → M (World Plist) (Option (Unit {0}))
  usbmux_remote_read_pair_record record_id tag client =
      pair_record_request record_id client cmd_read_pair_record tag
        (record_message (cstr "ReadPairRecord") record_id)

  pub usbmux_remote_save_pair_record :
      Option CString → Plist → ℕ → Ptr → M (World Plist) (Option (Unit {0}))
  usbmux_remote_save_pair_record record_id req_plist tag client =
      pair_record_request record_id client cmd_save_pair_record tag (pure req_plist)

  pub usbmux_remote_delete_pair_record :
      ⦃v : Version⦄ → Option CString → ℕ → Ptr → M (World Plist) (Option (Unit {0}))
  usbmux_remote_delete_pair_record record_id tag client =
      pair_record_request record_id client cmd_delete_pair_record tag
        (record_message (cstr "DeletePairRecord") record_id)
