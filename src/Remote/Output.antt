-- ===== src/Remote/Output.antt =====
-- The packets that are queued for a remote: `create_plist_message`, `remote_send_pkt` and the
-- functions above it in usbfluxd/usbmux_remote.c. A result `none` is a negative one,
-- the code's -1 or a length from 2 ^ 31 on.
pub mod Queueing
use usbfluxd.Prelude.{
  ℕ, ltb, ◌+◌, ◌%◌, if◌then◌else◌, Bool, true, false, Option, none, some, List, ◌++◌, length,
}
use usbfluxd.Text.{CString, cstr}
use usbfluxd.Proto.{Header, int_mod, as_int, u32_mod, header_size, bytes_of_header, message_plist}
use usbfluxd.Buffer
use usbfluxd.Buffer.{Buffer, make_room}
use usbfluxd.System.{LibPlist, Env, set_pollout}
use usbfluxd.World.{RemoteMux}
use usbfluxd.World.Monad.{M, pure, fault, ◌>>=◌, ◌>>◌, modify}

-- `PLIST_CLIENT_VERSION_STRING` holds the version of the build.
pub record Version : Type 0 where
  pub client_version_string : CString

module _ ⦃env : Env⦄ where
  pub ensure_room : ℕ → M RemoteMux Bool
  ensure_room n r = elim (make_room env.can_alloc r.ob n) [
    | none ↦ some (false, r)
    | some b ↦ some (true, record r { ob = b })
  ]

  pub append : List ℕ → M RemoteMux (Unit {0})
  append bytes r = elim (Buffer.put r.ob bytes) [
    | none ↦ none
    | some b ↦ some (tt, record r { ob = b })
  ]

  -- `hdr` of `remote_send_pkt`; the version is always 1.
  pub packet_header : ℕ → ℕ → List ℕ → Header
  packet_header tag msg payload = record {
    length = (header_size + length payload) % u32_mod;
    version = 1;
    message = msg;
    tag = tag;
  }

  -- The two calls of `memcpy`; a `payload_length` that is negative as an `int` is a write outside the
  -- buffer.
  pub append_packet : Header → List ℕ → M RemoteMux (Unit {0})
  append_packet hdr payload =
      if ltb (length payload) int_mod then append (bytes_of_header hdr ++ payload) else fault

  pub remote_send_pkt : ℕ → ℕ → List ℕ → M RemoteMux (Option ℕ)
  remote_send_pkt tag msg payload = do
    let hdr = packet_header tag msg payload
    room ← ensure_room hdr.length
    if room
        then (do
          append_packet hdr payload
          modify (λ r. record r { events = set_pollout r.events })
          pure (as_int hdr.length))
        else pure none

module _ {Plist : Type 0} ⦃lib : LibPlist Plist⦄ where
  pub create_plist_message : ⦃v : Version⦄ → CString → Plist
  create_plist_message ⦃v⦄ message_type =
      let p1 =
        lib.dict_set_item lib.new_dict (cstr "BundleID")
          (lib.new_string (cstr "com.corellium.usbfluxd")) in
      let p2 =
        lib.dict_set_item p1 (cstr "ClientVersionString")
          (lib.new_string v.client_version_string) in
      let p3 = lib.dict_set_item p2 (cstr "MessageType") (lib.new_string message_type) in
      let p4 = lib.dict_set_item p3 (cstr "ProgName") (lib.new_string (cstr "usbfluxd")) in
      lib.dict_set_item p4 (cstr "kLibUSBMuxVersion") (lib.new_uint 3)

  module _ ⦃env : Env⦄ where
    unfoldable pub remote_send_plist_pkt : ℕ → Plist → M RemoteMux (Option ℕ)
    remote_send_plist_pkt tag plist = elim (lib.to_xml plist) [
      | none ↦ pure none
      | some xml ↦ remote_send_pkt tag message_plist xml
    ]
