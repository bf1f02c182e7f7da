-- ===== src/Client/Output.antt =====
-- The packets that are queued for a client: the `send_...` and `notify_device_...` functions of
-- usbfluxd/client.c. A result `none` is a negative one, the
-- code's -1 or a length from 2 ^ 31 on.
pub mod Queueing
use usbfluxd.Prelude.{
  ℕ, true, false, ltb, ◌/◌, ◌+◌, ◌-◌, ◌%◌, ◌==◌, if◌then◌else◌, Bool, Option, none, some, List, [],
  ◌∷◌, ◌++◌, length, take, replicate,
}
use usbfluxd.Text.{CString, cstr}
use usbfluxd.Proto.{
  Header, int_mod, as_int, u32_mod, u16_mod, header_size, bytes_of_header, bytes_of_u32,
  bytes_of_u16, message_result, message_device_add, message_device_remove, message_plist,
}
use usbfluxd.Buffer
use usbfluxd.Buffer.{Buffer, make_room}
use usbfluxd.System.{LibPlist, Env, set_pollout}
use usbfluxd.World.{MuxClient}
use usbfluxd.World.Monad.{M, pure, fault, ◌>>=◌, ◌>>◌, get, modify}

-- `plist_access_path(node, 2, a, b)`.
unfoldable pub access_path :
    {Plist : Type 0} → ⦃lib : LibPlist Plist⦄ → Plist → CString → CString → Option Plist
access_path ⦃lib⦄ node a b = elim (lib.dict_get_item node a) [
  | none ↦ none
  | some inner ↦ lib.dict_get_item inner b
]

-- `strncpy` into the 256 bytes of the field, and a zero in the last one.
pub serial_field : List ℕ → List ℕ
serial_field s = take 255 s ++ replicate (256 - length (take 255 s)) 0

module _ {Plist : Type 0} ⦃lib : LibPlist Plist⦄ ⦃env : Env⦄ where
  -- "The output buffer should be large enough, but just in case": `false` if `realloc` fails.
  pub ensure_room : ℕ → M (MuxClient Plist) Bool
  ensure_room n c = elim (make_room env.can_alloc c.ob n) [
    | none ↦ some (false, c)
    | some b ↦ some (true, record c { ob = b })
  ]

  pub append : List ℕ → M (MuxClient Plist) (Unit {0})
  append bytes c = elim (Buffer.put c.ob bytes) [
    | none ↦ none
    | some b ↦ some (tt, record c { ob = b })
  ]

  -- The part that the two functions below share: `n` bytes, a copy of them behind the others, and
  -- POLLOUT, which is to tell when they can be sent. The number is returned as an `int`.
  pub queue : ℕ → M (MuxClient Plist) (Unit {0}) → M (MuxClient Plist) (Option ℕ)
  queue n copy = do
    room ← ensure_room n
    if room
        then (do copy; modify (λ c. record c { events = set_pollout c.events }); pure (as_int n))
        else pure none

  pub send_pkt_raw : List ℕ → M (MuxClient Plist) (Option ℕ)
  send_pkt_raw bytes = queue (length bytes) (append bytes)

  -- `hdr` of `send_pkt`.
  pub packet_header : MuxClient Plist → ℕ → ℕ → List ℕ → Header
  packet_header c tag msg payload = record {
    length = (header_size + length payload) % u32_mod;
    version = c.proto_version;
    message = msg;
    tag = tag;
  }

  -- The two calls of `memcpy`; a `payload_length` that is negative as an `int` is a write outside the
  -- buffer.
  pub append_packet : Header → List ℕ → M (MuxClient Plist) (Unit {0})
  append_packet hdr payload =
      if ltb (length payload) int_mod then append (bytes_of_header hdr ++ payload) else fault

  pub send_pkt : ℕ → ℕ → List ℕ → M (MuxClient Plist) (Option ℕ)
  send_pkt tag msg payload = do
    c ← get
    let hdr = packet_header c tag msg payload
    queue hdr.length (append_packet hdr payload)

  unfoldable pub send_plist_pkt : ℕ → Plist → M (MuxClient Plist) (Option ℕ)
  send_plist_pkt tag plist = elim (lib.to_xml plist) [
    | none ↦ pure none
    | some xml ↦ send_pkt tag message_plist xml
  ]

  unfoldable pub send_result : ℕ → ℕ → M (MuxClient Plist) (Option ℕ)
  send_result tag result = do
    c ← get
    if c.proto_version == 1
        then send_plist_pkt tag (
            lib.dict_set_item
              (lib.dict_set_item lib.new_dict (cstr "MessageType") (lib.new_string (cstr "Result")))
              (cstr "Number") (lib.new_uint result))
        else send_pkt tag message_result (bytes_of_u32 result)

  pub client_send_packet_data : Header → List ℕ → M (MuxClient Plist) (Option ℕ)
  client_send_packet_data hdr payload = do
    res ← send_pkt_raw (bytes_of_header hdr)
    if ltb 0 (length payload) then send_pkt_raw payload else pure res

  -- A field of a `struct usbmuxd_device_record`: a number of the record, or 0 if it has none.
  pub uint_or_zero : Option Plist → ℕ
  uint_or_zero none = 0
  uint_or_zero (some node) = elim (lib.get_uint_val node) [ none ↦ 0 | some n ↦ n ]

  pub string_or_empty : Option Plist → List ℕ
  string_or_empty none = []
  string_or_empty (some node) = elim (lib.get_string_val node) [ none ↦ [] | some s ↦ s ]

  -- The bytes of `dmsg`.
  pub device_record : Plist → List ℕ
  unfolding uint_or_zero string_or_empty serial_field
  device_record dev =
      bytes_of_u32 (uint_or_zero (lib.dict_get_item dev (cstr "DeviceID")) % u32_mod)
      ++ (bytes_of_u16
            (uint_or_zero (access_path dev (cstr "Properties") (cstr "ProductID")) % u16_mod)
          ++ (serial_field
                (string_or_empty (access_path dev (cstr "Properties") (cstr "SerialNumber")))
              ++ (bytes_of_u16 0
                  ++ bytes_of_u32 (
                      uint_or_zero (access_path dev (cstr "Properties") (cstr "LocationID"))
                      % u32_mod))))

  pub notify_device_add : Plist → M (MuxClient Plist) (Option ℕ)
  notify_device_add dev = do
    c ← get
    if c.proto_version == 1
        then send_plist_pkt 0 dev
        else send_pkt 0 message_device_add (device_record dev)

  pub notify_device_remove : ℕ → M (MuxClient Plist) (Option ℕ)
  notify_device_remove device_id = do
    c ← get
    if c.proto_version == 1
        then send_plist_pkt 0 (
            lib.dict_set_item
              (lib.dict_set_item lib.new_dict (cstr "MessageType")
                (lib.new_string (cstr "Detached")))
              (cstr "DeviceID") (lib.new_uint device_id))
        else send_pkt 0 message_device_remove (bytes_of_u32 device_id)

  -- The loop of `start_listen` over the devices: how many were sent before one failed.
  pub notify_all : List Plist → ℕ → M (MuxClient Plist) ℕ
  notify_all [] count = pure count
  notify_all (dev ∷ devs) count = do
    res ← notify_device_add dev
    elim res [ none ↦ pure count | some _ ↦ notify_all devs (count + 1) ]
