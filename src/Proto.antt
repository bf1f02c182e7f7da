-- ===== src/Proto.antt =====
-- The wire format of usbfluxd/usbmuxd-proto.h. Structs are packed, and their integers stand in
-- memory in the byte order of the little-endian hosts that the program is built for.
pub mod RoundTrip
use usbfluxd.Prelude.{
  ℕ, ltb, if◌then◌else◌, Option, none, some, ◌+◌, ◌*◌, ◌/◌, ◌%◌, ◌^◌, List, [], ◌∷◌, ◌++◌, get_or,
  drop,
}

-- `uint32_t` and `uint16_t` arithmetic wraps at these.
abbrev pub u32_mod : ℕ
u32_mod = 2 ^ 32

abbrev pub u16_mod : ℕ
u16_mod = 2 ^ 16

-- From this length on, an `int` is negative.
abbrev pub int_mod : ℕ
int_mod = 2 ^ 31

-- A `uint32_t` that is returned as an `int`; a negative result is `none`.
unfoldable pub as_int : ℕ → Option ℕ
as_int n = if ltb n int_mod then some n else none

-- `struct usbmuxd_header`.
pub record Header : Type 0 where
  pub length : ℕ
  pub version : ℕ
  pub message : ℕ
  pub tag : ℕ

-- `sizeof(struct usbmuxd_header)`.
abbrev pub header_size : ℕ
header_size = 16

-- `enum usbmuxd_result`.
abbrev pub result_ok : ℕ
result_ok = 0

abbrev pub result_badcommand : ℕ
result_badcommand = 1

abbrev pub result_baddev : ℕ
result_baddev = 2

abbrev pub result_connrefused : ℕ
result_connrefused = 3

abbrev pub result_badversion : ℕ
result_badversion = 6

-- `enum usbmuxd_msgtype`.
abbrev pub message_result : ℕ
message_result = 1

abbrev pub message_connect : ℕ
message_connect = 2

abbrev pub message_listen : ℕ
message_listen = 3

abbrev pub message_device_add : ℕ
message_device_add = 4

abbrev pub message_device_remove : ℕ
message_device_remove = 5

abbrev pub message_plist : ℕ
message_plist = 8

-- The four bytes of a `uint32_t`, lowest first.
unfoldable pub bytes_of_u32 : ℕ → List ℕ
bytes_of_u32 n = n % 256 ∷ (n / 256) % 256 ∷ (n / 65_536) % 256 ∷ (n / 16_777_216) % 256 ∷ []

-- The two bytes of a `uint16_t`.
pub bytes_of_u16 : ℕ → List ℕ
bytes_of_u16 n = n % 256 ∷ (n / 256) % 256 ∷ []

unfoldable pub u32_at : List ℕ → ℕ → ℕ
u32_at bytes i =
    get_or bytes i 0
    + 256 * get_or bytes (i + 1) 0
    + 65_536 * get_or bytes (i + 2) 0
    + 16_777_216 * get_or bytes (i + 3) 0

pub u16_at : List ℕ → ℕ → ℕ
u16_at bytes i = get_or bytes i 0 + 256 * get_or bytes (i + 1) 0

-- A header as `memcpy` writes it out of the struct.
pub bytes_of_header : Header → List ℕ
unfolding bytes_of_u32
bytes_of_header h =
    bytes_of_u32 h.length
    ++ (bytes_of_u32 h.version ++ (bytes_of_u32 h.message ++ bytes_of_u32 h.tag))

-- A header as the handlers read it through a cast of the input buffer.
unfoldable pub header_at : List ℕ → Header
unfolding u32_at
header_at bytes = record {
  length = u32_at bytes 0;
  version = u32_at bytes 4;
  message = u32_at bytes 8;
  tag = u32_at bytes 12;
}

-- `ch->device_id` and `ch->port` of a `struct usbmuxd_connect_request`.
pub connect_device_id : List ℕ → ℕ
unfolding u32_at
connect_device_id bytes = u32_at bytes 16

pub connect_port : List ℕ → ℕ
unfolding u16_at
connect_port bytes = u16_at bytes 20
