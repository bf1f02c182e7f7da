-- ===== src/Tests/Basics.antt =====
-- The theorems on buffers, headers, device ids, collections and the id map, applied.
use usbfluxd.Prelude.{ℕ, ◌+◌, ◌%◌, ◌^◌, ◌≡◌, refl, true, some, [], ◌∷◌, ◌++◌, arith}
use usbfluxd.Proto.{Header, header_at, bytes_of_header}
use usbfluxd.Proto.RoundTrip.{header_at-bytes_of_header}
use usbfluxd.Text.{device_key, strtol_hex}
use usbfluxd.DeviceId.{device_id, remote_mux_id, local_id}
use usbfluxd.DeviceId.Laws.{remote_mux_id-device_id, device_key-injective}
use usbfluxd.Buffer.{Buffer, make_room}
use usbfluxd.Buffer.Contents.{Roomy, malloc-IsValid, put_lem, shift_lem, make_room-Roomy}
use usbfluxd.Buffer.Contents
use usbfluxd.Remote.IdMap.{empty, set_remote_id_used, get_new_remote_id}
use usbfluxd.Remote.IdMap.Laws.{FirstUnused, get_new_remote_id_lem}

-- A header of a reply to a plist request.
abbrev reply_header : Header
reply_header = record { length = 20; version = 1; message = 8; tag = 7 }

header_at-bytes_of_header_example :
    header_at (bytes_of_header reply_header ++ (60 ∷ [])) ≡ reply_header
header_at-bytes_of_header_example = header_at-bytes_of_header reply_header (60 ∷ []) (omega arith)

remote_mux_id-device_id_example :
    (remote_mux_id (strtol_hex (device_key (device_id 3 5))) ≡ 3)
    × (local_id (strtol_hex (device_key (device_id 3 5))) ≡ 5 % 2 ^ 24)
remote_mux_id-device_id_example = remote_mux_id-device_id 3 5 (omega arith)

-- Two numbers of a device that differ above the low 24 bits only.
abbrev remote_id : ℕ
remote_id = 3

abbrev wide_number : ℕ
wide_number = 5 + 2 ^ 24

device_key-injective_example : (remote_id ≡ remote_id) × (5 % 2 ^ 24 ≡ wide_number % 2 ^ 24)
unfolding device_id
device_key-injective_example =
    device_key-injective remote_id remote_id 5 wide_number (omega arith) (omega arith) refl

-- A buffer of four bytes that holds two.
abbrev half_full : Buffer
half_full = record { buf = some (1 ∷ 2 ∷ 0 ∷ 0 ∷ []); size = 2; capacity = 4 }

half_full-IsValid : Contents.IsValid half_full
half_full-IsValid = record {
  block = 1 ∷ 2 ∷ 0 ∷ 0 ∷ [];
  stored = refl;
  sized = refl;
  fits = omega arith;
  small = omega arith;
}

make_room-Roomy_example : Roomy half_full 2 half_full
unfolding make_room
make_room-Roomy_example = make_room-Roomy (λ n. true) 2 half_full-IsValid (omega arith) refl

get_new_remote_id_lem_example :
    FirstUnused
      (set_remote_id_used empty 1 true)
      255
      1
      (get_new_remote_id (set_remote_id_used empty 1 true))
get_new_remote_id_lem_example = get_new_remote_id_lem (set_remote_id_used empty 1 true)
