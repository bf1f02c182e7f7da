-- ===== src/Remote/IdMap.antt =====
-- The map of remote ids in use of usbfluxd/usbmux_remote.c: 32 bytes, one bit for each id.
pub mod Bits
pub mod Laws
use Prim.Native.Nat.{bit_and, bit_or}
use usbfluxd.Prelude.{
  ℕ, zero, suc, ◌+◌, ◌-◌, ◌/◌, ◌%◌, ◌^◌, Bool, true, false, not, ◌==◌, if◌then◌else◌, List,
  replicate, get_or, set,
}

-- `remote_id_map`, an array of bytes.
abbrev pub IdMap : Type 0
IdMap = List ℕ

-- As `usbmux_remote_init` leaves it by its `memset`.
pub empty : IdMap
empty = replicate 32 0

-- `1 << (idval & 7)`.
abbrev pub mask : ℕ → ℕ
mask idval = 2 ^ (idval % 8)

-- `~(1 << (idval & 7))`, as a byte.
abbrev pub not_mask : ℕ → ℕ
not_mask idval = 255 - mask idval

-- `remote_id_map[i >> 3] & (1 << (i & 7))`, as a condition.
pub is_used : IdMap → ℕ → Bool
is_used map i = not (bit_and (get_or map (i / 8) 0) (mask i) == 0)

pub set_remote_id_used : IdMap → ℕ → Bool → IdMap
set_remote_id_used map idval used =
    if used
    then set map (idval / 8) (bit_or (get_or map (idval / 8) 0) (mask idval))
    else set map (idval / 8) (bit_and (get_or map (idval / 8) 0) (not_mask idval))

-- The loop of `get_new_remote_id`, with the rounds left, at index `i`.
pub first_unused : ℕ → ℕ → IdMap → ℕ
first_unused zero i map = 0
first_unused (suc n) i map = if not (is_used map i) then i else first_unused n (i + 1) map

pub get_new_remote_id : IdMap → ℕ
unfolding first_unused
get_new_remote_id map = first_unused 255 1 map
