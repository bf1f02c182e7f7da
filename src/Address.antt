-- ===== src/Address.antt =====
-- The argument HOST[:PORT] of the option -r in usbfluxd/main.c and of the commands of
-- tools/usbfluxctl.c, with the functions of the C library that split it.
pub mod RoundTrip
use usbfluxd.Prelude.{
  ℕ, ◌+◌, ◌-◌, ◌*◌, ◌%◌, ◌^◌, ◌==◌, ltb, leb, ◌&&◌, ◌||◌, Bool, true, false, if◌then◌else◌, Option,
  none, some, List, [], ◌∷◌,
}
use usbfluxd.Text.{CString}

-- `strchr(s, ':')`: what stands before the first colon and what behind it.
pub split_colon : CString → Option (CString × CString)
split_colon [] = none
split_colon (c ∷ s) =
    if c == b':'
    then some ([], s)
    else elim (split_colon s) [ none ↦ none | some (front, back) ↦ some (c ∷ front, back) ]

-- `isspace` and `isdigit` of ASCII.
unfoldable pub is_space : ℕ → Bool
is_space c = c == 32 || (leb 9 c && leb c 13)

unfoldable pub is_digit : ℕ → Bool
is_digit c = leb b'0' c && leb c b'9'

unfoldable pub skip_spaces : CString → CString
unfolding is_space
skip_spaces [] = []
skip_spaces (c ∷ s) = if is_space c then skip_spaces s else c ∷ s

-- The digits from here on, with the value so far.
unfoldable pub decimal_value : ℕ → CString → ℕ
unfolding is_digit
decimal_value acc [] = acc
decimal_value acc (c ∷ s) =
    let rest = decimal_value (acc * 10 + (c - b'0')) s in if is_digit c then rest else acc

-- `strtoul(s, NULL, 10)` for an `unsigned long` of 64 bits.
unfoldable pub strtoul_sign : CString → ℕ
unfolding decimal_value
strtoul_sign [] = 0
strtoul_sign (c ∷ s) =
    let value = decimal_value 0 (if c == b'+' || c == b'-' then s else c ∷ s) in
    if leb (2 ^ 64) value
    then 2 ^ 64 - 1
    else if c == b'-'
    then (2 ^ 64 - value) % 2 ^ 64
    else value

unfoldable pub strtoul : CString → ℕ
unfolding skip_spaces strtoul_sign
strtoul s = strtoul_sign (skip_spaces s)

abbrev default_port : ℕ
default_port = 5000

-- The host, and the port as an `unsigned long`.
pub host_and_port : CString → CString × ℕ
unfolding split_colon
host_and_port arg = elim (split_colon arg) [
  | none ↦ (arg, default_port)
  | some (host, port) ↦ (host, strtoul port)
]
