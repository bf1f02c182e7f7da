-- ===== src/Text.antt =====
-- C strings: the bytes before the zero, and the functions of the C library that the daemon calls on
-- them. Texts of the source are ASCII.
pub mod Hex
use Prim.Native.String.{String}
use Prim.Native.Char.{code}
use usbfluxd.Prelude.{
  ℕ, zero, suc, ◌++◌, ◌+◌, ◌-◌, ◌*◌, ◌/◌, ◌%◌, ◌^◌, Bool, true, false, ◌&&◌, leb, ltb, ◌==◌,
  if◌then◌else◌, Option, none, some, List, [], ◌∷◌,
}

abbrev pub CString : Type 0
CString = List ℕ

pub codes : String → CString
codes String.[] = []
codes (String.◌∷◌ c s) = code c ∷ codes s

-- A text of the source.
unfoldable pub cstr : String → CString
unfolding codes
cstr s = codes s

-- `strcmp(a, b) == 0`.
unfoldable pub str_eq : CString → CString → Bool
str_eq [] [] = true
str_eq (a ∷ s) (b ∷ t) = a == b && str_eq s t
str_eq _ _ = false

-- One digit of "%x".
pub hex_digit : ℕ → ℕ
hex_digit d = if ltb d 10 then b'0' + d else b'a' + d - 10

-- `snprintf` with "0x%08x".
pub device_key : ℕ → CString
device_key n =
    b'0'
    ∷ b'x'
    ∷ hex_digit (n / 2 ^ 28 % 16)
    ∷ hex_digit (n / 2 ^ 24 % 16)
    ∷ hex_digit (n / 2 ^ 20 % 16)
    ∷ hex_digit (n / 2 ^ 16 % 16)
    ∷ hex_digit (n / 2 ^ 12 % 16)
    ∷ hex_digit (n / 2 ^ 8 % 16)
    ∷ hex_digit (n / 2 ^ 4 % 16)
    ∷ hex_digit (n % 16)
    ∷ []

-- The value of a hexadecimal digit, 16 for any other character.
unfoldable pub digit_value : ℕ → ℕ
digit_value c =
    if leb b'0' c && leb c b'9'
    then c - b'0'
    else if leb b'a' c && leb c b'f'
    then c - b'a' + 10
    else if leb b'A' c && leb c b'F'
    then c - b'A' + 10
    else 16

-- The digits from here on, with the value so far.
unfoldable pub hex_value : ℕ → CString → ℕ
hex_value acc [] = acc
hex_value acc (c ∷ s) =
    let rest = hex_value (acc * 16 + digit_value c) s in
    if ltb (digit_value c) 16 then rest else acc

-- `(uint32_t)strtol(s, NULL, 16)` of a text with no sign and no leading space, such as the keys of
-- the device list.
unfoldable pub strtol_hex : CString → ℕ
strtol_hex [] = 0
strtol_hex (c ∷ []) = hex_value 0 (c ∷ []) % 2 ^ 32
strtol_hex (c ∷ d ∷ s) =
    (if c == b'0' && d == b'x' then hex_value 0 s else hex_value 0 (c ∷ d ∷ s)) % 2 ^ 32

-- The digits of "%u", with the number of them that may still be written: ten serve for 32 bits.
unfoldable pub decimal_from : ℕ → ℕ → CString
decimal_from zero n = []
decimal_from (suc f) n =
    let front = decimal_from f (n / 10) in
    if ltb n 10 then (b'0' + n) ∷ [] else front ++ (b'0' + n % 10) ∷ []

-- `snprintf` with "%u", and with "%d" of a number that is not negative.
unfoldable pub decimal : ℕ → CString
unfolding decimal_from
decimal n = decimal_from 10 n
