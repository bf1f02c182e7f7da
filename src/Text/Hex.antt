-- ===== src/Text/Hex.antt =====
-- Reading a device key back.
use usbfluxd.Prelude.{ℕ, ◌%◌, ◌^◌, ◌<◌, ◌≡◌, true, ltb, arith}
use usbfluxd.Text.{hex_digit, digit_value, hex_value, device_key, strtol_hex}

digit_value-hex_digit : (m : ℕ) → digit_value (hex_digit (m % 16)) ≡ m % 16
unfolding hex_digit digit_value
digit_value-hex_digit m = ground arith

digit-lt : (m : ℕ) → ltb (m % 16) 16 ≡ true
digit-lt m = ground arith

-- `strtol` reads the number from a key of the device list that `snprintf` wrote into it, for every
-- 32-bit number.
pub strtol_hex-device_key : (n : ℕ) → n < 2 ^ 32 → strtol_hex (device_key n) ≡ n
unfolding strtol_hex device_key hex_value
strtol_hex-device_key n h = simp (digit_value-hex_digit, digit-lt) (omega arith)
