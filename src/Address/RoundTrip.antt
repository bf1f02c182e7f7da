-- ===== src/Address/RoundTrip.antt =====
-- The argument HOST[:PORT] is split into the host and the port that it was put together from.
use usbfluxd.Prelude.{
  ℕ, zero, suc, ◌+◌, ◌-◌, ◌*◌, ◌/◌, ◌%◌, ◌^◌, ◌<◌, ◌≡◌, refl, ap, ◌∙◌, ◌==◌, ltb, leb, ◌||◌, ◌&&◌,
  Bool, true, false, none, some, [], ◌∷◌, ◌++◌, arith, inl, inr, Bool-cases,
}
use usbfluxd.Text.{CString, decimal_from, decimal}
use usbfluxd.Address.{
  split_colon, is_space, is_digit, skip_spaces, decimal_value, strtoul_sign, strtoul, host_and_port,
}

-- There is no colon in a host.
unfoldable pub has_colon : CString → Bool
has_colon [] = false
has_colon (c ∷ s) = c == b':' || has_colon s

split_colon-none : (s : CString) → has_colon s ≡ false → split_colon s ≡ none
unfolding split_colon has_colon
split_colon-none [] h = refl
split_colon-none (c ∷ s) h = ground (arith, split_colon-none s)

split_colon-some : (s t : CString) → has_colon s ≡ false → split_colon (s ++ b':' ∷ t) ≡ some (s, t)
unfolding split_colon has_colon
split_colon-some [] t h = refl
split_colon-some (c ∷ s) t h = ground (arith, split_colon-some s t)

-- All characters are digits.
all_digits : CString → Bool
all_digits [] = true
all_digits (c ∷ s) = is_digit c && all_digits s

decimal_value-append :
    (acc : ℕ) (s t : CString)
    → all_digits s ≡ true
    → decimal_value acc (s ++ t) ≡ decimal_value (decimal_value acc s) t
unfolding decimal_value all_digits
decimal_value-append acc [] t h = refl
decimal_value-append acc (c ∷ s) t h =
    ground (arith, decimal_value-append (acc * 10 + (c - b'0')) s t)

all_digits-append :
    (s t : CString) → all_digits s ≡ true → all_digits t ≡ true → all_digits (s ++ t) ≡ true
unfolding all_digits
all_digits-append [] t h k = k
all_digits-append (c ∷ s) t h k = ground (arith, all_digits-append s t)

digit :
    (d : ℕ)
    → d < 10
    → (all_digits ((b'0' + d) ∷ []) ≡ true)
      × ((acc : ℕ) → decimal_value acc ((b'0' + d) ∷ []) ≡ acc * 10 + d)
unfolding all_digits decimal_value
digit d h = (ground arith, λ acc. ground arith)

-- The numbers with at most so many digits are below this.
abbrev power_of_ten : ℕ → ℕ
power_of_ten zero = 1
power_of_ten (suc f) = 10 * power_of_ten f

decimal_value-decimal :
    (f n : ℕ)
    → n < power_of_ten f
    → (all_digits (decimal_from f n) ≡ true) × (decimal_value 0 (decimal_from f n) ≡ n)
unfolding decimal_from decimal_value all_digits
decimal_value-decimal zero n h = (refl, omega arith)
decimal_value-decimal (suc f) n h = elim (Bool-cases (ltb n 10)) [
  | inl short ↦
      let (digits, value) = digit n (ground arith) in
      (rw (decimal_from, short) digits, rw (decimal_from, short) (value 0 ∙ omega arith))
  | inr long ↦
      let (front_digits, front) = decimal_value-decimal f (n / 10) (omega arith) in
      let (digits, value) = digit (n % 10) (omega arith) in
      (
        rw (decimal_from, long) (all_digits-append (decimal_from f (n / 10)) _ front_digits digits),
        rw (decimal_from, long)
            (decimal_value-append 0 (decimal_from f (n / 10)) _ front_digits
              ∙ value _
              ∙ rw front (omega arith)),
      )
]

-- A number in decimal starts with a digit, or is empty.
strtoul-digits :
    (s : CString) → all_digits s ≡ true → decimal_value 0 s < 2 ^ 64 → strtoul s ≡ decimal_value 0 s
unfolding strtoul skip_spaces strtoul_sign is_space all_digits is_digit
strtoul-digits [] h k = refl
strtoul-digits (c ∷ s) h k =
    let no_space : is_space c ≡ false = ground arith in
    let no_sign : (c == b'+' || c == b'-') ≡ false = ground arith in
    let no_minus : (c == b'-') ≡ false = ground arith in
    let small : leb (2 ^ 64) (decimal_value 0 (c ∷ s)) ≡ false = ground (arith, k) in
    rw (strtoul, skip_spaces, no_space, strtoul_sign, no_sign, small, no_minus) refl

-- An argument that was put together from a host without a colon and the decimal digits of a port below
-- 2 ^ 32 is split into these two, and a host alone gets the port 5000.
pub host_and_port-decimal :
    (host : CString) (port : ℕ)
    → has_colon host ≡ false
    → port < 2 ^ 32
    → (host_and_port (host ++ b':' ∷ decimal port) ≡ (host, port))
      × (host_and_port host ≡ (host, 5000))
unfolding host_and_port decimal
host_and_port-decimal host port no_colon small =
    let (digits, value) = decimal_value-decimal 10 port (omega arith) in
    (
      rw (host_and_port, split_colon-some host (decimal port) no_colon)
          (ap (λ (n : ℕ). (host, n))
            (strtoul-digits (decimal port) digits (rw value (omega arith)) ∙ value)),
      rw (host_and_port, split_colon-none host no_colon) refl,
    )
