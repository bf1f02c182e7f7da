-- ===== src/Remote/IdMap/Bits.antt =====
-- Setting and clearing one bit of a byte, by evaluation over all bytes and bits.
use Prim.Native.Nat.{bit_and, bit_or}
use usbfluxd.Prelude.{
  ℕ, zero, suc, ◌-◌, ◌<◌, ◌^◌, ◌≡◌, refl, Bool, true, false, not, ◌&&◌, ◌==◌, ltb, if◌then◌else◌,
  arith,
}

-- The test passes at every number below the limit.
passes : (ℕ → Bool) → ℕ → Bool
passes test zero = true
passes test (suc limit) = passes test limit && test limit

passes_at : (test : ℕ → Bool) (x limit : ℕ) → x < limit → passes test limit ≡ true → test x ≡ true
unfolding passes
passes_at test x (suc limit) le all = ground (arith, passes_at test x limit)
passes_at test x zero le all = absurd (omega arith)

-- Bit `k` of a byte.
abbrev pub bit : ℕ → ℕ → Bool
bit b k = not (bit_and b (2 ^ k) == 0)

abbrev same : Bool → Bool → Bool
same x y = if x then y else not y

same-eq : (x y : Bool) → same x y ≡ true → x ≡ y
same-eq x y h = ground arith

abbrev or_ok : ℕ → ℕ → ℕ → Bool
or_ok b k j = same (bit (bit_or b (2 ^ k)) j) (if k == j then true else bit b j)

abbrev clear_ok : ℕ → ℕ → ℕ → Bool
clear_ok b k j = same (bit (bit_and b (255 - 2 ^ k)) j) (if k == j then false else bit b j)

abbrev range_ok : ℕ → ℕ → Bool
range_ok b k = ltb (bit_or b (2 ^ k)) 256 && ltb (bit_and b (255 - 2 ^ k)) 256

module _ (p : ℕ → ℕ → ℕ → Bool) where
  all_bytes : Bool
  all_bytes = passes (λ b. passes (λ k. passes (λ j. p b k j) 8) 8) 256

  all_bytes-at : (b k j : ℕ) → all_bytes ≡ true → b < 256 → k < 8 → j < 8 → p b k j ≡ true
  unfolding all_bytes
  all_bytes-at b k j h hb hk hj = passes_at (p b k) j 8 hj (
      passes_at (λ y. passes (p b y) 8) k 8 hk
        (passes_at (λ x. passes (λ y. passes (p x y) 8) 8) b 256 hb h))

or_table : all_bytes or_ok ≡ true
unfolding all_bytes passes
or_table = refl

clear_table : all_bytes clear_ok ≡ true
unfolding all_bytes passes
clear_table = refl

range_table : all_bytes (λ b k _. range_ok b k) ≡ true
unfolding all_bytes passes
range_table = refl

module _ (b k j : ℕ) (hb : b < 256) (hk : k < 8) (hj : j < 8) where
  pub bit-bit_or : bit (bit_or b (2 ^ k)) j ≡ (if k == j then true else bit b j)
  bit-bit_or = same-eq _ _ (all_bytes-at or_ok b k j or_table hb hk hj)

  pub bit-bit_and : bit (bit_and b (255 - 2 ^ k)) j ≡ (if k == j then false else bit b j)
  bit-bit_and = same-eq _ _ (all_bytes-at clear_ok b k j clear_table hb hk hj)

module _ (b k : ℕ) (hb : b < 256) (hk : k < 8) where
  in_range : range_ok b k ≡ true
  in_range = all_bytes-at (λ x y _. range_ok x y) b k 0 range_table hb hk (omega arith)

  pub bit_or-lt : bit_or b (2 ^ k) < 256
  bit_or-lt = ground (arith, in_range)

  pub bit_and-lt : bit_and b (255 - 2 ^ k) < 256
  bit_and-lt = ground (arith, in_range)
