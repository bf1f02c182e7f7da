-- ===== src/Proto/RoundTrip.antt =====
-- A header that is written and read back is the same header, whatever follows it.
use usbfluxd.Prelude.{
  none, some, ℕ, ◌<◌, ◌≡◌, List, [], ◌∷◌, ◌++◌, arith, length, zero, suc, refl, get_or, ◌≤◌,
}
use usbfluxd.Proto.{
  Header, int_mod, as_int, u32_mod, bytes_of_u32, u32_at, bytes_of_header, header_at, header_size,
}

-- Each field is a `uint32_t`.
pub record IsHeader (h : Header) : Type 0 where
  pub length_in : h.length < u32_mod
  pub version_in : h.version < u32_mod
  pub message_in : h.message < u32_mod
  pub tag_in : h.tag < u32_mod

pub u32_at-bytes_of_u32 :
    (n : ℕ) (rest : List ℕ) → n < u32_mod → u32_at (bytes_of_u32 n ++ rest) 0 ≡ n
unfolding u32_at bytes_of_u32
u32_at-bytes_of_u32 n rest h = omega arith

pub length-bytes_of_header : (h : Header) → length (bytes_of_header h) ≡ header_size
unfolding bytes_of_header
length-bytes_of_header h = omega arith

-- Reading a header at the front of a buffer gives the header that was written there, for fields
-- that are 32-bit numbers and whatever bytes follow.
pub header_at-bytes_of_header :
    (h : Header) (rest : List ℕ) → IsHeader h → header_at (bytes_of_header h ++ rest) ≡ h
unfolding header_at bytes_of_header
header_at-bytes_of_header h rest v = ground arith

get_or-append : (xs ys : List ℕ) (i d : ℕ) → i < length xs → get_or (xs ++ ys) i d ≡ get_or xs i d
get_or-append [] ys i d h = absurd (omega arith)
get_or-append (x ∷ xs) ys zero d h = refl
get_or-append (x ∷ xs) ys (suc i) d h = get_or-append xs ys i d (omega arith)

-- A header is read from the first bytes.
pub header_at-append :
    (xs ys : List ℕ) → header_size ≤ length xs → header_at (xs ++ ys) ≡ header_at xs
unfolding header_at
header_at-append xs ys h =
    let at : (i : ℕ) → i < 16 → get_or (xs ++ ys) i 0 ≡ get_or xs i 0 =
      λ i lt. get_or-append xs ys i 0 (omega arith) in
    rw (
      at 0 (omega arith),
      at 1 (omega arith),
      at 2 (omega arith),
      at 3 (omega arith),
      at 4 (omega arith),
      at 5 (omega arith),
      at 6 (omega arith),
      at 7 (omega arith),
      at 8 (omega arith),
      at 9 (omega arith),
      at 10 (omega arith),
      at 11 (omega arith),
      at 12 (omega arith),
      at 13 (omega arith),
      at 14 (omega arith),
      at 15 (omega arith),
    )

pub as_int-some : (n : ℕ) → n < int_mod → as_int n ≡ some n
unfolding as_int
as_int-some n h = ground (arith, h)

pub as_int-none : (n : ℕ) → int_mod ≤ n → as_int n ≡ none
unfolding as_int
as_int-none n h = ground (arith, h)
