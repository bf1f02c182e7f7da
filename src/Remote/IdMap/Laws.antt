-- ===== src/Remote/IdMap/Laws.antt =====
-- The id map as a set of ids, and the search for a free one.
use Prim.Native.Nat.{bit_and, bit_or}
use usbfluxd.Prelude.{
  ℕ, zero, suc, ◌∙◌, ◌+◌, ◌/◌, ◌%◌, ◌≤◌, ◌<◌, ◌≡◌, refl, Bool, true, false, ◌==◌, if◌then◌else◌,
  arith, [], ◌∷◌, length, get_or, set, ◌⊎◌, inl, inr, Bool-cases, length-set,
}
use usbfluxd.Remote.IdMap.{
  IdMap, empty, mask, not_mask, is_used, set_remote_id_used, first_unused, get_new_remote_id,
}
use usbfluxd.Remote.IdMap.Bits.{bit-bit_or, bit-bit_and, bit_or-lt, bit_and-lt}

abbrev pub AllBytes : IdMap → Type 0
AllBytes [] = Unit {0}
AllBytes (b ∷ map) = (b < 256) × AllBytes map

-- 32 bytes.
pub record IsValid (map : IdMap) : Type 0 where
  pub size : length map ≡ 32
  pub bytes : AllBytes map

get_or-lt : (map : IdMap) (i : ℕ) → AllBytes map → get_or map i 0 < 256
get_or-lt [] i h = omega arith
get_or-lt (b ∷ map) zero h = h.0
get_or-lt (b ∷ map) (suc i) h = get_or-lt map i h.1

AllBytes-set : (map : IdMap) (i v : ℕ) → v < 256 → AllBytes map → AllBytes (set map i v)
AllBytes-set [] i v hv h = tt
AllBytes-set (b ∷ map) zero v hv h = (hv, h.1)
AllBytes-set (b ∷ map) (suc i) v hv h = (h.0, AllBytes-set map i v hv h.1)

get_or-set :
    (map : IdMap) (i j v : ℕ)
    → i < length map
    → get_or (set map i v) j 0 ≡ (if i == j then v else get_or map j 0)
get_or-set [] i j v h = absurd (omega arith)
get_or-set (b ∷ map) zero zero v h = refl
get_or-set (b ∷ map) zero (suc j) v h = ground arith
get_or-set (b ∷ map) (suc i) zero v h = ground arith
get_or-set (b ∷ map) (suc i) (suc j) v h = ground (arith, get_or-set map i j v (omega arith))

pub empty-IsValid : IsValid empty
unfolding empty
empty-IsValid = omega arith

pub set_remote_id_used-IsValid :
    (map : IdMap) (id : ℕ) (used : Bool) → IsValid map → IsValid (set_remote_id_used map id used)
unfolding set_remote_id_used
set_remote_id_used-IsValid map id true v = record {
  size = length-set map (id / 8) _ ∙ v.size;
  bytes =
      AllBytes-set map (id / 8) _
        (bit_or-lt (get_or map (id / 8) 0) (id % 8) (get_or-lt map (id / 8) v.bytes) (omega arith))
        v.bytes;
}
set_remote_id_used-IsValid map id false v = record {
  size = length-set map (id / 8) _ ∙ v.size;
  bytes =
      AllBytes-set map (id / 8) _
        (bit_and-lt (get_or map (id / 8) 0) (id % 8) (get_or-lt map (id / 8) v.bytes) (omega arith))
        v.bytes;
}

module _ (map : IdMap) (id j : ℕ) (hi : id < 256) (hj : j < 256) (v : IsValid map) where
  is_used-set_true :
      is_used (set_remote_id_used map id true) j ≡ (if id == j then true else is_used map j)
  unfolding set_remote_id_used is_used
  is_used-set_true = ground (
    arith,
    get_or-set map (id / 8) (j / 8) (bit_or (get_or map (id / 8) 0) (mask id)),
    bit-bit_or (get_or map (id / 8) 0) (id % 8) (j % 8) (get_or-lt map (id / 8) v.bytes),
  )

  is_used-set_false :
      is_used (set_remote_id_used map id false) j ≡ (if id == j then false else is_used map j)
  unfolding set_remote_id_used is_used
  is_used-set_false = ground (
    arith,
    get_or-set map (id / 8) (j / 8) (bit_and (get_or map (id / 8) 0) (not_mask id)),
    bit-bit_and (get_or map (id / 8) 0) (id % 8) (j % 8) (get_or-lt map (id / 8) v.bytes),
  )

-- Marking an id as used or unused changes the mark of that id alone, whichever byte and bit it
-- stands in: for ids below 256 and a valid map, id `j` is used afterwards as `used` says if it is
-- the id that was marked, and as before if it is another.
pub is_used-set_remote_id_used :
    (map : IdMap) (id j : ℕ) (used : Bool)
    → id < 256
    → j < 256
    → IsValid map
    → is_used (set_remote_id_used map id used) j ≡ (if id == j then used else is_used map j)
is_used-set_remote_id_used map id j true hi hj v = is_used-set_true map id j hi hj v
is_used-set_remote_id_used map id j false hi hj v = is_used-set_false map id j hi hj v

-- What the search from index `i` returns: the first unused id of the next `n`, or 0 if all are used.
abbrev pub FirstUnused : IdMap → ℕ → ℕ → ℕ → Type 0
FirstUnused map n i r =
    ((r ≡ 0) × ((j : ℕ) → i ≤ j → j < i + n → is_used map j ≡ true))
    ⊎ ((i ≤ r)
        × (r < i + n)
        × (is_used map r ≡ false)
        × ((j : ℕ) → i ≤ j → j < r → is_used map j ≡ true))

here_or_after :
    (map : IdMap) (i j : ℕ)
    → is_used map i ≡ true
    → i ≤ j
    → (i + 1 ≤ j → is_used map j ≡ true)
    → is_used map j ≡ true
here_or_after map i j h le later = elim (Bool-cases (i == j)) [
  | inl e ↦ ground arith
  | inr ne ↦ later (ground arith)
]

first_unused-FirstUnused : (n i : ℕ) (map : IdMap) → FirstUnused map n i (first_unused n i map)
unfolding first_unused
first_unused-FirstUnused zero i map = inl (refl, λ j lo hi. absurd (omega arith))
first_unused-FirstUnused (suc n) i map = elim (Bool-cases (is_used map i)) [
  | inl used ↦
      rw (used, first_unused)
        (elim (first_unused-FirstUnused n (i + 1) map) [
          | inl (e, all) ↦
              inl (e, λ j lo hi. here_or_after map i j used lo (λ le. all j le (omega arith)))
          | inr (lo', hi', free, below) ↦ inr (
            omega arith,
            omega arith,
            free,
            λ j lo hi. here_or_after map i j used lo (λ le. below j le hi),
          )
        ])
  | inr free ↦
      rw (free, first_unused)
        (inr (omega arith, omega arith, free, λ j lo hi. absurd (omega arith)))
]

-- `get_new_remote_id` returns the lowest unused id from 1 to 255, or 0 if these are all in use.
pub get_new_remote_id_lem : (map : IdMap) → FirstUnused map 255 1 (get_new_remote_id map)
unfolding get_new_remote_id
get_new_remote_id_lem map = first_unused-FirstUnused 255 1 map
