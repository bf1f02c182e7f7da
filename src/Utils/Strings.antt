-- ===== src/Utils/Strings.antt =====
-- `stpcpy` and `string_concat` of usbfluxd/utils.c. A string in memory is its bytes and a zero.
pub mod Concat
use usbfluxd.Prelude.{
  ℕ, suc, ◌+◌, ◌%◌, ◌^◌, ◌==◌, Bool, true, false, if◌then◌else◌, Option, none, some, List, [], ◌∷◌,
  ◌++◌, length, replicate,
}
use usbfluxd.Text.{CString}
use usbfluxd.Buffer.{write_at}

-- The modulus of a `size_t`.
abbrev pub size_mod : ℕ
size_mod = 2 ^ 64

-- A copy to an offset of a block; the result is the block and the offset of the zero. `none` is a write
-- outside the block.
unfoldable pub stpcpy : List ℕ → ℕ → CString → Option (List ℕ × ℕ)
stpcpy block offset s = elim (write_at block offset (s ++ 0 ∷ [])) [
  | none ↦ none
  | some block' ↦ some (block', offset + length s)
]

-- The loop over the arguments that adds up their lengths.
pub total_length : ℕ → List CString → ℕ
total_length len [] = len
total_length len (s ∷ args) = total_length ((len + length s) % size_mod) args

-- The loop that copies them.
pub copy_all : List ℕ → ℕ → List CString → Option (List ℕ)
copy_all block dest [] = some block
copy_all block dest (s ∷ args) = elim (stpcpy block dest s) [
  | none ↦ none
  | some (block', dest') ↦ copy_all block' dest' args
]

-- The arguments end before the first NULL. The inner `none` is a result NULL, the outer one a fault;
-- `can_alloc` says whether `malloc` of so many bytes succeeds.
pub string_concat : (ℕ → Bool) → Option CString → List CString → Option (Option (List ℕ))
string_concat can_alloc none args = some none
string_concat can_alloc (some s) args =
    let len = total_length ((length s + 1) % size_mod) args in
    if can_alloc len
    then elim (copy_all (replicate len 0) 0 (s ∷ args)) [
      | none ↦ none
      | some block ↦ some (some block)
    ]
    else some none
