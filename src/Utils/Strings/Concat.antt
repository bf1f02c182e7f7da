-- ===== src/Utils/Strings/Concat.antt =====
-- `string_concat` fills the block that it asks for exactly.
use usbfluxd.Prelude.{
  ℕ, suc, ◌+◌, ◌%◌, ◌≤◌, ◌<◌, ◌≡◌, refl, ap, sym, ◌∙◌, leb, Bool, true, if◌then◌else◌, none, some,
  List, [], ◌∷◌, ◌++◌, length, drop, replicate, length-append, length-drop, length-replicate, arith,
  inl, inr, Bool-cases,
}
use mathlib.Core.List.{append_assoc, append-nil}
use usbfluxd.Text.{CString}
use usbfluxd.Buffer.{write_at}
use native.Mathlib.Nat.{zero-add}
use usbfluxd.Buffer.Memory.{take-append}
use usbfluxd.Utils.Strings.{size_mod, stpcpy, total_length, copy_all, string_concat}

-- The strings one after another.
unfoldable pub concat : List CString → CString
concat [] = []
concat (s ∷ args) = s ++ concat args

total_length-concat :
    (len : ℕ) (args : List CString)
    → len + length (concat args) < size_mod
    → total_length len args ≡ len + length (concat args)
unfolding total_length concat
total_length-concat len [] h = omega arith
total_length-concat len (s ∷ args) h =
    let sum : length (s ++ concat args) ≡ length s + length (concat args) =
      length-append s (concat args) in
    let e : (len + length s) % size_mod ≡ len + length s = omega arith in
    rw e (total_length-concat (len + length s) args (omega arith) ∙ omega arith)

drop-append : (xs ys : List ℕ) → drop (length xs) (xs ++ ys) ≡ ys
drop-append [] ys = refl
drop-append (x ∷ xs) ys = drop-append xs ys

drop-add : (k : ℕ) (xs ys : List ℕ) → drop (length xs + k) (xs ++ ys) ≡ drop k ys
drop-add k [] ys = rw zero-add refl
drop-add k (x ∷ xs) ys =
    let e : suc (length xs) + k ≡ suc (length xs + k) = omega arith in rw e (drop-add k xs ys)

-- A copy behind the bytes that are there.
pub stpcpy-append :
    (done : List ℕ) (z : ℕ) (rest : List ℕ) (s : CString)
    → length s ≤ length rest
    → stpcpy (done ++ z ∷ rest) (length done) s
      ≡ some ((done ++ s) ++ 0 ∷ drop (length s) rest, length done + length s)
unfolding stpcpy write_at
stpcpy-append done z rest s room =
    let len : length (s ++ 0 ∷ []) ≡ suc (length s) = length-append s (0 ∷ []) ∙ omega arith in
    let fits : leb (length done + length (s ++ 0 ∷ [])) (length (done ++ z ∷ rest)) ≡ true =
      ground (arith, len, length-append done (z ∷ rest)) in
    rw (stpcpy, write_at, fits)
      (ap (λ (b : List ℕ). some (b, length done + length s))
        (ap
            (λ (b : List ℕ).
              b ++ ((s ++ 0 ∷ []) ++ drop (length done + length (s ++ 0 ∷ [])) (done ++ z ∷ rest)))
            (take-append (length done) done (z ∷ rest) refl)
          ∙ rw (drop-add (length (s ++ 0 ∷ [])) done (z ∷ rest), len) (simp append_assoc)))

copies :
    (args : List CString) (done rest : List ℕ)
    → length (concat args) ≡ length rest
    → copy_all (done ++ 0 ∷ rest) (length done) args ≡ some ((done ++ concat args) ++ 0 ∷ [])
unfolding copy_all concat
copies [] done [] e = rw append-nil refl
copies [] done (x ∷ rest) e = absurd (omega arith)
copies (s ∷ args) done rest e =
    let sum : length (s ++ concat args) ≡ length s + length (concat args) =
      length-append s (concat args) in
    let offset : length (done ++ s) ≡ length done + length s = length-append done s in
    rw (copy_all, stpcpy-append done 0 rest s (omega arith), sym offset)
      (copies args (done ++ s) (drop (length s) rest) (omega (arith, length-drop (length s) rest))
        ∙ ap (λ (b : List ℕ). some (b ++ 0 ∷ [])) (append_assoc done s (concat args)))

-- `string_concat` of a string and any others, whose lengths with the zero are below 2 ^ 64 in sum: it
-- does not write outside the block that it asks `malloc` for, which is just long enough, and returns
-- the strings one after another with a zero behind them, or NULL where `malloc` fails.
pub string_concat-concat :
    (can_alloc : ℕ → Bool) (s : CString) (args : List CString)
    → length (s ++ concat args) + 1 < size_mod
    → string_concat can_alloc (some s) args
      ≡ some (
          if can_alloc (length (s ++ concat args) + 1)
          then some ((s ++ concat args) ++ 0 ∷ [])
          else none)
unfolding string_concat concat
string_concat-concat can_alloc s args h =
    let sum : length (s ++ concat args) ≡ length s + length (concat args) =
      length-append s (concat args) in
    let e : total_length ((length s + 1) % size_mod) args ≡ suc (length (s ++ concat args)) =
      ap (λ (n : ℕ). total_length n args) (omega arith)
      ∙ total_length-concat (length s + 1) args (omega arith)
      ∙ omega arith in
    let one_more : length (s ++ concat args) + 1 ≡ suc (length (s ++ concat args)) = omega arith in
    elim (Bool-cases (can_alloc (suc (length (s ++ concat args))))) [
      | inl yes_ ↦
          rw (string_concat, e, one_more, yes_)
            (rw
              (copies (s ∷ args) [] (replicate (length (s ++ concat args)) 0)
                (sym (length-replicate (length (s ++ concat args)) 0)))
              refl)
      | inr no_ ↦ rw (string_concat, e, one_more, no_) refl
    ]
