-- ===== src/Ctl/Receiving.antt =====
-- The loop of `usbfluxd_query` that receives the payload of an answer.
use mathlib.Core.List.{append-nil, append_assoc}
use usbfluxd.Prelude.{
  ℕ, ◌+◌, ◌-◌, ◌∙◌, sym, ap, ◌≡◌, ◌≤◌, ◌<◌, refl, ltb, if◌then◌else◌, Option, some, List, [], ◌∷◌,
  ◌++◌, length, take, arith, length-append, true, inl, inr, Bool-cases,
}
use usbfluxd.Buffer.Memory.{take-all}
use usbfluxd.Utils.Strings.Concat.{concat}
use usbfluxd.Ctl.{Payload, receive}

-- Calls of `recv` that do not fail.
unfoldable pub delivered : List (List ℕ) → List (Option (List ℕ))
delivered [] = []
delivered (bytes ∷ chunks) = some bytes ∷ delivered chunks

no_bytes : (xs : List ℕ) → length xs ≤ 0 → xs ≡ []
no_bytes [] h = refl
no_bytes (x ∷ xs) h = absurd (omega arith)

length-concat :
    (bytes : List ℕ) (chunks : List (List ℕ))
    → length (concat (bytes ∷ chunks)) ≡ length bytes + length (concat chunks)
unfolding concat
length-concat bytes chunks = length-append bytes (concat chunks)

take-short : (n : ℕ) (xs : List ℕ) → length xs ≤ n → take n xs ≡ xs
take-short n xs h = take-all n xs h

receive_step :
    (total : ℕ) (got bytes : List ℕ) (chunks : List (List ℕ))
    → length got < total
    → length got + length bytes ≤ total
    → receive total got (delivered (bytes ∷ chunks))
      ≡ receive total (got ++ bytes) (delivered chunks)
unfolding receive delivered
receive_step total got bytes chunks more fits =
    let short : ltb (length got) total ≡ true = ground arith in
    rw (receive, delivered, short, take-short (total - length got) bytes (omega arith)) refl

receive_all :
    (total : ℕ) (got : List ℕ) (chunks : List (List ℕ))
    → length got + length (concat chunks) ≡ total
    → receive total got (delivered chunks) ≡ Payload.whole (got ++ concat chunks)
unfolding receive delivered concat
receive_all total got [] h = ground (arith, append-nil got)
receive_all total got (bytes ∷ chunks) h = elim (Bool-cases (ltb (length got) total)) [
  | inl more ↦
      receive_step total got bytes chunks (ground arith)
        (omega (arith, length-append bytes (concat chunks)))
      ∙ receive_all total (got ++ bytes) chunks
          (omega (arith, length-append got bytes, length-append bytes (concat chunks)))
      ∙ ap Payload.whole (append_assoc got bytes (concat chunks))
  | inr all ↦
      let nothing : bytes ++ concat chunks ≡ [] =
        no_bytes (bytes ++ concat chunks) (ground arith) in
      rw (receive, all, nothing) (ap Payload.whole (sym (append-nil got)))
]

receive_less :
    (total : ℕ) (got : List ℕ) (chunks : List (List ℕ))
    → length got + length (concat chunks) < total
    → receive total got (delivered chunks) ≡ Payload.waiting (got ++ concat chunks)
unfolding receive delivered concat
receive_less total got [] h = ground (arith, append-nil got)
receive_less total got (bytes ∷ chunks) h =
    receive_step total got bytes chunks (omega (arith, length-append bytes (concat chunks)))
      (omega (arith, length-append bytes (concat chunks)))
    ∙ receive_less total (got ++ bytes) chunks
        (omega (arith, length-append got bytes, length-append bytes (concat chunks)))
    ∙ ap Payload.waiting (append_assoc got bytes (concat chunks))

-- The loop that receives the payload, where no call of `recv` fails and the calls deliver pieces of any
-- length, also empty ones, that are not longer than the payload in sum: it ends with the pieces put
-- together once they are as long as the payload, and else it goes on, also where the peer has closed
-- and every further call delivers nothing.
pub receive-delivered :
    (total : ℕ) (chunks : List (List ℕ))
    → length (concat chunks) ≤ total
    → receive total [] (delivered chunks) ≡ (
        if ltb (length (concat chunks)) total
        then Payload.waiting (concat chunks)
        else Payload.whole (concat chunks))
receive-delivered total chunks h = elim (Bool-cases (ltb (length (concat chunks)) total)) [
  | inl less ↦ receive_less total [] chunks (ground arith) ∙ rw less refl
  | inr all ↦ receive_all total [] chunks (ground arith) ∙ rw all refl
]
