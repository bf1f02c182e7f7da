-- ===== src/Utils/Collection/Content.antt =====
-- What a collection holds: `FOREACH` sees exactly the pointers that were added and not removed.
use mathlib.Core.List.{perm_middle, append-nil}
use mathlib.Core.List.Perm
use usbfluxd.Prelude.{
  ℕ, suc, ◌+◌, ◌≡◌, refl, ap, sym, ◌∙◌, ◌==◌, if◌then◌else◌, none, some, List, [], ◌∷◌, ◌++◌, Perm,
  arith, length, Option-cases, replicate, inl, inr,
}
use usbfluxd.Utils.Collection.{
  Collection, Ptr, Slots, fill_free, grow, add, clear_slot, remove, count_from, count, visit,
  elements,
}
use usbfluxd.Utils.Collection.Capacity.{IsValid, add-IsValid, remove-IsValid}

-- The pointers of an array, in order.
pub held : Slots → List Ptr
held [] = []
held (none ∷ list) = held list
held (some q ∷ list) = q ∷ held list

held-append : (xs ys : Slots) → held (xs ++ ys) ≡ held xs ++ held ys
unfolding held
held-append [] ys = refl
held-append (none ∷ xs) ys = held-append xs ys
held-append (some q ∷ xs) ys = ap (λ r. q ∷ r) (held-append xs ys)

visit-length : (list : Slots) → visit (length list) list ≡ held list
unfolding visit held
visit-length [] = refl
visit-length (none ∷ list) = visit-length list
visit-length (some q ∷ list) = ap (λ r. q ∷ r) (visit-length list)

pub elements-held : {c : Collection} → IsValid c → elements c ≡ held c.list
unfolding elements
elements-held {c} v = ap (λ n. visit n c.list) (sym v.allocated) ∙ visit-length c.list

-- Taking the first entry equal to `p` away.
unfoldable pub erase : Ptr → List Ptr → List Ptr
erase p [] = []
erase p (q ∷ xs) = let rest : List Ptr = q ∷ erase p xs in if q == p then xs else rest

held-fill_free :
    (list : Slots) (p : Ptr) {list' : Slots}
    → fill_free (length list) list p ≡ some list'
    → Perm (held list') (p ∷ held list)
unfolding fill_free held
held-fill_free [] p e = cc
held-fill_free (none ∷ list) p {list'} e =
    let shape : list' ≡ some p ∷ list = ground arith in rw shape (Perm.refl (p ∷ held list))
held-fill_free (some q ∷ list) p {list'} e = elim (Option-cases (fill_free (length list) list p)) [
  | inl h ↦ absurd (ground arith)
  | inr (rest, h) ↦
      let shape : list' ≡ some q ∷ rest = ground arith in
      rw shape (Perm.trans (Perm.cons q (held-fill_free list p h)) (Perm.swap p q (held list)))
]

fill_free-full :
    (list : Slots) (p : Ptr)
    → fill_free (length list) list p ≡ none
    → length (held list) ≡ length list
unfolding fill_free held
fill_free-full [] p e = refl
fill_free-full (none ∷ list) p e = cc
fill_free-full (some q ∷ list) p e = elim (Option-cases (fill_free (length list) list p)) [
  | inl h ↦ ap suc (fill_free-full list p h)
  | inr (rest, h) ↦ absurd (ground arith)
]

held-clear_slot :
    (list : Slots) (p : Ptr) {list' : Slots}
    → clear_slot (length list) list p ≡ some list'
    → held list' ≡ erase p (held list)
unfolding clear_slot held erase
held-clear_slot [] p e = cc
held-clear_slot (none ∷ list) p {list'} e = elim (Option-cases (clear_slot (length list) list p)) [
  | inl h ↦ absurd (ground arith)
  | inr (rest, h) ↦
      let shape : list' ≡ none ∷ rest = ground arith in rw shape (held-clear_slot list p h)
]
held-clear_slot (some q ∷ list) p {list'} e =
    elim (Option-cases (clear_slot (length list) list p)) [
      | inl h ↦ ground arith
      | inr (rest, h) ↦ ground (arith, held-clear_slot list p h)
    ]

clear_slot-missing :
    (list : Slots) (p : Ptr)
    → clear_slot (length list) list p ≡ none
    → erase p (held list) ≡ held list
unfolding clear_slot held erase
clear_slot-missing [] p e = refl
clear_slot-missing (none ∷ list) p e =
    clear_slot-missing list p (ground (arith, Option-cases (clear_slot (length list) list p)))
clear_slot-missing (some q ∷ list) p e = ground (arith, clear_slot-missing list p)

perm_last : (p : Ptr) (xs : List Ptr) → Perm (xs ++ p ∷ []) (p ∷ xs)
perm_last p xs =
    rw (append-nil xs) at (let h : Perm (xs ++ p ∷ []) (p ∷ (xs ++ [])) = perm_middle xs [] in h)

held-add : {c : Collection} (p : Ptr) → IsValid c → Perm (held (add c p).list) (p ∷ held c.list)
unfolding add held
held-add {c} p v = elim (Option-cases (fill_free c.capacity c.list p)) [
  | inl h ↦
      rw (h, add, grow, held-append c.list (some p ∷ replicate 7 none)) (perm_last p (held c.list))
  | inr (rest, h) ↦ rw (h, add) (held-fill_free c.list p {list' = rest} (rw v.allocated h))
]

held-remove :
    {c : Collection} (p : Ptr) → IsValid c → held (remove c p).list ≡ erase p (held c.list)
unfolding remove
held-remove {c} p v = elim (Option-cases (clear_slot c.capacity c.list p)) [
  | inl h ↦ rw (h, remove) (sym (clear_slot-missing c.list p (rw v.allocated h)))
  | inr (rest, h) ↦ rw (h, remove) (held-clear_slot c.list p {list' = rest} (rw v.allocated h))
]

-- `collection_add` keeps what a valid collection held and adds the pointer, once: what FOREACH
-- visits afterwards is a permutation of the pointer with what it visited before, whether a free
-- slot was filled or the array grew.
pub elements-add :
    {c : Collection} (p : Ptr) → IsValid c → Perm (elements (add c p)) (p ∷ elements c)
elements-add {c} p v = rw (elements-held (add-IsValid p v), elements-held v) (held-add p v)

-- `collection_remove` on a valid collection takes the first visit of the pointer away and leaves
-- the other visits in their order; a pointer that is not in the collection is no change.
pub elements-remove :
    {c : Collection} (p : Ptr) → IsValid c → elements (remove c p) ≡ erase p (elements c)
elements-remove {c} p v = rw (elements-held (remove-IsValid p v), elements-held v) (held-remove p v)

count_from-held : (list : Slots) (k : ℕ) → count_from (length list) list k ≡ k + length (held list)
unfolding count_from held
count_from-held [] k = omega arith
count_from-held (none ∷ list) k = count_from-held list k
count_from-held (some q ∷ list) k = omega (arith, count_from-held list (k + 1))

-- `collection_count` is the number of pointers that FOREACH visits.
pub count-elements : {c : Collection} → IsValid c → count c ≡ length (elements c)
unfolding count
count-elements {c} v = rw (elements-held v, ← v.allocated) (omega (arith, count_from-held c.list 0))
