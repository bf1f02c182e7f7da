-- ===== src/Utils/Collection/Bag.antt =====
-- A collection as a bag of pointers, which forgets their order.
use mathlib.Core.Logic.{∥∥₁_elim}
use mathlib.Core.List.{Permᴰ}
use native.Mathlib.Nat.{ℕ_set}
use usbfluxd.Prelude.{
  ℕ, suc, ◌-◌, ◌≡◌, refl, ◌∙◌, ◌==◌, if◌then◌else◌, List, [], ◌∷◌, Perm, arith, Bool-cases, inl,
  inr,
}
use usbfluxd.Utils.Collection.{Collection, Ptr, add, remove, elements}
use usbfluxd.Utils.Collection.Capacity.{IsValid, add-IsValid, remove-IsValid}
use usbfluxd.Utils.Collection.Content.{erase, elements-add, elements-remove}

-- How often a pointer is in a list.
unfoldable pub occurs : Ptr → List Ptr → ℕ
occurs p [] = 0
occurs p (q ∷ xs) = let rest = occurs p xs in if q == p then suc rest else rest

occurs-Permᴰ : (p : Ptr) {xs ys : List Ptr} → Permᴰ xs ys → occurs p xs ≡ occurs p ys
unfolding occurs
occurs-Permᴰ p Permᴰ.nil = refl
occurs-Permᴰ p (Permᴰ.cons e s) = ground (arith, e, occurs-Permᴰ p s)
occurs-Permᴰ p (Permᴰ.swap {a} {b} {a'} {b'} {l} e f) = ground (arith, e, f)
occurs-Permᴰ p (Permᴰ.trans s t) = occurs-Permᴰ p s ∙ occurs-Permᴰ p t

occurs-Perm : (p : Ptr) {xs ys : List Ptr} → Perm xs ys → occurs p xs ≡ occurs p ys
occurs-Perm p s = ∥∥₁_elim s (ℕ_set _ _) (occurs-Permᴰ p)

occurs-erase :
    (p x : Ptr) (xs : List Ptr)
    → occurs x (erase p xs) ≡ (if p == x then occurs x xs - 1 else occurs x xs)
unfolding occurs erase
occurs-erase p x [] = ground arith
occurs-erase p x (q ∷ xs) = elim (Bool-cases (q == p)) [
  | inl same ↦ ground (arith, same)
  | inr other ↦ ground (arith, other, occurs-erase p x xs)
]

pub occurs-add :
    {c : Collection} (p x : Ptr)
    → IsValid c
    → occurs x (elements (add c p))
      ≡ (if p == x then suc (occurs x (elements c)) else occurs x (elements c))
unfolding occurs
occurs-add p x v = occurs-Perm x (elements-add p v)

pub occurs-remove :
    {c : Collection} (p x : Ptr)
    → IsValid c
    → occurs x (elements (remove c p))
      ≡ (if p == x then occurs x (elements c) - 1 else occurs x (elements c))
occurs-remove {c} p x v = rw (elements-remove p v) (occurs-erase p x (elements c))

-- Calls of `collection_add` and `collection_remove`.
pub data Op : Type 0 where
  adds removes : Ptr → Op

pub run : List Op → Collection → Collection
run [] c = c
run (adds p ∷ ops) c = run ops (add c p)
run (removes p ∷ ops) c = run ops (remove c p)

-- What is promised of them: a bag, as the number of times that a pointer is in it.
pub bag_run : List Op → (Ptr → ℕ) → Ptr → ℕ
bag_run [] b = b
bag_run (adds p ∷ ops) b = bag_run ops (λ x. if p == x then suc (b x) else b x)
bag_run (removes p ∷ ops) b = bag_run ops (λ x. if p == x then b x - 1 else b x)

bag_run-same :
    (ops : List Op) (b b' : Ptr → ℕ)
    → ((x : Ptr) → b x ≡ b' x)
    → (x : Ptr) → bag_run ops b x ≡ bag_run ops b' x
unfolding bag_run
bag_run-same [] b b' same x = same x
bag_run-same (adds p ∷ ops) b b' same x = bag_run-same ops _ _ (λ y. ground (arith, same y)) x
bag_run-same (removes p ∷ ops) b b' same x = bag_run-same ops _ _ (λ y. ground (arith, same y)) x

-- Any sequence of calls of `collection_add` and `collection_remove` on a valid collection does to it
-- what it does to a bag of pointers: FOREACH visits each pointer as often as it was there and was
-- added and not removed since, where a removal of what is not there is no change. The collection
-- stays valid.
pub elements-run :
    (ops : List Op) (c : Collection)
    → IsValid c
    → IsValid (run ops c)
      × ((x : Ptr) → occurs x (elements (run ops c)) ≡ bag_run ops (λ y. occurs y (elements c)) x)
unfolding run bag_run
elements-run [] c v = (v, λ x. refl)
elements-run (adds p ∷ ops) c v =
    let (valid, same) = elements-run ops (add c p) (add-IsValid p v) in
    (valid, λ x. same x ∙ bag_run-same ops _ _ (λ y. occurs-add p y v) x)
elements-run (removes p ∷ ops) c v =
    let (valid, same) = elements-run ops (remove c p) (remove-IsValid p v) in
    (valid, λ x. same x ∙ bag_run-same ops _ _ (λ y. occurs-remove p y v) x)
