-- ===== src/Utils/Collection/Capacity.antt =====
-- The array of a collection: its length is the capacity, in steps of 8 slots.
use usbfluxd.Prelude.{
  ℕ, zero, suc, ◌%◌, ◌<◌, ◌≡◌, none, some, [], ◌∷◌, arith, length, length-append, Option-cases, inl,
  inr,
}
use usbfluxd.Utils.Collection.{
  Collection, Ptr, Slots, capacity_step, init, fill_free, grow, add, clear_slot, remove,
}

-- The array has `capacity` slots, and their number is a positive multiple of 8.
pub record IsValid (c : Collection) : Type 0 where
  pub allocated : length c.list ≡ c.capacity
  pub stepped : c.capacity % capacity_step ≡ 0
  pub positive : 0 < c.capacity

pub init-IsValid : IsValid init
unfolding init
init-IsValid = omega arith

pub length-fill_free :
    (n : ℕ) (list : Slots) (p : Ptr) {list' : Slots}
    → fill_free n list p ≡ some list'
    → length list' ≡ length list
unfolding fill_free
length-fill_free zero list p e = ground arith
length-fill_free (suc n) [] p e = ground arith
length-fill_free (suc n) (none ∷ list) p e = ground arith
length-fill_free (suc n) (some q ∷ list) p {list'} e = elim (Option-cases (fill_free n list p)) [
  | inl h ↦ ground arith
  | inr (rest, h) ↦ ground (arith, length-fill_free n list p h)
]

pub length-clear_slot :
    (n : ℕ) (list : Slots) (p : Ptr) {list' : Slots}
    → clear_slot n list p ≡ some list'
    → length list' ≡ length list
unfolding clear_slot
length-clear_slot zero list p e = ground arith
length-clear_slot (suc n) [] p e = ground arith
length-clear_slot (suc n) (none ∷ list) p e = elim (Option-cases (clear_slot n list p)) [
  | inl h ↦ ground arith
  | inr (rest, h) ↦ ground (arith, length-clear_slot n list p h)
]
length-clear_slot (suc n) (some q ∷ list) p e = elim (Option-cases (clear_slot n list p)) [
  | inl h ↦ ground arith
  | inr (rest, h) ↦ ground (arith, length-clear_slot n list p h)
]

pub add-IsValid : {c : Collection} (p : Ptr) → IsValid c → IsValid (add c p)
unfolding add
add-IsValid {c} p v = elim (Option-cases (fill_free c.capacity c.list p)) [
  | inl h ↦
      rw (h, add, grow)
        (ground (
          arith,
          length-append c.list (some p ∷ none ∷ none ∷ none ∷ none ∷ none ∷ none ∷ none ∷ []),
        ))
  | inr (rest, h) ↦ rw (h, add) (ground (arith, length-fill_free c.capacity c.list p h))
]

pub remove-IsValid : {c : Collection} (p : Ptr) → IsValid c → IsValid (remove c p)
unfolding remove
remove-IsValid {c} p v = elim (Option-cases (clear_slot c.capacity c.list p)) [
  | inl h ↦ rw (h, remove) v
  | inr (rest, h) ↦ rw (h, remove) (ground (arith, length-clear_slot c.capacity c.list p h))
]
