-- ===== src/Utils/Collection.antt =====
-- The pointer arrays of usbfluxd/utils.c: `struct collection`, its operations, and the order in
-- which `FOREACH` visits. A pointer is a number, a slot that holds NULL is `none`.
pub mod Content
pub mod Capacity
pub mod Bag
use usbfluxd.Prelude.{
  ℕ, zero, suc, ◌+◌, Bool, true, false, ◌==◌, if◌then◌else◌, Option, none, some, List, [], ◌∷◌,
  ◌++◌, replicate,
}

-- A `void *`.
abbrev pub Ptr : Type 0
Ptr = ℕ

abbrev pub Slots : Type 0
Slots = List (Option Ptr)

pub record Collection : Type 0 where
  pub list : Slots
  pub capacity : ℕ

abbrev pub capacity_step : ℕ
capacity_step = 8

unfoldable pub init : Collection
init = record { list = replicate capacity_step none; capacity = capacity_step }

-- `collection_free` leaves a collection with no array.
pub free : Collection → Collection
free c = record { list = []; capacity = 0 }

-- The search of `collection_add`, with the rounds left: the array with the first free slot filled,
-- or `none` if all of them are taken.
pub fill_free : ℕ → Slots → Ptr → Option Slots
fill_free zero list p = none
fill_free (suc n) [] p = none
fill_free (suc n) (none ∷ list) p = some (some p ∷ list)
fill_free (suc n) (some q ∷ list) p = elim (fill_free n list p) [
  | none ↦ none
  | some list' ↦ some (some q ∷ list')
]

-- A full array grows by `capacity_step` slots, of which the first takes the pointer.
pub grow : Collection → Ptr → Collection
grow c p = record {
  list = c.list ++ (some p ∷ replicate 7 none);
  capacity = c.capacity + capacity_step;
}

pub add : Collection → Ptr → Collection
unfolding fill_free grow
add c p = elim (fill_free c.capacity c.list p) [
  | none ↦ grow c p
  | some list' ↦ record c { list = list' }
]

-- The search of `collection_remove`: the array with the first slot that holds the pointer cleared,
-- or `none` if no slot does (which is only logged).
pub clear_slot : ℕ → Slots → Ptr → Option Slots
clear_slot zero list p = none
clear_slot (suc n) [] p = none
clear_slot (suc n) (none ∷ list) p = elim (clear_slot n list p) [
  | none ↦ none
  | some list' ↦ some (none ∷ list')
]
clear_slot (suc n) (some q ∷ list) p =
    let rest : Option Slots = elim (clear_slot n list p) [
      | none ↦ none
      | some list' ↦ some (some q ∷ list')
    ] in
    if q == p then some (none ∷ list) else rest

pub remove : Collection → Ptr → Collection
unfolding clear_slot
remove c p = elim (clear_slot c.capacity c.list p) [
  | none ↦ c
  | some list' ↦ record c { list = list' }
]

-- `collection_count`, with the rounds left and the count so far.
pub count_from : ℕ → Slots → ℕ → ℕ
count_from zero list cnt = cnt
count_from (suc n) [] cnt = cnt
count_from (suc n) (none ∷ list) cnt = count_from n list cnt
count_from (suc n) (some q ∷ list) cnt = count_from n list (cnt + 1)

pub count : Collection → ℕ
unfolding count_from
count c = count_from c.capacity c.list 0

-- `collection_copy` of a collection that is there.
pub copy : Collection → Collection
copy src = record { capacity = src.capacity; list = src.list }

-- What `FOREACH` visits, with the rounds left.
unfoldable pub visit : ℕ → Slots → List Ptr
visit zero list = []
visit (suc n) [] = []
visit (suc n) (none ∷ list) = visit n list
visit (suc n) (some q ∷ list) = q ∷ visit n list

unfoldable pub elements : Collection → List Ptr
unfolding visit
elements c = visit c.capacity c.list
