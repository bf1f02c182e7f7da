-- ===== src/Buffer/Contents.antt =====
-- A buffer seen as the queue of its bytes in use.
use mathlib.Core.List.{append_assoc}
use usbfluxd.Prelude.{
  ℕ, ◌+◌, ◌-◌, ◌≤◌, ◌<◌, ◌≡◌, refl, ap, ◌∙◌, Bool, false, ltb, none, some, List, [], ◌++◌, length,
  take, drop, replicate, arith, length-append, length-take, length-drop, length-replicate,
  Bool-cases, inl, inr,
}
use usbfluxd.Proto.{u32_mod}
use usbfluxd.Buffer.{
  Buffer, malloc, available, new_size, realloc, enlarge, make_room, write_at, memcpy, memmove_down,
  put, shift, queued,
}
use usbfluxd.Buffer.Memory.{take-append, take-append_le, take-all, take-drop}

-- The memory is there and has `capacity` bytes, and no more are in use.
pub record IsValid (b : Buffer) : Type 0 where
  pub block : List ℕ
  pub stored : b.buf ≡ some block
  pub sized : length block ≡ b.capacity
  pub fits : b.size ≤ b.capacity
  pub small : b.capacity < u32_mod

pub capacity-malloc : (n : ℕ) → (malloc n).capacity ≡ n
unfolding malloc
capacity-malloc n = refl

pub malloc-IsValid : (n : ℕ) → n < u32_mod → IsValid (malloc n) × (queued (malloc n) ≡ [])
unfolding malloc
malloc-IsValid n h = (
  record {
    block = replicate n 0;
    stored = refl;
    sized = length-replicate n 0;
    fits = omega arith;
    small = h;
  },
  refl,
)

length-realloc : (old : List ℕ) (n : ℕ) → length old ≤ n → length (realloc (some old) n) ≡ n
length-realloc old n h = omega (
  arith,
  length-append (take n old) (replicate (n - length old) 0),
  length-take n old,
  length-replicate {A = ℕ} (n - length old) 0,
)

-- What the enlargement guarantees of the buffer that it returns.
pub record Roomy (b : Buffer) (n : ℕ) (b' : Buffer) : Type 0 where
  pub valid : IsValid b'
  pub room : b.size + n ≤ b'.capacity
  pub same_size : b'.size ≡ b.size
  pub same_bytes : queued b' ≡ queued b
  pub bounded : b'.capacity ≤ b.capacity + n + 4096

queued-realloc :
    (old : List ℕ) (size n : ℕ)
    → size ≤ length old
    → length old ≤ n
    → take size (realloc (some old) n) ≡ take size old
queued-realloc old size n hs hn =
    rw (take-all n old hn, take-append_le size old (replicate (n - length old) 0) hs)

new_size_bounds :
    (capacity n : ℕ)
    → capacity + n + 4096 < u32_mod
    → (capacity + n ≤ new_size capacity n) × (new_size capacity n ≤ capacity + n + 4096)
new_size_bounds capacity n h = omega arith

enlarge-Roomy :
    {b : Buffer} (n m : ℕ)
    → IsValid b
    → b.capacity + n ≤ m
    → m ≤ b.capacity + n + 4096
    → m < u32_mod
    → Roomy b n (enlarge b m)
enlarge-Roomy {b} n m v lo hi small = record {
  valid = record {
    block = realloc (some v.block) m;
    stored = rw v.stored;
    sized = length-realloc v.block m (rw v.sized (omega arith));
    fits = omega arith;
    small = small;
  };
  room = omega arith;
  same_size = refl;
  same_bytes =
      rw v.stored (queued-realloc v.block b.size m (rw v.sized v.fits) (rw v.sized (omega arith)));
  bounded = hi;
}

pub make_room_fails :
    (can_alloc : ℕ → Bool) (b : Buffer) (n : ℕ)
    → make_room can_alloc b n ≡ none
    → can_alloc (new_size b.capacity n) ≡ false
unfolding make_room
make_room_fails can_alloc b n e = ground arith

-- Making room for `n` more bytes in a valid buffer, where the sizes stay below 2 ^ 32 and `realloc`
-- does not fail: the buffer is valid, has room for them behind the bytes in use, holds the same bytes
-- in use, and has grown by at most `n` and a page.
pub make_room-Roomy :
    (can_alloc : ℕ → Bool) {b : Buffer} (n : ℕ) {b' : Buffer}
    → IsValid b
    → b.capacity + n + 4096 < u32_mod
    → make_room can_alloc b n ≡ some b'
    → Roomy b n b'
unfolding make_room
make_room-Roomy can_alloc {b} n {b'} v small e = elim (Bool-cases (ltb (available b) n)) [
  | inl little ↦
      let (lo, hi) = new_size_bounds b.capacity n small in
      let shape : b' ≡ enlarge b (new_size b.capacity n) = ground arith in
      rw shape (enlarge-Roomy n (new_size b.capacity n) v lo hi (omega arith))
  | inr enough ↦
      let shape : b' ≡ b = ground arith in
      rw shape (record {
        valid = v;
        room = ground arith;
        same_size = refl;
        same_bytes = refl;
        bounded = omega arith;
      })
]

-- The block with the bytes written at the offset.
abbrev written : List ℕ → ℕ → List ℕ → List ℕ
written block offset bytes = take offset block ++ (bytes ++ drop (offset + length bytes) block)

length-written :
    (block : List ℕ) (offset : ℕ) (bytes : List ℕ)
    → offset + length bytes ≤ length block
    → length (written block offset bytes) ≡ length block
length-written block offset bytes h = omega (
  arith,
  length-append (take offset block) (bytes ++ drop (offset + length bytes) block),
  length-append bytes (drop (offset + length bytes) block),
  length-take offset block,
  length-drop (offset + length bytes) block,
)

take-written :
    (block : List ℕ) (offset : ℕ) (bytes : List ℕ)
    → offset + length bytes ≤ length block
    → take (offset + length bytes) (written block offset bytes) ≡ take offset block ++ bytes
take-written block offset bytes h =
    rw (← append_assoc (take offset block) bytes (drop (offset + length bytes) block)) (
      take-append (offset + length bytes) (take offset block ++ bytes)
        (drop (offset + length bytes) block)
        (omega (arith, length-append (take offset block) bytes, length-take offset block)))

put-written :
    {b : Buffer} (bytes : List ℕ) (v : IsValid b)
    → b.size + length bytes ≤ b.capacity
    → put b bytes
      ≡ some (record b { buf = some (written v.block b.size bytes); size = b.size + length bytes })
unfolding put memcpy write_at
put-written bytes v h = ground arith

-- Writing behind the bytes in use, where there is room for it, stays inside the block, appends the
-- bytes to those queued, and leaves the capacity alone.
pub put_lem :
    {b : Buffer} (bytes : List ℕ)
    → IsValid b
    → b.size + length bytes ≤ b.capacity
    → (b' : Buffer) × (put b bytes ≡ some b')
      × IsValid b'
      × (queued b' ≡ queued b ++ bytes)
      × (b'.size ≡ b.size + length bytes)
      × (b'.capacity ≡ b.capacity)
put_lem {b} bytes v h = (
  record b { buf = some (written v.block b.size bytes); size = b.size + length bytes },
  put-written bytes v h,
  record {
    block = written v.block b.size bytes;
    stored = refl;
    sized = length-written v.block b.size bytes (rw v.sized h) ∙ v.sized;
    fits = h;
    small = v.small;
  },
  rw v.stored (take-written v.block b.size bytes (rw v.sized h)),
  refl,
  refl,
)

-- The block with `k` bytes moved down by `n`.
abbrev moved : List ℕ → ℕ → ℕ → List ℕ
moved block n k = take k (drop n block) ++ drop k block

length-moved :
    (block : List ℕ) (n k : ℕ) → n + k ≤ length block → length (moved block n k) ≡ length block
length-moved block n k h = omega (
  arith,
  length-append (take k (drop n block)) (drop k block),
  length-take k (drop n block),
  length-drop n block,
  length-drop k block,
)

take-moved :
    (block : List ℕ) (n k : ℕ)
    → n + k ≤ length block
    → take k (moved block n k) ≡ drop n (take (n + k) block)
take-moved block n k h =
    take-append k (take k (drop n block)) (drop k block)
      (omega (arith, length-take k (drop n block), length-drop n block))
    ∙ take-drop k n (n + k) block refl

shift-moved :
    {b : Buffer} {n : ℕ} (v : IsValid b)
    → n ≤ b.size
    → shift b n ≡ some (record b { buf = some (moved v.block n (b.size - n)); size = b.size - n })
unfolding shift memmove_down
shift-moved v h = ground arith

-- Moving the bytes that a partial send left to the front stays inside the block, drops exactly the
-- bytes that were sent from those queued, and leaves the capacity alone.
pub shift_lem :
    {b : Buffer} (n : ℕ)
    → IsValid b
    → n ≤ b.size
    → (b' : Buffer) × (shift b n ≡ some b')
      × IsValid b'
      × (queued b' ≡ drop n (queued b))
      × (b'.size ≡ b.size - n)
      × (b'.capacity ≡ b.capacity)
shift_lem {b} n v h = (
  record b { buf = some (moved v.block n (b.size - n)); size = b.size - n },
  shift-moved v h,
  record {
    block = moved v.block n (b.size - n);
    stored = refl;
    sized = length-moved v.block n (b.size - n) (rw v.sized (omega arith)) ∙ v.sized;
    fits = omega arith;
    small = v.small;
  },
  rw v.stored (
      take-moved v.block n (b.size - n) (rw v.sized (omega arith))
      ∙ ap (λ (k : ℕ). drop n (take k v.block)) (omega arith)),
  refl,
  refl,
)
