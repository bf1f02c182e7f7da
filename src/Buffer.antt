-- ===== src/Buffer.antt =====
-- The byte buffers of a client and of a remote (`ob_buf`, `ob_size`, `ob_capacity`, and `ib_...`):
-- memory of `capacity` bytes, of which the first `size` are in use. The memory is `none` after
-- `free` and the assignment of NULL. What `malloc` leaves uninitialised is 0 here.
pub mod Memory
pub mod Contents
use usbfluxd.Prelude.{
  ℕ, ◌+◌, ◌-◌, ◌*◌, ◌/◌, ◌%◌, ltb, leb, if◌then◌else◌, Option, none, some, List, [], ◌∷◌, ◌++◌,
  length, take, drop, replicate, Bool,
}
use usbfluxd.Proto.{u32_mod}

pub record Buffer : Type 0 where
  pub buf : Option (List ℕ)
  pub size : ℕ
  pub capacity : ℕ

pub malloc : ℕ → Buffer
malloc n = record { buf = some (replicate n 0); size = 0; capacity = n }

-- `capacity - size`, as a `uint32_t`.
abbrev pub available : Buffer → ℕ
available b = (b.capacity + u32_mod - b.size) % u32_mod

-- `((capacity + length + 4096) / 4096) * 4096`, as a `uint32_t`.
abbrev pub new_size : ℕ → ℕ → ℕ
new_size capacity length = ((capacity + length + 4096) % u32_mod / 4096 * 4096) % u32_mod

-- `realloc` keeps what fits of the old memory.
abbrev pub realloc : Option (List ℕ) → ℕ → List ℕ
realloc none n = replicate n 0
realloc (some old) n = take n old ++ replicate (n - length old) 0

-- The buffer after a successful `realloc` to `n` bytes.
abbrev pub enlarge : Buffer → ℕ → Buffer
enlarge b n = record b { buf = some (realloc b.buf n); capacity = n }

-- The enlargement before a write of `n` bytes; `none` if `realloc` fails, which `can_alloc` says.
unfoldable pub make_room : (ℕ → Bool) → Buffer → ℕ → Option Buffer
make_room can_alloc b n =
    if ltb (available b) n
    then if can_alloc (new_size b.capacity n)
      then some (enlarge b (new_size b.capacity n))
      else none
    else some b

-- `memcpy` of the bytes to an offset of a block; `none` is a write outside the block.
unfoldable pub write_at : List ℕ → ℕ → List ℕ → Option (List ℕ)
write_at block offset bytes =
    if leb (offset + length bytes) (length block)
    then some (take offset block ++ (bytes ++ drop (offset + length bytes) block))
    else none

-- The same through a pointer, which must not be NULL.
pub memcpy : Option (List ℕ) → ℕ → List ℕ → Option (List ℕ)
unfolding write_at
memcpy none offset bytes = none
memcpy (some block) offset bytes = write_at block offset bytes

-- `memmove(buf, buf + n, k)`; `none` is an access outside the block.
pub memmove_down : Option (List ℕ) → ℕ → ℕ → Option (List ℕ)
memmove_down none n k = none
memmove_down (some block) n k =
    if leb (n + k) (length block) then some (take k (drop n block) ++ drop k block) else none

-- Copying bytes behind those in use, and counting them in.
pub put : Buffer → List ℕ → Option Buffer
unfolding memcpy
put b bytes = elim (memcpy b.buf b.size bytes) [
  | none ↦ none
  | some block ↦ some (record b { buf = some block; size = (b.size + length bytes) % u32_mod })
]

-- After a send of `n` bytes, fewer than are in use: the others move to the front.
pub shift : Buffer → ℕ → Option Buffer
unfolding memmove_down
shift b n = elim (memmove_down b.buf n (b.size - n)) [
  | none ↦ none
  | some block ↦ some (record b { buf = some block; size = b.size - n })
]

-- The bytes in use.
abbrev pub queued : Buffer → List ℕ
queued b = elim b.buf [ none ↦ [] | some block ↦ take b.size block ]

-- The whole block, as a cast of its address reads it.
abbrev pub memory : Buffer → List ℕ
memory b = elim b.buf [ none ↦ [] | some block ↦ block ]
