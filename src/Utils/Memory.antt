-- ===== src/Utils/Memory.antt =====
-- The memory that usbfluxd/utils.c works on when it reads a file: the blocks of the heap, and the
-- variable `buffer` of `plist_read_from_filename`, whose address is handed on.
use usbfluxd.Prelude.{
  ℕ, suc, ltb, Bool, true, false, if◌then◌else◌, Option, none, some, List, ◌++◌, length, drop,
  replicate,
}
use usbfluxd.Utils.Collection.{Ptr}
use usbfluxd.World.Monad.{M, update}

-- A pointer: NULL, the address of the variable, or the start of a block.
pub data Address : Type 0 where
  null variable : Address
  block : Ptr → Address

unfoldable pub is_null : Address → Bool
is_null Address.null = true
is_null Address.variable = false
is_null (Address.block p) = false

-- The blocks that are allocated, the next free one, and what the variable holds.
pub record Memory : Type 0 where
  pub blocks : Ptr → Option (List ℕ)
  pub next : Ptr
  pub buffer : Address

-- A new block of n bytes, which hold what was there before; or NULL.
unfoldable pub malloc : Bool → ℕ → ℕ → M Memory Address
malloc can old n mem =
    if can
    then some (
      Address.block mem.next,
      record mem {
        blocks = update mem.blocks mem.next (some (replicate n old));
        next = suc mem.next;
      },
    )
    else some (Address.null, mem)

-- `free`: of NULL it does nothing, and only a block that is allocated can be freed.
unfoldable pub free : Address → M Memory (Unit {0})
free Address.null mem = some (tt, mem)
free Address.variable mem = none
free (Address.block p) mem = elim (mem.blocks p) [
  | none ↦ none
  | some _ ↦ some (tt, record mem { blocks = update mem.blocks p none })
]

-- `*at = value`, for a pointer to a pointer.
unfoldable pub store : Address → Address → M Memory (Unit {0})
store Address.null value mem = none
store Address.variable value mem = some (tt, record mem { buffer = value })
store (Address.block p) value mem = none

-- `*at`, for a pointer to a pointer.
unfoldable pub load : Address → M Memory Address
load Address.null mem = none
load Address.variable mem = some (mem.buffer, mem)
load (Address.block p) mem = none

-- The bytes of a block.
unfoldable pub read_block : Address → M Memory (List ℕ)
read_block Address.null mem = none
read_block Address.variable mem = none
read_block (Address.block p) mem = elim (mem.blocks p) [
  | none ↦ none
  | some bytes ↦ some (bytes, mem)
]

-- The bytes that come from a file replace the first ones of a block that has room for n; the result is
-- their number.
unfoldable pub fread : Address → ℕ → List ℕ → M Memory ℕ
fread Address.null n bytes mem = none
fread Address.variable n bytes mem = none
fread (Address.block p) n bytes mem = elim (mem.blocks p) [
  | none ↦ none
  | some old ↦
      if ltb (length old) n
      then none
      else some (
        length bytes,
        record mem { blocks = update mem.blocks p (some (bytes ++ drop (length bytes) old)) },
      )
]
