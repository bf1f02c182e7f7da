-- ===== src/Utils/Files.antt =====
-- The file helpers of usbfluxd/utils.c: `buffer_read_from_filename`, `buffer_write_to_filename`,
-- `plist_read_from_filename` and `plist_write_to_filename`.
pub mod Content
pub mod Reading
pub mod RoundTrip
use usbfluxd.Prelude.{
  ℕ, ◌+◌, ◌==◌, ltb, ◌&&◌, Bool, true, false, if◌then◌else◌, Option, none, some, List, [], ◌∷◌,
  ◌++◌, length, take,
}
use usbfluxd.Text.{CString, cstr, str_eq}
use usbfluxd.Utils.Memory.{Address, Memory, is_null, malloc, free, store, load, read_block, fread}
use usbfluxd.System.{LibPlist}
use usbfluxd.World.Monad.{M, pure, ◌>>=◌, ◌>>◌}

-- The outcomes of the calls on one file.
pub record FileEnv : Type 0 where
  -- What is in the file that `fopen` opens for reading, if it opens one.
  pub readable : Option (List ℕ)
  -- How many bytes `fread` delivers, and `fwrite` takes.
  pub delivered : ℕ
  pub taken : ℕ
  -- Whether `fopen` opens the file for writing.
  pub writable : Bool
  -- Whether `malloc` of this many bytes succeeds.
  pub can_malloc : ℕ → Bool
  -- What each byte of fresh memory holds.
  pub unset : ℕ

-- The block for the content and what is read into it. The check after `malloc` is of `buffer`, the
-- address of the caller's variable, and not of what that variable now holds; the same address is freed
-- after a short read.
unfoldable pub read_content : FileEnv → List ℕ → Address → M Memory (ℕ × ℕ)
read_content file bytes buffer = do
  content ← malloc (file.can_malloc (length bytes + 1)) file.unset (length bytes + 1)
  store buffer content
  if is_null buffer then pure (0, 0) else (do
    target ← load buffer
    got ← fread target (length bytes) (take file.delivered bytes)
    if got == length bytes
        then pure (1, length bytes)
        else (do free buffer; pure (0, length bytes)))

-- The result and `*length`, which stays unset, here 0, where nothing is read; `buffer` is a pointer to
-- the caller's variable.
unfoldable pub buffer_read_from_filename : FileEnv → Address → M Memory (ℕ × ℕ)
buffer_read_from_filename file buffer = elim file.readable [
  | none ↦ pure (0, 0)
  | some bytes ↦ if length bytes == 0 then pure (0, 0) else read_content file bytes buffer
]

-- The result, and what is in the file afterwards; `none` where it is not touched.
unfoldable pub buffer_write_to_filename : FileEnv → List ℕ → ℕ × Option (List ℕ)
buffer_write_to_filename file bytes =
    if file.writable
    then (if file.taken == length bytes then 1 else 0, some (take file.taken bytes))
    else (0, none)

pub data PlistFormat : Type 0 where
  xml binary other : PlistFormat

module _ {Plist : Type 0} ⦃lib : LibPlist Plist⦄ (from_bin : List ℕ → Option Plist)
    (to_bin : Plist → Option (List ℕ)) where
  -- The parser that the first eight bytes select.
  pub parse : ℕ → List ℕ → Option Plist
  parse len bytes =
      if ltb 8 len && str_eq (take 8 bytes) (cstr "bplist00")
      then from_bin (take len bytes)
      else lib.from_xml (take len bytes)

  -- What follows a read: the content is parsed and freed.
  unfoldable pub parse_content : ℕ × ℕ → M Memory (ℕ × Option Plist)
  parse_content (ret, len) = if ret == 0 then pure (0, none) else (do
    content ← load Address.variable
    bytes ← read_block content
    free content
    pure (1, parse len bytes))

  -- The result and the node; `has_name` says that the file name is not NULL.
  unfoldable pub plist_read_from_filename : Bool → FileEnv → M Memory (ℕ × Option Plist)
  plist_read_from_filename has_name file = do
    store Address.variable Address.null
    if has_name
        then buffer_read_from_filename file Address.variable >>= parse_content
        else pure (0, none)

  -- A node that cannot be written out leaves NULL and an unset length to `fwrite`, which is a fault.
  unfoldable pub plist_write_to_filename :
      Option Plist → Bool → PlistFormat → FileEnv → Option (ℕ × Option (List ℕ))
  plist_write_to_filename none has_name format file = some (0, none)
  plist_write_to_filename (some plist) false format file = some (0, none)
  plist_write_to_filename (some plist) true PlistFormat.xml file = elim (lib.to_xml plist) [
    | none ↦ none
    | some bytes ↦ some (buffer_write_to_filename file bytes)
  ]
  plist_write_to_filename (some plist) true PlistFormat.binary file = elim (to_bin plist) [
    | none ↦ none
    | some bytes ↦ some (buffer_write_to_filename file bytes)
  ]
  plist_write_to_filename (some plist) true PlistFormat.other file = some (0, none)
