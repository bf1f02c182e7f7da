-- ===== src/Utils/Files/Reading.antt =====
-- The file helpers: what becomes of a read, and of the memory, in every case.
use usbfluxd.Prelude.{
  ℕ, suc, ◌+◌, ◌==◌, ◌≤◌, ◌<◌, ◌≡◌, refl, ap, ◌∙◌, inl, inr, true, false, ltb, leb, ◌&&◌,
  if◌then◌else◌, Option, none, some, List, [], ◌∷◌, ◌++◌, length, take, arith, Bool-cases,
  Option-cases,
}
use usbfluxd.Text.{cstr, str_eq}
use usbfluxd.Buffer.Memory.{take-append, take-append_le}
use usbfluxd.Utils.Memory.{Address, Memory, free, store, load, read_block}
use usbfluxd.System.{LibPlist}
use usbfluxd.World.Monad.{update, update-update, eq_self, ◌>>=◌, ◌>>◌}
use usbfluxd.Utils.Files.Content.{read_content-no_block, read_content-cut, read_content-whole}
use usbfluxd.Utils.Files.{
  FileEnv, read_content, buffer_read_from_filename, parse, parse_content, plist_read_from_filename,
}

-- Memory after a read whose block was freed again.
abbrev pub released : Memory → Memory
released mem = record mem {
  blocks = update mem.blocks mem.next none;
  next = suc mem.next;
  buffer = Address.block mem.next;
}

module _ {Plist : Type 0} ⦃lib : LibPlist Plist⦄ (from_bin : List ℕ → Option Plist)
    (to_bin : Plist → Option (List ℕ)) where
  -- What is read from a content: a binary property list is known by its first eight bytes.
  abbrev pub parsed : List ℕ → Option Plist
  parsed bytes =
      if ltb 8 (length bytes) && str_eq (take 8 bytes) (cstr "bplist00")
      then from_bin bytes
      else lib.from_xml bytes

  parse-parsed :
      (bytes : List ℕ) (last : ℕ)
      → parse from_bin to_bin (length bytes) (bytes ++ last ∷ []) ≡ parsed bytes
  unfolding parse
  parse-parsed bytes last = elim (Bool-cases (ltb 8 (length bytes))) [
    | inl long ↦
        rw
          (
            parse,
            long,
            take-append_le 8 bytes (last ∷ []) (ground (arith, long)),
            take-append (length bytes) bytes (last ∷ []) refl,
          )
          refl
    | inr short ↦ rw (parse, short, take-append (length bytes) bytes (last ∷ []) refl) refl
  ]

  -- How reading a property list from a file may end.
  pub data Ends (file : FileEnv) (mem : Memory) (res : Option ((ℕ × Option Plist) × Memory))
      : Type 0 where
    unopened :
        file.readable ≡ none
        → res ≡ some ((0, none), record mem { buffer = Address.null })
        → Ends file mem res
    empty :
        file.readable ≡ some []
        → res ≡ some ((0, none), record mem { buffer = Address.null })
        → Ends file mem res
    no_block :
        (bytes : List ℕ)
        → file.readable ≡ some bytes
        → 0 < length bytes
        → file.can_malloc (length bytes + 1) ≡ false
        → res ≡ none
        → Ends file mem res
    cut_short :
        (bytes : List ℕ)
        → file.readable ≡ some bytes
        → file.can_malloc (length bytes + 1) ≡ true
        → file.delivered < length bytes
        → res ≡ none
        → Ends file mem res
    whole :
        (bytes : List ℕ)
        → file.readable ≡ some bytes
        → 0 < length bytes
        → file.can_malloc (length bytes + 1) ≡ true
        → length bytes ≤ file.delivered
        → res ≡ some ((1, parsed bytes), released mem)
        → Ends file mem res

  pub reads_whole :
      (file : FileEnv) (mem : Memory) (bytes : List ℕ)
      → file.readable ≡ some bytes
      → 0 < length bytes
      → file.can_malloc (length bytes + 1) ≡ true
      → length bytes ≤ file.delivered
      → plist_read_from_filename from_bin to_bin true file mem
        ≡ some ((1, parse from_bin to_bin (length bytes) (bytes ++ file.unset ∷ [])), released mem)
  unfolding plist_read_from_filename buffer_read_from_filename parse_content store load read_block
      free
  reads_whole file mem bytes there some_bytes e full =
      let n : (length bytes == 0) ≡ false = ground arith in
      rw
        (
          plist_read_from_filename,
          ◌>>=◌,
          ◌>>◌,
          store,
          buffer_read_from_filename,
          there,
          n,
          read_content-whole file bytes (record mem { buffer = Address.null }) e full,
          parse_content,
          load,
          read_block,
          eq_self mem.next,
          free,
          eq_self mem.next,
        )
        (ap
          (λ f. some (
            (1, parse from_bin to_bin (length bytes) (bytes ++ file.unset ∷ [])),
            record (released mem) { blocks = f },
          ))
          (update-update mem.blocks mem.next (some (bytes ++ file.unset ∷ [])) none))

  -- A read that faults below ends with a fault.
  faults :
      (file : FileEnv) (mem : Memory) (bytes : List ℕ)
      → file.readable ≡ some bytes
      → 0 < length bytes
      → read_content file bytes Address.variable (record mem { buffer = Address.null }) ≡ none
      → plist_read_from_filename from_bin to_bin true file mem ≡ none
  unfolding plist_read_from_filename buffer_read_from_filename store
  faults file mem bytes there some_bytes e =
      let n : (length bytes == 0) ≡ false = ground arith in
      rw (plist_read_from_filename, ◌>>=◌, ◌>>◌, store, buffer_read_from_filename, there, n, e) refl

  unopened_lem :
      (file : FileEnv) (mem : Memory)
      → file.readable ≡ none
      → plist_read_from_filename from_bin to_bin true file mem
        ≡ some ((0, none), record mem { buffer = Address.null })
  unfolding plist_read_from_filename buffer_read_from_filename parse_content store
  unopened_lem file mem e =
      rw (plist_read_from_filename, ◌>>=◌, ◌>>◌, store, buffer_read_from_filename, e, parse_content)
        refl

  empty_lem :
      (file : FileEnv) (mem : Memory)
      → file.readable ≡ some []
      → plist_read_from_filename from_bin to_bin true file mem
        ≡ some ((0, none), record mem { buffer = Address.null })
  unfolding plist_read_from_filename buffer_read_from_filename parse_content store
  empty_lem file mem e =
      rw (plist_read_from_filename, ◌>>=◌, ◌>>◌, store, buffer_read_from_filename, e, parse_content)
        refl

  reading :
      (file : FileEnv) (mem : Memory) (bytes : List ℕ)
      → file.readable ≡ some bytes
      → 0 < length bytes
      → Ends file mem (plist_read_from_filename from_bin to_bin true file mem)
  reading file mem bytes there some_bytes =
      let start : Memory = record mem { buffer = Address.null } in
      elim (Bool-cases (file.can_malloc (length bytes + 1))) [
        | inl e ↦ elim (Bool-cases (leb (length bytes) file.delivered)) [
          | inl full ↦ whole bytes there some_bytes e (ground (arith, full)) (
              reads_whole file mem bytes there some_bytes e (ground (arith, full))
              ∙ ap (λ p. some ((1, p), released mem)) (parse-parsed bytes file.unset))
          | inr short ↦ cut_short bytes there e (ground (arith, short)) (
              faults file mem bytes there some_bytes
                (read_content-cut file bytes start e (ground (arith, short))))
        ]
        | inr e ↦
            no_block bytes there some_bytes e
              (faults file mem bytes there some_bytes (read_content-no_block file bytes start e))
      ]

  -- Reading a property list from a file whose name is not NULL, in any memory: where the file cannot be opened or is empty, the
  -- result is 0 and nothing was allocated; where a block can be had and all bytes arrive, the result is 1
  -- with what the parser of their format makes of these bytes, and the block is freed again; where `malloc` fails
  -- the NULL is read into, and where fewer bytes arrive the address of a variable is freed, a fault in
  -- both cases, where the caller should get 0.
  pub plist_read_from_filename-Ends :
      (file : FileEnv) (mem : Memory)
      → Ends file mem (plist_read_from_filename from_bin to_bin true file mem)
  plist_read_from_filename-Ends file mem = elim (Option-cases file.readable) [
    | inl e ↦ unopened e (unopened_lem file mem e)
    | inr ([], e) ↦ empty e (empty_lem file mem e)
    | inr (b ∷ bytes, e) ↦ reading file mem (b ∷ bytes) e (omega arith)
  ]
