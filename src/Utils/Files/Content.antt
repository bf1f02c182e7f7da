-- ===== src/Utils/Files/Content.antt =====
-- The file helpers: a block for the content of a file, and what is read into it.
use usbfluxd.Prelude.{
  ℕ, suc, ◌+◌, ◌==◌, ◌≤◌, ◌<◌, ◌≡◌, refl, ap, ◌∙◌, true, false, ltb, none, some, List, [], ◌∷◌,
  ◌++◌, length, take, drop, replicate, length-take, length-replicate, arith,
}
use usbfluxd.Buffer.Memory.{take-all, drop-replicate}
use usbfluxd.Utils.Memory.{Address, Memory, is_null, malloc, free, store, load, fread}
use usbfluxd.World.Monad.{update, update-update, eq_self, ◌>>=◌, ◌>>◌}
use usbfluxd.Utils.Files.{FileEnv, read_content}

-- Memory with what was read in a new block.
abbrev pub with_content : Memory → List ℕ → Memory
with_content mem bytes = record mem {
  blocks = update mem.blocks mem.next (some bytes);
  next = suc mem.next;
  buffer = Address.block mem.next;
}

pub read_content-no_block :
    (file : FileEnv) (bytes : List ℕ) (mem : Memory)
    → file.can_malloc (length bytes + 1) ≡ false
    → read_content file bytes Address.variable mem ≡ none
unfolding read_content malloc store load is_null fread
read_content-no_block file bytes mem e = rw (read_content, ◌>>=◌, ◌>>◌, malloc, e, store) refl

pub read_content-cut :
    (file : FileEnv) (bytes : List ℕ) (mem : Memory)
    → file.can_malloc (length bytes + 1) ≡ true
    → file.delivered < length bytes
    → read_content file bytes Address.variable mem ≡ none
unfolding read_content malloc store load is_null fread free
read_content-cut file bytes mem e short =
    let got : (length (take file.delivered bytes) == length bytes) ≡ false =
      ground (arith, length-take file.delivered bytes) in
    let room : ltb (length (replicate (length bytes + 1) file.unset)) (length bytes) ≡ false =
      ground (arith, length-replicate (length bytes + 1) file.unset) in
    rw
      (
        read_content,
        ◌>>=◌,
        ◌>>◌,
        malloc,
        e,
        store,
        is_null,
        load,
        fread,
        eq_self mem.next,
        room,
        got,
        free,
      )
      refl

pub read_content-whole :
    (file : FileEnv) (bytes : List ℕ) (mem : Memory)
    → file.can_malloc (length bytes + 1) ≡ true
    → length bytes ≤ file.delivered
    → read_content file bytes Address.variable mem
      ≡ some ((1, length bytes), with_content mem (bytes ++ file.unset ∷ []))
unfolding read_content malloc store load is_null fread
read_content-whole file bytes mem e full =
    let room : ltb (length (replicate (length bytes + 1) file.unset)) (length bytes) ≡ false =
      ground (arith, length-replicate (length bytes + 1) file.unset) in
    let one : length bytes + 1 ≡ suc (length bytes) = omega arith in
    let rest : drop (length bytes) (replicate (length bytes + 1) file.unset) ≡ file.unset ∷ [] =
      ap (λ (n : ℕ). drop (length bytes) (replicate n file.unset)) one
      ∙ drop-replicate (length bytes) file.unset in
    rw
      (
        read_content,
        ◌>>=◌,
        ◌>>◌,
        malloc,
        e,
        store,
        is_null,
        load,
        fread,
        eq_self mem.next,
        room,
        take-all file.delivered bytes full,
        eq_self (length bytes),
        rest,
      )
      (ap
        (λ f.
          some (
            (1, length bytes),
            record (with_content mem (bytes ++ file.unset ∷ [])) { blocks = f },
          ))
        (update-update mem.blocks mem.next (some (replicate (length bytes + 1) file.unset))
          (some (bytes ++ file.unset ∷ []))))
