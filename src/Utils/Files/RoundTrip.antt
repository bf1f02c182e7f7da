-- ===== src/Utils/Files/RoundTrip.antt =====
-- The file helpers: a property list that was written as XML is read back.
use usbfluxd.Prelude.{
  ℕ, ◌+◌, ◌≡◌, refl, sym, ◌∙◌, ap, ◌<◌, ◌≤◌, true, false, ltb, Option, some, List, [], ◌∷◌, ◌++◌,
  length, take, arith, Bool-cases, inl, inr,
}
use usbfluxd.Text.{cstr, str_eq}
use usbfluxd.System.{LibPlist}
use usbfluxd.Buffer.Memory.{take-append, take-append_le, take-all}
use usbfluxd.Utils.Memory.{Memory}
use usbfluxd.Utils.Files.Reading.{released, reads_whole}
use usbfluxd.Utils.Files.{
  PlistFormat, FileEnv, buffer_write_to_filename, parse, plist_read_from_filename,
  plist_write_to_filename,
}

module _ {Plist : Type 0} ⦃lib : LibPlist Plist⦄ (from_bin : List ℕ → Option Plist)
    (to_bin : Plist → Option (List ℕ)) where
  parses :
      (bytes : List ℕ) (last : ℕ)
      → str_eq (take 8 (bytes ++ 0 ∷ [])) (cstr "bplist00") ≡ false
      → parse from_bin to_bin (length bytes) (bytes ++ last ∷ []) ≡ lib.from_xml bytes
  unfolding parse
  parses bytes last not_binary = elim (Bool-cases (ltb 8 (length bytes))) [
    | inl long ↦
        let enough : 8 ≤ length bytes = ground (arith, long) in
        let same : take 8 (bytes ++ last ∷ []) ≡ take 8 (bytes ++ 0 ∷ []) =
          take-append_le 8 bytes (last ∷ []) enough
          ∙ sym (take-append_le 8 bytes (0 ∷ []) enough) in
        rw (parse, long, same, not_binary, take-append (length bytes) bytes (last ∷ []) refl) refl
    | inr short ↦ rw (parse, short, take-append (length bytes) bytes (last ∷ []) refl) refl
  ]

  -- A property list whose XML is not empty, does not start like a binary property list and is parsed to
  -- the list itself: if writing it to a file that can be written returns 1, then reading that file, where
  -- `malloc` succeeds and all bytes are delivered, returns 1 and the list, in any memory, and the block of
  -- the content is freed again.
  pub plist_read_from_filename-plist_write_to_filename :
      (plist : Plist) (bytes : List ℕ) (out : FileEnv) (file : FileEnv) (mem : Memory)
      → lib.to_xml plist ≡ some bytes
      → lib.from_xml bytes ≡ some plist
      → 0 < length bytes
      → str_eq (take 8 (bytes ++ 0 ∷ [])) (cstr "bplist00") ≡ false
      → (written : Option (List ℕ))
      → plist_write_to_filename from_bin to_bin (some plist) true PlistFormat.xml out
        ≡ some (1, written)
      → file.readable ≡ written
      → file.can_malloc (length bytes + 1) ≡ true
      → file.delivered ≡ length bytes
      → plist_read_from_filename from_bin to_bin true file mem
        ≡ some ((1, some plist), released mem)
  unfolding plist_write_to_filename buffer_write_to_filename
  plist_read_from_filename-plist_write_to_filename plist bytes out file mem made parsed some_bytes
        not_binary written e there room whole =
      let stored : written ≡ some bytes = ground (arith, made, e, take-all (length bytes) bytes) in
      reads_whole from_bin to_bin file mem bytes (there ∙ stored) some_bytes room (omega arith)
      ∙ ap (λ p. some ((1, p), released mem)) (parses bytes file.unset not_binary ∙ parsed)
