-- ===== src/Tests/Files.antt =====
-- The theorems on strings, files and arguments, applied.
use usbfluxd.Prelude.{◌≡◌, refl, ◌==◌, if◌then◌else◌, true, none, some, [], ◌∷◌, ◌++◌, arith}
use usbfluxd.Text.{cstr, str_eq, decimal}
use usbfluxd.Utils.Strings.{string_concat}
use usbfluxd.Utils.Strings.Concat.{concat, string_concat-concat}
use usbfluxd.Utils.Files.{
  FileEnv, plist_read_from_filename, plist_write_to_filename, buffer_write_to_filename,
}
use usbfluxd.Utils.Files.Reading.{Ends, released, plist_read_from_filename-Ends}
use usbfluxd.Utils.Memory.{Address, Memory}
use usbfluxd.Utils.Files.RoundTrip.{plist_read_from_filename-plist_write_to_filename}
use usbfluxd.Address.{host_and_port}
use usbfluxd.Address.RoundTrip.{has_colon, host_and_port-decimal}
use usbfluxd.Tests.Node.{Node, dict, node_lib, parse}

string_concat-concat_example :
    string_concat (λ n. true) (some (cstr "ab")) (cstr "c" ∷ [] ∷ cstr "d" ∷ [])
    ≡ some (some ((cstr "ab" ++ concat (cstr "c" ∷ [] ∷ cstr "d" ∷ [])) ++ 0 ∷ []))
unfolding concat cstr
string_concat-concat_example =
    string_concat-concat (λ n. true) (cstr "ab") (cstr "c" ∷ [] ∷ cstr "d" ∷ []) (omega arith)

-- A file with one byte.
abbrev one_byte : FileEnv
one_byte = record {
  readable = some (60 ∷ []);
  delivered = 1;
  taken = 1;
  writable = true;
  can_malloc = λ n. true;
  unset = 7;
}

-- Memory with one block.
abbrev one_block : Memory
one_block = record {
  blocks = λ p. if p == 0 then some [] else none;
  next = 1;
  buffer = Address.null;
}

plist_read_from_filename-plist_write_to_filename_example :
    plist_read_from_filename parse (λ n. none) true one_byte one_block
    ≡ some ((1, some dict), released one_block)
unfolding parse cstr str_eq plist_write_to_filename buffer_write_to_filename
plist_read_from_filename-plist_write_to_filename_example =
    plist_read_from_filename-plist_write_to_filename parse (λ n. none) dict (60 ∷ []) one_byte
      one_byte one_block refl refl (omega arith) refl (some (60 ∷ [])) refl refl refl refl

plist_read_from_filename-Ends_example :
    Ends {Plist = Node} parse
      (λ n. none)
      (record one_byte { delivered = 0 })
      one_block
      (plist_read_from_filename {Plist = Node} parse
        (λ n. none)
        true
        (record one_byte { delivered = 0 })
        one_block)
plist_read_from_filename-Ends_example =
    plist_read_from_filename-Ends parse (λ n. none) (record one_byte { delivered = 0 }) one_block

host_and_port-decimal_example :
    (host_and_port (cstr "ab" ++ b':' ∷ decimal 5001) ≡ (cstr "ab", 5001))
    × (host_and_port (cstr "ab") ≡ (cstr "ab", 5000))
unfolding has_colon cstr
host_and_port-decimal_example = host_and_port-decimal (cstr "ab") 5001 refl (omega arith)
