-- ===== src/Tests/Printing.antt =====
-- Strings and a document that are printed.
use kiro_gateway_go.Common.{ℕ, ◌≡◌, true, Option, none, some, List, [], ◌∷◌, ◌++◌}
use kiro_gateway_go.Common.Bytes.{Bytes}
use kiro_gateway_go.PyJson.Strings.{write_string, write_ascii_string}
use kiro_gateway_go.PyJson.Reader.{read_string}
use kiro_gateway_go.PyJson.Unescaped.{read_string-write_string}
use kiro_gateway_go.PyJson.Ascii.{runes, decode16, read_string-write_ascii_string}
use kiro_gateway_go.PyJson.Printable.{AllPrintable, write_ascii_string-AllPrintable}
use kiro_gateway_go.PyJson.Dumps.{close_array, more, dumps}
use kiro_gateway_go.PyJson.Documents.{Doc, str, nul, arr, item, end, tokens, printed, dumps-tokens}

-- A quote, a line end, and a character beyond the first 65536.
abbrev mixed : Bytes
mixed = b'"' ∷ 10 ∷ 0xf0 ∷ 0x9f ∷ 0x98 ∷ 0x80 ∷ []

read_string-write_string_example :
    read_string (write_string mixed ++ b',' ∷ []) ≡ some (mixed, b',' ∷ [])
read_string-write_string_example = read_string-write_string mixed (b',' ∷ [])

read_string-write_ascii_string_example :
    (units : List ℕ) × (read_string (write_ascii_string mixed ++ b',' ∷ [])
      ≡ some (units, b',' ∷ []))
    × (decode16 units ≡ runes mixed)
read_string-write_ascii_string_example = read_string-write_ascii_string mixed (b',' ∷ [])

write_ascii_string-AllPrintable_example : AllPrintable (write_ascii_string mixed)
write_ascii_string-AllPrintable_example = write_ascii_string-AllPrintable mixed

abbrev document : Doc
document = arr (item (str mixed) (item nul end))

abbrev no_float : Bytes → Option Bytes
no_float s = none

-- `["\"\n😀",null]]`: the last bracket is passed over.
dumps-tokens_example :
    dumps no_float true (tokens document (close_array ∷ [])) ≡ some (printed no_float true document)
unfolding more
dumps-tokens_example = dumps-tokens no_float true document (close_array ∷ [])
