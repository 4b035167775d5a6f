-- ===== src/Common/Utf8.antt =====
-- The bytes of a Go string that `json.Unmarshal` made: the UTF-8 of its characters.
use Prim.Native.Char.{code}
use Prim.Native.Nat.{ℕ, ◌+◌, ◌/◌, ◌%◌}
use Prim.Native.String.{String}
use mathlib.Core.List.{[], ◌∷◌, ◌++◌}
use kiro_gateway_go.Common.Tests.{ltb, if◌then◌else◌}
use kiro_gateway_go.Common.Bytes.{Bytes}

-- The last six bits of `n`, as a byte that continues a character.
abbrev continuation : ℕ → ℕ
continuation n = 128 + n % 64

abbrev encode : ℕ → Bytes
encode n =
    if ltb n 128
    then n ∷ []
    else if ltb n 2048
    then (192 + n / 64) ∷ continuation n ∷ []
    else if ltb n 65536
    then (224 + n / 4096) ∷ continuation (n / 64) ∷ continuation n ∷ []
    else (240 + n / 262144) ∷ continuation (n / 4096) ∷ continuation (n / 64) ∷ continuation n ∷ []

abbrev pub utf8 : String → Bytes
utf8 String.[] = []
utf8 (String.◌∷◌ c s) = encode (code c) ++ utf8 s
