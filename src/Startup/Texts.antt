-- ===== src/Startup/Texts.antt =====
-- The functions of Go's package strings that the entry point uses, on texts of characters.
use Prim.Native.Nat.{ℕ}
use Prim.Native.Char.{Char, code}
use Prim.Native.String.{String, [], ◌∷◌}
use mathlib.Core.Bool.{Bool, ◌&&◌, ◌||◌}
use mathlib.Core.List.{List, [] as nil, ◌∷◌ as ◌⊳◌}
use text.Mathlib.Text.{◌==◌}
use k8s_postgresql_operator.Prelude.{if◌then◌else◌, leb, eqb}

-- `unicode.IsSpace`, by the number of the character
unfoldable pub is_space_code : ℕ → Bool
is_space_code n =
    leb 9 n && leb n 13
    || eqb n 32
    || eqb n 0x85
    || eqb n 0xA0
    || eqb n 0x1680
    || leb 0x2000 n && leb n 0x200A
    || eqb n 0x2028
    || eqb n 0x2029
    || eqb n 0x202F
    || eqb n 0x205F
    || eqb n 0x3000

unfoldable pub is_space : Char → Bool
unfolding is_space_code
is_space c = is_space_code (code c)

unfoldable pub trim_left : String → String
trim_left [] = ""
trim_left (c ∷ s) = let rest = trim_left s in if is_space c then rest else c ∷ s

unfoldable pub trim_right : String → String
trim_right [] = ""
trim_right (c ∷ s) = let rest = trim_right s in if is_space c && rest == "" then "" else c ∷ rest

-- `strings.TrimSpace`
unfoldable pub trim_space : String → String
unfolding trim_left trim_right
trim_space s = trim_right (trim_left s)

-- The character in front of the first field.
abbrev pub extend : Char → List String → List String
extend c nil = (c ∷ "") ⊳ nil
extend c (s ⊳ rest) = (c ∷ s) ⊳ rest

-- `strings.Split(s, ",")`
unfoldable pub split_commas : String → List String
split_commas [] = "" ⊳ nil
split_commas (c ∷ s) =
    let rest = split_commas s in if eqb (code c) 44 then "" ⊳ rest else extend c rest
