-- ===== src/Text.antt =====
-- Tests on texts of the JavaScript standard library and of the regular expressions in the source.
use Prim.Native.Char.{code}
use Prim.Native.String.{String}
use Prim.Native.Nat.{◌/◌, ◌%◌}
use angel_cloud.Prelude.{
  ℕ, ◌+◌, ◌-◌, Bool, true, false, ◌&&◌, ◌||◌, List, [], ◌∷◌, ◌++◌, ltb, leb, nat_eq, if◌then◌else◌,
  all, length, ◌==◌, zero, suc,
}

-- The code points of a text.
abbrev pub codes : String → List ℕ
codes String.[] = []
codes (String.◌∷◌ c s) = code c ∷ codes s

abbrev member : ℕ → List ℕ → Bool
member n [] = false
member n (m ∷ ms) = nat_eq n m || member n ms

-- What `trim` removes: ECMAScript white space and line terminators.
abbrev is_space : ℕ → Bool
is_space c =
    (leb 9 c && leb c 13)
    || (leb 0x2000 c && leb c 0x200a)
    || member c (32 ∷ 0xa0 ∷ 0x1680 ∷ 0x2028 ∷ 0x2029 ∷ 0x202f ∷ 0x205f ∷ 0x3000 ∷ 0xfeff ∷ [])

-- value.trim() === ""
unfoldable pub is_blank : String → Bool
is_blank s = all is_space (codes s)

-- The UTF-16 code units of a code point.
abbrev units_of : ℕ → List ℕ
units_of c =
    if ltb c 0x10000
    then c ∷ []
    else (0xd800 + (c - 0x10000) / 1024) ∷ (0xdc00 + (c - 0x10000) % 1024) ∷ []

abbrev units : String → List ℕ
units String.[] = []
units (String.◌∷◌ c s) = units_of (code c) ++ units s

-- s.length
abbrev pub utf16_length : String → ℕ
utf16_length s = length (units s)

-- s.startsWith(prefix), on code points
abbrev pub is_prefix : List ℕ → List ℕ → Bool
is_prefix [] ds = true
is_prefix (c ∷ cs) [] = false
is_prefix (c ∷ cs) (d ∷ ds) = nat_eq c d && is_prefix cs ds

abbrev lex_le : List ℕ → List ℕ → Bool
lex_le [] ns = true
lex_le (m ∷ ms) [] = false
lex_le (m ∷ ms) (n ∷ ns) = ltb m n || (nat_eq m n && lex_le ms ns)

-- a <= b, the order of `sort` with no comparator: by UTF-16 code units.
unfoldable pub code_unit_le : String → String → Bool
code_unit_le a b = lex_le (units a) (units b)

abbrev pub is_hex : ℕ → Bool
is_hex c = (leb b'a' c && leb c b'f') || (leb b'0' c && leb c b'9')

-- /^[a-f0-9]{64}$/
unfoldable pub is_sha256_hex : String → Bool
is_sha256_hex s = nat_eq (length (codes s)) 64 && all is_hex (codes s)

-- value.trim()
abbrev trim_end : String → String
trim_end String.[] = ""
trim_end (String.◌∷◌ c s) =
    let rest = trim_end s in if rest == "" && is_space (code c) then "" else String.◌∷◌ c rest

abbrev trim_start : String → String
trim_start String.[] = ""
trim_start (String.◌∷◌ c s) =
    let rest = trim_start s in if is_space (code c) then rest else String.◌∷◌ c s

unfoldable pub trim : String → String
trim s = trim_end (trim_start s)

-- s.startsWith(prefix) and s.includes(part), on texts
unfoldable pub starts_with : String → String → Bool
starts_with s prefix = is_prefix (codes prefix) (codes s)

abbrev occurs : List ℕ → List ℕ → Bool
occurs part [] = is_prefix part []
occurs part (d ∷ ds) = is_prefix part (d ∷ ds) || occurs part ds

unfoldable pub includes : String → String → Bool
includes s part = occurs (codes part) (codes s)

-- s.slice(0, n), of a text whose code points are one unit each
unfoldable pub first_units : ℕ → String → String
first_units n String.[] = ""
first_units zero (String.◌∷◌ c s) = ""
first_units (suc n) (String.◌∷◌ c s) = String.◌∷◌ c (first_units n s)
