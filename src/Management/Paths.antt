-- ===== src/Management/Paths.antt =====
-- The slug of an Angel and the canonical spelling of a mutation's path (src/management.ts).
use Prim.Native.Char.{code}
use angel_cloud.Prelude.{
  ℕ, String, Bool, false, ◌&&◌, ◌||◌, List, [], ◌∷◌, ◌==◌, all, leb, ltb, nat_eq, if◌then◌else◌,
  Result, ok, err, ◌>>=◌, ◌>>◌, guard, or_throw,
}
use angel_cloud.Text.{codes, starts_with, utf16_length}
use angel_cloud.Json.{join}
use angel_cloud.Runtime.{Runtime}
use angel_cloud.Management.State.{Failure, refused}

abbrev pub is_lower : ℕ → Bool
is_lower c = leb b'a' c && leb c b'z'

abbrev pub is_slug_char : ℕ → Bool
is_slug_char c = is_lower c || ((leb b'0' c && leb c b'9') || nat_eq c b'-')

-- /^[a-z][a-z0-9-]*$/
abbrev pub matches_slug : List ℕ → Bool
matches_slug [] = false
matches_slug (c ∷ cs) = is_lower c && all is_slug_char cs

abbrev pub bad_slug : Failure
bad_slug =
    refused 400
      "Angel slug must start with a letter and use lowercase letters, numbers, and hyphens"

unfoldable pub required_slug : String → Result Failure String
required_slug s = if matches_slug (codes s) then ok s else err bad_slug

abbrev is_slash : ℕ → Bool
is_slash c = nat_eq c b'/'

-- value.replace(/\/+$/, "")
abbrev strip_slashes : String → String
strip_slashes String.[] = ""
strip_slashes (String.◌∷◌ c s) =
    let rest = strip_slashes s in if rest == "" && is_slash (code c) then "" else String.◌∷◌ c rest

-- The text up to the first slash, and the segments after it.
abbrev first_segment : String → String
first_segment String.[] = ""
first_segment (String.◌∷◌ c s) =
    let rest = first_segment s in if is_slash (code c) then "" else String.◌∷◌ c rest

abbrev later_segments : String → List String
later_segments String.[] = []
later_segments (String.◌∷◌ c s) =
    let rest = later_segments s in if is_slash (code c) then first_segment s ∷ rest else rest

-- trimmed.split("/")
unfoldable pub split_path : String → List String
split_path s = first_segment s ∷ later_segments s

module _ (r : Runtime) where
  unfoldable pub decode_segments : List String → Result Failure (List String)
  decode_segments [] = ok []
  decode_segments (s ∷ ss) =
      or_throw (refused 400 "mutation path must be percent-decodable") (r.decode_uri_component s)
      >>= λ t. decode_segments ss >>= λ ts. ok (t ∷ ts)

  unfoldable pub canonical_path : String → Result Failure String
  unfolding decode_segments
  canonical_path path = do
    guard (starts_with path "/") (refused 400 "mutation path must be absolute")
    let trimmed = if ltb 1 (utf16_length path) then strip_slashes path else path
    segments ← decode_segments (split_path trimmed)
    ok (join "/" segments)
