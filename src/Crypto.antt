-- ===== src/Crypto.antt =====
-- packages/core/src/crypto.ts
pub mod Digest
use Prim.Native.Nat.{◌/◌, ◌%◌}
use Prim.Native.String.{◌++◌}
use angel_cloud.Prelude.{ℕ, String, Bool, false, not, ◌||◌, List, [], ◌∷◌, get_or, nat_eq}
use angel_cloud.Text.{codes}
use angel_cloud.Runtime.{Runtime}

abbrev pub hex_digits : List String
hex_digits =
    "0" ∷ "1" ∷ "2" ∷ "3" ∷ "4" ∷ "5" ∷ "6" ∷ "7" ∷ "8" ∷ "9" ∷ "a" ∷ "b" ∷ "c" ∷ "d" ∷ "e" ∷ "f"
    ∷ []

-- b.toString(16).padStart(2, "0") of a byte
abbrev pub hex_byte : ℕ → String
hex_byte b = get_or hex_digits (b / 16) "" ++ get_or hex_digits (b % 16) ""

abbrev pub hex : List ℕ → String
hex [] = ""
hex (b ∷ bs) = hex_byte b ++ hex bs

unfoldable pub sha256_hex : Runtime → String → String
sha256_hex r text = hex (r.sha256 text)

-- The loop over the first text; `diff` is whether a bit of it is set. A missing unit reads as 0.
unfoldable pub differs : Bool → List ℕ → List ℕ → Bool
differs diff [] bs = diff
differs diff (a ∷ da) [] = differs (diff || not (nat_eq a 0)) da []
differs diff (a ∷ da) (b ∷ db) = differs (diff || not (nat_eq a b)) da db

unfoldable pub timing_safe_equal_text : Runtime → String → String → Bool
unfolding differs
timing_safe_equal_text r a b = not (differs false (codes (sha256_hex r a)) (codes (sha256_hex r b)))
