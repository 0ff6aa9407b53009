-- ===== src/Crypto/Digest.antt =====
-- A digest in hex has the shape that the source tests for: 64 hex digits.
use Prim.Native.Nat.{◌/◌, ◌%◌}
use Prim.Native.Char.{code}
use Prim.Native.String.{◌++◌ as cat}
use text.Mathlib.TextLemmas.{nil-append, cons-append}
use angel_cloud.Prelude.{
  ℕ, zero, suc, ◌+◌, ◌*◌, ◌<◌, ◌≤◌, leb, Bool-cases, inl, inr, subst, String, ◌≡◌, refl, ap, Bool,
  true, ◌&&◌, &&-eq-true, List, [], ◌∷◌, ◌++◌, get_or, length, length-append, all, All, nat_eq,
  nat_eq-eq, arith,
}
use angel_cloud.Text.{codes, is_hex, is_sha256_hex}
use angel_cloud.Crypto.{hex_digits, hex_byte, hex, sha256_hex}
use angel_cloud.Runtime.{Runtime}

pub codes-append : (s t : String) → codes (cat s t) ≡ codes s ++ codes t
codes-append String.[] t = rw nil-append
codes-append (String.◌∷◌ c s) t = rw cons-append (ap (◌∷◌ (code c)) (codes-append s t))

pub all-append :
    (p : ℕ → Bool) (xs ys : List ℕ) → all p xs ≡ true → all p ys ≡ true → all p (xs ++ ys) ≡ true
all-append p [] ys h k = k
all-append p (x ∷ xs) ys h k =
    let (here, later) = &&-eq-true (p x) (all p xs) h in rw here (all-append p xs ys later k)

-- One hex digit each.
abbrev digit_test : ℕ → Bool
digit_test d =
    nat_eq (length (codes (get_or hex_digits d ""))) 1
    && all is_hex (codes (get_or hex_digits d ""))

-- The test on the numbers from `start` on, so many of them.
every_digit : (start count : ℕ) → Bool
every_digit start zero = true
every_digit start (suc count) = digit_test start && every_digit (suc start) count

every_digit-digit_test :
    (start count d : ℕ)
    → every_digit start count ≡ true
    → start ≤ d
    → d < start + count
    → digit_test d ≡ true
unfolding every_digit
every_digit-digit_test start zero d table from upto = absurd (omega arith)
every_digit-digit_test start (suc count) d table from upto =
    let (here, later) = &&-eq-true (digit_test start) (every_digit (suc start) count) table in
    elim (Bool-cases (leb d start)) [
      | inl e ↦ let same : start ≡ d = ground arith in subst (λ x. digit_test x ≡ true) same here
      | inr e ↦ every_digit-digit_test (suc start) count d later (ground arith) (omega arith)
    ]

digit_table : every_digit 0 16 ≡ true
unfolding every_digit
digit_table = refl

-- A text of so many hex digits.
abbrev HexText : ℕ → String → Type 0
HexText n s = (length (codes s) ≡ n) × (all is_hex (codes s) ≡ true)

HexText-append : (m n : ℕ) (s t : String) → HexText m s → HexText n t → HexText (m + n) (cat s t)
HexText-append m n s t (l, h) (k, g) = rw (codes-append s t) (
  rw (length-append (codes s) (codes t)) (omega arith),
  all-append is_hex (codes s) (codes t) h g,
)

digit_lem : (d : ℕ) → d < 16 → HexText 1 (get_or hex_digits d "")
digit_lem d h =
    let (one, hexes) =
      &&-eq-true (nat_eq (length (codes (get_or hex_digits d ""))) 1)
        (all is_hex (codes (get_or hex_digits d "")))
        (every_digit-digit_test 0 16 d digit_table (omega arith) h) in
    (nat_eq-eq _ 1 one, hexes)

hex_byte_lem : (b : ℕ) → b < 256 → HexText 2 (hex_byte b)
hex_byte_lem b h =
    HexText-append 1 1 (get_or hex_digits (b / 16) "") (get_or hex_digits (b % 16) "")
      (digit_lem (b / 16) (omega arith)) (digit_lem (b % 16) (omega arith))

abbrev pub IsByte : ℕ → Type 0
IsByte b = b < 256

hex_lem : (bs : List ℕ) → All IsByte bs → HexText (2 * length bs) (hex bs)
hex_lem [] h = (refl, refl)
hex_lem (b ∷ bs) (here, later) =
    let (l, h) =
      HexText-append 2 (2 * length bs) (hex_byte b) (hex bs) (hex_byte_lem b here)
        (hex_lem bs later) in
    (omega arith, h)

-- What is documented of SHA-256: its digest is 32 bytes.
abbrev pub Sha256Digests : Runtime → Type 0
Sha256Digests r = (t : String) → (length (r.sha256 t) ≡ 32) × All IsByte (r.sha256 t)

pub length-sha256_hex :
    (r : Runtime) → Sha256Digests r → (t : String) → length (codes (sha256_hex r t)) ≡ 64
unfolding sha256_hex
length-sha256_hex r d t = let (l, b) = d t in let (m, _) = hex_lem (r.sha256 t) b in omega arith

pub is_sha256_hex-sha256_hex :
    (r : Runtime) → Sha256Digests r → (t : String) → is_sha256_hex (sha256_hex r t) ≡ true
unfolding is_sha256_hex
is_sha256_hex-sha256_hex r d t = rw (length-sha256_hex r d t) hexes
  where
    hexes : all is_hex (codes (sha256_hex r t)) ≡ true
    hexes = unfold sha256_hex in (hex_lem (r.sha256 t) (d t).1).1
