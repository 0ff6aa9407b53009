-- ===== src/Gate/Access.antt =====
-- Which key a gate admits (authenticated of src/gate.ts), and the set of keys that it keeps.
use Prim.Native.Char.{code}
use Prim.Native.String.{String}
use text.Mathlib.TextEquality.{Char-path}
use angel_cloud.Prelude.{
  ℕ, ◌≡◌, ◌↔◌, ◌∙◌, refl, sym, Bool, true, false, not, ◌||◌, Option, none, some, List, [], ◌∷◌,
  Memᴰ, length, nat_eq, nat_eq-eq, arith, ||-eq-false, Bool-cases, inl, inr, ◌⊎◌, subst,
}
use angel_cloud.Text.{codes}
use angel_cloud.Runtime.{Runtime}
use angel_cloud.Crypto.{sha256_hex, differs, timing_safe_equal_text}
use angel_cloud.Crypto.Digest.{Sha256Digests, length-sha256_hex}
use angel_cloud.Gate.State.{PolicyGateState}
use angel_cloud.Gate.Keys.{active_key_hashes, matches_any, authenticated}

codes-injective : (s t : String) → codes s ≡ codes t → s ≡ t
codes-injective String.[] String.[] h = refl
codes-injective String.[] (String.◌∷◌ c t) h = cc
codes-injective (String.◌∷◌ c s) String.[] h = cc
codes-injective (String.◌∷◌ c s) (String.◌∷◌ d t) h =
    let here : code c ≡ code d = cc in
    let later : codes s ≡ codes t = cc in
    let same = Char-path c d here in let rest = codes-injective s t later in cc

not-eq-false : (b : Bool) → not b ≡ false → b ≡ true
not-eq-false true h = refl
not-eq-false false h = cc

not-eq-true : (b : Bool) → not b ≡ true → b ≡ false
not-eq-true true h = cc
not-eq-true false h = refl

differs-eq-false :
    (diff : Bool) (xs ys : List ℕ)
    → length xs ≡ length ys
    → differs diff xs ys ≡ false
    → (diff ≡ false) × (xs ≡ ys)
unfolding differs
differs-eq-false diff [] [] l h = (h, refl)
differs-eq-false diff [] (y ∷ ys) l h = absurd (omega arith)
differs-eq-false diff (x ∷ xs) [] l h = absurd (omega arith)
differs-eq-false diff (x ∷ xs) (y ∷ ys) l h =
    let (d, e) = differs-eq-false (diff || not (nat_eq x y)) xs ys (omega arith) h in
    let (f, g) = ||-eq-false diff (not (nat_eq x y)) d in
    let same = nat_eq-eq x y (not-eq-false (nat_eq x y) g) in (f, cc)

differs_self : (xs : List ℕ) → differs false xs xs ≡ false
unfolding differs
differs_self [] = refl
differs_self (x ∷ xs) = ground (arith, differs_self xs)

module _ (r : Runtime) where
  timing_safe_equal_text_iff :
      Sha256Digests r
      → (a b : String) → (timing_safe_equal_text r a b ≡ true) ↔ (sha256_hex r a ≡ sha256_hex r b)
  unfolding timing_safe_equal_text
  timing_safe_equal_text_iff d a b = (
    λ h.
        codes-injective _ _
          (differs-eq-false false (codes (sha256_hex r a)) (codes (sha256_hex r b))
            (length-sha256_hex r d a ∙ sym (length-sha256_hex r d b)) (not-eq-true _ h)).1,
    λ e. rw (e, differs_self (codes (sha256_hex r b))),
  )

  matches_any_iff :
      Sha256Digests r
      → (matched : Bool) (presented : String) (hs : List String)
      → (matches_any r matched presented hs ≡ true) ↔ (
          (matched ≡ true) ⊎ ((h : String) × Memᴰ h hs × (sha256_hex r presented ≡ sha256_hex r h)))
  unfolding matches_any
  matches_any_iff d matched presented [] =
      (inl, λ o. elim o [ inl e ↦ e | inr (_, m, _) ↦ elim m [ ] ])
  matches_any_iff d matched presented (h ∷ hs) =
      elim (Bool-cases (timing_safe_equal_text r presented h)) [
        | inl e ↦
            let same = (timing_safe_equal_text_iff d presented h).0 e in
            rw e (
              λ _. inr (h, Memᴰ.head refl, same),
              λ _. (matches_any_iff d true presented hs).1 (inl refl),
            )
        | inr e ↦
            let both = matches_any_iff d matched presented hs in
            rw e (
              λ k. elim (both.0 k) [ inl p ↦ inl p | inr (g, m, q) ↦ inr (g, Memᴰ.tail m, q) ],
              λ o. elim o [
                | inl p ↦ both.1 (inl p)
                | inr (g, Memᴰ.head p, q) ↦ cc (
                    (timing_safe_equal_text_iff d presented h).1
                      (subst (λ x. sha256_hex r presented ≡ sha256_hex r x) p q))
                | inr (g, Memᴰ.tail m, q) ↦ both.1 (inr (g, m, q))
              ],
            )
      ]

  false_or : {P : Type 0} → (false ≡ true) ⊎ P → P
  false_or (inl e) = cc
  false_or (inr p) = p

  -- Under a SHA-256 of 32 bytes, a gate admits exactly the keys of which the digest hashes like
  -- an active hash; a call with no key is not admitted.
  pub authenticated_iff :
      Sha256Digests r
      → (s : PolicyGateState) (presented : Option String)
      → (authenticated r s presented ≡ true) ↔ (
          (key : String) × (presented ≡ some key)
          × ((h : String) × Memᴰ h (active_key_hashes s)
              × (sha256_hex r (sha256_hex r key) ≡ sha256_hex r h)))
  unfolding authenticated
  authenticated_iff d s none = (λ h. cc, λ (key, e, _). cc)
  authenticated_iff d s (some key) =
      let both = matches_any_iff d false (sha256_hex r key) (active_key_hashes s) in
      (
        λ k. (key, refl, false_or (both.0 k)),
        λ (other, e, found).
            let same : other ≡ key = cc in
            both.1 (
              inr (
                subst
                  (λ k.
                    (h : String) × Memᴰ h (active_key_hashes s)
                    × (sha256_hex r (sha256_hex r k) ≡ sha256_hex r h))
                  same found)),
      )
