-- ===== src/Adapters/Consent.antt =====
-- What the requirements of a validated artifact are (packages/core/src/artifact-validate.ts).
use angel_cloud.Prelude.{
  String, ◌≡◌, refl, sym, ap, ◌∙◌, subst, true, not, some, List, [], ◌∷◌, ◌==◌, &&-eq-true, eq_iff,
  Memᴰ, ◌⊎◌, inl, inr, All, contains, Result, ok, err, or_throw, or_throw-eq-ok, >>=-eq-ok,
  >>-eq-ok, ok-injective,
}
use angel_cloud.Prelude.Dict.{Dict, lookup}
use angel_cloud.Runtime.{Runtime}
use angel_cloud.Gate.State.{ProviderBindingRequirement}
use angel_cloud.Adapters.Scopes.{DerivedAdapter, ScopeError, select_required_scopes}
use angel_cloud.Adapters.Validate.{
  unknown_provider, same_credential, same_texts, scoped, is_nonempty, registry_adapter, claim_tools,
  check_requirement, check_requirements,
}

same_texts-eq : (ss ts : List String) → same_texts ss ts ≡ true → ss ≡ ts
same_texts-eq [] [] h = refl
same_texts-eq [] (t ∷ ts) h = cc
same_texts-eq (s ∷ ss) [] h = cc
same_texts-eq (s ∷ ss) (t ∷ ts) h =
    let (here, later) = &&-eq-true (s == t) (same_texts ss ts) h in
    let e = (eq_iff s t).0 here in let es = same_texts-eq ss ts later in cc

scoped-ok : {A : Type 0} (m : Result ScopeError A) {a : A} → scoped m ≡ ok a → m ≡ ok a
scoped-ok (ok b) h = ap ok (ok-injective h)
scoped-ok (err e) h = cc

module _ (r : Runtime) (registry : Dict DerivedAdapter) where
  -- The scopes that are asked for are those that the tools require.
  pub record IsConsent (q : ProviderBindingRequirement) : Type 0 where
    pub adapter : DerivedAdapter
    pub known : lookup q.provider registry ≡ some adapter
    pub credential : same_credential q.credential adapter.credential ≡ true
    pub required : select_required_scopes adapter q.tools ≡ ok q.required_scopes

  -- What the loop over the requirements claims is listed by one of them.
  claim_tools-listed :
      (known : Dict String) (provider : String) (claimed ts more : List String) (t : String)
      → claim_tools r registry known provider claimed ts ≡ ok more
      → Memᴰ t more
      → Memᴰ t claimed ⊎ Memᴰ t ts
  unfolding claim_tools
  claim_tools-listed known provider claimed [] more t h m =
      inl (subst (Memᴰ t) (sym (ok-injective h)) m)
  claim_tools-listed known provider claimed (x ∷ xs) more t h m =
      let (_, h1) = >>-eq-ok (not (contains x claimed)) _ _ h in
      let (_, h2) = >>-eq-ok _ _ (claim_tools r registry known provider (x ∷ claimed) xs) h1 in
      elim (claim_tools-listed known provider (x ∷ claimed) xs more t h2 m) [
        | inl (Memᴰ.head e) ↦ inr (Memᴰ.head e)
        | inl (Memᴰ.tail n) ↦ inl n
        | inr n ↦ inr (Memᴰ.tail n)
      ]

  check_requirement-IsConsent :
      (known : Dict String) (ids claimed more : List String) (q : ProviderBindingRequirement)
      → check_requirement r registry known ids claimed q ≡ ok more
      → IsConsent q × (claim_tools r registry known q.provider claimed q.tools ≡ ok more)
  unfolding check_requirement registry_adapter
  check_requirement-IsConsent known ids claimed more q h =
      let (_, h1) = >>-eq-ok (not (q.id == "")) _ _ h in
      let (_, h2) = >>-eq-ok (not (contains q.id ids)) _ _ h1 in
      let (a, at, h3) = >>=-eq-ok (or_throw unknown_provider (lookup q.provider registry)) _ h2 in
      let (credential, h4) = >>-eq-ok (same_credential q.credential a.credential) _ _ h3 in
      let (_, h5) = >>-eq-ok (is_nonempty q.tools) _ _ h4 in
      let (out, claims, h6) =
        >>=-eq-ok (claim_tools r registry known q.provider claimed q.tools) _ h5 in
      let (expected, required, h7) = >>=-eq-ok (scoped (select_required_scopes a q.tools)) _ h6 in
      let (same, h8) = >>-eq-ok (same_texts q.required_scopes expected) _ _ h7 in
      (
        record {
          adapter = a;
          known = or_throw-eq-ok unknown_provider _ at;
          credential = credential;
          required =
              scoped-ok _ required ∙ ap ok (sym (same_texts-eq q.required_scopes expected same));
        },
        claims ∙ h8,
      )

  abbrev IsListed : List ProviderBindingRequirement → String → Type 0
  IsListed qs t = (q : ProviderBindingRequirement) × Memᴰ q qs × Memᴰ t q.tools

  pub check_requirements-IsConsent :
      (known : Dict String) (ids claimed more : List String) (qs : List ProviderBindingRequirement)
      → check_requirements r registry known ids claimed qs ≡ ok more
      → All IsConsent qs × ((t : String) → Memᴰ t more → Memᴰ t claimed ⊎ IsListed qs t)
  unfolding check_requirements
  check_requirements-IsConsent known ids claimed more [] h =
      (tt, λ t m. inl (subst (Memᴰ t) (sym (ok-injective h)) m))
  check_requirements-IsConsent known ids claimed more (q ∷ qs) h =
      let (out, here, later) =
        >>=-eq-ok (check_requirement r registry known ids claimed q)
          (λ out. check_requirements r registry known (q.id ∷ ids) out qs) h in
      let (consent, claims) = check_requirement-IsConsent known ids claimed out q here in
      let (consents, listed) = check_requirements-IsConsent known (q.id ∷ ids) out more qs later in
      (
        (consent, consents),
        λ t m. elim (listed t m) [
          | inl n ↦ elim (claim_tools-listed known q.provider claimed q.tools out t claims n) [
            | inl k ↦ inl k
            | inr k ↦ inr (q, Memᴰ.head refl, k)
          ]
          | inr (p, k, n) ↦ inr (p, Memᴰ.tail k, n)
        ],
      )
