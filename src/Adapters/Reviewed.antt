-- ===== src/Adapters/Reviewed.antt =====
-- What an artifact that passes the validation is sure to be.
use angel_cloud.Prelude.{
  String, ◌≡◌, refl, true, not, Option, none, some, List, [], ◌∷◌, ◌==◌, eq_iff, Memᴰ, ◌⊎◌, inl,
  inr, All, contains, mem_of_contains, Result, ok, guard, guard-eq-ok, or_throw, or_throw-eq-ok,
  each, >>=-eq-ok, >>-eq-ok,
}
use angel_cloud.Prelude.Dict.{Dict, lookup}
use angel_cloud.Json.{canonical_json}
use angel_cloud.Runtime.{Runtime}
use angel_cloud.Gate.State.{
  HostedTool, HostedProvider, HostedVersionArtifact, ProviderBindingRequirement,
}
use angel_cloud.Gate.Encode.{request_json}
use angel_cloud.Adapters.Scopes.{DerivedOperation, DerivedAdapter}
use angel_cloud.Adapters.Validate.{
  AdapterError, unknown_provider, unknown_operation, is_some, wrong_namespace, namespace_of,
  used_providers, registry_adapter, check_pinned, check_used, check_request, check_tools,
  artifact_tools, check_requirements, validate_artifact_adapters,
}
use angel_cloud.Adapters.Consent.{IsConsent, check_requirements-IsConsent}

each-All :
    {A : Type 0} (check : A → Result AdapterError (Unit {0})) (xs : List A) {u : Unit {0}}
    → each check xs ≡ ok u
    → All (λ x. check x ≡ ok tt) xs
each-All check [] h = tt
each-All check (x ∷ xs) h =
    let (_, here, later) = >>=-eq-ok (check x) (λ _. each check xs) h in
    (here, each-All check xs later)

is_some-eq : {A : Type 0} (o : Option A) → is_some o ≡ true → (a : A) × (o ≡ some a)
is_some-eq none h = cc
is_some-eq (some a) h = (a, refl)

module _ (r : Runtime) (registry : Dict DerivedAdapter) where
  -- The entry is the registry's own.
  pub record IsPinned (tools : List HostedTool) (e : String × HostedProvider) : Type 0 where
    pub adapter : DerivedAdapter
    pub known : lookup e.0 registry ≡ some adapter
    pub used : Memᴰ e.0 (used_providers r registry tools)
    pub same_adapter : e.1.adapter ≡ adapter.adapter
    pub same_origin : e.1.origin ≡ adapter.origin
    pub same_source : e.1.source_digest ≡ adapter.source_digest

  -- The tool is an operation of the registry with that operation's own request.
  pub record IsSealed (t : HostedTool) : Type 0 where
    pub named : t.name ≡ t.operation
    pub adapter : DerivedAdapter
    pub known : lookup t.provider registry ≡ some adapter
    pub operation : DerivedOperation
    pub offered : lookup t.operation adapter.operations ≡ some operation
    pub same_request :
        canonical_json r.quote (request_json t.request)
        ≡ canonical_json r.quote (request_json operation.request)

  pub record IsReviewed (c : HostedVersionArtifact) : Type 0 where
    pub format : c.format ≡ "angel.version.v2"
    pub namespaced : All (λ t. namespace_of t.operation ≡ t.provider) c.tools
    pub pinned : All (IsPinned c.tools) c.providers
    pub provided :
        All (λ t. (p : HostedProvider) × (lookup t.provider c.providers ≡ some p)) c.tools
    pub sealed : All IsSealed c.tools
    pub consents : All (IsConsent r registry) c.binding_requirements
    pub claimed :
        All
          (λ t.
            (q : ProviderBindingRequirement) × Memᴰ q c.binding_requirements × Memᴰ t.name q.tools)
          c.tools

  check_pinned-IsPinned :
      (tools : List HostedTool) (e : String × HostedProvider)
      → check_pinned r registry tools e ≡ ok tt
      → IsPinned tools e
  unfolding check_pinned registry_adapter
  check_pinned-IsPinned tools (provider, p) h =
      let (a, known, h1) = >>=-eq-ok (or_throw unknown_provider (lookup provider registry)) _ h in
      let (used, h2) = >>-eq-ok _ _ _ h1 in
      let (same, h3) = >>-eq-ok _ _ _ h2 in
      let (origin, h4) = >>-eq-ok _ _ _ h3 in
      record {
        adapter = a;
        known = or_throw-eq-ok unknown_provider _ known;
        used = mem_of_contains provider (used_providers r registry tools) used;
        same_adapter = (eq_iff _ _).0 same;
        same_origin = (eq_iff _ _).0 origin;
        same_source = (eq_iff _ _).0 (guard-eq-ok _ _ h4);
      }

  check_used-found :
      (providers : Dict HostedProvider) (t : HostedTool)
      → check_used r registry providers t ≡ ok tt
      → (p : HostedProvider) × (lookup t.provider providers ≡ some p)
  unfolding check_used
  check_used-found providers t h =
      let (_, _, h1) = >>=-eq-ok (registry_adapter r registry t.provider) _ h in
      is_some-eq (lookup t.provider providers) (guard-eq-ok _ _ h1)

  check_tools-IsSealed :
      (seen : List String) (ts : List HostedTool) {u : Unit {0}}
      → check_tools r registry seen ts ≡ ok u
      → All IsSealed ts
  unfolding check_tools check_request registry_adapter
  check_tools-IsSealed seen [] h = tt
  check_tools-IsSealed seen (t ∷ ts) h =
      let (named, h1) = >>-eq-ok (t.name == t.operation) _ _ h in
      let (_, h2) = >>-eq-ok (not (contains (r.to_upper t.name) seen)) _ _ h1 in
      let (_, here, later) =
        >>=-eq-ok (check_request r registry t)
          (λ _. check_tools r registry (r.to_upper t.name ∷ seen) ts) h2 in
      let (a, known, g1) =
        >>=-eq-ok (or_throw unknown_provider (lookup t.provider registry)) _ here in
      let (op, offered, g2) =
        >>=-eq-ok (or_throw unknown_operation (lookup t.operation a.operations)) _ g1 in
      (
        record {
          named = (eq_iff _ _).0 named;
          adapter = a;
          known = or_throw-eq-ok unknown_provider _ known;
          operation = op;
          offered = or_throw-eq-ok unknown_operation _ offered;
          same_request = (eq_iff _ _).0 (guard-eq-ok _ _ g2);
        },
        check_tools-IsSealed (r.to_upper t.name ∷ seen) ts later,
      )

  none_claimed : {P : Type 0} (t : String) → Memᴰ t [] ⊎ P → P
  none_claimed t (inl m) = elim m [ ]
  none_claimed t (inr p) = p

  All-map :
      {A : Type 0} (P Q : A → Type 0) → ((x : A) → P x → Q x) → (xs : List A) → All P xs → All Q xs
  All-map P Q f [] h = tt
  All-map P Q f (x ∷ xs) (p, h) = (f x p, All-map P Q f xs h)

  -- An artifact that passes the validation is in the supported format; each tool is an operation
  -- of the adapter of its own namespace, under that operation's name and with a request that has
  -- the reviewed request's canonical text; each entry of a provider is the reviewed adapter's and
  -- some tool's, and each tool has one; each requirement has the adapter's credential and asks
  -- for exactly the scopes that its tools require; and each tool is listed by a requirement.
  pub validate_artifact_adapters-IsReviewed :
      (c : HostedVersionArtifact) → validate_artifact_adapters r registry c ≡ ok tt → IsReviewed c
  unfolding validate_artifact_adapters
  validate_artifact_adapters-IsReviewed c h =
      let (format, h1) = >>-eq-ok (c.format == "angel.version.v2") _ _ h in
      let (_, spaces, h2) =
        >>=-eq-ok
          (each (λ t. guard (namespace_of t.operation == t.provider) wrong_namespace) c.tools) _
          h1 in
      let (_, pins, h3) = >>=-eq-ok (each (check_pinned r registry c.tools) c.providers) _ h2 in
      let (_, uses, h4) = >>=-eq-ok (each (check_used r registry c.providers) c.tools) _ h3 in
      let (_, seals, h5) = >>=-eq-ok (check_tools r registry [] c.tools) _ h4 in
      let (claimed, asked, h6) =
        >>=-eq-ok
          (check_requirements r registry (artifact_tools r registry c.tools) [] []
            c.binding_requirements)
          _ h5 in
      let (consents, listed) =
        check_requirements-IsConsent r registry (artifact_tools r registry c.tools) [] [] claimed
          c.binding_requirements asked in
      record {
        format = (eq_iff _ _).0 format;
        namespaced =
            All-map _ _ (λ t k. (eq_iff _ _).0 (guard-eq-ok _ _ k)) c.tools
              (each-All _ c.tools spaces);
        pinned =
            All-map _ _ (check_pinned-IsPinned c.tools) c.providers (each-All _ c.providers pins);
        provided = All-map _ _ (check_used-found c.providers) c.tools (each-All _ c.tools uses);
        sealed = check_tools-IsSealed [] c.tools seals;
        consents = consents;
        claimed =
            All-map _ _
              (λ t k.
                none_claimed t.name
                  (listed t.name (mem_of_contains t.name claimed (guard-eq-ok _ _ k))))
              c.tools (each-All _ c.tools h6);
      }
