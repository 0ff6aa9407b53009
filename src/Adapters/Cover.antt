-- ===== src/Adapters/Cover.antt =====
-- The scopes that selectRequiredScopes of packages/core/src/adapter-derive.ts asks for.
use angel_cloud.Prelude.{
  ℕ, String, ◌≡◌, sym, subst, true, &&-eq-true, Option, none, some, List, [], ◌∷◌, Memᴰ, inl, inr,
  Bool-cases, All, any, any-eq-true, mem-select, contains, mem_of_contains, if◌then◌else◌, ok,
  >>=-eq-ok, ok-injective, or_throw, or_throw-eq-ok,
}
use angel_cloud.Prelude.Dict.{lookup}
use angel_cloud.Prelude.Sort.{sort, mem-sort}
use angel_cloud.Text.{code_unit_le}
use angel_cloud.Adapters.Scopes.{
  DerivedOperation, DerivedAdapter, unknown_operation, no_cover, ranked_scopes, some_ranked,
  alternatives_of, subsets, covers, broadest_first, narrower, better, search_cover, pool_of,
  select_required_scopes,
}

-- The tool is an operation of the adapter, and one of its ranked scopes is among those.
abbrev pub IsCovered : DerivedAdapter → List String → String → Type 0
IsCovered a out tool =
    (op : DerivedOperation) × (lookup tool a.operations ≡ some op)
    × ((s : String) × Memᴰ s out × Memᴰ s op.scopes × Memᴰ s a.scope_ranking)

some_ranked-ok : (tool : String) (ss out : List String) → some_ranked tool ss ≡ ok out → out ≡ ss
some_ranked-ok tool [] out h = cc
some_ranked-ok tool (s ∷ ss) out h = sym (ok-injective h)

alternatives-IsCovered :
    (a : DerivedAdapter) (tools : List String) (alternatives : List (List String))
    (subset : List String)
    → alternatives_of a tools ≡ ok alternatives
    → covers alternatives subset ≡ true
    → All (IsCovered a subset) tools
unfolding alternatives_of
alternatives-IsCovered a [] alternatives subset h c = tt
alternatives-IsCovered a (t ∷ ts) alternatives subset h c =
    let (op, known, h1) = >>=-eq-ok (or_throw (unknown_operation t) (lookup t a.operations)) _ h in
    let (scopes, ranked, h2) = >>=-eq-ok (some_ranked t (ranked_scopes a op)) _ h1 in
    let (rest, later, h3) = >>=-eq-ok (alternatives_of a ts) _ h2 in
    let c1 = subst (λ (x : List (List String)). covers x subset ≡ true) (sym (ok-injective h3)) c in
    let (here, more) = &&-eq-true (any (λ s. contains s scopes) subset) (covers rest subset) c1 in
    let (s, at, found) = any-eq-true (λ s. contains s scopes) subset here in
    let (own, in_rank) =
      mem-select (λ s. contains s a.scope_ranking) op.scopes
        (subst (Memᴰ s) (some_ranked-ok t (ranked_scopes a op) scopes ranked)
          (mem_of_contains s scopes found)) in
    (
      (
        op,
        or_throw-eq-ok (unknown_operation t) (lookup t a.operations) known,
        (s, at, own, mem_of_contains s a.scope_ranking in_rank),
      ),
      alternatives-IsCovered a ts rest subset later more,
    )

abbrev IsCovering : List (List String) → Option (List String × List ℕ) → Type 0
IsCovering alternatives none = Unit
IsCovering alternatives (some (best, vector)) = covers alternatives best ≡ true

better-IsCovering :
    (ranking : List String) (alternatives : List (List String)) (subset : List String)
    (o : Option (List String × List ℕ))
    → covers alternatives subset ≡ true
    → IsCovering alternatives o
    → IsCovering alternatives (some (better ranking subset o))
better-IsCovering ranking alternatives subset none c h = c
better-IsCovering ranking alternatives subset (some (best, vector)) c h =
    elim (Bool-cases (narrower (broadest_first ranking subset) vector)) [
      | inl e ↦ rw e c
      | inr e ↦ rw e h
    ]

search_cover-IsCovering :
    (ranking : List String) (alternatives : List (List String)) (o : Option (List String × List ℕ))
    (ss : List (List String))
    → IsCovering alternatives o
    → IsCovering alternatives (search_cover ranking alternatives o ss)
unfolding search_cover
search_cover-IsCovering ranking alternatives o [] h = h
search_cover-IsCovering ranking alternatives o (s ∷ ss) h =
    search_cover-IsCovering ranking alternatives
      (if covers alternatives s then some (better ranking s o) else o) ss
      (elim (Bool-cases (covers alternatives s)) [
        | inl e ↦ rw e (better-IsCovering ranking alternatives s o e h)
        | inr e ↦ rw e h
      ])

-- Of the scopes that are selected, each tool has one that its operation accepts and the adapter
-- ranks.
pub select_required_scopes-IsCovered :
    (a : DerivedAdapter) (tools out : List String)
    → select_required_scopes a tools ≡ ok out
    → All (IsCovered a out) tools
unfolding select_required_scopes
select_required_scopes-IsCovered a tools out h =
    let (alternatives, made, h1) = >>=-eq-ok (alternatives_of a tools) _ h in
    let (best, found, h2) =
      >>=-eq-ok
        (or_throw (no_cover "") (
          search_cover a.scope_ranking alternatives none
            (subsets (pool_of a.scope_ranking alternatives))))
        _ h1 in
    let searched =
      search_cover-IsCovering a.scope_ranking alternatives none
        (subsets (pool_of a.scope_ranking alternatives)) tt in
    let c : covers alternatives best.0 ≡ true =
      subst (IsCovering alternatives) (or_throw-eq-ok (no_cover "") _ found) searched in
    subst (λ (x : List String). All (IsCovered a x) tools) (ok-injective h2)
      (all-sorted a tools best.0 (alternatives-IsCovered a tools alternatives best.0 made c))
  where
    all-sorted :
        (a : DerivedAdapter) (tools subset : List String)
        → All (IsCovered a subset) tools
        → All (IsCovered a (sort code_unit_le subset)) tools
    all-sorted a [] subset h = tt
    all-sorted a (t ∷ ts) subset ((op, known, (s, at, own, ranked)), h) =
        ((op, known, (s, mem-sort code_unit_le subset at, own, ranked)), all-sorted a ts subset h)
