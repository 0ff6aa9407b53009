-- ===== src/Adapters/Scopes.antt =====
-- selectRequiredScopes of packages/core/src/adapter-derive.ts.
use Prim.Native.Nat.{◌%◌}
use angel_cloud.Prelude.{
  ℕ, zero, suc, length, get_or, String, Bool, true, false, Option, none, some, List, [], ◌∷◌, ◌==◌,
  ltb, nat_eq, not, map, any, all, select, contains, if◌then◌else◌, Result, ok, err, ◌>>=◌,
  or_throw,
}
use angel_cloud.Prelude.Dict.{Dict, lookup}
use angel_cloud.Prelude.Sort.{sort}
use angel_cloud.Text.{code_unit_le}
use angel_cloud.Gate.State.{HttpRequestTemplate, CredentialKind}

pub record DerivedOperation : Type 0 where
  pub request : HttpRequestTemplate
  pub scopes : List String

pub record DerivedAdapter : Type 0 where
  pub provider : String
  pub adapter : String
  pub credential : CredentialKind
  pub origin : String
  pub source : String
  pub source_digest : String
  pub scope_ranking : List String
  pub operations : Dict DerivedOperation

pub data ScopeError : Type 0 where
  unknown_operation no_ranked_scope no_cover : String → ScopeError

-- The ranked scopes of an operation.
abbrev pub ranked_scopes : DerivedAdapter → DerivedOperation → List String
ranked_scopes a op = select (λ s. contains s a.scope_ranking) op.scopes

abbrev pub some_ranked : String → List String → Result ScopeError (List String)
some_ranked tool [] = err (no_ranked_scope tool)
some_ranked tool (s ∷ ss) = ok (s ∷ ss)

unfoldable pub alternatives_of :
    DerivedAdapter → List String → Result ScopeError (List (List String))
alternatives_of a [] = ok []
alternatives_of a (t ∷ ts) = or_throw (unknown_operation t) (lookup t a.operations) >>= λ op.
    some_ranked t (ranked_scopes a op) >>= λ scopes.
    alternatives_of a ts >>= λ rest. ok (scopes ∷ rest)

-- Every number below `2 ^ width` in its order, as its binary digits from the lowest on.
abbrev pub both_ways : List (List Bool) → List (List Bool)
both_ways [] = []
both_ways (m ∷ ms) = (false ∷ m) ∷ (true ∷ m) ∷ both_ways ms

abbrev pub binary : ℕ → List (List Bool)
binary zero = [] ∷ []
binary (suc width) = both_ways (binary width)

abbrev pub without_first {ℓ} : {A : Type ℓ} → List A → List A
without_first [] = []
without_first (x ∷ xs) = xs

-- 1 << size is 2 ^ (size % 32) as a signed word of 32 bits, so it is negative where size % 32 is 31:
-- the loop then has no mask. Otherwise its masks are the numbers from 1 on.
abbrev pub masks_of : ℕ → List (List Bool)
masks_of size = if nat_eq (size % 32) 31 then [] else without_first (binary (size % 32))

-- mask & (1 << index), where the shift counts modulo 32
abbrev pub picked_from : ℕ → List Bool → List String → List String
picked_from index mask [] = []
picked_from index mask (x ∷ xs) =
    let rest = picked_from (suc index) mask xs in
    if get_or mask (index % 32) false then x ∷ rest else rest

abbrev pub subsets : List String → List (List String)
subsets pool = map (λ mask. picked_from 0 mask pool) (masks_of (length pool))

-- Each tool has a scope in the subset.
abbrev pub covers : List (List String) → List String → Bool
covers alternatives subset = all (λ set. any (λ s. contains s set) subset) alternatives

-- rank.get(scope): a scope that is ranked twice has its last rank
abbrev pub rank_from : ℕ → ℕ → List String → String → ℕ
rank_from index last [] s = last
rank_from index last (x ∷ xs) s = rank_from (suc index) (if x == s then index else last) xs s

abbrev pub broadest_first : List String → List String → List ℕ
broadest_first ranking subset = sort (λ m n. not (ltb m n)) (map (rank_from 0 0 ranking) subset)

-- compareBroadestFirst(left, right) < 0
abbrev pub narrower : List ℕ → List ℕ → Bool
narrower [] [] = false
narrower [] (n ∷ ns) = true
narrower (m ∷ ms) [] = false
narrower (m ∷ ms) (n ∷ ns) = if nat_eq m n then narrower ms ns else ltb m n

-- The best subset so far, with its vector.
abbrev pub better : List String → List String → Option (List String × List ℕ) → List String × List ℕ
better ranking subset none = (subset, broadest_first ranking subset)
better ranking subset (some (best, vector)) =
    if narrower (broadest_first ranking subset) vector
    then (subset, broadest_first ranking subset)
    else (best, vector)

-- The loop over the masks.
unfoldable pub search_cover :
    List String
    → List (List String)
    → Option (List String × List ℕ)
    → List (List String)
    → Option (List String × List ℕ)
unfolding sort
search_cover ranking alternatives best [] = best
search_cover ranking alternatives best (s ∷ ss) =
    search_cover ranking alternatives
      (if covers alternatives s then some (better ranking s best) else best) ss

abbrev pub pool_of : List String → List (List String) → List String
pool_of ranking alternatives = select (λ s. any (contains s) alternatives) ranking

unfoldable pub select_required_scopes :
    DerivedAdapter → List String → Result ScopeError (List String)
unfolding alternatives_of search_cover
select_required_scopes a tools = alternatives_of a tools >>= λ alternatives.
    or_throw (no_cover "") (
      search_cover a.scope_ranking alternatives none
        (subsets (pool_of a.scope_ranking alternatives)))
    >>= λ best. ok (sort code_unit_le best.0)
