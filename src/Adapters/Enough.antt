-- ===== src/Adapters/Enough.antt =====
-- When selectRequiredScopes of packages/core/src/adapter-derive.ts finds scopes.
use Prim.Native.Nat.{◌%◌}
use angel_cloud.Prelude.{
  ℕ, zero, suc, ◌+◌, ◌<◌, ◌≤◌, arith, length, get_or, nat_eq, false, Bool, map, select, String, ◌≡◌,
  refl, sym, ap, subst, true, none, some, List, [], ◌∷◌, Memᴰ, Bool-cases, inl, inr, All, any,
  any_of_mem, mem-select_of_mem, contains, contains_of_mem, ok,
}
use angel_cloud.Prelude.Dict.{lookup}
use angel_cloud.Prelude.Sort.{sort}
use angel_cloud.Text.{code_unit_le}
use angel_cloud.Adapters.Scopes.{
  DerivedOperation, DerivedAdapter, ranked_scopes, some_ranked, alternatives_of, subsets, both_ways,
  binary, masks_of, picked_from, without_first, covers, better, search_cover, pool_of,
  select_required_scopes,
}

-- The tool is an operation of the adapter that has a ranked scope.
abbrev pub HasRankedScope : DerivedAdapter → String → Type 0
HasRankedScope a tool =
    (op : DerivedOperation) × (lookup tool a.operations ≡ some op)
    × ((s : String) × Memᴰ s op.scopes × Memᴰ s a.scope_ranking)

-- Alternatives that are each non-empty and ranked.
abbrev IsRankedSet : List String → List String → Type 0
IsRankedSet ranking set = (s : String) × Memᴰ s set × Memᴰ s ranking

some_ranked_of_mem :
    (tool : String) (ss : List String) {s : String} → Memᴰ s ss → some_ranked tool ss ≡ ok ss
some_ranked_of_mem tool [] m = elim m [ ]
some_ranked_of_mem tool (s ∷ ss) m = refl

alternatives_found :
    (a : DerivedAdapter) (tools : List String)
    → All (HasRankedScope a) tools
    → (alternatives : List (List String)) × (alternatives_of a tools ≡ ok alternatives)
      × All (IsRankedSet a.scope_ranking) alternatives
unfolding alternatives_of
alternatives_found a [] h = ([], refl, tt)
alternatives_found a (t ∷ ts) ((op, known, (s, own, ranked)), h) =
    let m =
      mem-select_of_mem (λ s. contains s a.scope_ranking) op.scopes own
        (contains_of_mem s a.scope_ranking ranked) in
    let (rest, made, good) = alternatives_found a ts h in
    (
      ranked_scopes a op ∷ rest,
      rw (known, some_ranked_of_mem t (ranked_scopes a op) m, made),
      ((s, m, ranked), good),
    )

alternatives_first :
    (a : DerivedAdapter) (tool : String) (tools : List String)
    → All (HasRankedScope a) (tool ∷ tools)
    → (set : List String) × (sets : List (List String)) × (alternatives_of a (tool ∷ tools)
        ≡ ok (set ∷ sets))
      × All (IsRankedSet a.scope_ranking) (set ∷ sets)
unfolding alternatives_of
alternatives_first a tool tools ((op, known, (s, own, ranked)), h) =
    let m =
      mem-select_of_mem (λ x. contains x a.scope_ranking) op.scopes own
        (contains_of_mem s a.scope_ranking ranked) in
    let (rest, made, good) = alternatives_found a tools h in
    (
      ranked_scopes a op,
      rest,
      rw (known, some_ranked_of_mem tool (ranked_scopes a op) m, made),
      ((s, m, ranked), good),
    )

-- The number of which all the binary digits are ones.
abbrev ones : ℕ → List Bool
ones zero = []
ones (suc width) = true ∷ ones width

mem-both_ways : (m : List Bool) (ms : List (List Bool)) → Memᴰ m ms → Memᴰ (true ∷ m) (both_ways ms)
mem-both_ways m [] k = elim k [ ]
mem-both_ways m (n ∷ ns) (Memᴰ.head e) = Memᴰ.tail (Memᴰ.head (ap (◌∷◌ true) e))
mem-both_ways m (n ∷ ns) (Memᴰ.tail k) = Memᴰ.tail (Memᴰ.tail (mem-both_ways m ns k))

mem-binary : (width : ℕ) → Memᴰ (ones width) (binary width)
mem-binary zero = Memᴰ.head refl
mem-binary (suc width) = mem-both_ways (ones width) (binary width) (mem-binary width)

abbrev zeros : ℕ → List Bool
zeros zero = []
zeros (suc width) = false ∷ zeros width

-- The first number is zero.
first_binary : (width : ℕ) → (ms : List (List Bool)) × (binary width ≡ zeros width ∷ ms)
first_binary zero = ([], refl)
first_binary (suc width) =
    let (ms, e) = first_binary width in ((true ∷ zeros width) ∷ both_ways ms, rw e)

mem-without_first : (width : ℕ) → Memᴰ (ones (suc width)) (without_first (binary (suc width)))
mem-without_first width =
    let (ms, e) = first_binary (suc width) in
    let m = subst (Memᴰ (ones (suc width))) e (mem-binary (suc width)) in
    subst (λ (y : List (List Bool)). Memᴰ (ones (suc width)) (without_first y)) (sym e) (later ms m)
  where
    later :
        (ms : List (List Bool))
        → Memᴰ (ones (suc width)) (zeros (suc width) ∷ ms)
        → Memᴰ (ones (suc width)) ms
    later ms (Memᴰ.head q) = cc
    later ms (Memᴰ.tail m) = m

get_or-ones : (width index : ℕ) → index < width → get_or (ones width) index false ≡ true
get_or-ones zero index h = absurd (omega arith)
get_or-ones (suc width) zero h = refl
get_or-ones (suc width) (suc index) h = get_or-ones width index (omega arith)

picked-ones :
    (width index : ℕ) (xs : List String)
    → index + length xs ≡ width
    → width < 31
    → picked_from index (ones width) xs ≡ xs
picked-ones width index [] e h = refl
picked-ones width index (x ∷ xs) e h =
    let here : get_or (ones width) (index % 32) false ≡ true =
      get_or-ones width (index % 32) (omega arith) in
    rw (here, picked-ones width (suc index) xs (omega arith) h)

masks_of-small : (size : ℕ) → size < 31 → masks_of size ≡ without_first (binary size)
masks_of-small size h =
    let same : size % 32 ≡ size = omega arith in
    let other : nat_eq size 31 ≡ false = ground arith in rw (same, other)

mem_map : {A B : Type 0} (f : A → B) {a : A} {xs : List A} → Memᴰ a xs → Memᴰ (f a) (map f xs)
mem_map f (Memᴰ.head e) = Memᴰ.head (ap f e)
mem_map f (Memᴰ.tail m) = Memᴰ.tail (mem_map f m)

mem-subsets :
    (x : String) (xs : List String) → length (x ∷ xs) < 31 → Memᴰ (x ∷ xs) (subsets (x ∷ xs))
mem-subsets x xs h =
    let mask = ones (length (x ∷ xs)) in
    let all_picked : picked_from 0 mask (x ∷ xs) ≡ x ∷ xs =
      picked-ones (length (x ∷ xs)) 0 (x ∷ xs) (omega arith) h in
    rw (masks_of-small (length (x ∷ xs)) h) (
      subst
        (λ y.
          Memᴰ y (map (λ m. picked_from 0 m (x ∷ xs)) (without_first (binary (length (x ∷ xs))))))
        all_picked (mem_map (λ m. picked_from 0 m (x ∷ xs)) (mem-without_first (length xs))))

length-select : (p : String → Bool) (xs : List String) → length (select p xs) ≤ length xs
length-select p [] = omega arith
length-select p (x ∷ xs) = elim (Bool-cases (p x)) [
  | inl e ↦ rw e (omega (arith, length-select p xs))
  | inr e ↦ rw e (omega (arith, length-select p xs))
]

search_kept :
    (ranking : List String) (alternatives : List (List String)) (b : List String × List ℕ)
    (ss : List (List String))
    → (c : List String × List ℕ) × (search_cover ranking alternatives (some b) ss ≡ some c)
unfolding search_cover
search_kept ranking alternatives b [] = (b, refl)
search_kept ranking alternatives b (s ∷ ss) = elim (Bool-cases (covers alternatives s)) [
  | inl e ↦ rw e (search_kept ranking alternatives (better ranking s (some b)) ss)
  | inr e ↦ rw e (search_kept ranking alternatives b ss)
]

search_found :
    (ranking : List String) (alternatives : List (List String)) (subset : List String)
    (ss : List (List String))
    → Memᴰ subset ss
    → covers alternatives subset ≡ true
    → (c : List String × List ℕ) × (search_cover ranking alternatives none ss ≡ some c)
unfolding search_cover
search_found ranking alternatives subset [] m c = elim m [ ]
search_found ranking alternatives subset (s ∷ ss) (Memᴰ.head q) c =
    let e : covers alternatives s ≡ true =
      subst (λ (x : List String). covers alternatives x ≡ true) q c in
    rw e (search_kept ranking alternatives (better ranking s none) ss)
search_found ranking alternatives subset (s ∷ ss) (Memᴰ.tail m) c =
    elim (Bool-cases (covers alternatives s)) [
      | inl e ↦ rw e (search_kept ranking alternatives (better ranking s none) ss)
      | inr e ↦ rw e (search_found ranking alternatives subset ss m c)
    ]

-- The whole pool covers every set.
mem-pool :
    (ranking : List String) (alternatives : List (List String)) (set : List String) (s : String)
    → Memᴰ set alternatives
    → Memᴰ s set
    → Memᴰ s ranking
    → Memᴰ s (pool_of ranking alternatives)
mem-pool ranking alternatives set s m own ranked =
    mem-select_of_mem (λ s. any (contains s) alternatives) ranking ranked
      (any_of_mem (contains s) alternatives m (contains_of_mem s set own))

pool_covers :
    (ranking : List String) (all_sets sets : List (List String))
    → ((set : List String) → Memᴰ set sets → Memᴰ set all_sets)
    → All (IsRankedSet ranking) sets
    → covers sets (pool_of ranking all_sets) ≡ true
pool_covers ranking all_sets [] within h = refl
pool_covers ranking all_sets (set ∷ sets) within ((s, own, ranked), h) =
    let here =
      any_of_mem (λ x. contains x set) (pool_of ranking all_sets)
        (mem-pool ranking all_sets set s (within set (Memᴰ.head refl)) own ranked)
        (contains_of_mem s set own) in
    rw (here, pool_covers ranking all_sets sets (λ x m. within x (Memᴰ.tail m)) h)

-- A covering pool is searched.
pool_searched :
    (ranking : List String) (alternatives : List (List String)) (pool : List String) (s : String)
    → length pool < 31
    → Memᴰ s pool
    → covers alternatives pool ≡ true
    → (c : List String × List ℕ) × (search_cover ranking alternatives none (subsets pool) ≡ some c)
pool_searched ranking alternatives [] s h m c = elim m [ ]
pool_searched ranking alternatives (x ∷ xs) s h m c =
    search_found ranking alternatives (x ∷ xs) (subsets (x ∷ xs)) (mem-subsets x xs h) c

-- Where the adapter ranks fewer than 31 scopes, scopes are selected whenever there is a tool and
-- each tool is an operation of the adapter that has a ranked scope.
pub select_required_scopes-found :
    (a : DerivedAdapter) (tool : String) (tools : List String)
    → length a.scope_ranking < 31
    → All (HasRankedScope a) (tool ∷ tools)
    → (out : List String) × (select_required_scopes a (tool ∷ tools) ≡ ok out)
unfolding select_required_scopes
select_required_scopes-found a tool tools few h =
    let (set, sets, made, ((s, own, ranked), later)) = alternatives_first a tool tools h in
    let in_pool = mem-pool a.scope_ranking (set ∷ sets) set s (Memᴰ.head refl) own ranked in
    let (best, found) =
      pool_searched a.scope_ranking (set ∷ sets) (pool_of a.scope_ranking (set ∷ sets)) s
        (omega (arith, length-select (λ x. any (contains x) (set ∷ sets)) a.scope_ranking)) in_pool
        (pool_covers a.scope_ranking (set ∷ sets) (set ∷ sets) (λ x n. n)
          ((s, own, ranked), later)) in
    (sort code_unit_le best.0, rw (made, found))
