-- ===== src/Artifact/Flatten.antt =====
-- When the tools of the children of an Angel can be put together.
use angel_cloud.Prelude.{
  String, ◌≡◌, ◌↔◌, refl, ap, false, not, List, [], ◌∷◌, ◌==◌, eq_iff, map, contains, arith, All,
  Result, ok, err, ◌>>◌, >>-eq-ok, ok-injective,
}
use angel_cloud.Prelude.Dict.{Dict, lookup, insert, lookup-insert}
use angel_cloud.Prelude.Sort.{sort}
use angel_cloud.Runtime.{Runtime}
use angel_cloud.Decision.Rules.{Distinct}
use angel_cloud.Gate.State.{HostedTool, HostedVersionArtifact}
use angel_cloud.Artifact.{
  ComposeError, tool_collision, by_name, is_prior, all_tools, check_collisions, flatten_tools,
}

-- No name was seen under any of the folded names.
abbrev Unseen : Dict String → List String → Type 0
Unseen seen [] = Unit
Unseen seen (x ∷ xs) = (is_prior (lookup x seen) ≡ false) × Unseen seen xs

Unseen-insert :
    (k name : String) (seen : Dict String) (xs : List String)
    → (name == "") ≡ false
    → Unseen (insert k name seen) xs ↔ (Unseen seen xs × (contains k xs ≡ false))
Unseen-insert k name seen [] e = (λ _. (tt, refl), λ _. tt)
Unseen-insert k name seen (x ∷ xs) e = (
  λ (here, later).
      let (free, absent) = (Unseen-insert k name seen xs e).0 later in
      (
        (ground (arith, lookup-insert k x name seen, eq_iff k x, eq_iff x k), free),
        ground (arith, lookup-insert k x name seen, eq_iff k x, eq_iff x k),
      ),
  λ ((here, free), absent). (
    ground (arith, lookup-insert k x name seen, eq_iff k x, eq_iff x k),
    (Unseen-insert k name seen xs e).1 (free, ground (arith, eq_iff k x, eq_iff x k)),
  ),
)

Unseen-empty : (xs : List String) → Unseen [] xs
unfolding lookup
Unseen-empty [] = tt
Unseen-empty (x ∷ xs) = (refl, Unseen-empty xs)

-- A tool has a name, as the compiler makes sure.
abbrev pub IsNamed : HostedTool → Type 0
IsNamed t = (t.name == "") ≡ false

module _ (r : Runtime) where
  abbrev pub folded_name : HostedTool → String
  folded_name t = r.to_upper t.name

  check_collisions_iff :
      (seen : Dict String) (ts : List HostedTool)
      → All IsNamed ts
      → (check_collisions r seen ts ≡ ok tt)
        ↔ (Unseen seen (map folded_name ts) × Distinct (map folded_name ts))
  unfolding check_collisions
  check_collisions_iff seen [] n = (λ _. (tt, tt), λ _. refl)
  check_collisions_iff seen (t ∷ ts) (e, n) =
      let next = insert (folded_name t) t.name seen in
      let both = check_collisions_iff next ts n in
      let grown = Unseen-insert (folded_name t) t.name seen (map folded_name ts) e in
      (
        λ h.
            let (free, h1) =
              >>-eq-ok (not (is_prior (lookup (folded_name t) seen))) tool_collision
                (check_collisions r next ts) h in
            let (later, distinct) = both.0 h1 in
            let (apart, absent) = grown.0 later in ((ground arith, apart), (absent, distinct)),
        λ ((here, apart), (absent, distinct)). rw here (both.1 (grown.1 (apart, absent), distinct)),
      )

  -- The tools of children, each of which has a name, are put together exactly when no two of them
  -- fold to one name, and then they are all the children's tools, sorted by name.
  pub flatten_tools_iff :
      (children : List HostedVersionArtifact) (out : List HostedTool)
      → All IsNamed (all_tools children)
      → (flatten_tools r children ≡ ok out) ↔ (
          Distinct (map folded_name (all_tools children))
          × (sort by_name (all_tools children) ≡ out))
  unfolding flatten_tools
  flatten_tools_iff children out n =
      let both = check_collisions_iff [] (all_tools children) n in
      (
        λ h. passed (check_collisions r [] (all_tools children)) refl h,
        λ (distinct, e).
            rw (both.1 (Unseen-empty (map folded_name (all_tools children)), distinct)) (ap ok e),
      )
    where
      passed :
          (m : Result ComposeError (Unit {0}))
          → check_collisions r [] (all_tools children) ≡ m
          → (m >> ok (sort by_name (all_tools children))) ≡ ok out
          → Distinct (map folded_name (all_tools children))
            × (sort by_name (all_tools children) ≡ out)
      passed (ok u) e h = (((check_collisions_iff [] (all_tools children) n).0 e).1, ok-injective h)
      passed (err x) e h = cc
