-- ===== src/Decision/Rules.antt =====
-- compileRules of packages/core/src/decision.ts: a table of rules is refused on a collision of
-- folded names.
use angel_cloud.Prelude.{
  String, ◌≡◌, ◌↔◌, refl, false, Option, none, some, List, [], ◌∷◌, eq_iff, map, arith, contains,
  inl, inr, Option-cases, ok,
}
use angel_cloud.Prelude.Dict.{Dict, lookup, insert, lookup-insert}
use angel_cloud.Runtime.{Runtime}
use angel_cloud.Decision.Call.{AngelTool, compile_from, compile_rules}

-- The first of two values that is there.
abbrev pub or_else {ℓ} : {A : Type ℓ} → Option A → Option A → Option A
or_else none o = o
or_else (some a) o = some a

-- No text of the list stands in it twice.
abbrev pub Distinct : List String → Type 0
Distinct [] = Unit
Distinct (x ∷ xs) = (contains x xs ≡ false) × Distinct xs

-- No text of the list is a key of the table.
abbrev Apart : Dict AngelTool → List String → Type 0
Apart rules [] = Unit
Apart rules (x ∷ xs) = (lookup x rules ≡ none) × Apart rules xs

module _ (r : Runtime) where
  abbrev pub folded : AngelTool → String
  folded t = r.to_upper t.tool

  Apart-insert :
      (k : String) (t : AngelTool) (rules : Dict AngelTool) (xs : List String)
      → Apart (insert k t rules) xs ↔ (Apart rules xs × (contains k xs ≡ false))
  Apart-insert k t rules [] = (λ _. (tt, refl), λ _. tt)
  Apart-insert k t rules (x ∷ xs) = (
    λ (here, later).
        let (apart, absent) = (Apart-insert k t rules xs).0 later in
        (
          (ground (arith, lookup-insert k x t rules, eq_iff k x, eq_iff x k), apart),
          ground (arith, lookup-insert k x t rules, eq_iff k x, eq_iff x k),
        ),
    λ ((here, apart), absent). (
      ground (arith, lookup-insert k x t rules, eq_iff k x, eq_iff x k),
      (Apart-insert k t rules xs).1 (apart, ground (arith, eq_iff k x, eq_iff x k)),
    ),
  )

  compile_from_iff :
      (rules : Dict AngelTool) (ts : List AngelTool)
      → ((out : Dict AngelTool) × (compile_from r rules ts ≡ ok out))
        ↔ (Apart rules (map folded ts) × Distinct (map folded ts))
  unfolding compile_from
  compile_from_iff rules [] = (λ _. (tt, tt), λ _. (rules, refl))
  compile_from_iff rules (t ∷ ts) = elim (Option-cases (lookup (folded t) rules)) [
    | inl e ↦ (
      λ (out, h).
          let (apart, distinct) =
            (compile_from_iff (insert (folded t) t rules) ts).0 (out, rw (e, compile_from) at h) in
          let (apart', absent) = (Apart-insert (folded t) t rules (map folded ts)).0 apart in
          ((e, apart'), (absent, distinct)),
      λ ((_, apart), (absent, distinct)).
          let (out, h) =
            (compile_from_iff (insert (folded t) t rules) ts).1
              ((Apart-insert (folded t) t rules (map folded ts)).1 (apart, absent), distinct) in
          (out, rw (e, compile_from) h),
    )
    | inr (o, e) ↦ (λ (out, h). cc (rw (e, compile_from) at h), λ ((n, _), _). cc (e, n))
  ]

  Apart-empty : (xs : List String) → Apart [] xs
  unfolding lookup
  Apart-empty [] = tt
  Apart-empty (x ∷ xs) = (refl, Apart-empty xs)

  -- A table of rules is made exactly when no two of the tools fold to one name.
  pub compile_rules_iff :
      (tools : List AngelTool)
      → ((out : Dict AngelTool) × (compile_rules r tools ≡ ok out)) ↔ Distinct (map folded tools)
  unfolding compile_rules
  compile_rules_iff tools =
      let both = compile_from_iff [] tools in
      (λ c. (both.0 c).1, λ d. both.1 (Apart-empty (map folded tools), d))
