-- ===== src/Decision/Guard.antt =====
-- The argument guards of packages/core/src/decision.ts and types.ts.
use Prim.Native.String.{◌++◌}
use mathlib.Core.List.{◌++◌ as append}
use angel_cloud.Prelude.{
  String, Bool, true, not, Option, none, some, List, [], ◌∷◌, ◌==◌, map, if◌then◌else◌, find, any,
  contains,
}
use angel_cloud.Prelude.Dict.{Dict}
use angel_cloud.Json.{Json, obj, fields}
use angel_cloud.Runtime.{Runtime}
use angel_cloud.Decision.Walk.{walk, string_leaves}

pub data ArgGuard : Type 0 where
  forbidden_values : String → List String → ArgGuard
  forbid : String → ArgGuard
  pin : String → String → ArgGuard

abbrev pub guarded_field : ArgGuard → String
guarded_field (forbidden_values name _) = name
guarded_field (forbid name) = name
guarded_field (pin name _) = name

abbrev pub all_leaves : List Json → List String
all_leaves [] = []
all_leaves (v ∷ vs) = append (string_leaves v) (all_leaves vs)

module _ (r : Runtime) where
  unfoldable pub comparable : String → String
  comparable value = r.to_lower (r.normalize_nfc value)

  unfoldable pub same_field : String → String → Bool
  same_field name key = r.to_lower key == r.to_lower name

  unfoldable pub collect_by_field : Json → String → List Json
  unfolding walk same_field
  collect_by_field value name = walk (same_field name) value

  -- The leaves of a value that breaks a pin: none, or one other than the pinned text.
  unfoldable pub leaves_break : String → List String → Bool
  unfolding comparable
  leaves_break text [] = true
  leaves_break text (leaf ∷ more) = any (λ l. not (comparable l == comparable text)) (leaf ∷ more)

  unfoldable pub breaks_pin : String → Json → Bool
  unfolding leaves_break string_leaves
  breaks_pin text value = leaves_break text (string_leaves value)

  abbrev pub forbids_leaf : List String → String → Bool
  forbids_leaf forbidden leaf = contains (comparable leaf) (map comparable forbidden)

  abbrev pub shown : List String → String → String
  shown forbidden leaf = elim (find (λ v. comparable v == comparable leaf) forbidden) [
    | none ↦ leaf
    | some v ↦ v
  ]

  -- evaluateGuard on the values that were collected for its field; none is null.
  unfoldable pub guard_values : ArgGuard → List Json → Option String
  unfolding breaks_pin comparable string_leaves
  guard_values g [] = none
  guard_values (forbid name) (v ∷ vs) = some ("argGuard: " ++ (name ++ " is forbidden"))
  guard_values (pin name text) (v ∷ vs) =
      if any (breaks_pin text) (v ∷ vs)
      then some ("argGuard: " ++ (name ++ (" is pinned to " ++ text)))
      else none
  guard_values (forbidden_values name forbidden) (v ∷ vs) =
      elim (find (forbids_leaf forbidden) (all_leaves (v ∷ vs))) [
        | none ↦ none
        | some leaf ↦ some ("argGuard: " ++ (name ++ (" forbids " ++ shown forbidden leaf)))
      ]

  unfoldable pub evaluate_guard : ArgGuard → Dict Json → Option String
  unfolding guard_values collect_by_field
  evaluate_guard g args = guard_values g (collect_by_field (obj (fields args)) (guarded_field g))

  -- The loop over the rule's guards: the first that denies.
  unfoldable pub first_denied : List ArgGuard → Dict Json → Option String
  unfolding evaluate_guard
  first_denied [] args = none
  first_denied (g ∷ gs) args = elim (evaluate_guard g args) [
    | some message ↦ some message
    | none ↦ first_denied gs args
  ]
