-- ===== src/Artifact/Compose.antt =====
-- When artifacts compose, and what the composition holds.
use angel_cloud.Prelude.{
  String, ◌≡◌, ◌↔◌, refl, false, not, List, [], ◌∷◌, eq_iff, map, contains, arith, ok, >>-eq-ok,
  >>=-eq-ok,
}
use angel_cloud.Prelude.Sort.{sort}
use angel_cloud.Decision.Rules.{Distinct}
use angel_cloud.Gate.State.{ProviderBindingRequirement}
use angel_cloud.Artifact.{
  requirement_collision, compare_requirement, rebased_id, rebase_from, rebase_composed_requirements,
}

-- None of the texts was seen.
abbrev Fresh : List String → List String → Type 0
Fresh seen [] = Unit
Fresh seen (x ∷ xs) = (contains x seen ≡ false) × Fresh seen xs

Fresh-more :
    (x : String) (seen xs : List String)
    → Fresh (x ∷ seen) xs ↔ (Fresh seen xs × (contains x xs ≡ false))
Fresh-more x seen [] = (λ _. (tt, refl), λ _. tt)
Fresh-more x seen (y ∷ ys) = (
  λ (here, later).
      let (fresh, absent) = (Fresh-more x seen ys).0 later in
      ((ground (arith, eq_iff x y, eq_iff y x), fresh), ground (arith, eq_iff x y, eq_iff y x)),
  λ ((here, fresh), absent). (
    ground (arith, eq_iff x y, eq_iff y x),
    (Fresh-more x seen ys).1 (fresh, ground (arith, eq_iff x y, eq_iff y x)),
  ),
)

Fresh-empty : (xs : List String) → Fresh [] xs
Fresh-empty [] = tt
Fresh-empty (x ∷ xs) = (refl, Fresh-empty xs)

rebase_from_iff :
    (all : List ProviderBindingRequirement) (seen : List String)
    (qs : List ProviderBindingRequirement)
    → ((out : List ProviderBindingRequirement) × (rebase_from all seen qs ≡ ok out))
      ↔ (Fresh seen (map (rebased_id all) qs) × Distinct (map (rebased_id all) qs))
unfolding rebase_from
rebase_from_iff all seen [] = (λ _. (tt, tt), λ _. ([], refl))
rebase_from_iff all seen (q ∷ qs) = (
  λ (out, h).
      let (fresh, h1) =
        >>-eq-ok (not (contains (rebased_id all q) seen)) requirement_collision _ h in
      let (rest, made, _) = >>=-eq-ok (rebase_from all (rebased_id all q ∷ seen) qs) _ h1 in
      let (later, distinct) = (rebase_from_iff all (rebased_id all q ∷ seen) qs).0 (rest, made) in
      let (apart, absent) =
        (Fresh-more (rebased_id all q) seen (map (rebased_id all) qs)).0 later in
      ((ground arith, apart), (absent, distinct)),
  λ ((here, apart), (absent, distinct)).
      let (rest, made) = (rebase_from_iff all (rebased_id all q ∷ seen) qs).1 (
        (Fresh-more (rebased_id all q) seen (map (rebased_id all) qs)).1 (apart, absent),
        distinct,
      ) in
      (record q { id = rebased_id all q } ∷ rest, rw (here, made)),
)

-- The requirements of composed Angels are given new ids exactly when no two of them get one id.
pub rebase_composed_requirements_iff :
    (qs : List ProviderBindingRequirement)
    → ((out : List ProviderBindingRequirement) × (rebase_composed_requirements qs ≡ ok out))
      ↔ Distinct (map (rebased_id qs) qs)
unfolding rebase_composed_requirements
rebase_composed_requirements_iff qs = (
  λ (out, h).
      let (made, e, _) = >>=-eq-ok (rebase_from qs [] qs) _ h in
      ((rebase_from_iff qs [] qs).0 (made, e)).1,
  λ d.
      let (made, e) = (rebase_from_iff qs [] qs).1 (Fresh-empty (map (rebased_id qs) qs), d) in
      (sort compare_requirement made, rw e),
)
