-- ===== src/Management/Keep/Loading.antt =====
-- What the constructor makes of a stored state keeps every environment sound (src/management.ts).
use angel_cloud.Prelude.{
  ◌≡◌, refl, subst, ap, Option, none, some, List, [], ◌∷◌, find, All, Result, ok, ◌>>=◌, >>=-eq-ok,
  ok-injective,
}
use angel_cloud.Runtime.{Runtime}
use angel_cloud.Management.State.{
  Failure, ManagementEnvironment, ManagementAngel, ManagementState, PendingAvailability,
  ManagementDeployment,
}
use angel_cloud.Management.Load.{
  for_each, repair_availability, repair_pending, repair_environment, repair_angel, load,
}
use angel_cloud.Management.Views.{is_id}
use angel_cloud.Management.Target.{is_none}
use angel_cloud.Management.KeyRule.{KeyRule}
use angel_cloud.Management.Phase.{IsOrderly-of_tests}
use angel_cloud.Management.Writes.{Every, Both}
use angel_cloud.Management.Runs.{Condition}
use angel_cloud.Management.Keep.Keys.{Sound}

for_each-All :
    {A B : Type 0} (f : A → Result Failure B) (P : A → Type 0) (Q : B → Type 0)
    → ((a : A) (b : B) → f a ≡ ok b → P a → Q b)
    → (xs : List A) {ys : List B} → for_each f xs ≡ ok ys
    → All P xs
    → All Q ys
unfolding for_each
for_each-All {B = B} f P Q h [] e p = subst (λ (ys : List B). All Q ys) (ok-injective e) tt
for_each-All {B = B} f P Q h (x ∷ xs) e p =
    let (b, here, rest) = >>=-eq-ok (f x) (λ b. for_each f xs >>= λ bs. ok (b ∷ bs)) e in
    let (bs, later, same) = >>=-eq-ok (for_each f xs) (λ bs. ok (b ∷ bs)) rest in
    subst (λ (ys : List B). All Q ys) (ok-injective same)
      (h x b here p.0, for_each-All f P Q h xs later p.1)

module _ (r : Runtime) {K : ManagementEnvironment → Type 0} (rule : KeyRule K) where
  abbrev I : Condition
  I = Every (Sound K)

  repair_pending-is_none :
      (s : ManagementState) (o : Option ManagementDeployment) (p q : Option PendingAvailability)
      → repair_pending r s o p ≡ ok q
      → is_none p ≡ is_none q
  unfolding repair_pending
  repair_pending-is_none s o none q e = ap is_none (ok-injective e)
  repair_pending-is_none s o (some p) q e =
      let (t, _, same) =
        >>=-eq-ok (repair_availability r s o p.target) (λ t. ok (some (record p { target = t })))
          e in
      ap is_none (ok-injective same)

  repair_environment-Sound :
      (s : ManagementState) (e f : ManagementEnvironment)
      → repair_environment r s e ≡ ok f
      → Sound K e
      → Sound K f
  unfolding repair_environment
  repair_environment-Sound s e f h k =
      let dep = find (λ x. is_id x.id e.active_deployment_id) s.deployments in
      let (a, _, rest) =
        >>=-eq-ok (repair_availability r s dep e.availability)
          (λ a. repair_pending r s dep e.pending_availability >>= λ p.
            ok (record e { availability = a; pending_availability = p }))
          h in
      let (p, pending, same) =
        >>=-eq-ok (repair_pending r s dep e.pending_availability)
          (λ p. ok (record e { availability = a; pending_availability = p })) rest in
      subst (Sound K) (ok-injective same) (
        IsOrderly-of_tests e _ refl refl
            (repair_pending-is_none s dep e.pending_availability p pending) k.0,
        rule.stable e _ refl refl refl k.1,
      )

  repair_angel-Both :
      (s : ManagementState) (a b : ManagementAngel)
      → repair_angel r s a ≡ ok b
      → Both (Sound K) a
      → Both (Sound K) b
  unfolding repair_angel
  repair_angel-Both s a b h k =
      let (first, one, rest) =
        >>=-eq-ok (repair_environment r s a.preview)
          (λ first. repair_environment r s a.production >>= λ second.
            ok (record a { preview = first; production = second }))
          h in
      let (second, two, same) =
        >>=-eq-ok (repair_environment r s a.production)
          (λ second. ok (record a { preview = first; production = second })) rest in
      subst (Both (Sound K)) (ok-injective same) (
        repair_environment-Sound s a.preview first one k.0,
        repair_environment-Sound s a.production second two k.1,
      )

  pub load-Every : (s t : ManagementState) → load r s ≡ ok t → I s.angels → I t.angels
  unfolding load
  load-Every s t h k =
      let (angels, each_one, same) =
        >>=-eq-ok (for_each (repair_angel r s) s.angels)
          (λ angels. ok (record s { angels = angels })) h in
      subst (λ (x : ManagementState). I x.angels) (ok-injective same)
        (for_each-All (repair_angel r s) (Both (Sound K)) (Both (Sound K)) (repair_angel-Both s)
          s.angels each_one k)
