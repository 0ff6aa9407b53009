-- ===== src/Decision/Meaning.antt =====
-- What the argument guards mean, stated by where a field stands and which leaves its value has, and
-- that evaluateGuard decides it.
use angel_cloud.Prelude.{
  String, ◌≡◌, ◌≢◌, ◌↔◌, refl, sym, ap, subst, Bool, true, false, not, none, List, [], ◌∷◌, ◌==◌,
  eq_iff, map, Memᴰ, inl, inr, Bool-cases, Option-cases, arith, any, find, All, All-mem,
  any-eq-false, find-eq-none, mem_of_contains, contains_of_mem, mem-append_left, mem-append_right,
  mem-append_cases,
}
use angel_cloud.Prelude.Dict.{Dict}
use angel_cloud.Json.{Json, obj, fields}
use angel_cloud.Runtime.{Runtime}
use angel_cloud.Decision.Walk.{string_leaves}
use angel_cloud.Decision.Guard.{
  ArgGuard, forbidden_values, forbid, pin, comparable, same_field, collect_by_field, leaves_break,
  breaks_pin, all_leaves, forbids_leaf, guard_values, guarded_field, evaluate_guard, first_denied,
}
use angel_cloud.Decision.Occurs.{Occurs, Leaf, walk_iff, leaves_iff}

module _ (r : Runtime) where
  -- What a guard asks of the value of its field.
  abbrev pub AdmitsValue : ArgGuard → Json → Type 0
  AdmitsValue (forbid name) u = ⊥
  AdmitsValue (pin name text) u =
      ((s : String) × Leaf s u) × ((s : String) → Leaf s u → comparable r s ≡ comparable r text)
  AdmitsValue (forbidden_values name forbidden) u =
      (s x : String) → Leaf s u → Memᴰ x forbidden → comparable r s ≢ comparable r x

  -- The guard holds of every value of its field, wherever in the arguments the field stands.
  abbrev pub Admits : ArgGuard → Json → Type 0
  Admits g v = (u : Json) → Occurs (same_field r (guarded_field g)) u v → AdmitsValue g u

  not-eq-false : (b : Bool) → not b ≡ false → b ≡ true
  not-eq-false true h = refl
  not-eq-false false h = cc

  leaves_break_sound :
      (text : String) (ls : List String)
      → leaves_break r text ls ≡ false
      → ((s : String) × Memᴰ s ls) × ((s : String) → Memᴰ s ls → comparable r s ≡ comparable r text)
  unfolding leaves_break
  leaves_break_sound text [] h = cc
  leaves_break_sound text (l ∷ ls) h = (
    (l, Memᴰ.head refl),
    λ s m. (eq_iff _ _).0 (
        not-eq-false _ (
          All-mem (λ x. not (comparable r x == comparable r text) ≡ false) (l ∷ ls) m
            (any-eq-false _ (l ∷ ls) h))),
  )

  any_none :
      (text : String) (ls : List String)
      → ((s : String) → Memᴰ s ls → comparable r s ≡ comparable r text)
      → any (λ l. not (comparable r l == comparable r text)) ls ≡ false
  any_none text [] h = refl
  any_none text (l ∷ ls) h =
      rw ((eq_iff _ _).1 (h l (Memᴰ.head refl))) (any_none text ls (λ s m. h s (Memᴰ.tail m)))

  leaves_break_complete :
      (text : String) (ls : List String)
      → ((s : String) × Memᴰ s ls)
      → ((s : String) → Memᴰ s ls → comparable r s ≡ comparable r text)
      → leaves_break r text ls ≡ false
  unfolding leaves_break
  leaves_break_complete text [] (s, m) h = elim m [ ]
  leaves_break_complete text (l ∷ ls) e h = any_none text (l ∷ ls) h

  pin_iff :
      (name text : String) (u : Json)
      → (breaks_pin r text u ≡ false) ↔ AdmitsValue (pin name text) u
  unfolding breaks_pin
  pin_iff name text u = (
    λ h.
        let (e, all) = leaves_break_sound text (string_leaves u) h in
        ((e.0, (leaves_iff _ u).0 e.1), λ s l. all s ((leaves_iff s u).1 l)),
    λ (e, all).
        leaves_break_complete text (string_leaves u) (e.0, (leaves_iff _ u).1 e.1)
          (λ s m. all s ((leaves_iff s u).0 m)),
  )

  mem-map_of_mem :
      (f : String → String) (x : String) (xs : List String) → Memᴰ x xs → Memᴰ (f x) (map f xs)
  mem-map_of_mem f x [] m = elim m [ ]
  mem-map_of_mem f x (y ∷ xs) (Memᴰ.head e) = Memᴰ.head (ap f e)
  mem-map_of_mem f x (y ∷ xs) (Memᴰ.tail m) = Memᴰ.tail (mem-map_of_mem f x xs m)

  mem_of_map :
      (f : String → String) (y : String) (xs : List String)
      → Memᴰ y (map f xs)
      → (x : String) × Memᴰ x xs × (y ≡ f x)
  mem_of_map f y [] m = elim m [ ]
  mem_of_map f y (x ∷ xs) (Memᴰ.head e) = (x, Memᴰ.head refl, e)
  mem_of_map f y (x ∷ xs) (Memᴰ.tail m) =
      let (z, at, e) = mem_of_map f y xs m in (z, Memᴰ.tail at, e)

  -- A leaf of a list of values is a leaf of one of them.
  mem-all_leaves :
      (s : String) (u : Json) (vs : List Json) → Memᴰ u vs → Leaf s u → Memᴰ s (all_leaves vs)
  mem-all_leaves s u [] m l = elim m [ ]
  mem-all_leaves s u (v ∷ vs) (Memᴰ.head e) l =
      mem-append_left _ _ ((leaves_iff s v).1 (subst (Leaf s) e l))
  mem-all_leaves s u (v ∷ vs) (Memᴰ.tail m) l =
      mem-append_right (string_leaves v) _ (mem-all_leaves s u vs m l)

  mem_of_all_leaves :
      (s : String) (vs : List Json) → Memᴰ s (all_leaves vs) → (u : Json) × Memᴰ u vs × Leaf s u
  mem_of_all_leaves s [] m = elim m [ ]
  mem_of_all_leaves s (v ∷ vs) m = elim (mem-append_cases (string_leaves v) _ m) [
    | inl l ↦ (v, Memᴰ.head refl, (leaves_iff s v).0 l)
    | inr t ↦ let (u, at, l) = mem_of_all_leaves s vs t in (u, Memᴰ.tail at, l)
  ]

  forbids_leaf_of_mem :
      (forbidden : List String) (s x : String)
      → Memᴰ x forbidden
      → comparable r s ≡ comparable r x
      → forbids_leaf r forbidden s ≡ true
  forbids_leaf_of_mem forbidden s x m e = contains_of_mem _ _ (
      subst (λ t. Memᴰ t (map (comparable r) forbidden)) (sym e)
        (mem-map_of_mem (comparable r) x forbidden m))

  -- What a guard lets through of the values that were collected is what it admits of each.
  guard_values_sound :
      (g : ArgGuard) (vs : List Json)
      → guard_values r g vs ≡ none
      → (u : Json) → Memᴰ u vs
      → AdmitsValue g u
  unfolding guard_values
  guard_values_sound g [] h u m = elim m [ ]
  guard_values_sound (forbid name) (v ∷ vs) h u m = cc
  guard_values_sound (pin name text) (v ∷ vs) h u m = (pin_iff name text u).0 broken
    where
      none_breaks : any (breaks_pin r text) (v ∷ vs) ≡ false
      none_breaks = ground arith

      broken : breaks_pin r text u ≡ false
      broken =
          All-mem (λ w. breaks_pin r text w ≡ false) (v ∷ vs) m
            (any-eq-false _ (v ∷ vs) none_breaks)
  guard_values_sound (forbidden_values name forbidden) (v ∷ vs) h u m = λ s x l at e. cc (
    All-mem (λ w. forbids_leaf r forbidden w ≡ false) _ (mem-all_leaves s u (v ∷ vs) m l)
        (find-eq-none _ _ none_found),
    forbids_leaf_of_mem forbidden s x at e,
  )
    where
      none_found : find (forbids_leaf r forbidden) (all_leaves (v ∷ vs)) ≡ none
      none_found = ground arith

  any_breaks_none :
      (name text : String) (vs : List Json)
      → ((u : Json) → Memᴰ u vs → AdmitsValue (pin name text) u)
      → any (breaks_pin r text) vs ≡ false
  any_breaks_none name text [] h = refl
  any_breaks_none name text (v ∷ vs) h =
      rw ((pin_iff name text v).1 (h v (Memᴰ.head refl)))
        (any_breaks_none name text vs (λ u m. h u (Memᴰ.tail m)))

  find-none :
      (forbidden ls : List String)
      → ((s : String) → Memᴰ s ls → forbids_leaf r forbidden s ≡ false)
      → find (forbids_leaf r forbidden) ls ≡ none
  find-none forbidden [] h = refl
  find-none forbidden (l ∷ ls) h =
      rw (h l (Memᴰ.head refl)) (find-none forbidden ls (λ s m. h s (Memᴰ.tail m)))

  forbids_leaf_none :
      (name s : String) (forbidden : List String) (u : Json)
      → AdmitsValue (forbidden_values name forbidden) u
      → Leaf s u
      → forbids_leaf r forbidden s ≡ false
  forbids_leaf_none name s forbidden u h l = elim (Bool-cases (forbids_leaf r forbidden s)) [
    | inl e ↦
        let (x, at, same) =
          mem_of_map (comparable r) _ forbidden
            (mem_of_contains (comparable r s) (map (comparable r) forbidden) e) in
        absurd (h s x l at same)
    | inr e ↦ e
  ]

  guard_values_complete :
      (g : ArgGuard) (vs : List Json)
      → ((u : Json) → Memᴰ u vs → AdmitsValue g u)
      → guard_values r g vs ≡ none
  unfolding guard_values
  guard_values_complete (forbid name) [] h = refl
  guard_values_complete (pin name text) [] h = refl
  guard_values_complete (forbidden_values name forbidden) [] h = refl
  guard_values_complete (forbid name) (v ∷ vs) h = absurd (h v (Memᴰ.head refl))
  guard_values_complete (pin name text) (v ∷ vs) h = rw (any_breaks_none name text (v ∷ vs) h)
  guard_values_complete (forbidden_values name forbidden) (v ∷ vs) h =
      rw (find-none forbidden (all_leaves (v ∷ vs)) each, guard_values)
    where
      each : (s : String) → Memᴰ s (all_leaves (v ∷ vs)) → forbids_leaf r forbidden s ≡ false
      each s m =
          let (u, at, l) = mem_of_all_leaves s (v ∷ vs) m in
          forbids_leaf_none name s forbidden u (h u at) l

  -- A guard denies no argument exactly when it admits the value of its field wherever in the
  -- arguments, at any depth, the field stands: a forbidden field stands nowhere, a pinned one has
  -- a leaf and only leaves that fold like the pinned text, and one with forbidden values has no
  -- leaf that folds like one of them.
  pub evaluate_guard_iff :
      (g : ArgGuard) (args : Dict Json)
      → (evaluate_guard r g args ≡ none) ↔ Admits g (obj (fields args))
  unfolding evaluate_guard collect_by_field
  evaluate_guard_iff g args = (
    λ h u o. guard_values_sound g _ h u ((walk_iff _ u _).1 o),
    λ h. guard_values_complete g _ (λ u m. h u ((walk_iff _ u _).0 m)),
  )

  -- The loop over the guards lets the arguments through exactly when each guard admits them.
  pub first_denied_iff :
      (gs : List ArgGuard) (args : Dict Json)
      → (first_denied r gs args ≡ none) ↔ All (λ g. Admits g (obj (fields args))) gs
  unfolding first_denied
  first_denied_iff [] args = (λ h. tt, λ h. refl)
  first_denied_iff (g ∷ gs) args = (
    λ h. elim (Option-cases (evaluate_guard r g args)) [
      | inl e ↦ (
        (evaluate_guard_iff g args).0 e,
        (first_denied_iff gs args).0 (rw (e, first_denied) at h),
      )
      | inr (m, e) ↦ cc (rw (e, first_denied) at h)
    ],
    λ (here, later).
        rw ((evaluate_guard_iff g args).1 here, first_denied) ((first_denied_iff gs args).1 later),
  )
