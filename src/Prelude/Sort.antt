-- ===== src/Prelude/Sort.antt =====
-- Array.prototype.sort with a comparator, a stable sort, and what it keeps of an object's entries.
use Prim.Native.String.{String}
use mathlib.Core.Path.{◌≡◌, refl, ap, ◌∙◌}
use mathlib.Core.Logic.{◌⊎◌, inl, inr}
use mathlib.Core.Bool.{Bool}
use mathlib.Core.Option.{none, some}
use mathlib.Core.List.{List, [], ◌∷◌, Memᴰ}
use native.Mathlib.Omega.{arith}
use text.Mathlib.Text.{◌==◌}
use text.Mathlib.TextEquality.{eq_iff}
use angel_cloud.Prelude.Tests.{if◌then◌else◌, Bool-cases}
use angel_cloud.Prelude.Dict.{Dict, lookup, IsObject}

module _ {ℓ} {A : Type ℓ} (le : A → A → Bool) where
  -- `x` goes before the first entry that it is not after.
  unfoldable pub insert_sorted : A → List A → List A
  insert_sorted x [] = x ∷ []
  insert_sorted x (y ∷ ys) = if le x y then x ∷ y ∷ ys else y ∷ insert_sorted x ys

  unfoldable pub sort : List A → List A
  unfolding insert_sorted
  sort [] = []
  sort (x ∷ xs) = insert_sorted x (sort xs)

  mem_head_or : {a x : A} (xs : List A) → Memᴰ a (x ∷ xs) → (a ≡ x) ⊎ Memᴰ a xs
  mem_head_or xs (Memᴰ.head q) = inl q
  mem_head_or xs (Memᴰ.tail q) = inr q

  pub mem-insert_sorted :
      {a : A} (x : A) (ys : List A) → Memᴰ a (x ∷ ys) → Memᴰ a (insert_sorted x ys)
  unfolding insert_sorted
  mem-insert_sorted x [] m = m
  mem-insert_sorted x (y ∷ ys) m = elim (Bool-cases (le x y)) [
    | inl e ↦ rw e m
    | inr e ↦ rw e (elim (mem_head_or (y ∷ ys) m) [
      | inl q ↦ Memᴰ.tail (mem-insert_sorted x ys (Memᴰ.head q))
      | inr r ↦ elim (mem_head_or ys r) [
        | inl q ↦ Memᴰ.head q
        | inr t ↦ Memᴰ.tail (mem-insert_sorted x ys (Memᴰ.tail t))
      ]
    ])
  ]

  pub mem_of_insert_sorted :
      {a : A} (x : A) (ys : List A) → Memᴰ a (insert_sorted x ys) → (a ≡ x) ⊎ Memᴰ a ys
  unfolding insert_sorted
  mem_of_insert_sorted x [] m = mem_head_or [] m
  mem_of_insert_sorted x (y ∷ ys) m = elim (Bool-cases (le x y)) [
    | inl e ↦ mem_head_or (y ∷ ys) (rw e at m)
    | inr e ↦ elim (mem_head_or (insert_sorted x ys) (rw e at m)) [
      | inl q ↦ inr (Memᴰ.head q)
      | inr r ↦ elim (mem_of_insert_sorted x ys r) [ inl q ↦ inl q | inr t ↦ inr (Memᴰ.tail t) ]
    ]
  ]

  pub mem-sort : {a : A} (xs : List A) → Memᴰ a xs → Memᴰ a (sort xs)
  unfolding sort
  mem-sort [] m = m
  mem-sort (x ∷ xs) m = elim (mem_head_or xs m) [
    | inl q ↦ mem-insert_sorted x (sort xs) (Memᴰ.head q)
    | inr t ↦ mem-insert_sorted x (sort xs) (Memᴰ.tail (mem-sort xs t))
  ]

  pub mem_of_sort : {a : A} (xs : List A) → Memᴰ a (sort xs) → Memᴰ a xs
  unfolding sort
  mem_of_sort [] m = m
  mem_of_sort (x ∷ xs) m = elim (mem_of_insert_sorted x (sort xs) m) [
    | inl q ↦ Memᴰ.head q
    | inr t ↦ Memᴰ.tail (mem_of_sort xs t)
  ]

-- Sorting the entries of an object by a test on entries moves no value to another key.
module _ {ℓ} {V : Type ℓ} (le : String × V → String × V → Bool) where
  lookup-insert_sorted :
      (j k : String) (v : V) (d : Dict V)
      → lookup j d ≡ none
      → lookup k (insert_sorted le (j, v) d) ≡ (if j == k then some v else lookup k d)
  unfolding insert_sorted lookup
  lookup-insert_sorted j k v [] h = refl
  lookup-insert_sorted j k v ((i, w) ∷ d) h =
      ground (arith, eq_iff j k, eq_iff i j, eq_iff i k, lookup-insert_sorted j k v d)

  pub lookup-sort : (k : String) (d : Dict V) → IsObject d → lookup k (sort le d) ≡ lookup k d
  unfolding sort lookup
  lookup-sort k [] h = refl
  lookup-sort k ((j, v) ∷ d) (fresh, h) =
      lookup-insert_sorted j k v (sort le d) (lookup-sort j d h ∙ fresh)
      ∙ ap (λ o. if j == k then some v else o) (lookup-sort k d h)

  insert_sorted-IsObject :
      (j : String) (v : V) (d : Dict V)
      → lookup j d ≡ none
      → IsObject d
      → IsObject (insert_sorted le (j, v) d)
  unfolding insert_sorted lookup
  insert_sorted-IsObject j v [] fresh h = (refl, tt)
  insert_sorted-IsObject j v ((i, w) ∷ d) fresh (apart, h) =
      ground
        (arith, eq_iff i j, eq_iff j i, lookup-insert_sorted j i v d, insert_sorted-IsObject j v d)

  pub sort-IsObject : (d : Dict V) → IsObject d → IsObject (sort le d)
  unfolding sort
  sort-IsObject [] h = tt
  sort-IsObject ((j, v) ∷ d) (fresh, h) =
      insert_sorted-IsObject j v (sort le d) (lookup-sort j d h ∙ fresh) (sort-IsObject d h)
