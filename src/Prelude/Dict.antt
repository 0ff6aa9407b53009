-- ===== src/Prelude/Dict.antt =====
-- A JavaScript object or Map with text keys: its own entries in the order of enumeration.
use Prim.Native.String.{String}
use mathlib.Core.Path.{◌≡◌, refl, sym, ◌∙◌}
use mathlib.Core.Logic.{inl, inr, ◌≢◌}
use mathlib.Core.Bool.{false}
use mathlib.Core.Option.{Option, none, some}
use mathlib.Core.List.{List, [], ◌∷◌, ◌++◌, append_assoc, append-nil}
use native.Mathlib.Omega.{arith}
use text.Mathlib.Text.{◌==◌}
use text.Mathlib.TextEquality.{eq_iff}
use text.Mathlib.TextPositions.{eq_refl}
use angel_cloud.Prelude.Tests.{if◌then◌else◌, Bool-cases, ==_of_ne}

abbrev pub Dict {ℓ} : Type ℓ → Type ℓ
Dict V = List (String × V)

module _ {ℓ} {V : Type ℓ} where
  -- d[k], undefined on a missing key
  unfoldable pub lookup : String → Dict V → Option V
  lookup k [] = none
  lookup k ((j, v) ∷ d) = if j == k then some v else lookup k d

  -- d[k] = v: a key that is there keeps its place, another goes to the end
  unfoldable pub insert : String → V → Dict V → Dict V
  insert k v [] = (k, v) ∷ []
  insert k v ((j, w) ∷ d) = if j == k then (j, v) ∷ d else (j, w) ∷ insert k v d

  -- delete d[k]
  unfoldable pub erase : String → Dict V → Dict V
  erase k [] = []
  erase k ((j, w) ∷ d) = let rest = erase k d in if j == k then rest else (j, w) ∷ rest

  -- the assignments of a list of entries, in order
  unfoldable pub insert_all : Dict V → Dict V → Dict V
  unfolding insert
  insert_all d [] = d
  insert_all d ((k, v) ∷ es) = insert_all (insert k v d) es

  -- Object.fromEntries
  unfoldable pub from_entries : Dict V → Dict V
  unfolding insert_all
  from_entries es = insert_all [] es

  pub lookup-insert :
      (k j : String) (v : V) (d : Dict V)
      → lookup j (insert k v d) ≡ (if k == j then some v else lookup j d)
  unfolding lookup insert
  lookup-insert k j v [] = refl
  lookup-insert k j v ((i, w) ∷ d) =
      ground (arith, eq_iff k j, eq_iff i k, eq_iff i j, lookup-insert k j v d)

  pub lookup-erase :
      (k j : String) (d : Dict V) → lookup j (erase k d) ≡ (if k == j then none else lookup j d)
  unfolding lookup erase
  lookup-erase k j [] = ground arith
  lookup-erase k j ((i, w) ∷ d) =
      ground (arith, eq_iff k j, eq_iff i k, eq_iff i j, lookup-erase k j d)

  -- No key occurs twice: what the runtime guarantees of every object.
  abbrev pub IsObject : Dict V → Type ℓ
  IsObject [] = Unit
  IsObject ((k, v) ∷ d) = (lookup k d ≡ none) × IsObject d

  pub insert-IsObject : (k : String) (v : V) (d : Dict V) → IsObject d → IsObject (insert k v d)
  unfolding insert lookup
  insert-IsObject k v [] h = (refl, tt)
  insert-IsObject k v ((j, w) ∷ d) (fresh, h) = elim (Bool-cases (j == k)) [
    | inl e ↦ rw e (fresh, h)
    | inr e ↦
        let other : (k == j) ≡ false = ==_of_ne (λ (q : k ≡ j). cc ((eq_iff j k).1 (sym q))) in
        rw e (rw (lookup-insert k j v d, other) fresh, insert-IsObject k v d h)
  ]

  pub erase-IsObject : (k : String) (d : Dict V) → IsObject d → IsObject (erase k d)
  unfolding erase
  erase-IsObject k [] h = tt
  erase-IsObject k ((j, w) ∷ d) (fresh, h) = elim (Bool-cases (j == k)) [
    | inl e ↦ rw e (erase-IsObject k d h)
    | inr e ↦ rw e (lookup_fresh, erase-IsObject k d h)
  ]
    where
      lookup_fresh : lookup j (erase k d) ≡ none
      lookup_fresh = ground (arith, lookup-erase k j d)

  pub lookup-append_none :
      (k : String) (d e : Dict V) → lookup k d ≡ none → lookup k (d ++ e) ≡ lookup k e
  unfolding lookup
  lookup-append_none k [] e h = refl
  lookup-append_none k ((j, v) ∷ d) e h = ground (arith, lookup-append_none k d e)

  pub insert_fresh :
      (k : String) (v : V) (d : Dict V) → lookup k d ≡ none → insert k v d ≡ d ++ (k, v) ∷ []
  unfolding insert lookup
  insert_fresh k v [] h = refl
  insert_fresh k v ((j, w) ∷ d) h = ground (arith, insert_fresh k v d)

  lookup-append-ne-none : (k : String) (v : V) (d es : Dict V) → lookup k (d ++ (k, v) ∷ es) ≢ none
  unfolding lookup
  lookup-append-ne-none k v [] es h = cc (eq_refl k)
  lookup-append-ne-none k v ((j, w) ∷ d) es h = ground (arith, lookup-append-ne-none k v d es)

  lookup_of_IsObject :
      (k : String) (v : V) (d es : Dict V) → IsObject (d ++ (k, v) ∷ es) → lookup k d ≡ none
  unfolding lookup
  lookup_of_IsObject k v [] es h = refl
  lookup_of_IsObject k v ((j, w) ∷ d) es (fresh, h) =
      ground (arith, eq_iff j k, lookup_of_IsObject k v d es h, lookup-append-ne-none k v d es)

  -- Assigning the entries of an object to an empty one gives the object back.
  insert_all_fresh : (d es : Dict V) → IsObject (d ++ es) → insert_all d es ≡ d ++ es
  unfolding insert_all
  insert_all_fresh d [] h = sym (append-nil d)
  insert_all_fresh d ((k, v) ∷ es) h =
      rw (insert_fresh k v d (lookup_of_IsObject k v d es h)) (
        insert_all_fresh (d ++ (k, v) ∷ []) es (rw append_assoc h)
        ∙ append_assoc d ((k, v) ∷ []) es)

  pub from_entries_of_IsObject : (es : Dict V) → IsObject es → from_entries es ≡ es
  unfolding from_entries
  from_entries_of_IsObject es h = insert_all_fresh [] es h
