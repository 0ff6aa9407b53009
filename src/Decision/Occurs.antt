-- ===== src/Decision/Occurs.antt =====
-- Where a guarded field stands in a value, as a relation, and that the walkers find just that.
use angel_cloud.Prelude.{
  String, ◌≡◌, refl, sym, subst, Bool, true, false, [], ◌∷◌, Memᴰ, ◌↔◌, inl, inr, Bool-cases,
  if◌then◌else◌, mem-append_left, mem-append_right, mem-append_cases,
}
use angel_cloud.Json.{Json, null, bool, num, str, arr, obj, Items, nil, cons, Fields, end, field}
use angel_cloud.Decision.Walk.{
  walk, walk_items, walk_fields, string_leaves, item_leaves, field_leaves,
}

-- `x` is a child of an array; `v` is the value of the field `k` of an object.
pub data HasItem (x : Json) : Items → Type 0 where
  here : {xs : Items} → HasItem x (cons x xs)
  there : {y : Json} {xs : Items} → HasItem x xs → HasItem x (cons y xs)

pub data HasField (k : String) (v : Json) : Fields → Type 0 where
  here : {fs : Fields} → HasField k v (field k v fs)
  there : {j : String} {w : Json} {fs : Fields} → HasField k v fs → HasField k v (field j w fs)

-- At any depth of the second value, in arrays and objects alike, a field whose name is wanted has
-- the first value.
pub data Occurs (wanted : String → Bool) (v : Json) : Json → Type 0 where
  direct : (k : String) {fs : Fields} → wanted k ≡ true → HasField k v fs → Occurs wanted v (obj fs)
  in_field :
      (k : String) (w : Json) {fs : Fields}
      → HasField k w fs
      → Occurs wanted v w
      → Occurs wanted v (obj fs)
  in_item : (w : Json) {xs : Items} → HasItem w xs → Occurs wanted v w → Occurs wanted v (arr xs)

-- A text, number or Boolean at any depth, as text.
pub data Leaf (s : String) : Json → Type 0 where
  text : {t : String} → s ≡ t → Leaf s (str t)
  number : {t : String} → s ≡ t → Leaf s (num t)
  truth : s ≡ "true" → Leaf s (bool true)
  falsity : s ≡ "false" → Leaf s (bool false)
  in_field : (k : String) (w : Json) {fs : Fields} → HasField k w fs → Leaf s w → Leaf s (obj fs)
  in_item : (w : Json) {xs : Items} → HasItem w xs → Leaf s w → Leaf s (arr xs)

module _ {A : Type 0} where
  not_in_empty : {v : A} → ¬ Memᴰ v []
  not_in_empty m = elim m [ ]

  eq_of_single : {v w : A} → Memᴰ v (w ∷ []) → v ≡ w
  eq_of_single (Memᴰ.head e) = e
  eq_of_single (Memᴰ.tail m) = absurd (not_in_empty m)

module _ (wanted : String → Bool) {v : Json} where
  weaken_field :
      {k : String} {w : Json} {fs : Fields}
      → Occurs wanted v (obj fs)
      → Occurs wanted v (obj (field k w fs))
  weaken_field (direct j e h) = direct j e (there h)
  weaken_field (in_field j u h o) = in_field j u (there h) o

  weaken_item :
      {w : Json} {xs : Items} → Occurs wanted v (arr xs) → Occurs wanted v (arr (cons w xs))
  weaken_item (in_item u h o) = in_item u (there h) o

  own_field :
      (k : String) (w : Json) (fs : Fields)
      → Memᴰ v (if wanted k then w ∷ [] else [])
      → Occurs wanted v (obj (field k w fs))
  own_field k w fs m = elim (Bool-cases (wanted k)) [
    | inl e ↦
        subst (λ (u : Json). Occurs wanted u (obj (field k w fs))) (sym (eq_of_single (rw e at m)))
          (direct k e here)
    | inr e ↦ absurd (not_in_empty (rw e at m))
  ]

  mutual
    unfolding walk

    walk_sound : (w : Json) → Memᴰ v (walk wanted w) → Occurs wanted v w
    walk_sound null m = elim m [ ]
    walk_sound (bool b) m = elim m [ ]
    walk_sound (num n) m = elim m [ ]
    walk_sound (str s) m = elim m [ ]
    walk_sound (arr xs) m = walk_items_sound xs m
    walk_sound (obj fs) m = walk_fields_sound fs m

    walk_items_sound : (xs : Items) → Memᴰ v (walk_items wanted xs) → Occurs wanted v (arr xs)
    walk_items_sound nil m = elim m [ ]
    walk_items_sound (cons x xs) m = elim (mem-append_cases (walk wanted x) _ m) [
      | inl l ↦ in_item x here (walk_sound x l)
      | inr r ↦ weaken_item (walk_items_sound xs r)
    ]

    walk_fields_sound : (fs : Fields) → Memᴰ v (walk_fields wanted fs) → Occurs wanted v (obj fs)
    walk_fields_sound end m = elim m [ ]
    walk_fields_sound (field k w fs) m =
        elim (mem-append_cases (if wanted k then w ∷ [] else []) _ m) [
          | inl l ↦ own_field k w fs l
          | inr r ↦ elim (mem-append_cases (walk wanted w) _ r) [
            | inl l ↦ in_field k w here (walk_sound w l)
            | inr t ↦ weaken_field (walk_fields_sound fs t)
          ]
        ]

  own_field_complete : (k : String) → wanted k ≡ true → Memᴰ v (if wanted k then v ∷ [] else [])
  own_field_complete k e = rw e (Memᴰ.head refl)

  HasField-walk_own :
      {k : String} {fs : Fields}
      → wanted k ≡ true
      → HasField k v fs
      → Memᴰ v (walk_fields wanted fs)
  unfolding walk
  HasField-walk_own {k} e here = mem-append_left _ _ (own_field_complete k e)
  HasField-walk_own {k} e (there {w = w} {fs = fs} h) =
      mem-append_right _ _ (mem-append_right (walk wanted w) _ (HasField-walk_own e h))

  HasField-walk :
      {k : String} {w : Json} {fs : Fields}
      → HasField k w fs
      → Memᴰ v (walk wanted w)
      → Memᴰ v (walk_fields wanted fs)
  unfolding walk
  HasField-walk here m = mem-append_right _ _ (mem-append_left _ _ m)
  HasField-walk (there {w = u} h) m =
      mem-append_right _ _ (mem-append_right (walk wanted u) _ (HasField-walk h m))

  HasItem-walk :
      {w : Json} {xs : Items}
      → HasItem w xs
      → Memᴰ v (walk wanted w)
      → Memᴰ v (walk_items wanted xs)
  unfolding walk
  HasItem-walk here m = mem-append_left _ _ m
  HasItem-walk (there {y = y} h) m = mem-append_right (walk wanted y) _ (HasItem-walk h m)

  walk_complete : {w : Json} → Occurs wanted v w → Memᴰ v (walk wanted w)
  unfolding walk
  walk_complete (direct k e h) = HasField-walk_own e h
  walk_complete (in_field k w h o) = HasField-walk h (walk_complete o)
  walk_complete (in_item w h o) = HasItem-walk h (walk_complete o)

-- The walk over a value collects exactly the values of the wanted fields at every depth, in
-- objects and in lists.
pub walk_iff : (wanted : String → Bool) (v w : Json) → Memᴰ v (walk wanted w) ↔ Occurs wanted v w
walk_iff wanted v w = (walk_sound wanted w, walk_complete wanted)

module _ {s : String} where
  weaken-Leaf_field :
      {k : String} {w : Json} {fs : Fields} → Leaf s (obj fs) → Leaf s (obj (field k w fs))
  weaken-Leaf_field (in_field j u h l) = in_field j u (there h) l

  weaken-Leaf_item : {w : Json} {xs : Items} → Leaf s (arr xs) → Leaf s (arr (cons w xs))
  weaken-Leaf_item (in_item u h l) = in_item u (there h) l

  mutual
    unfolding string_leaves

    leaves_sound : (w : Json) → Memᴰ s (string_leaves w) → Leaf s w
    leaves_sound null m = elim m [ ]
    leaves_sound (bool true) m = truth (eq_of_single m)
    leaves_sound (bool false) m = falsity (eq_of_single m)
    leaves_sound (num n) m = number (eq_of_single m)
    leaves_sound (str t) m = text (eq_of_single m)
    leaves_sound (arr xs) m = item_leaves_sound xs m
    leaves_sound (obj fs) m = field_leaves_sound fs m

    item_leaves_sound : (xs : Items) → Memᴰ s (item_leaves xs) → Leaf s (arr xs)
    item_leaves_sound nil m = elim m [ ]
    item_leaves_sound (cons x xs) m = elim (mem-append_cases (string_leaves x) _ m) [
      | inl l ↦ in_item x here (leaves_sound x l)
      | inr r ↦ weaken-Leaf_item (item_leaves_sound xs r)
    ]

    field_leaves_sound : (fs : Fields) → Memᴰ s (field_leaves fs) → Leaf s (obj fs)
    field_leaves_sound end m = elim m [ ]
    field_leaves_sound (field k w fs) m = elim (mem-append_cases (string_leaves w) _ m) [
      | inl l ↦ in_field k w here (leaves_sound w l)
      | inr r ↦ weaken-Leaf_field (field_leaves_sound fs r)
    ]

  HasField-leaves :
      {k : String} {w : Json} {fs : Fields}
      → HasField k w fs
      → Memᴰ s (string_leaves w)
      → Memᴰ s (field_leaves fs)
  unfolding string_leaves
  HasField-leaves here m = mem-append_left _ _ m
  HasField-leaves (there {w = u} h) m = mem-append_right (string_leaves u) _ (HasField-leaves h m)

  HasItem-leaves :
      {w : Json} {xs : Items} → HasItem w xs → Memᴰ s (string_leaves w) → Memᴰ s (item_leaves xs)
  unfolding string_leaves
  HasItem-leaves here m = mem-append_left _ _ m
  HasItem-leaves (there {y = y} h) m = mem-append_right (string_leaves y) _ (HasItem-leaves h m)

  leaves_complete : {w : Json} → Leaf s w → Memᴰ s (string_leaves w)
  unfolding string_leaves
  leaves_complete (text e) = Memᴰ.head e
  leaves_complete (number e) = Memᴰ.head e
  leaves_complete (truth e) = Memᴰ.head e
  leaves_complete (falsity e) = Memᴰ.head e
  leaves_complete (in_field k w h l) = HasField-leaves h (leaves_complete l)
  leaves_complete (in_item w h l) = HasItem-leaves h (leaves_complete l)

-- The leaves of a value are exactly the texts, numbers and Booleans in it at every depth, as
-- text.
pub leaves_iff : (s : String) (w : Json) → Memᴰ s (string_leaves w) ↔ Leaf s w
leaves_iff s w = (leaves_sound w, leaves_complete)
