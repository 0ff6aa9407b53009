-- ===== src/Decision/Walk.antt =====
-- The walkers of packages/core/src/decision.ts over a call's arguments.
use angel_cloud.Prelude.{
  ℕ, zero, suc, String, Bool, true, false, ◌||◌, List, [], ◌∷◌, ◌++◌, if◌then◌else◌,
}
use angel_cloud.Json.{Json, null, bool, num, str, arr, obj, Items, nil, cons, Fields, end, field}

-- The walk of collectByField; `wanted` tests a field's name.
unfoldable mutual
  pub walk : (String → Bool) → Json → List Json
  walk wanted null = []
  walk wanted (bool b) = []
  walk wanted (num n) = []
  walk wanted (str s) = []
  walk wanted (arr xs) = walk_items wanted xs
  walk wanted (obj fs) = walk_fields wanted fs

  pub walk_items : (String → Bool) → Items → List Json
  walk_items wanted nil = []
  walk_items wanted (cons x xs) = walk wanted x ++ walk_items wanted xs

  pub walk_fields : (String → Bool) → Fields → List Json
  walk_fields wanted end = []
  walk_fields wanted (field k v fs) =
      (if wanted k then v ∷ [] else []) ++ (walk wanted v ++ walk_fields wanted fs)

unfoldable mutual
  pub string_leaves : Json → List String
  string_leaves null = []
  string_leaves (bool true) = "true" ∷ []
  string_leaves (bool false) = "false" ∷ []
  string_leaves (num n) = n ∷ []
  string_leaves (str s) = s ∷ []
  string_leaves (arr xs) = item_leaves xs
  string_leaves (obj fs) = field_leaves fs

  pub item_leaves : Items → List String
  item_leaves nil = []
  item_leaves (cons x xs) = string_leaves x ++ item_leaves xs

  pub field_leaves : Fields → List String
  field_leaves end = []
  field_leaves (field k v fs) = string_leaves v ++ field_leaves fs

-- The second argument is `maxDepth + 1`, so that 0 stands for a negative `maxDepth`.
unfoldable mutual
  pub exceeds_depth : Json → ℕ → Bool
  exceeds_depth v zero = true
  exceeds_depth null (suc d) = false
  exceeds_depth (bool b) (suc d) = false
  exceeds_depth (num n) (suc d) = false
  exceeds_depth (str s) (suc d) = false
  exceeds_depth (arr xs) (suc d) = items_exceed xs d
  exceeds_depth (obj fs) (suc d) = fields_exceed fs d

  pub items_exceed : Items → ℕ → Bool
  items_exceed nil d = false
  items_exceed (cons x xs) d = exceeds_depth x d || items_exceed xs d

  pub fields_exceed : Fields → ℕ → Bool
  fields_exceed end d = false
  fields_exceed (field k v fs) d = exceeds_depth v d || fields_exceed fs d
