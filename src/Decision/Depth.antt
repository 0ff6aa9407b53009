-- ===== src/Decision/Depth.antt =====
-- The depth test of a call's arguments against the depth of a value.
use Prim.Native.Nat.{max}
use angel_cloud.Prelude.{ℕ, zero, suc, ◌<◌, ◌≤◌, ◌≡◌, ◌↔◌, true, false, ◌||◌, arith, ltb}
use angel_cloud.Json.{Json, null, bool, num, str, arr, obj, Items, nil, cons, Fields, end, field}
use angel_cloud.Decision.Walk.{exceeds_depth, items_exceed, fields_exceed}

-- How deep arrays and objects nest around the deepest value; `*_height` counts from the children.
unfoldable mutual
  pub depth : Json → ℕ
  depth null = 0
  depth (bool b) = 0
  depth (num n) = 0
  depth (str s) = 0
  depth (arr xs) = items_height xs
  depth (obj fs) = fields_height fs

  pub items_height : Items → ℕ
  items_height nil = 0
  items_height (cons x xs) = max (suc (depth x)) (items_height xs)

  pub fields_height : Fields → ℕ
  fields_height end = 0
  fields_height (field k v fs) = max (suc (depth v)) (fields_height fs)

ltb-max : (d a h : ℕ) → ltb (suc d) (max (suc a) h) ≡ (ltb d a || ltb (suc d) h)
ltb-max d a h = ground arith

ltb-zero-max : (a h : ℕ) → ltb 0 (max (suc a) h) ≡ true
ltb-zero-max a h = ground arith

mutual
  unfolding exceeds_depth depth

  exceeds_depth-depth : (v : Json) (d : ℕ) → exceeds_depth v (suc d) ≡ ltb d (depth v)
  exceeds_depth-depth null d = ground arith
  exceeds_depth-depth (bool b) d = ground arith
  exceeds_depth-depth (num n) d = ground arith
  exceeds_depth-depth (str s) d = ground arith
  exceeds_depth-depth (arr xs) d = items_exceed-height xs d
  exceeds_depth-depth (obj fs) d = fields_exceed-height fs d

  items_exceed-height : (xs : Items) (d : ℕ) → items_exceed xs d ≡ ltb d (items_height xs)
  items_exceed-height nil d = ground arith
  items_exceed-height (cons x xs) zero = rw (ltb-zero-max (depth x) (items_height xs))
  items_exceed-height (cons x xs) (suc d) = rw (
    ltb-max d (depth x) (items_height xs),
    exceeds_depth-depth x d,
    items_exceed-height xs (suc d),
  )

  fields_exceed-height : (fs : Fields) (d : ℕ) → fields_exceed fs d ≡ ltb d (fields_height fs)
  fields_exceed-height end d = ground arith
  fields_exceed-height (field k v fs) zero = rw (ltb-zero-max (depth v) (fields_height fs))
  fields_exceed-height (field k v fs) (suc d) = rw (
    ltb-max d (depth v) (fields_height fs),
    exceeds_depth-depth v d,
    fields_exceed-height fs (suc d),
  )

-- The bounded walk finds a value too deep exactly when its depth is over the limit.
pub exceeds_depth_iff :
    (v : Json) (limit : ℕ) → (exceeds_depth v (suc limit) ≡ true) ↔ (limit < depth v)
exceeds_depth_iff v limit = (
  λ h. ground (arith, exceeds_depth-depth v limit),
  λ h. ground (arith, exceeds_depth-depth v limit),
)

pub exceeds_depth-le :
    (v : Json) (limit : ℕ) → (exceeds_depth v (suc limit) ≡ false) ↔ (depth v ≤ limit)
exceeds_depth-le v limit = (
  λ h. ground (arith, exceeds_depth-depth v limit),
  λ h. ground (arith, exceeds_depth-depth v limit),
)
