-- ===== src/Json.antt =====
-- Values of JSON, and packages/core/src/canonical-json.ts.
-- A number is given by the text that Number::toString gives it, which is all that the program reads
-- of one. The fields of an object stand in the order of enumeration.
use angel_cloud.Prelude.{String, ◌≡◌, refl, ap, Bool, true, false, List, [], ◌∷◌, map}
use angel_cloud.Prelude.Dict.{Dict}
use angel_cloud.Prelude.Sort.{sort}
use angel_cloud.Text.{code_unit_le}
use Prim.Native.String.{◌++◌}

mutual
  pub data Json : Type 0 where
    null : Json
    bool : Bool → Json
    num : String → Json
    str : String → Json
    arr : Items → Json
    obj : Fields → Json

  pub data Items : Type 0 where
    nil : Items
    cons : Json → Items → Items

  pub data Fields : Type 0 where
    end : Fields
    field : String → Json → Fields → Fields

abbrev pub entries : Fields → Dict Json
entries end = []
entries (field k v fs) = (k, v) ∷ entries fs

abbrev pub fields : Dict Json → Fields
fields [] = end
fields ((k, v) ∷ d) = field k v (fields d)

pub fields-entries : (fs : Fields) → fields (entries fs) ≡ fs
fields-entries end = refl
fields-entries (field k v fs) = ap (field k v) (fields-entries fs)

pub entries-fields : (d : Dict Json) → entries (fields d) ≡ d
entries-fields [] = refl
entries-fields ((k, v) ∷ d) = ap (◌∷◌ (k, v)) (entries-fields d)

abbrev pub items : List Json → Items
items [] = nil
items (v ∷ vs) = cons v (items vs)

-- parts.join(",")
abbrev pub join : String → List String → String
join sep [] = ""
join sep (s ∷ []) = s
join sep (s ∷ t ∷ ts) = s ++ (sep ++ join sep (t ∷ ts))

abbrev key_le {ℓ} : {V : Type ℓ} → String × V → String × V → Bool
key_le e f = code_unit_le e.0 f.0

-- `quote` is JSON.stringify on a text. The text of each field is computed before the sort by key.
module _ (quote : String → String) where
  unfoldable mutual
    pub canonical_json : Json → String
    canonical_json null = "null"
    canonical_json (bool true) = "true"
    canonical_json (bool false) = "false"
    canonical_json (num n) = n
    canonical_json (str s) = quote s
    canonical_json (arr xs) = "[" ++ (join "," (canonical_items xs) ++ "]")
    canonical_json (obj fs) =
        "{" ++ (join "," (map (λ e. e.1) (sort key_le (canonical_fields fs))) ++ "}")

    pub canonical_items : Items → List String
    canonical_items nil = []
    canonical_items (cons x xs) = canonical_json x ∷ canonical_items xs

    -- Each field's key, with the text of the field.
    pub canonical_fields : Fields → Dict String
    canonical_fields end = []
    canonical_fields (field k v fs) =
        (k, quote k ++ (":" ++ canonical_json v)) ∷ canonical_fields fs

-- JSON.stringify: the fields in the order of enumeration.
module _ (quote : String → String) where
  unfoldable mutual
    pub stringify : Json → String
    stringify null = "null"
    stringify (bool true) = "true"
    stringify (bool false) = "false"
    stringify (num n) = n
    stringify (str s) = quote s
    stringify (arr xs) = "[" ++ (join "," (stringify_items xs) ++ "]")
    stringify (obj fs) = "{" ++ (join "," (stringify_fields fs) ++ "}")

    stringify_items : Items → List String
    stringify_items nil = []
    stringify_items (cons x xs) = stringify x ∷ stringify_items xs

    stringify_fields : Fields → List String
    stringify_fields end = []
    stringify_fields (field k v fs) = (quote k ++ (":" ++ stringify v)) ∷ stringify_fields fs
