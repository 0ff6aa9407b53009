-- ===== src/Decision/Verdict.antt =====
-- When a tool call is allowed, and with which arguments.
use angel_cloud.Prelude.{
  suc, ◌≤◌, String, ◌≡◌, ◌↔◌, refl, sym, ap, ◌∙◌, subst, Bool, true, false, Option, none, some, [],
  ◌∷◌, ◌==◌, eq_iff, eq_refl, arith, inl, inr, Option-cases, Bool-cases, All, if◌then◌else◌,
}
use angel_cloud.Prelude.Dict.{Dict, lookup, insert, lookup-insert}
use angel_cloud.Json.{Json, str, obj, Fields, entries, fields}
use angel_cloud.Runtime.{Runtime}
use angel_cloud.Decision.Walk.{exceeds_depth}
use angel_cloud.Decision.Depth.{depth, exceeds_depth-le}
use angel_cloud.Decision.Guard.{first_denied}
use angel_cloud.Decision.Meaning.{Admits, first_denied_iff}
use angel_cloud.Decision.Call.{
  AngelTool, allowed, max_arg_depth, is_inherited, is_undefined, materialize, or_empty, judge,
  judge_object, judge_parsed, parse_body, evaluate_tool_call,
}

-- The value of a field once the defaults are filled in: its own, else the default, unless every
-- object inherits the name.
abbrev pub filled : Option Json → Bool → Option String → Option Json
filled (some v) inherited o = some v
filled none true o = none
filled none false none = none
filled none false (some t) = some (str t)

abbrev fill : Dict Json → String → String → Dict Json
fill args k t = if is_undefined args k then insert k (str t) args else args

filled-fill_self :
    (k t : String) (args : Dict Json) (o : Option String)
    → filled (lookup k (fill args k t)) (is_inherited k) o
      ≡ filled (lookup k args) (is_inherited k) (some t)
unfolding is_undefined
filled-fill_self k t args o = ground (arith, lookup-insert k k (str t) args, eq_refl k)

lookup-fill_ne :
    (k key t : String) (args : Dict Json)
    → (k == key) ≡ false
    → lookup key (fill args k t) ≡ lookup key args
lookup-fill_ne k key t args h = ground (arith, lookup-insert k key (str t) args)

filled-fill :
    (k key t : String) (args : Dict Json) (o : Option String)
    → filled (lookup key (fill args k t)) (is_inherited key) o
      ≡ filled (lookup key args) (is_inherited key) (if k == key then some t else o)
filled-fill k key t args o = elim (Bool-cases (k == key)) [
  | inl e ↦
      let same : k ≡ key = (eq_iff k key).0 e in
      rw e (
        subst
          (λ x.
            filled (lookup x (fill args k t)) (is_inherited x) o
            ≡ filled (lookup x args) (is_inherited x) (some t))
          same (filled-fill_self k t args o))
  | inr e ↦ rw (e, lookup-fill_ne k key t args e)
]

-- Filling in the defaults gives each field its own value, else its default; a name that every
-- object inherits gets none.
pub lookup-materialize :
    (key : String) (args : Dict Json) (defaults : Dict String)
    → lookup key (materialize args defaults)
      ≡ filled (lookup key args) (is_inherited key) (lookup key defaults)
unfolding materialize lookup
lookup-materialize key args [] = ground arith
lookup-materialize key args ((k, t) ∷ defaults) =
    lookup-materialize key (fill args k t) defaults ∙ filled-fill k key t args (lookup key defaults)

-- What a call must meet to be allowed with the arguments `args`.
pub record IsPermitted (r : Runtime) (rules : Dict AngelTool) (tool body : String)
    (defaults : Option (Dict String)) (rule : AngelTool) (args : Dict Json) : Type 0 where
  pub listed : lookup (r.to_upper tool) rules ≡ some rule
  pub sent : Fields
  pub parsed : parse_body r body ≡ some (obj sent)
  pub shallow : depth (obj sent) ≤ max_arg_depth
  pub complete : args ≡ materialize (entries sent) (or_empty defaults)
  pub guarded : All (λ g. Admits r g (obj (fields args))) (or_empty rule.arg_guards)

module _ (r : Runtime) where
  judge_sound :
      (rule other : AngelTool) (args out : Dict Json)
      → judge r rule args ≡ allowed other out
      → (rule ≡ other) × (args ≡ out) × (first_denied r (or_empty rule.arg_guards) args ≡ none)
  judge_sound rule other args out h =
      elim (Option-cases (first_denied r (or_empty rule.arg_guards) args)) [
        | inl e ↦ (cc, cc, e)
        | inr (m, e) ↦ cc
      ]

  judge_object_sound :
      (rule other : AngelTool) (fs : Fields) (defaults : Dict String) (out : Dict Json)
      → judge_object r rule fs defaults ≡ allowed other out
      → (depth (obj fs) ≤ max_arg_depth)
        × (judge r rule (materialize (entries fs) defaults) ≡ allowed other out)
  judge_object_sound rule other fs defaults out h =
      elim (Bool-cases (exceeds_depth (obj fs) (suc max_arg_depth))) [
        | inl e ↦ cc
        | inr e ↦ ((exceeds_depth-le (obj fs) max_arg_depth).0 e, rw e at h)
      ]

  judge_parsed_sound :
      (rule other : AngelTool) (o : Option Json) (defaults : Dict String) (out : Dict Json)
      → judge_parsed r rule o defaults ≡ allowed other out
      → (fs : Fields) × (o ≡ some (obj fs)) × (judge_object r rule fs defaults ≡ allowed other out)
  judge_parsed_sound rule other none defaults out h = cc
  judge_parsed_sound rule other (some (obj fs)) defaults out h = (fs, refl, h)
  judge_parsed_sound rule other (some _) defaults out h = cc

  IsPermitted-sound :
      (rules : Dict AngelTool) (tool body : String) (defaults : Option (Dict String))
      (rule : AngelTool) (args : Dict Json)
      → evaluate_tool_call r rules tool body defaults ≡ allowed rule args
      → IsPermitted r rules tool body defaults rule args
  unfolding evaluate_tool_call
  IsPermitted-sound rules tool body defaults rule args h =
      elim (Option-cases (lookup (r.to_upper tool) rules)) [
        | inl e ↦ cc (rw (e, evaluate_tool_call) at h)
        | inr (own, e) ↦ permit own e (rw (e, evaluate_tool_call) at h)
      ]
    where
      permit :
          (own : AngelTool)
          → lookup (r.to_upper tool) rules ≡ some own
          → judge_parsed r own (parse_body r body) (or_empty defaults) ≡ allowed rule args
          → IsPermitted r rules tool body defaults rule args
      permit own e k =
          let (fs, parsed, k1) =
            judge_parsed_sound own rule (parse_body r body) (or_empty defaults) args k in
          let (shallow, k2) = judge_object_sound own rule fs (or_empty defaults) args k1 in
          let (same, full, free) =
            judge_sound own rule (materialize (entries fs) (or_empty defaults)) args k2 in
          record {
            listed = e ∙ ap some same;
            sent = fs;
            parsed = parsed;
            shallow = shallow;
            complete = sym full;
            guarded = (first_denied_iff r (or_empty rule.arg_guards) args).0 (cc);
          }

  judge_complete :
      (rule : AngelTool) (args : Dict Json)
      → first_denied r (or_empty rule.arg_guards) args ≡ none
      → judge r rule args ≡ allowed rule args
  judge_complete rule args h = ground arith

  IsPermitted-complete :
      (rules : Dict AngelTool) (tool body : String) (defaults : Option (Dict String))
      (rule : AngelTool) (args : Dict Json)
      → IsPermitted r rules tool body defaults rule args
      → evaluate_tool_call r rules tool body defaults ≡ allowed rule args
  unfolding evaluate_tool_call
  IsPermitted-complete rules tool body defaults rule args p =
      rw
        (
          p.listed,
          evaluate_tool_call,
          p.parsed,
          (exceeds_depth-le (obj p.sent) max_arg_depth).1 p.shallow,
          ← p.complete,
        )
        (judge_complete rule args
          ((first_denied_iff r (or_empty rule.arg_guards) args).1 p.guarded))

  -- A call is allowed with certain arguments exactly when its folded name has a rule, its body
  -- parses to an object at most 64 deep, the arguments are those of the body with the defaults
  -- filled in, and every guard of the rule admits them.
  pub evaluate_tool_call_iff :
      (rules : Dict AngelTool) (tool body : String) (defaults : Option (Dict String))
      (rule : AngelTool) (args : Dict Json)
      → (evaluate_tool_call r rules tool body defaults ≡ allowed rule args)
        ↔ IsPermitted r rules tool body defaults rule args
  evaluate_tool_call_iff rules tool body defaults rule args = (
    IsPermitted-sound rules tool body defaults rule args,
    IsPermitted-complete rules tool body defaults rule args,
  )
