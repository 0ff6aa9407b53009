-- ===== src/Decision/Call.antt =====
-- compileRules and evaluateToolCall of packages/core/src/decision.ts.
use Prim.Native.String.{◌++◌}
use angel_cloud.Prelude.{
  ℕ, suc, String, Bool, false, not, Option, none, some, List, [], ◌∷◌, if◌then◌else◌, contains,
  Result, ok, err,
}
use angel_cloud.Prelude.Dict.{Dict, lookup, insert}
use angel_cloud.Text.{is_blank}
use angel_cloud.Json.{Json, str, obj, Fields, end, entries}
use angel_cloud.Runtime.{Runtime}
use angel_cloud.Decision.Walk.{exceeds_depth}
use angel_cloud.Decision.Guard.{ArgGuard, first_denied}

pub record AngelTool : Type 0 where
  pub tool : String
  pub arg_guards : Option (List ArgGuard)

pub data Decision : Type 0 where
  allowed : AngelTool → Dict Json → Decision
  denied : String → Decision

-- A collision names the tool that is refused.
pub data RuleError : Type 0 where
  collision : String → RuleError

abbrev pub max_arg_depth : ℕ
max_arg_depth = 64

-- The names that every object inherits: reading one of them is not undefined.
abbrev pub object_prototype : List String
object_prototype =
    "constructor" ∷ "__defineGetter__" ∷ "__defineSetter__" ∷ "hasOwnProperty" ∷ "__lookupGetter__"
    ∷ "__lookupSetter__" ∷ "isPrototypeOf" ∷ "propertyIsEnumerable" ∷ "toString" ∷ "valueOf"
    ∷ "__proto__" ∷ "toLocaleString" ∷ []

module _ (r : Runtime) where
  -- The loop of compileRules.
  unfoldable pub compile_from : Dict AngelTool → List AngelTool → Result RuleError (Dict AngelTool)
  compile_from rules [] = ok rules
  compile_from rules (t ∷ ts) = elim (lookup (r.to_upper t.tool) rules) [
    | some other ↦ err (collision t.tool)
    | none ↦ compile_from (insert (r.to_upper t.tool) t rules) ts
  ]

  unfoldable pub compile_rules : List AngelTool → Result RuleError (Dict AngelTool)
  unfolding compile_from
  compile_rules tools = compile_from [] tools

unfoldable pub is_inherited : String → Bool
is_inherited key = contains key object_prototype

-- args[key] === undefined
unfoldable pub is_undefined : Dict Json → String → Bool
is_undefined args key = elim (lookup key args) [ some v ↦ false | none ↦ not (is_inherited key) ]

-- The loop that fills in the defaults.
unfoldable pub materialize : Dict Json → Dict String → Dict Json
unfolding is_undefined
materialize args [] = args
materialize args ((key, value) ∷ defaults) =
    materialize (if is_undefined args key then insert key (str value) args else args) defaults

abbrev pub or_empty {ℓ} : {A : Type ℓ} → Option (List A) → List A
or_empty none = []
or_empty (some xs) = xs

module _ (r : Runtime) where
  abbrev pub judge : AngelTool → Dict Json → Decision
  judge rule args = elim (first_denied r (or_empty rule.arg_guards) args) [
    | some message ↦ denied message
    | none ↦ allowed rule args
  ]

  abbrev pub judge_object : AngelTool → Fields → Dict String → Decision
  judge_object rule fs defaults =
      if exceeds_depth (obj fs) (suc max_arg_depth)
      then denied "arguments exceed max depth 64"
      else judge rule (materialize (entries fs) defaults)

  abbrev pub judge_parsed : AngelTool → Option Json → Dict String → Decision
  judge_parsed rule none defaults = denied "body is not valid JSON"
  judge_parsed rule (some (obj fs)) defaults = judge_object rule fs defaults
  judge_parsed rule (some _) defaults = denied "body must be a JSON object of arguments"

  -- The body as parsed: an empty one is the empty object.
  unfoldable pub parse_body : String → Option Json
  parse_body body = if is_blank body then some (obj end) else r.parse body

  unfoldable pub evaluate_tool_call :
      Dict AngelTool → String → String → Option (Dict String) → Decision
  unfolding parse_body first_denied materialize exceeds_depth
  evaluate_tool_call rules tool body defaults = elim (lookup (r.to_upper tool) rules) [
    | none ↦ denied ("not allowlisted: " ++ tool)
    | some rule ↦ judge_parsed rule (parse_body body) (or_empty defaults)
  ]
