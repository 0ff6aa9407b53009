-- ===== src/Decision/Tests.antt =====
-- The decision on small calls.
use angel_cloud.Prelude.{◌≡◌, ◌↔◌, ◌<◌, refl, true, none, some, [], ◌∷◌, Memᴰ, map, ok}
use angel_cloud.Prelude.Dict.{Dict, lookup, insert}
use angel_cloud.Text.{is_blank}
use angel_cloud.Json.{Json, str, obj, arr, cons, nil, end, field, fields}
use angel_cloud.Decision.Walk.{walk, string_leaves, exceeds_depth}
use angel_cloud.Decision.Guard.{pin, forbid, same_field, evaluate_guard}
use angel_cloud.Decision.Occurs.{Occurs, Leaf, walk_iff, leaves_iff}
use angel_cloud.Decision.Depth.{depth, exceeds_depth_iff}
use angel_cloud.Decision.Meaning.{Admits, evaluate_guard_iff}
use angel_cloud.Decision.Call.{
  AngelTool, allowed, is_inherited, materialize, compile_rules, evaluate_tool_call,
}
use angel_cloud.Decision.Rules.{folded, Distinct, compile_rules_iff}
use angel_cloud.Decision.Verdict.{filled, lookup-materialize, IsPermitted, evaluate_tool_call_iff}
use angel_cloud.Fixtures.{toy}

-- A blind copy inside a list of recipients.
abbrev nested : Json
nested = obj (field "to" (arr (cons (obj (field "bcc" (str "x") end)) nil)) end)

abbrev sent : Dict Json
sent = ("to", arr (cons (obj (field "bcc" (str "x") end)) nil)) ∷ []

walk_iff_example :
    Memᴰ (str "x") (walk (same_field toy "bcc") nested)
    ↔ Occurs (same_field toy "bcc") (str "x") nested
walk_iff_example = walk_iff (same_field toy "bcc") (str "x") nested

leaves_iff_example : Memᴰ "x" (string_leaves nested) ↔ Leaf "x" nested
leaves_iff_example = leaves_iff "x" nested

exceeds_depth_iff_example : (exceeds_depth nested 3 ≡ true) ↔ (2 < depth nested)
exceeds_depth_iff_example = exceeds_depth_iff nested 2

evaluate_guard_iff_example :
    (evaluate_guard toy (forbid "bcc") sent ≡ none) ↔ Admits toy (forbid "bcc") (obj (fields sent))
evaluate_guard_iff_example = evaluate_guard_iff toy (forbid "bcc") sent

nested_denied : evaluate_guard toy (forbid "bcc") sent ≡ some "argGuard: bcc is forbidden"
unfolding evaluate_guard
nested_denied = refl

lookup-materialize_example :
    lookup "channel" (materialize sent (("channel", "ops") ∷ ("toString", "x") ∷ []))
    ≡ filled
        (lookup "channel" sent)
        (is_inherited "channel")
        (lookup "channel" (("channel", "ops") ∷ ("toString", "x") ∷ []))
lookup-materialize_example =
    lookup-materialize "channel" sent (("channel", "ops") ∷ ("toString", "x") ∷ [])

-- A default for a name that every object has is not filled in.
inherited_test : lookup "toString" (materialize [] (("toString", "x") ∷ [])) ≡ none
unfolding lookup materialize is_inherited
inherited_test = refl

abbrev send_rule : AngelTool
send_rule = record { tool = "SEND"; arg_guards = some (pin "channel" "ops" ∷ []) }

abbrev read_rule : AngelTool
read_rule = record { tool = "READ"; arg_guards = none }

abbrev two_rules : Dict AngelTool
two_rules = ("SEND", send_rule) ∷ ("READ", read_rule) ∷ []

compile_rules_iff_example :
    ((out : Dict AngelTool) × (compile_rules toy (send_rule ∷ send_rule ∷ []) ≡ ok out))
    ↔ Distinct (map (folded toy) (send_rule ∷ send_rule ∷ []))
compile_rules_iff_example = compile_rules_iff toy (send_rule ∷ send_rule ∷ [])

abbrev ops_args : Dict Json
ops_args = ("channel", str "ops") ∷ []

call_test :
    evaluate_tool_call toy two_rules "SEND" "" (some (("channel", "ops") ∷ []))
    ≡ allowed send_rule ops_args
unfolding evaluate_tool_call lookup is_blank is_inherited insert
call_test = refl

evaluate_tool_call_iff_example :
    (evaluate_tool_call toy two_rules "SEND" "" (some (("channel", "ops") ∷ []))
      ≡ allowed send_rule ops_args)
    ↔ IsPermitted toy two_rules "SEND" "" (some (("channel", "ops") ∷ [])) send_rule ops_args
evaluate_tool_call_iff_example =
    evaluate_tool_call_iff toy two_rules "SEND" "" (some (("channel", "ops") ∷ [])) send_rule
      ops_args
