-- ===== src/Management/Tests.antt =====
-- Runs of the control plane's operations.
use angel_cloud.Prelude.{ℕ, ◌≡◌, refl, true, false, none, some, List, [], ◌∷◌, ok, Memᴰ, sym, ap}
use angel_cloud.Prelude.Sort.{sort}
use angel_cloud.Json.{Json, str, bool}
use angel_cloud.Gate.Encode.{record_of}
use angel_cloud.Gate.State.{
  HostedTool, create_policy_gate_state, PolicyGateState, GateAvailability, GateAvailabilityCommand,
  change_tool, preview,
}
use angel_cloud.Gate.Availability.{revised, switch_tool, find_tool, change_availability}
use angel_cloud.Gate.Install.{new_installation}
use angel_cloud.Gate.Effects.{IsTidy}
use angel_cloud.Fixtures.{toy, fresh_gate, demo_installation}
use angel_cloud.Management.State.{ManagementAngel, create_management_state, default_availability}
use angel_cloud.Management.World.{World, pure, modify, gets, call, reads, ask, checkpoint, ◌>>=◌}
use angel_cloud.Management.Commands.{
  ManagementEvent, commanded, reported, ensure_angel, create_key, deploy_preview, run_events,
}
use angel_cloud.Management.Encode.{deployment_view}
use angel_cloud.Management.Deploy.{deploy}
use angel_cloud.Management.Target.{same_target, carried_from}
use angel_cloud.Management.Lookup.{angel, version, deployment}
use angel_cloud.Management.Bindings.{validate_bindings}
use angel_cloud.Management.Delete.{tear_down}
use angel_cloud.Management.Availability.{apply_availability}
use angel_cloud.Management.Phase.{IsOrderly, IsSettled}
use angel_cloud.Management.KeyRule.{IsKeyed}
use angel_cloud.Management.Writes.{Every}
use angel_cloud.Management.History.{run_events-IsOrderly, run_events-IsKeyed}
use angel_cloud.Management.Agree.{Agrees, IsSpelled, change_availability-Agrees}
use angel_cloud.Management.Usable.{IsBound, validate_bindings-IsBound}
use angel_cloud.Management.Converge.{IsWorking}
use angel_cloud.Management.Resume.{IsPending, Carries, deploy-resumed}
use angel_cloud.Management.Gone.{IsGone, tear_down-IsGone}
use angel_cloud.Management.Samples.{
  toy_dependencies, account, connection_1, chat_registry, chat_requirement, version_1, angel_1,
  deployment_1, stopped, stopped_world, toy_message, mutation_1,
}

abbrev empty_world : World ℕ
empty_world = record {
  state = create_management_state account [];
  saved = create_management_state account [];
  outside = 0;
}

-- The Angel `demo` is created, its Connections are reported and a second key is made for it.
abbrev first_events : List ManagementEvent
first_events =
    commanded (ensure_angel "acct_1" "demo" mutation_1)
    ∷ reported (connection_1 ∷ [])
    ∷ commanded
        (create_key "ang_iiii" preview "second" (record mutation_1 { idempotency_key = "two" }))
    ∷ commanded (
        deploy_preview "ang_iiii"
          (record { version_id = "ver_1"; expected_digest = ""; bindings = [] })
          (record mutation_1 { idempotency_key = "three" }))
    ∷ []

run_events-IsOrderly_example :
    Every IsOrderly
      (run_events toy chat_registry toy_message toy_dependencies first_events
        empty_world).saved.angels
unfolding create_management_state
run_events-IsOrderly_example =
    run_events-IsOrderly toy chat_registry toy_message toy_dependencies first_events empty_world tt

run_events-IsKeyed_example :
    Every
      (λ e. IsOrderly e × IsKeyed e)
      (run_events toy chat_registry toy_message toy_dependencies first_events
        empty_world).saved.angels
unfolding create_management_state
run_events-IsKeyed_example =
    run_events-IsKeyed toy chat_registry toy_message toy_dependencies first_events empty_world refl
      tt

-- The gate of the demonstration, with its tool paused for one Connection.
abbrev asked_gate : PolicyGateState
asked_gate = record fresh_gate { installation = some demo_installation }

abbrev pause : GateAvailabilityCommand
pause = change_tool "SEND" false 0

abbrev paused_gate : PolicyGateState × GateAvailability
paused_gate = revised toy asked_gate (switch_tool toy asked_gate.availability "SEND" false)

pause_run : change_availability toy asked_gate pause ≡ ok paused_gate
unfolding change_availability create_policy_gate_state new_installation
pause_run = refl

fresh-IsTidy : IsTidy asked_gate.availability
unfolding create_policy_gate_state
fresh-IsTidy = record { tools = tt; connections = tt; inner = tt }

find_some : {s t : HostedTool} → some s ≡ some t → s ≡ t
find_some e = cc

pause-IsSpelled : IsSpelled toy demo_installation pause
unfolding find_tool new_installation
pause-IsSpelled t e = sym (ap (λ (x : HostedTool). x.name) (find_some e))

change_availability-Agrees_example :
    Agrees toy (apply_availability default_availability pause) paused_gate.1
    × (paused_gate.0.availability ≡ paused_gate.1)
unfolding create_policy_gate_state
change_availability-Agrees_example =
    change_availability-Agrees toy asked_gate demo_installation default_availability pause
      paused_gate refl (record { revision = refl; answers = λ name ref. refl }) fresh-IsTidy
      pause-IsSpelled pause_run

bindings_run :
    validate_bindings chat_registry stopped version_1 (("chat", "conn_1" ∷ []) ∷ [])
    ≡ ok (("chat", "conn_1" ∷ []) ∷ [])
unfolding validate_bindings
bindings_run = refl

validate_bindings-IsBound_example :
    IsBound chat_registry stopped (("chat", "conn_1" ∷ []) ∷ []) (chat_requirement ∷ []) "chat"
validate_bindings-IsBound_example =
    validate_bindings-IsBound chat_registry stopped version_1 (("chat", "conn_1" ∷ []) ∷ [])
      (("chat", "conn_1" ∷ []) ∷ []) "chat" bindings_run (Memᴰ.head refl)

toy-IsWorking : IsWorking toy chat_registry toy_dependencies angel_1 preview version_1 deployment_1
toy-IsWorking = record {
  persists = λ s o. refl;
  shows = λ gate o. (fresh_gate, refl);
  installs = λ gate e o. (_, refl, refl, refl, refl);
}

stopped-IsPending :
    IsPending toy chat_registry toy_dependencies stopped "ang_1" preview version_1
      (("chat", "conn_1" ∷ []) ∷ [])
      none
      angel_1
      deployment_1
unfolding angel version deployment same_target sort
stopped-IsPending = record {
  found = refl;
  no_change = refl;
  id = "dep_1";
  pending = refl;
  recorded = refl;
  published = refl;
  digest = refl;
  same = refl;
}

carried_run :
    Carries toy chat_registry toy_dependencies stopped preview version_1 angel_1 deployment_1
      default_availability
unfolding carried_from
carried_run = refl

deploy-resumed_example :
    ((deploy toy chat_registry toy_dependencies "ang_1" preview version_1
        (("chat", "conn_1" ∷ []) ∷ [])
        none
        stopped_world).0
      ≡ ok (deployment_view toy deployment_1))
    × (b : ManagementAngel) × (angel
          (deploy toy chat_registry toy_dependencies "ang_1" preview version_1
            (("chat", "conn_1" ∷ []) ∷ [])
            none
            stopped_world).1.state
          "ang_1"
        ≡ ok b)
    × (b.preview.active_deployment_id ≡ some "dep_1")
    × IsSettled b.preview
deploy-resumed_example =
    deploy-resumed toy chat_registry toy_dependencies stopped_world "ang_1" preview version_1
      (("chat", "conn_1" ∷ []) ∷ []) none angel_1 deployment_1 (("chat", "conn_1" ∷ []) ∷ [])
      default_availability stopped-IsPending bindings_run carried_run toy-IsWorking

abbrev deleted : Json
deleted = record_of (("id", str "ang_1") ∷ ("slug", str "demo") ∷ ("deleted", bool true) ∷ [])

delete_run : (tear_down toy toy_dependencies "acct_1" angel_1 stopped_world).0 ≡ ok deleted
unfolding tear_down ◌>>=◌ reads pure ask modify checkpoint call gets
delete_run = refl

tear_down-IsGone_example :
    IsGone toy toy_dependencies stopped angel_1
      (tear_down toy toy_dependencies "acct_1" angel_1 stopped_world).1.state
tear_down-IsGone_example =
    tear_down-IsGone toy toy_dependencies "acct_1" angel_1 stopped_world deleted delete_run
