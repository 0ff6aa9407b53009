-- ===== src/Fleet/Tests.antt =====
-- A fleet of new gates, and calls of it.
use angel_cloud.Prelude.{◌≡◌, refl, ok, false, List, [], ◌∷◌}
use angel_cloud.Gate.State.{
  gateway, broker, preview, production, create_policy_gate_state, change_all,
}
use angel_cloud.Gate.Reach.{IsSound, create-IsSound}
use angel_cloud.Fleet.{
  MemoryGateFleet, new_pair, empty_fleet_state, restore_fleet, gate_of, FleetCall, resets, installs,
  changes, reconciles, evaluates, run_fleet, snapshot,
}
use angel_cloud.Fleet.Gates.{ask_all, addressed, run_fleet-addressed}
use angel_cloud.Fleet.Intact.{run_fleet-IsSound}
use angel_cloud.Text.{is_sha256_hex}
use angel_cloud.Fixtures.{toy, toy-Sha256Digests, demo_command, demo_call}

abbrev new_fleet : MemoryGateFleet
new_fleet = record { preview = new_pair; production = new_pair; events = [] }

restore_run : restore_fleet empty_fleet_state ≡ ok new_fleet
unfolding restore_fleet create_policy_gate_state is_sha256_hex
restore_run = refl

abbrev demo_calls : List FleetCall
demo_calls =
    installs broker demo_command
    ∷ installs gateway demo_command
    ∷ changes gateway demo_command.environment (change_all false 0)
    ∷ resets broker production
    ∷ evaluates gateway demo_command.environment demo_call
    ∷ reconciles gateway production []
    ∷ []

run_fleet-addressed_example :
    gate_of gateway preview (run_fleet toy demo_calls new_fleet)
    ≡ ask_all toy gateway (addressed gateway preview demo_calls) (gate_of gateway preview new_fleet)
run_fleet-addressed_example = run_fleet-addressed toy gateway preview demo_calls new_fleet

run_fleet-IsSound_example :
    IsSound toy gateway (snapshot gateway preview (run_fleet toy demo_calls new_fleet))
unfolding snapshot
run_fleet-IsSound_example =
    run_fleet-IsSound toy toy-Sha256Digests demo_calls new_fleet gateway preview
      (create-IsSound toy gateway)
