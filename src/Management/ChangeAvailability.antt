-- ===== src/Management/ChangeAvailability.antt =====
-- ManagementControl.changeAvailability (src/management.ts): a change is recorded, then made at the
-- Broker and at the Gateway, and then the recorded availability becomes the target.
use Prim.Native.String.{◌++◌}
use angel_cloud.Prelude.{
  String, Bool, false, Option, none, some, ◌==◌, nat_eq, if◌then◌else◌, or_throw,
}
use angel_cloud.Json.{Json, canonical_json}
use angel_cloud.Runtime.{Runtime}
use angel_cloud.Gate.State.{
  GateKind, gateway, broker, HostedEnvironment, GateAvailability, GateAvailabilityCommand,
}
use angel_cloud.Gate.Encode.{gate_text}
use angel_cloud.Gate.Availability.{expected_revision}
use angel_cloud.Management.State.{
  Failure, refused, thrown, ManagementEnvironment, ManagementAngel, ManagementAvailabilityChange,
  PendingAvailability, MutationIdentity,
}
use angel_cloud.Management.World.{
  Action, Dependencies, pure, lift, reads, call, ask, modify, require, checkpoint, ◌>>=◌, ◌>>◌,
}
use angel_cloud.Management.Lookup.{angel, deployment, write_environment, write_first}
use angel_cloud.Management.Encode.{change_json, gate_availability_json}
use angel_cloud.Management.Views.{availability_view}
use angel_cloud.Management.Mutate.{mutate}
use angel_cloud.Management.Keys.{read_environment}
use angel_cloud.Management.Target.{is_none, mark}
use angel_cloud.Management.Availability.{apply_availability, availability_command}

abbrev pub start_changing : PendingAvailability → ManagementEnvironment → ManagementEnvironment
start_changing p e = record e { pending_availability = some p; repair = some broker }

abbrev pub finish_changing : PendingAvailability → ManagementEnvironment → ManagementEnvironment
finish_changing p e = record e {
  availability = p.target;
  pending_availability = none;
  repair = none;
}

abbrev pub changed_at : String → ManagementEnvironment → ManagementEnvironment
changed_at time e = record e { availability_changed_at = some time }

abbrev pub no_deployment : Failure
no_deployment = refused 409 "availability requires an active deployment"

module _ (r : Runtime) where
  abbrev pub same_availability : GateAvailability → GateAvailability → Bool
  same_availability a b =
      canonical_json r.quote (gate_availability_json r a)
      == canonical_json r.quote (gate_availability_json r b)

  abbrev pub same_change : ManagementAvailabilityChange → ManagementAvailabilityChange → Bool
  same_change a b = canonical_json r.quote (change_json a) == canonical_json r.quote (change_json b)

  module _ {D : Type 0} (d : Dependencies D) where
    abbrev change_gate :
        ManagementAngel
        → GateKind
        → HostedEnvironment
        → GateAvailabilityCommand
        → GateAvailability
        → Action D (Unit {0})
    change_gate a gate env command target = do
      changed ← call (d.change a.id a.slug gate env command)
      require (same_availability changed target)
          (thrown (gate_text gate ++ " did not apply the recorded availability target"))

    unfoldable pub reconcile_availability_gate :
        ManagementAngel → GateKind → HostedEnvironment → PendingAvailability → Action D (Unit {0})
    unfolding canonical_json gate_availability_json
    reconcile_availability_gate a gate env p = do
      snapshot ← call (d.snapshot a.id a.slug gate env)
      let current = snapshot.availability
      if same_availability current p.target then pure tt else (do
        require (nat_eq current.revision (expected_revision r p.command))
            (thrown (gate_text gate ++ " availability diverged from the recorded repair target"))
        change_gate a gate env p.command p.target)

    abbrev record_change :
        ManagementAngel → HostedEnvironment → PendingAvailability → Action D PendingAvailability
    record_change a env p = do
      modify (write_environment a.id env (start_changing p))
      checkpoint d
      pure p

    -- The pending change is taken up again, or the new one is recorded.
    abbrev pub target_change :
        ManagementAngel
        → HostedEnvironment
        → PendingAvailability
        → Option PendingAvailability
        → Action D PendingAvailability
    target_change a env new none = record_change a env new
    target_change a env new (some p) = do
      require (same_change p.change new.change)
          (refused 409 "repair the pending availability change first")
      pure p

    unfoldable pub converge_change :
        ManagementAngel → HostedEnvironment → PendingAvailability → Action D Json
    unfolding reconcile_availability_gate write_first availability_view
    converge_change a env p = do
      reconcile_availability_gate a broker env p
      modify (write_environment a.id env (mark gateway))
      checkpoint d
      reconcile_availability_gate a gateway env p
      modify (write_environment a.id env (finish_changing p))
      time ← ask d.now
      modify (write_environment a.id env (changed_at time))
      checkpoint d
      reads (λ s. availability_view r s a.id env p.target)

    unfoldable pub change_in :
        ManagementAngel → HostedEnvironment → ManagementAvailabilityChange → Action D Json
    unfolding read_environment deployment availability_command apply_availability converge_change
        change_json canonical_json write_first
    change_in a env input = do
      e ← read_environment r d a.id env
      active_id ← lift (or_throw no_deployment e.active_deployment_id)
      require (is_none e.pending_deployment_id)
          (refused 409 "repair the pending deployment before changing availability")
      dep ← reads (λ s. deployment s a.id active_id)
      command ← lift (availability_command r input dep e.availability)
      let new : PendingAvailability = record {
        change = input;
        command = command;
        target = apply_availability e.availability command;
      }
      p ← target_change a env new e.pending_availability
      converge_change a env p

    unfoldable pub change_availability :
        String → HostedEnvironment → ManagementAvailabilityChange → MutationIdentity → Action D Json
    unfolding angel change_in mutate
    change_availability angel_id env input m = do
      a ← reads (λ s. angel s angel_id)
      mutate r d m false (change_in a env input) (some angel_id)
