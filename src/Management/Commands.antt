-- ===== src/Management/Commands.antt =====
-- The commands of the control plane, as AccountRegistry.dispatch of src/workers/account-registry.ts
-- runs them: each on a ManagementControl that is made of the stored state.
use angel_cloud.Prelude.{
  String, ◌==◌, not, Option, List, [], ◌∷◌, any, if◌then◌else◌, Result, ok, err,
}
use angel_cloud.Prelude.Dict.{Dict}
use angel_cloud.Json.{Json}
use angel_cloud.Runtime.{Runtime}
use angel_cloud.Adapters.Scopes.{DerivedAdapter}
use angel_cloud.Adapters.Validate.{AdapterError}
use angel_cloud.Gate.State.{HostedEnvironment}
use angel_cloud.Management.State.{
  Failure, refused, ManagementAvailabilityChange, StoredManagementConnection, ManagementState,
  MutationIdentity, DeployRequest, PromoteProductionRequest, PublishVersionRequest,
}
use angel_cloud.Management.World.{
  Action, Dependencies, World, reads, modify, checkpoint, ◌>>=◌, ◌>>◌,
}
use angel_cloud.Management.Views
use angel_cloud.Management.Keys
use angel_cloud.Management.Ensure
use angel_cloud.Management.PublishVersion
use angel_cloud.Management.Promote
use angel_cloud.Management.ChangeAvailability
use angel_cloud.Management.Delete
use angel_cloud.Management.Load.{load}

pub data ManagementCommand : Type 0 where
  ensure_angel : (account_id slug : String) → MutationIdentity → ManagementCommand
  delete_angel :
      (account_id slug : String) (confirm : Option String) → MutationIdentity → ManagementCommand
  get_angel_by_slug : (account_id slug : String) → ManagementCommand
  get_angel : (angel_id : String) → ManagementCommand
  get_version : (angel_id version_id : String) → ManagementCommand
  list_connections : (account_id : String) → ManagementCommand
  publish_version :
      (angel_id : String) → PublishVersionRequest → MutationIdentity → ManagementCommand
  deploy_preview : (angel_id : String) → DeployRequest → MutationIdentity → ManagementCommand
  deploy_production : (angel_id : String) → DeployRequest → MutationIdentity → ManagementCommand
  get_environment : (angel_id : String) → HostedEnvironment → ManagementCommand
  change_availability :
      (angel_id : String)
      → HostedEnvironment
      → ManagementAvailabilityChange
      → MutationIdentity
      → ManagementCommand
  promote_production :
      (angel_id : String) → PromoteProductionRequest → MutationIdentity → ManagementCommand
  create_key :
      (angel_id : String)
      → HostedEnvironment
      → (name : String) → MutationIdentity
      → ManagementCommand
  rotate_key :
      (angel_id : String)
      → HostedEnvironment
      → (key_id : String) → MutationIdentity
      → ManagementCommand
  revoke_key :
      (angel_id : String)
      → HostedEnvironment
      → (key_id : String) → MutationIdentity
      → ManagementCommand

pub data ManagementEvent : Type 0 where
  commanded : ManagementCommand → ManagementEvent
  reported : List StoredManagementConnection → ManagementEvent

unfoldable pub reconcile_connections :
    List StoredManagementConnection → ManagementState → Result Failure ManagementState
reconcile_connections connections s =
    if any (λ c. not (c.account_id == s.account.id)) connections
    then err (refused 404 "Connection not found")
    else ok (record s { connections = connections })

module _ (r : Runtime) (registry : Dict DerivedAdapter) (message : AdapterError → String)
    {D : Type 0} (d : Dependencies D) where
  -- The last cases of the dispatcher
  abbrev promotion : String → PromoteProductionRequest → MutationIdentity → Action D Json
  promotion id input m = Promote.promote_production r registry d id input m

  abbrev key_creation : String → HostedEnvironment → String → MutationIdentity → Action D Json
  key_creation id env name m = Keys.create_key r d id env name m

  abbrev key_rotation : String → HostedEnvironment → String → MutationIdentity → Action D Json
  key_rotation id env key_id m = Keys.rotate_key r d id env key_id m

  abbrev key_revocation : String → HostedEnvironment → String → MutationIdentity → Action D Json
  key_revocation id env key_id m = Keys.revoke_key r d id env key_id m

  unfoldable pub execute : ManagementCommand → Action D Json
  unfolding Ensure.ensure_angel Delete.delete_angel Views.get_angel_by_slug Views.get_angel
      Views.get_version Views.list_connections PublishVersion.publish_version Promote.deploy_preview
      Promote.deploy_production Views.get_environment ChangeAvailability.change_availability
      Promote.promote_production Keys.create_key Keys.rotate_key Keys.revoke_key
  execute (ensure_angel account_id slug m) = Ensure.ensure_angel r d account_id slug m
  execute (delete_angel account_id slug confirm m) =
      Delete.delete_angel r d account_id slug confirm m
  execute (get_angel_by_slug account_id slug) =
      reads (λ s. Views.get_angel_by_slug r s account_id slug)
  execute (get_angel id) = reads (λ s. Views.get_angel r s id)
  execute (get_version id version_id) = reads (λ s. Views.get_version r s id version_id)
  execute (list_connections account_id) = reads (λ s. Views.list_connections s account_id)
  execute (publish_version id input m) =
      PublishVersion.publish_version r registry message d id input m
  execute (deploy_preview id input m) = Promote.deploy_preview r registry d id input m
  execute (deploy_production id input m) = Promote.deploy_production r registry d id input m
  execute (get_environment id env) = reads (λ s. Views.get_environment r s id env)
  execute (change_availability id env input m) =
      ChangeAvailability.change_availability r d id env input m
  execute (promote_production id input m) = promotion id input m
  execute (create_key id env name m) = key_creation id env name m
  execute (rotate_key id env key_id m) = key_rotation id env key_id m
  execute (revoke_key id env key_id m) = key_revocation id env key_id m

  abbrev pub on_restored :
      {A : Type 0}
      → Action D A
      → World D
      → Result Failure ManagementState
      → Result Failure A × World D
  on_restored action w (err e) = (err e, w)
  on_restored action w (ok s) = action (record w { state = s })

  -- A command on a control plane that is restored from the stored state.
  unfoldable pub dispatch : ManagementCommand → World D → Result Failure Json × World D
  unfolding execute load
  dispatch command w = on_restored (execute command) w (load r w.saved)

  -- The end of reconcileProviderConnections
  abbrev pub replace_connections : List StoredManagementConnection → Action D (Unit {0})
  replace_connections connections =
      reads (reconcile_connections connections) >>= λ s. modify (λ _. s) >> checkpoint d

  unfoldable pub sync :
      List StoredManagementConnection → World D → Result Failure (Unit {0}) × World D
  unfolding reconcile_connections load
  sync connections w = on_restored (replace_connections connections) w (load r w.saved)

  -- A command, or the Connections that the Broker reports.
  abbrev pub event : ManagementEvent → World D → World D
  event (commanded c) w = (dispatch c w).1
  event (reported connections) w = (sync connections w).1

  unfoldable pub run_events : List ManagementEvent → World D → World D
  unfolding dispatch sync
  run_events [] w = w
  run_events (e ∷ es) w = run_events es (event e w)
