-- ===== src/Management/Promote.antt =====
-- deployPreview, deployProduction and promoteProduction (src/management.ts).
use angel_cloud.Prelude.{String, false, ◌||◌, none, some, ◌==◌, not}
use angel_cloud.Prelude.Dict.{Dict}
use angel_cloud.Json.{Json}
use angel_cloud.Runtime.{Runtime}
use angel_cloud.Adapters.Scopes.{DerivedAdapter}
use angel_cloud.Adapters.Validate.{is_nonempty}
use angel_cloud.Gate.State.{preview, production}
use angel_cloud.Management.State.{
  Failure, refused, promotion, direct, DeployRequest, PromoteProductionRequest, MutationIdentity,
}
use angel_cloud.Management.World.{Action, Dependencies, reads, require, ◌>>=◌, ◌>>◌}
use angel_cloud.Management.Lookup.{angel, version, deployment}
use angel_cloud.Management.Views.{is_id}
use angel_cloud.Management.Mutate.{mutate}
use angel_cloud.Management.Keys.{read_environment}
use angel_cloud.Management.Deploy.{deploy}

abbrev pub digest_error : Failure
digest_error = refused 409 "expected digest does not match Version"

abbrev unbound_error : Failure
unbound_error =
    refused 400
      "preview has no Connection bindings: bind a Connection to preview, or pass production's bindings explicitly to share its credentials"

module _ (r : Runtime) (registry : Dict DerivedAdapter) {D : Type 0} (d : Dependencies D) where
  unfoldable pub deploy_preview_in : String → DeployRequest → Action D Json
  unfolding version deploy
  deploy_preview_in angel_id input = do
    v ← reads (λ s. version s angel_id input.version_id)
    require (v.digest == input.expected_digest) digest_error
    require (not (is_nonempty v.artifact.binding_requirements) || is_nonempty input.bindings)
        unbound_error
    deploy r registry d angel_id preview v input.bindings none

  unfoldable pub deploy_preview : String → DeployRequest → MutationIdentity → Action D Json
  unfolding angel deploy_preview_in mutate
  deploy_preview angel_id input m = do
    reads (λ s. angel s angel_id)
    mutate r d m false (deploy_preview_in angel_id input) (some angel_id)

  unfoldable pub deploy_production_in : String → DeployRequest → Action D Json
  unfolding version deploy
  deploy_production_in angel_id input = do
    v ← reads (λ s. version s angel_id input.version_id)
    require (v.digest == input.expected_digest) digest_error
    deploy r registry d angel_id production v input.bindings (some direct)

  unfoldable pub deploy_production : String → DeployRequest → MutationIdentity → Action D Json
  unfolding angel deploy_production_in mutate
  deploy_production angel_id input m = do
    reads (λ s. angel s angel_id)
    mutate r d m false (deploy_production_in angel_id input) (some angel_id)

  unfoldable pub promote_in : String → PromoteProductionRequest → Action D Json
  unfolding version deployment deploy read_environment
  promote_in angel_id input = do
    e ← read_environment r d angel_id preview
    require (is_id input.staged_deployment_id e.active_deployment_id)
        (refused 409 "promotion requires the active preview deployment")
    staged ← reads (λ s. deployment s angel_id input.staged_deployment_id)
    require (staged.digest == input.expected_digest)
        (refused 409 "expected digest does not match staged deployment")
    v ← reads (λ s. version s angel_id staged.version_id)
    deploy r registry d angel_id production v input.bindings (some promotion)

  unfoldable pub promote_production :
      String → PromoteProductionRequest → MutationIdentity → Action D Json
  unfolding angel promote_in mutate
  promote_production angel_id input m = do
    a ← reads (λ s. angel s angel_id)
    mutate r d m false (promote_in angel_id input) (some a.id)
