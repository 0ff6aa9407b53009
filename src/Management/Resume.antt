-- ===== src/Management/Resume.antt =====
-- A deployment that stopped half-way and is asked for again: deploy of src/management.ts.
use angel_cloud.Prelude.{
  String, ◌≡◌, refl, sym, ap, subst, ◌∙◌, true, Option, some, List, Result, ok, err,
}
use angel_cloud.Prelude.Dict.{Dict}
use angel_cloud.Json.{Json}
use angel_cloud.Runtime.{Runtime}
use angel_cloud.Adapters.Scopes.{DerivedAdapter}
use angel_cloud.Gate.State.{HostedEnvironment, GateAvailability}
use angel_cloud.Management.State.{
  Failure, ManagementAngel, environment_of, ManagementDeployment, Provenance, PublishedAngelVersion,
  ManagementState,
}
use angel_cloud.Management.World.{Dependencies, World, ◌>>=◌}
use angel_cloud.Management.Lookup.{angel, version, deployment}
use angel_cloud.Management.Encode.{deployment_view}
use angel_cloud.Management.Bindings.{validate_bindings}
use angel_cloud.Management.Deploy.{target_deployment, converge, deploy}
use angel_cloud.Management.Target.{is_none, same_target, carried_from}
use angel_cloud.Management.Phase.{IsSettled}
use angel_cloud.Management.Writes.{angel-own, angel-owned}
use angel_cloud.Management.Reaches.{
  Reached, Reaches, pure-Reaches, require-Reaches, >>=-Reaches, reads_exactly,
}
use angel_cloud.Management.Converge.{IsWorking, Ready, Done, converge-Reaches}

Reached-ok :
    {D A : Type 0} (Q : A → ManagementState → Type 0) (x : Result Failure A) (w : World D)
    → Reached Q x w
    → (a : A) × (x ≡ ok a) × Q a w.state
Reached-ok Q (ok a) w h = (a, refl, h)
Reached-ok Q (err e) w h = absurd h

module _ (r : Runtime) (registry : Dict DerivedAdapter) {D : Type 0} (d : Dependencies D) where
  -- What a request that takes up the pending deployment `dep` finds.
  pub record IsPending (s : ManagementState) (angel_id : String) (env : HostedEnvironment)
      (v : PublishedAngelVersion) (normalized : Dict (List String)) (provenance : Option Provenance)
      (a : ManagementAngel) (dep : ManagementDeployment) : Type 0 where
    pub found : angel s angel_id ≡ ok a
    pub no_change : is_none (environment_of env a).pending_availability ≡ true
    pub id : String
    pub pending : (environment_of env a).pending_deployment_id ≡ some id
    pub recorded : deployment s a.id id ≡ ok dep
    pub published : version s a.id dep.version_id ≡ ok v
    pub digest : v.artifact.digest ≡ dep.digest
    pub same : same_target r env v normalized provenance dep ≡ true

  -- The recorded availability can be carried over to the deployment.
  abbrev pub Carries :
      ManagementState
      → HostedEnvironment
      → PublishedAngelVersion
      → ManagementAngel
      → ManagementDeployment
      → GateAvailability
      → Type 0
  Carries s env v a dep available =
      carried_from r s.deployments (environment_of env a).active_deployment_id
        (environment_of env a).availability v dep
      ≡ ok available

  module _ (s : ManagementState) (angel_id : String) (env : HostedEnvironment)
      (v : PublishedAngelVersion) (bindings : Dict (List String)) (provenance : Option Provenance)
      (a : ManagementAngel) (dep : ManagementDeployment) (normalized : Dict (List String))
      (available : GateAvailability) (h : IsPending s angel_id env v normalized provenance a dep)
      (valid : validate_bindings registry s v bindings ≡ ok normalized)
      (carried : Carries s env v a dep available)
      (working : IsWorking r registry d a env v dep) where
    abbrev Completed : Json → ManagementState → Type 0
    Completed view t = (view ≡ deployment_view r dep) × Done r registry d a env v dep t

    start-Ready : Ready r registry d a env v dep (environment_of env a) s.deployments s
    start-Ready = record {
      current = a;
      found = angel-own s angel_id h.found;
      owned = angel-owned s angel_id h.found;
      active = refl;
      availability = refl;
      change = h.no_change;
      deployments = refl;
      versions = h.published;
    }

    rest-Reaches :
        Reaches
          (λ t. s ≡ t)
          (target_deployment r registry d a env v normalized provenance
              (environment_of env a).pending_deployment_id
            >>= converge r registry d a env v)
          Completed
    rest-Reaches =
        subst
          (λ o.
            Reaches (λ t. s ≡ t)
              (target_deployment r registry d a env v normalized provenance o
                >>= converge r registry d a env v)
              Completed)
          (sym h.pending)
          (>>=-Reaches {Q = λ x t. (dep ≡ x) × (s ≡ t)}
            (reads_exactly _ _ dep
              (λ t q. subst (λ u. deployment u a.id h.id ≡ ok dep) q h.recorded)
              (>>=-Reaches (require-Reaches _ _ h.same) (λ _. pure-Reaches dep (λ t q. (refl, q)))))
            (λ x. record {
              run = λ w q.
                  let done =
                    converge-Reaches r registry d a env v dep working h.digest
                      (environment_of env a) s.deployments available carried in
                  subst
                    (λ y.
                      Reached Completed (converge r registry d a env v y w).0
                        (converge r registry d a env v y w).1)
                    q.0
                    (done.run w (
                      subst (Ready r registry d a env v dep (environment_of env a) s.deployments)
                        q.1 start-Ready));
            }))

    deploy-Reaches :
        Reaches (λ t. s ≡ t) (deploy r registry d angel_id env v bindings provenance) Completed
    unfolding deploy
    deploy-Reaches =
        reads_exactly _ _ a (λ t q. subst (λ u. angel u angel_id ≡ ok a) q h.found)
          (>>=-Reaches (require-Reaches _ _ h.no_change) (λ _.
            reads_exactly _ _ normalized
              (λ t q. subst (λ u. validate_bindings registry u v bindings ≡ ok normalized) q valid)
              rest-Reaches))

  -- A deployment that stopped half-way is completed by a request for the same Version, bindings
  -- and provenance, as long as the bindings are still accepted and the recorded availability can
  -- be carried over to it, once the store and the gates answer: the request succeeds, and after
  -- it the Angel is found, the deployment is the active one of its environment and nothing is
  -- pending there.
  pub deploy-resumed :
      (w : World D) (angel_id : String) (env : HostedEnvironment) (v : PublishedAngelVersion)
      (bindings : Dict (List String)) (provenance : Option Provenance) (a : ManagementAngel)
      (dep : ManagementDeployment) (normalized : Dict (List String)) (available : GateAvailability)
      → IsPending w.state angel_id env v normalized provenance a dep
      → validate_bindings registry w.state v bindings ≡ ok normalized
      → Carries w.state env v a dep available
      → IsWorking r registry d a env v dep
      → ((deploy r registry d angel_id env v bindings provenance w).0 ≡ ok (deployment_view r dep))
        × (b : ManagementAngel) × (angel
              (deploy r registry d angel_id env v bindings provenance w).1.state
              a.id
            ≡ ok b)
        × ((environment_of env b).active_deployment_id ≡ some dep.id)
        × IsSettled (environment_of env b)
  deploy-resumed w angel_id env v bindings provenance a dep normalized available h valid carried
        working =
      let (view, done, completed) =
        Reached-ok
          (Completed w.state angel_id env v bindings provenance a dep normalized available h valid
            carried working)
          (deploy r registry d angel_id env v bindings provenance w).0
          (deploy r registry d angel_id env v bindings provenance w).1
          ((deploy-Reaches w.state angel_id env v bindings provenance a dep normalized available h
              valid carried working).run
            w refl) in
      let (b, found, active, settled) = completed.1 in
      (done ∙ ap ok completed.0, b, found, active, settled)
