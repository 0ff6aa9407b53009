-- ===== src/Management/Converge.antt =====
-- A pending deployment where the store and the gates answer: deploy of src/management.ts.
use angel_cloud.Prelude.{
  ℕ, String, ◌≡◌, refl, sym, subst, ◌∙◌, true, some, List, ◌==◌, eq_iff, nat_eq, arith, ok,
}
use angel_cloud.Prelude.Dict.{Dict}
use angel_cloud.Runtime.{Runtime}
use angel_cloud.Adapters.Scopes.{DerivedAdapter}
use angel_cloud.Gate.State.{
  GateKind, gateway, broker, HostedEnvironment, preview, production, GateInstallation,
  GateAvailability, PolicyGateState,
}
use angel_cloud.Management.State.{
  ManagementEnvironment, ManagementAngel, environment_of, ManagementDeployment,
  PublishedAngelVersion, ManagementState,
}
use angel_cloud.Management.World.{Action, Dependencies, after, pure, reads, ◌>>=◌}
use angel_cloud.Management.Lookup.{
  angel, angel_by_id, version, write_to, write_environment, stamped,
}
use angel_cloud.Management.Encode.{deployment_view}
use angel_cloud.Management.Keys.{read_environment}
use angel_cloud.Management.Deploy.{install_at, reconcile_gate, converge}
use angel_cloud.Management.Target.{
  is_none, mark, finish_deploying, installation_matches, carried_from, install_command,
}
use angel_cloud.Management.Phase.{IsSettled}
use angel_cloud.Management.Writes.{angel_by_id-write_first, environment_of-write_to}
use angel_cloud.Management.Reaches.{
  Reached, Reaches, pure-Reaches, ask-Reaches, if-Reaches, modify-Reaches, require-Reaches,
  checkpoint-Reaches, >>=-Reaches, reads_exactly, calls_with,
}

account_of-write_to :
    (env : HostedEnvironment) (f : ManagementEnvironment → ManagementEnvironment)
    (a : ManagementAngel)
    → (write_to env f a).account_id ≡ a.account_id
account_of-write_to preview f a = refl
account_of-write_to production f a = refl

module _ (r : Runtime) (registry : Dict DerivedAdapter) {D : Type 0} (d : Dependencies D)
    (a : ManagementAngel) (env : HostedEnvironment) (v : PublishedAngelVersion)
    (dep : ManagementDeployment) where
  -- The store and the Angel's gates answer, and a gate installs what it is asked to.
  pub record IsWorking : Type 0 where
    pub persists : (s : ManagementState) (o : D) → (d.persist s o).0 ≡ ok tt
    pub shows :
        (gate : GateKind) (o : D)
        → (state : PolicyGateState) × ((d.snapshot a.id a.slug gate dep.environment o).0 ≡ ok state)
    pub installs :
        (gate : GateKind) (e : ManagementEnvironment) (o : D)
        → (i : GateInstallation) × ((d.install a.id a.slug gate
              (install_command r gate a dep v e)
              o).0
            ≡ ok i)
          × (i.deployment_id ≡ dep.id)
          × (i.version ≡ dep.version)
          × (i.policy_digest ≡ v.artifact.digest)

  -- The Angel is found, its environment carries what it did, and so do the other records.
  pub record Ready (e : ManagementEnvironment) (ds : List ManagementDeployment)
      (s : ManagementState) : Type 0 where
    pub current : ManagementAngel
    pub found : angel_by_id a.id s.angels ≡ some current
    pub owned : (current.account_id == s.account.id) ≡ true
    pub active : (environment_of env current).active_deployment_id ≡ e.active_deployment_id
    pub availability : (environment_of env current).availability ≡ e.availability
    pub change : is_none (environment_of env current).pending_availability ≡ true
    pub deployments : s.deployments ≡ ds
    pub versions : version s a.id dep.version_id ≡ ok v

  -- What is reached: the Angel is found, the deployment is the active one of its environment and
  -- nothing is pending there.
  abbrev pub Done : ManagementState → Type 0
  Done s =
      (b : ManagementAngel) × (angel s a.id ≡ ok b)
      × ((environment_of env b).active_deployment_id ≡ some dep.id)
      × IsSettled (environment_of env b)

  module _ (working : IsWorking) (same_digest : v.artifact.digest ≡ dep.digest)
      (e : ManagementEnvironment) (ds : List ManagementDeployment) where
    nat_eq_refl : (n : ℕ) → nat_eq n n ≡ true
    nat_eq_refl n = ground arith

    installed_matches :
        (i : GateInstallation)
        → i.deployment_id ≡ dep.id
        → i.version ≡ dep.version
        → i.policy_digest ≡ v.artifact.digest
        → installation_matches (some i) dep ≡ true
    unfolding installation_matches
    installed_matches i p q s = rw (
      (eq_iff i.deployment_id dep.id).1 p,
      (eq_iff i.policy_digest dep.digest).1 (s ∙ same_digest),
      q,
      nat_eq_refl dep.version,
    )

    Ready-angel : (s : ManagementState) (h : Ready e ds s) → angel s a.id ≡ ok h.current
    unfolding angel
    Ready-angel s h = rw (h.found, h.owned)

    Ready-mark :
        (s : ManagementState)
        → Ready e ds s
        → Ready e ds (write_environment a.id env (mark gateway) s)
    unfolding version
    Ready-mark s h = record {
      current = write_to env (mark gateway) h.current;
      found = angel_by_id-write_first a.id env (mark gateway) s.angels ∙ rw h.found;
      owned = rw (account_of-write_to env (mark gateway) h.current) h.owned;
      active = rw (environment_of-write_to env (mark gateway) h.current) h.active;
      availability = rw (environment_of-write_to env (mark gateway) h.current) h.availability;
      change = rw (environment_of-write_to env (mark gateway) h.current) h.change;
      deployments = h.deployments;
      versions = h.versions;
    }

    read_environment-Reaches :
        (other : HostedEnvironment) (Q : ManagementEnvironment → ManagementState → Type 0)
        → ((s : ManagementState) (h : Ready e ds s) → Q (environment_of other h.current) s)
        → Reaches (Ready e ds) (read_environment r d a.id other) Q
    unfolding read_environment reads pure ◌>>=◌
    read_environment-Reaches other Q h = record {
      run = λ w p.
          let rest : ManagementAngel → Action D ManagementEnvironment =
            λ x. pure (environment_of other x) in
          subst (λ y. Reached Q (after y rest w).0 (after y rest w).1) (sym (Ready-angel w.state p))
            (h w.state p);
    }

    any_environment :
        {B : Type 0} {R : B → ManagementState → Type 0} (k : ManagementEnvironment → Action D B)
        (other : HostedEnvironment)
        → ((x : ManagementEnvironment) → Reaches (Ready e ds) (k x) R)
        → Reaches (Ready e ds) (read_environment r d a.id other >>= k) R
    any_environment k other h =
        >>=-Reaches (read_environment-Reaches other (λ _. Ready e ds) (λ s p. p)) h

    Ready-stamped :
        (time : String) (s : ManagementState) → Ready e ds s → Ready e ds (stamped dep.id time s)
    unfolding stamped version
    Ready-stamped time s h = record {
      current = h.current;
      found = h.found;
      owned = h.owned;
      active = h.active;
      availability = h.availability;
      change = h.change;
      deployments = h.deployments;
      versions = h.versions;
    }

    read_then :
        {B : Type 0} {R : B → ManagementState → Type 0} (k : ManagementEnvironment → Action D B)
        → ((x : ManagementEnvironment)
            → x.active_deployment_id ≡ e.active_deployment_id
            → x.availability ≡ e.availability
            → Reaches (Ready e ds) (k x) R)
        → Reaches (Ready e ds) (read_environment r d a.id env >>= k) R
    read_then k h =
        >>=-Reaches
          (read_environment-Reaches env
            (λ x s.
              Ready e ds s
              × (x.active_deployment_id ≡ e.active_deployment_id)
              × (x.availability ≡ e.availability))
            (λ s p. (p, p.active, p.availability)))
          (λ x. record { run = λ w p. (h x p.1 p.2).run w p.0 })

    install_at-Reaches :
        (gate : GateKind)
        → Reaches (Ready e ds) (install_at r registry d gate a dep) (λ _. Ready e ds)
    unfolding install_at
    install_at-Reaches gate =
        reads_exactly _ (λ s. version s a.id dep.version_id) v (λ s h. h.versions)
          (any_environment _ dep.environment (λ x. calls_with _ _ (λ o.
            let (i, done, p, q, s) = working.installs gate x o in
            (i, done, require-Reaches _ _ (installed_matches i p q s)))))

    reconcile_gate-Reaches :
        (gate : GateKind)
        → Reaches (Ready e ds) (reconcile_gate r registry d gate a dep) (λ _. Ready e ds)
    unfolding reconcile_gate
    reconcile_gate-Reaches gate = calls_with _ _ (λ o.
        let (state, shown) = working.shows gate o in
        (state, shown, if-Reaches _ _ _ (pure-Reaches tt (λ s h. h)) (install_at-Reaches gate)))

    pub converge-Reaches :
        (available : GateAvailability)
        → carried_from r ds e.active_deployment_id e.availability v dep ≡ ok available
        → Reaches
            (Ready e ds)
            (converge r registry d a env v dep)
            (λ view s. (view ≡ deployment_view r dep) × Done s)
    unfolding converge stamped angel
    converge-Reaches available carried = >>=-Reaches (reconcile_gate-Reaches broker) (λ _.
        >>=-Reaches (modify-Reaches _ Ready-mark) (λ _.
          >>=-Reaches (checkpoint-Reaches d working.persists) (λ _.
            >>=-Reaches (reconcile_gate-Reaches gateway) (λ _.
              >>=-Reaches (ask-Reaches {Q = λ _. Ready e ds} _ (λ time s h. h)) (λ time.
                >>=-Reaches (modify-Reaches {Q = Ready e ds} _ (Ready-stamped time)) (λ _.
                  read_then _ (λ x active availability.
                    reads_exactly _ _ available
                      (λ s h.
                        (λ i. carried_from r (h.deployments i) (active i) (availability i) v dep)
                        ∙ carried)
                      (>>=-Reaches (modify-Reaches {Q = Done} _ Ready-finish) (λ _.
                        >>=-Reaches (checkpoint-Reaches d working.persists)
                          (λ _. pure-Reaches _ (λ s h. (refl, h))))))))))))
      where
        Ready-finish :
            (s : ManagementState)
            → Ready e ds s
            → Done (write_environment a.id env (finish_deploying dep.id available) s)
        Ready-finish s h =
            let f = finish_deploying dep.id available in
            (
              write_to env f h.current,
              rw (
                angel_by_id-write_first a.id env f s.angels,
                h.found,
                account_of-write_to env f h.current,
                h.owned,
              ),
              rw (environment_of-write_to env f h.current) refl,
              rw (environment_of-write_to env f h.current)
                  (record { repair = refl; deployment = refl; change = h.change }),
            )
