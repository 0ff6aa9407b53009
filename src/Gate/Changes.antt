-- ===== src/Gate/Changes.antt =====
-- What a successful install, availability change or key reconciliation has checked and changed.
use angel_cloud.Prelude.{
  String, ◌≡◌, refl, sym, ap, ◌∙◌, true, List, Option, none, some, ok, >>=-eq-ok, >>-eq-ok,
  nat_eq-eq, ok-injective, subst,
}
use angel_cloud.Prelude.Dict.{lookup}
use angel_cloud.Runtime.{Runtime}
use angel_cloud.Gate.State.{
  GateKind, gateway, broker, PolicyGateState, GateInstallCommand, GateInstallation,
  GateAvailability, GateAvailabilityCommand,
}
use angel_cloud.Gate.Availability.{
  change_availability, change_installed, revised, apply_change, require_installation,
  installation_of, expected_revision,
}
use angel_cloud.Gate.Keys.{reconcile_gateway_keys, reconcile_at, with_keys, reconciled}
use angel_cloud.Gate.Migrate.{migrate_installed_availability}
use angel_cloud.Gate.Install.{
  install, install_new, installed_state, check_command, new_installation, fingerprint,
  same_fingerprint, previous_bindings,
}

module _ (r : Runtime) where
  pub record IsInstalled (s : PolicyGateState) (c : GateInstallCommand) (t : PolicyGateState)
      (i : GateInstallation) : Type 0 where
    pub keys : List String
    pub checked : check_command r s c ≡ ok keys
    pub new : i ≡ new_installation r s c
    pub fresh :
        same_fingerprint (lookup i.deployment_id s.deployment_fingerprints) (fingerprint r i) ≡ true
    pub carried : GateAvailability
    pub migrated :
        migrate_installed_availability r s.availability i.artifact.tools
          (previous_bindings s)
          i.bindings
        ≡ ok carried
    pub after : t ≡ installed_state r s c keys carried i

  install_new-IsInstalled :
      (s t : PolicyGateState) (c : GateInstallCommand) (keys : List String) (i j : GateInstallation)
      → check_command r s c ≡ ok keys
      → i ≡ new_installation r s c
      → install_new r s c keys i ≡ ok (t, j)
      → IsInstalled s c t j
  unfolding install_new
  install_new-IsInstalled s t c keys i j checked new h =
      let (fresh, h1) = >>-eq-ok _ _ _ h in
      let (a, migrated, h2) =
        >>=-eq-ok
          (migrate_installed_availability r s.availability i.artifact.tools (previous_bindings s)
            i.bindings)
          (λ a. ok (installed_state r s c keys a i, i)) h1 in
      let both : ◌≡◌ {A = PolicyGateState × GateInstallation} (installed_state r s c keys a i, i)
          (t, j) =
        ok-injective h2 in
      let same : i ≡ j = ap (λ (p : PolicyGateState × GateInstallation). p.1) both in
      subst (IsInstalled s c t) same (record {
        keys = keys;
        checked = checked;
        new = new;
        fresh = fresh;
        carried = a;
        migrated = migrated;
        after = sym (ap (λ (p : PolicyGateState × GateInstallation). p.0) both);
      })

  pub install-IsInstalled :
      (s t : PolicyGateState) (c : GateInstallCommand) (i : GateInstallation)
      → install r s c ≡ ok (t, i)
      → IsInstalled s c t i
  unfolding install
  install-IsInstalled s t c i h =
      let (keys, checked, h1) =
        >>=-eq-ok (check_command r s c) (λ keys. install_new r s c keys (new_installation r s c))
          h in
      install_new-IsInstalled s t c keys (new_installation r s c) i checked refl h1

  pub record IsChanged (s : PolicyGateState) (c : GateAvailabilityCommand) (t : PolicyGateState)
      (a : GateAvailability) : Type 0 where
    pub installed : GateInstallation
    pub active : s.installation ≡ some installed
    pub current : expected_revision r c ≡ s.availability.revision
    pub applied : GateAvailability
    pub change : apply_change r installed s.availability c ≡ ok applied
    pub after : (t, a) ≡ revised r s applied

  installation_of-ok :
      (o : Option GateInstallation) (i : GateInstallation) → installation_of r o ≡ ok i → o ≡ some i
  installation_of-ok none i h = cc
  installation_of-ok (some j) i h = ap some (ok-injective h)

  pub change_availability-IsChanged :
      (s t : PolicyGateState) (c : GateAvailabilityCommand) (a : GateAvailability)
      → change_availability r s c ≡ ok (t, a)
      → IsChanged s c t a
  unfolding change_availability change_installed
  change_availability-IsChanged s t c a h =
      let (i, got, h1) = >>=-eq-ok (require_installation r s) (change_installed r s c) h in
      let (current, h2) = >>-eq-ok _ _ _ h1 in
      let (b, change, h3) =
        >>=-eq-ok (apply_change r i s.availability c) (λ b. ok (revised r s b)) h2 in
      record {
        installed = i;
        active = installation_of-ok s.installation i got;
        current = nat_eq-eq (expected_revision r c) s.availability.revision current;
        applied = b;
        change = change;
        after = sym (ok-injective h3);
      }

pub record IsReconciled (s : PolicyGateState) (hashes : List String) (t : PolicyGateState)
    (keys : List String) : Type 0 where
  pub at_gateway : s.gate ≡ gateway
  pub normal : reconciled hashes ≡ ok keys
  pub after : t ≡ with_keys s keys

reconcile_at-IsReconciled :
    (s t : PolicyGateState) (hashes keys : List String) (k : GateKind)
    → s.gate ≡ k
    → reconcile_at s hashes k ≡ ok (t, keys)
    → IsReconciled s hashes t keys
reconcile_at-IsReconciled s t hashes keys broker e h = cc
reconcile_at-IsReconciled s t hashes keys gateway e h =
    let (ks, normal, h1) = >>=-eq-ok (reconciled hashes) (λ ks. ok (with_keys s ks, ks)) h in
    let both : ◌≡◌ {A = PolicyGateState × List String} (with_keys s ks, ks) (t, keys) =
      ok-injective h1 in
    let same : ks ≡ keys = ap (λ (p : PolicyGateState × List String). p.1) both in
    record {
      at_gateway = e;
      normal = normal ∙ ap ok same;
      after = sym (ap (λ (p : PolicyGateState × List String). p.0) both) ∙ ap (with_keys s) same;
    }

pub reconcile-IsReconciled :
    (s t : PolicyGateState) (hashes keys : List String)
    → reconcile_gateway_keys s hashes ≡ ok (t, keys)
    → IsReconciled s hashes t keys
unfolding reconcile_gateway_keys
reconcile-IsReconciled s t hashes keys h = reconcile_at-IsReconciled s t hashes keys s.gate refl h
