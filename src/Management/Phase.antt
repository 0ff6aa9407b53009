-- ===== src/Management/Phase.antt =====
-- The phases of an environment: nothing is pending, or a deployment is, or a change of availability
-- is (src/management.ts).
use angel_cloud.Prelude.{String, ◌≡◌, refl, sym, ap, ◌∙◌, Bool, true, false, ◌⊎◌, inl, inr}
use angel_cloud.Gate.State.{GateKind, GateAvailability}
use angel_cloud.Management.State.{ManagementEnvironment, PendingAvailability}
use angel_cloud.Management.Target.{is_none, start_deploying, mark, finish_deploying}
use angel_cloud.Management.ChangeAvailability.{start_changing, finish_changing}

-- Whether nothing is to be repaired, no deployment is pending and no change is pending.
pub record Phase (settled deployed changed : Bool) (e : ManagementEnvironment) : Type 0 where
  pub repair : is_none e.repair ≡ settled
  pub deployment : is_none e.pending_deployment_id ≡ deployed
  pub change : is_none e.pending_availability ≡ changed

abbrev pub IsSettled : ManagementEnvironment → Type 0
IsSettled e = Phase true true true e

abbrev pub IsDeploying : ManagementEnvironment → Type 0
IsDeploying e = Phase false false true e

abbrev pub IsChanging : ManagementEnvironment → Type 0
IsChanging e = Phase false true false e

-- At most one thing is pending, and a gate is marked for repair exactly while one is.
abbrev pub IsOrderly : ManagementEnvironment → Type 0
IsOrderly e = IsSettled e ⊎ (IsDeploying e ⊎ IsChanging e)

pub start_deploying-IsDeploying :
    (id : String) (e : ManagementEnvironment)
    → is_none e.pending_availability ≡ true
    → IsDeploying (start_deploying id e)
start_deploying-IsDeploying id e h = record { repair = refl; deployment = refl; change = h }

pub mark-Phase :
    (gate : GateKind) (e : ManagementEnvironment) {b c : Bool}
    → Phase false b c e
    → Phase false b c (mark gate e)
mark-Phase gate e h = record { repair = refl; deployment = h.deployment; change = h.change }

pub finish_deploying-IsSettled :
    (id : String) (a : GateAvailability) (e : ManagementEnvironment)
    → IsDeploying e
    → IsSettled (finish_deploying id a e)
finish_deploying-IsSettled id a e h = record { repair = refl; deployment = refl; change = h.change }

pub start_changing-IsChanging :
    (p : PendingAvailability) (e : ManagementEnvironment)
    → is_none e.pending_deployment_id ≡ true
    → IsChanging (start_changing p e)
start_changing-IsChanging p e h = record { repair = refl; deployment = h; change = refl }

pub finish_changing-IsSettled :
    (p : PendingAvailability) (e : ManagementEnvironment)
    → IsChanging e
    → IsSettled (finish_changing p e)
finish_changing-IsSettled p e h = record { repair = refl; deployment = h.deployment; change = refl }

-- A pending deployment or change says which phase it is.
pub IsDeploying-of_pending :
    (e : ManagementEnvironment)
    → IsOrderly e
    → is_none e.pending_deployment_id ≡ false
    → IsDeploying e
IsDeploying-of_pending e (inl h) p = cc h.deployment
IsDeploying-of_pending e (inr (inl h)) p = h
IsDeploying-of_pending e (inr (inr h)) p = cc h.deployment

pub IsChanging-of_pending :
    (e : ManagementEnvironment)
    → IsOrderly e
    → is_none e.pending_availability ≡ false
    → IsChanging e
IsChanging-of_pending e (inl h) p = cc h.change
IsChanging-of_pending e (inr (inl h)) p = cc h.change
IsChanging-of_pending e (inr (inr h)) p = h

-- The phase is read off three tests.
pub Phase-of_tests :
    (e f : ManagementEnvironment) {a b c : Bool}
    → is_none e.repair ≡ is_none f.repair
    → is_none e.pending_deployment_id ≡ is_none f.pending_deployment_id
    → is_none e.pending_availability ≡ is_none f.pending_availability
    → Phase a b c e
    → Phase a b c f
Phase-of_tests e f p q s h = record {
  repair = sym p ∙ h.repair;
  deployment = sym q ∙ h.deployment;
  change = sym s ∙ h.change;
}

pub IsOrderly-of_tests :
    (e f : ManagementEnvironment)
    → is_none e.repair ≡ is_none f.repair
    → is_none e.pending_deployment_id ≡ is_none f.pending_deployment_id
    → is_none e.pending_availability ≡ is_none f.pending_availability
    → IsOrderly e
    → IsOrderly f
IsOrderly-of_tests e f p q s (inl h) = inl (Phase-of_tests e f p q s h)
IsOrderly-of_tests e f p q s (inr (inl h)) = inr (inl (Phase-of_tests e f p q s h))
IsOrderly-of_tests e f p q s (inr (inr h)) = inr (inr (Phase-of_tests e f p q s h))

pub IsOrderly-stable :
    (e f : ManagementEnvironment)
    → e.repair ≡ f.repair
    → e.pending_deployment_id ≡ f.pending_deployment_id
    → e.pending_availability ≡ f.pending_availability
    → IsOrderly e
    → IsOrderly f
IsOrderly-stable e f p q s h = IsOrderly-of_tests e f (ap is_none p) (ap is_none q) (ap is_none s) h
