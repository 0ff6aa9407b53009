-- ===== src/Management/World.antt =====
-- An operation of ManagementControl (src/management.ts): it may throw, and what it has written to
-- the state in memory stays written.
use angel_cloud.Prelude.{String, Bool, true, false, List, Result, ok, err}
use angel_cloud.Gate.State.{
  GateKind, HostedEnvironment, PolicyGateState, GateInstallCommand, GateInstallation,
  GateAvailability, GateAvailabilityCommand,
}
use angel_cloud.Management.State.{Failure, ManagementState}

-- ManagementDependencies: what the constructor is given, over a state `D` of its own. `seal` and
-- `unseal` are the replay vault, the last five the gate fleet of an Angel, by its id and its slug.
pub record Dependencies (D : Type 0) : Type 0 where
  pub persist : ManagementState → D → Result Failure (Unit {0}) × D
  pub random_id : String → D → String × D
  pub now : D → String × D
  pub seal : String → D → Result Failure String × D
  pub unseal : String → D → Result Failure String × D
  pub snapshot :
      (angel_id slug : String)
      → GateKind
      → HostedEnvironment
      → D
      → Result Failure PolicyGateState × D
  pub install :
      (angel_id slug : String)
      → GateKind
      → GateInstallCommand
      → D
      → Result Failure GateInstallation × D
  pub change :
      (angel_id slug : String)
      → GateKind
      → HostedEnvironment
      → GateAvailabilityCommand
      → D
      → Result Failure GateAvailability × D
  pub reconcile_keys :
      (angel_id slug : String)
      → GateKind
      → HostedEnvironment
      → List String
      → D
      → Result Failure (List String) × D
  pub reset :
      (angel_id slug : String) → GateKind → HostedEnvironment → D → Result Failure (Unit {0}) × D

-- The state in memory, and the one that was stored last.
pub record World (D : Type 0) : Type 0 where
  pub state : ManagementState
  pub saved : ManagementState
  pub outside : D

abbrev pub Action : Type 0 → Type 0 → Type 0
Action D A = World D → Result Failure A × World D

module _ {D : Type 0} where
  module _ {A : Type 0} where
    unfoldable pub pure : A → Action D A
    pure a w = (ok a, w)

    unfoldable pub throw : Failure → Action D A
    throw e w = (err e, w)

    unfoldable pub gets : (ManagementState → A) → Action D A
    gets f w = (ok (f w.state), w)

    -- A computation that reads nothing.
    unfoldable pub lift : Result Failure A → Action D A
    lift r w = (r, w)

    -- One that reads the state.
    unfoldable pub reads : (ManagementState → Result Failure A) → Action D A
    reads f w = (f w.state, w)

    -- A call of a dependency, and one that cannot fail.
    unfoldable pub call : (D → Result Failure A × D) → Action D A
    call f w = ((f w.outside).0, record w { outside = (f w.outside).1 })

    unfoldable pub ask : (D → A × D) → Action D A
    ask f w = (ok (f w.outside).0, record w { outside = (f w.outside).1 })

  unfoldable pub modify : (ManagementState → ManagementState) → Action D (Unit {0})
  modify f w = (ok tt, record w { state = f w.state })

  abbrev pub after : {A B : Type 0} → Result Failure A → (A → Action D B) → Action D B
  after (ok a) f w = f a w
  after (err e) f w = (err e, w)

  infixl 5 ◌>>=◌ ◌>>◌
  unfoldable pub ◌>>=◌ : {A B : Type 0} → Action D A → (A → Action D B) → Action D B
  ◌>>=◌ m f w = after (m w).0 f (m w).1

  abbrev pub ◌>>◌ : {A B : Type 0} → Action D A → Action D B → Action D B
  m >> k = m >>= λ _. k

  -- if (!test) throw e
  unfoldable pub require : Bool → Failure → Action D (Unit {0})
  unfolding pure throw
  require true e = pure tt
  require false e = throw e

  abbrev pub stored_if : Result Failure (Unit {0}) → D → Action D (Unit {0})
  stored_if (ok u) o w = (ok tt, record w { saved = w.state; outside = o })
  stored_if (err e) o w = (err e, record w { outside = o })

  module _ (d : Dependencies D) where
    -- checkpoint.persist(this.exportState())
    unfoldable pub checkpoint : Action D (Unit {0})
    checkpoint w = stored_if (d.persist w.state w.outside).0 (d.persist w.state w.outside).1 w
