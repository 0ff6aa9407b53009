-- ===== src/Management/Once.antt =====
-- Attempts under one Idempotency-Key (ManagementControl.mutate in src/management.ts).
use angel_cloud.Prelude.{String, ◌≡◌, Bool, Option, some, List, [], ◌∷◌, ok}
use angel_cloud.Prelude.Dict.{lookup}
use angel_cloud.Json.{Json}
use angel_cloud.Runtime.{Runtime}
use angel_cloud.Management.State.{IdempotencyRecord, MutationIdentity}
use angel_cloud.Management.World.{Action, Dependencies, World}
use angel_cloud.Management.Mutate.{identify, mutate}

-- A request to mutate: what it is identified by, and what it is to do.
pub record Attempt (D : Type 0) : Type 0 where
  pub mutation : MutationIdentity
  pub encrypted : Bool
  pub action : Action D Json
  pub owner : Option String

module _ {D : Type 0} where
  -- The state in memory and the stored one are the same.
  abbrev Same : World D → World D → Type 0
  Same v w = (w.state ≡ v.state) × (w.saved ≡ v.saved)

  -- An operation that writes neither.
  record Quiet {A : Type 0} (m : Action D A) : Type 0 where
    run : (w : World D) → Same w (m w).1

module _ (r : Runtime) {D : Type 0} (d : Dependencies D) where
  abbrev pub attempt : Attempt D → World D → World D
  attempt a w = (mutate r d a.mutation a.encrypted a.action a.owner w).1

  abbrev pub run_attempts : List (Attempt D) → World D → World D
  run_attempts [] w = w
  run_attempts (a ∷ later) w = run_attempts later (attempt a w)

  -- The attempt is made under the key.
  abbrev pub IsUnder : String → Attempt D → Type 0
  IsUnder key a =
      (path : String) × (print : String) × (identify r a.mutation ≡ ok (key, path, print))

  -- The key is recorded.
  abbrev IsSpent : String → World D → Type 0
  IsSpent key w = (entry : IdempotencyRecord) × (lookup key w.state.idempotency ≡ some entry)
