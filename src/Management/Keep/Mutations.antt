-- ===== src/Management/Keep/Mutations.antt =====
-- A mutation keeps what its action keeps (ManagementControl.mutate in src/management.ts).
use angel_cloud.Prelude.{String, refl, Bool, true, false, Option, none, some}
use angel_cloud.Json.{Json}
use angel_cloud.Runtime.{Runtime}
use angel_cloud.Decision.Call.{is_inherited}
use angel_cloud.Management.State.{
  IdempotencyRecord, StoredResponse, ciphertext, response_json, MutationIdentity,
}
use angel_cloud.Management.World.{Action, Dependencies}
use angel_cloud.Management.Mutate.{
  identify, replay, opened, recorded, perform, answer, mutate, reused_error,
}
use angel_cloud.Management.Runs.{
  Condition, Runs, pure-Runs, throw-Runs, call-Runs, if-Runs, >>=-Runs,
}
use angel_cloud.Management.Steps.{
  call_then, gets_then, lift_then, aside_then, require_then, checkpoint_then,
}

module _ (r : Runtime) {D : Type 0} (d : Dependencies D) {I : Condition} where
  opened-Runs : (x : StoredResponse) → Runs I I (opened r d x) (λ _. I)
  opened-Runs (ciphertext text) = call-Runs (d.unseal text) (λ a s p. p)
  opened-Runs (response_json text) = pure-Runs text (λ s p. p)

  replay-Runs :
      (prior : IdempotencyRecord) (print : String) → Runs I I (replay r d prior print) (λ _. I)
  unfolding replay
  replay-Runs prior print = require_then _ reused_error (λ _.
      >>=-Runs (opened-Runs prior.response) (λ text. lift_then _ _ (λ v e. pure-Runs _ (λ s p. p))))

  recorded-Runs :
      (encrypted : Bool) (text : String) → Runs I I (recorded r d encrypted text) (λ _. I)
  recorded-Runs true text = call_then _ (d.seal text) (λ c. pure-Runs _ (λ s p. p))
  recorded-Runs false text = pure-Runs _ (λ s p. p)

  perform-Runs :
      (key path print : String) (encrypted : Bool) (action : Action D Json) (owner : Option String)
      → Runs I I action (λ _. I)
      → Runs I I (perform r d key path print encrypted action owner) (λ _. I)
  unfolding perform
  perform-Runs key path print encrypted action owner h = >>=-Runs h (λ response.
      >>=-Runs (recorded-Runs encrypted _) (λ stored.
        aside_then _ _ (λ s. refl)
          (checkpoint_then _ d (λ s p. p) (pure-Runs response (λ s p. p)))))

  answer-Runs :
      (key path print : String) (encrypted : Bool) (action : Action D Json) (owner : Option String)
      (prior : Option IdempotencyRecord)
      → Runs I I action (λ _. I)
      → Runs I I (answer r d key path print encrypted action owner prior) (λ _. I)
  answer-Runs key path print encrypted action owner (some prior) h = replay-Runs prior print
  answer-Runs key path print encrypted action owner none h =
      if-Runs (is_inherited key) _ _ (throw-Runs reused_error)
        (perform-Runs key path print encrypted action owner h)

  pub mutate-Runs :
      (m : MutationIdentity) (encrypted : Bool) (action : Action D Json) (owner : Option String)
      → Runs I I action (λ _. I)
      → Runs I I (mutate r d m encrypted action owner) (λ _. I)
  unfolding mutate
  mutate-Runs m encrypted action owner h =
      lift_then _ (identify r m)
        (λ t e. gets_then _ _ (λ prior. answer-Runs t.0 t.1 t.2 encrypted action owner prior h))
