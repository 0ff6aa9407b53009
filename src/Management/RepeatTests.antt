-- ===== src/Management/RepeatTests.antt =====
-- A mutation that is sent again, on an Account with one Angel (src/management.ts).
use angel_cloud.Prelude.{List, ℕ, ◌≡◌, refl, String, true, false, none, some, [], ◌∷◌, ok, sym}
use angel_cloud.Prelude.Dict.{lookup}
use angel_cloud.Json.{str, stringify}
use angel_cloud.Text.{trim, starts_with}
use angel_cloud.Fixtures.{toy}
use angel_cloud.Management.State.{MutationIdentity}
use angel_cloud.Management.World.{pure, modify, lift, gets, call, checkpoint, ◌>>=◌}
use angel_cloud.Management.Paths.{canonical_path, split_path}
use angel_cloud.Management.Mutate.{identify, fingerprint_of, mutate, canonicalize_legacy_replay}
use angel_cloud.Management.Replay.{IsFaithful}
use angel_cloud.Management.Repeat.{mutate-repeated}
use angel_cloud.Management.Once.{Attempt}
use angel_cloud.Management.Samples.{toy_dependencies, stopped_world, recorded_answer, mutation_1}

toy-IsFaithful : IsFaithful toy toy_dependencies
toy-IsFaithful = record { opens = λ text sealed o h p. sym h }

abbrev path_1 : String
path_1 = "/v1/angels/ang_1/keys"

identify_run : identify toy mutation_1 ≡ ok ("once", path_1, fingerprint_of toy mutation_1 path_1)
unfolding identify canonical_path trim starts_with split_path
identify_run = refl

parse_run : toy.parse (stringify toy.quote recorded_answer) ≡ some recorded_answer
unfolding stringify
parse_run = refl

mutate_run :
    (mutate toy toy_dependencies mutation_1 true (pure recorded_answer) none stopped_world).0
    ≡ ok recorded_answer
unfolding mutate ◌>>=◌ lift starts_with split_path gets pure call modify checkpoint
mutate_run = refl

no_entry : lookup "once" stopped_world.state.idempotency ≡ none
unfolding lookup
no_entry = refl

mutate-repeated_example :
    ((mutate toy toy_dependencies mutation_1 false
        (pure (str "y"))
        none
        (mutate toy toy_dependencies mutation_1 true (pure recorded_answer) none stopped_world).1).0
      ≡ ok (canonicalize_legacy_replay recorded_answer))
    × ((mutate toy toy_dependencies mutation_1 false
          (pure (str "y"))
          none
          (mutate toy toy_dependencies mutation_1 true
            (pure recorded_answer)
            none
            stopped_world).1).1.state
        ≡ (mutate toy toy_dependencies mutation_1 true
            (pure recorded_answer)
            none
            stopped_world).1.state)
mutate-repeated_example =
    mutate-repeated toy toy_dependencies toy-IsFaithful mutation_1 true false (pure recorded_answer)
      (pure (str "y")) none none stopped_world recorded_answer "once" path_1
      (fingerprint_of toy mutation_1 path_1) identify_run no_entry parse_run mutate_run

-- The same key is sent again with the same input, and with another body.
abbrev mutation_2 : MutationIdentity
mutation_2 = record mutation_1 { body = str "other" }

abbrev first_attempt : Attempt ℕ
first_attempt = record {
  mutation = mutation_1;
  encrypted = true;
  action = pure recorded_answer;
  owner = none;
}

abbrev later_attempts : List (Attempt ℕ)
later_attempts =
    record first_attempt { action = pure (str "y") }
    ∷ record first_attempt { mutation = mutation_2 }
    ∷ []
