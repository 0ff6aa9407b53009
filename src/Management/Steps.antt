-- ===== src/Management/Steps.antt =====
-- The steps of an operation, each followed by the rest (src/management.ts).
use angel_cloud.Prelude.{
  String, ◌≡◌, refl, sym, ap, subst, Option, Bool, true, false, List, Result, ok, err, some,
}
use angel_cloud.Runtime.{Runtime}
use angel_cloud.Gate.State.{HostedEnvironment}
use angel_cloud.Management.State.{
  Failure, ManagementAngel, ManagementState, ManagementEnvironment, environment_of,
}
use angel_cloud.Management.World.{
  Action, Dependencies, pure, gets, lift, reads, call, ask, modify, require, throw, checkpoint,
  ◌>>=◌,
}
use angel_cloud.Management.Lookup.{angel, angel_by_id}
use angel_cloud.Management.Keys.{read_environment}
use angel_cloud.Management.Writes.{At, angel-eq-ok}
use angel_cloud.Management.Runs.{
  Condition, Runs, pure-Runs, gets-Runs, reads-Runs, call-Runs, ask-Runs, modify-Runs,
  checkpoint-Runs, >>=-Runs,
}

module _ {D : Type 0} {I P : Condition} {B : Type 0} {R : B → Condition} where
  module _ {A : Type 0} (f : A → Action D B) where
    pub ask_then : (g : D → A × D) → ((a : A) → Runs I P (f a) R) → Runs I P (ask g >>= f) R
    ask_then g k = >>=-Runs (ask-Runs {I = I} {P = P} {Q = λ _. P} g (λ a s p. p)) k

    pub call_then :
        (g : D → Result Failure A × D) → ((a : A) → Runs I P (f a) R) → Runs I P (call g >>= f) R
    call_then g k = >>=-Runs (call-Runs {I = I} {P = P} {Q = λ _. P} g (λ a s p. p)) k

    pub gets_then :
        (g : ManagementState → A) → ((a : A) → Runs I P (f a) R) → Runs I P (gets g >>= f) R
    gets_then g k = >>=-Runs (gets-Runs {I = I} {P = P} {Q = λ _. P} g (λ s p. p)) k

    pub lift_then :
        (x : Result Failure A) → ((a : A) → x ≡ ok a → Runs I P (f a) R) → Runs I P (lift x >>= f) R
    unfolding lift ◌>>=◌
    lift_then (ok a) k = record { run = λ w i p. (k a refl).run w i p }
    lift_then (err e) k = record { run = λ w i p. i }

    -- A value that is read, with what the state says of it.
    pub reads_then :
        (g : ManagementState → Result Failure A) (Q : A → Condition)
        → ((s : ManagementState) (a : A) → g s ≡ ok a → P s.angels → Q a s.angels)
        → ((a : A) → Runs I (Q a) (f a) R)
        → Runs I P (reads g >>= f) R
    reads_then g Q h k = >>=-Runs (reads-Runs {I = I} {P = P} {Q = Q} g h) k

    pub reads_any :
        (g : ManagementState → Result Failure A)
        → ((a : A) → Runs I P (f a) R)
        → Runs I P (reads g >>= f) R
    reads_any g k = reads_then g (λ _. P) (λ s a e p. p) k

  module _ (f : Unit {0} → Action D B) where
    pub modify_then :
        (g : ManagementState → ManagementState) (Q : Condition)
        → ((s : ManagementState) → P s.angels → Q (g s).angels)
        → Runs I Q (f tt) R
        → Runs I P (modify g >>= f) R
    modify_then g Q h k = >>=-Runs (modify-Runs {I = I} {P = P} {Q = Q} g h) (λ _. k)

    -- A write that leaves the Angels alone.
    pub aside_then :
        (g : ManagementState → ManagementState)
        → ((s : ManagementState) → (g s).angels ≡ s.angels)
        → Runs I P (f tt) R
        → Runs I P (modify g >>= f) R
    aside_then g h k = modify_then g P (λ s p. subst P (sym (h s)) p) k

    pub require_then :
        {b : Bool} (e : Failure) → (b ≡ true → Runs I P (f tt) R) → Runs I P (require b e >>= f) R
    unfolding require pure throw ◌>>=◌
    require_then {b = true} e k = record { run = λ w i p. (k refl).run w i p }
    require_then {b = false} e k = record { run = λ w i p. i }

    pub checkpoint_then :
        (d : Dependencies D)
        → ((s : List ManagementAngel) → P s → I s)
        → Runs I P (f tt) R
        → Runs I P (checkpoint d >>= f) R
    checkpoint_then d h k = >>=-Runs (checkpoint-Runs {I = I} {P = P} d h) (λ _. k)

pub found_same :
    {o : Option ManagementAngel} {a b : ManagementAngel} → o ≡ some b → o ≡ some a → b ≡ a
found_same q p = cc

module _ {D : Type 0} {I P : Condition} (r : Runtime) (d : Dependencies D) (id : String)
    (env : HostedEnvironment) where
  -- The environment that is read is the one that a write under the id goes to.
  pub read_environment-Runs :
      Runs I P (read_environment r d id env) (λ e s. P s × At (λ x. x ≡ e) id env s)
  unfolding read_environment
  read_environment-Runs =
      reads_then _ (λ s. angel s id) (λ a s. P s × (angel_by_id id s ≡ some a))
        (λ s a e p. (p, angel-eq-ok s id e))
        (λ a.
          pure-Runs (environment_of env a)
            (λ s p. (p.0, λ b q. ap (environment_of env) (found_same q p.1))))

  pub environment_then :
      {B : Type 0} {R : B → Condition} (f : ManagementEnvironment → Action D B)
      → ((e : ManagementEnvironment) → Runs I (λ s. P s × At (λ x. x ≡ e) id env s) (f e) R)
      → Runs I P (read_environment r d id env >>= f) R
  environment_then f k = >>=-Runs read_environment-Runs k
