-- ===== src/Management/Runs.antt =====
-- What holds of the Angels while an operation runs (src/management.ts).
use angel_cloud.Prelude.{◌≡◌, refl, Bool, true, false, List, if◌then◌else◌, Result, ok, err}
use angel_cloud.Management.State.{Failure, ManagementAngel, ManagementState}
use angel_cloud.Management.World.{
  Action, Dependencies, World, pure, throw, gets, reads, call, ask, modify, require, after,
  stored_if, checkpoint, ◌>>=◌,
}

-- A property of the Angels.
abbrev pub Condition : Type 1
Condition = List ManagementAngel → Type 0

module _ {D A : Type 0} where
  abbrev pub Ends : Condition → (A → Condition) → Result Failure A → World D → Type 0
  Ends I Q (ok a) w = I w.saved.angels × Q a w.state.angels
  Ends I Q (err e) w = I w.saved.angels

  -- From a state with `P`, the operation ends in a state with `Q`, or throws; either way what is
  -- stored has `I`, if it had it before.
  pub record Runs (I P : Condition) (m : Action D A) (Q : A → Condition) : Type 0 where
    pub run : (w : World D) → I w.saved.angels → P w.state.angels → Ends I Q (m w).0 (m w).1

  Ends-lift :
      (I : Condition) (Q : A → Condition) (x : Result Failure A) (w : World D)
      → I w.saved.angels
      → ((a : A) → x ≡ ok a → Q a w.state.angels)
      → Ends I Q x w
  Ends-lift I Q (ok a) w i h = (i, h a refl)
  Ends-lift I Q (err e) w i h = i

  module _ {I P : Condition} {Q : A → Condition} where
    pub pure-Runs : (a : A) → ((s : List ManagementAngel) → P s → Q a s) → Runs I P (pure a) Q
    unfolding pure
    pure-Runs a h = record { run = λ w i p. (i, h w.state.angels p) }

    pub gets-Runs :
        (f : ManagementState → A)
        → ((s : ManagementState) → P s.angels → Q (f s) s.angels)
        → Runs I P (gets f) Q
    unfolding gets
    gets-Runs f h = record { run = λ w i p. (i, h w.state p) }

    pub throw-Runs : (e : Failure) → Runs I P (throw e) Q
    unfolding throw
    throw-Runs e = record { run = λ w i p. i }

    pub reads-Runs :
        (f : ManagementState → Result Failure A)
        → ((s : ManagementState) (a : A) → f s ≡ ok a → P s.angels → Q a s.angels)
        → Runs I P (reads f) Q
    unfolding reads
    reads-Runs f h = record {
      run = λ w i p. Ends-lift I Q (f w.state) w i (λ a e. h w.state a e p);
    }

    pub call-Runs :
        (f : D → Result Failure A × D)
        → ((a : A) (s : List ManagementAngel) → P s → Q a s)
        → Runs I P (call f) Q
    unfolding call
    call-Runs f h = record {
      run = λ w i p.
          Ends-lift I Q (f w.outside).0 (record w { outside = (f w.outside).1 }) i
            (λ a e. h a w.state.angels p);
    }

    pub ask-Runs :
        (f : D → A × D) → ((a : A) (s : List ManagementAngel) → P s → Q a s) → Runs I P (ask f) Q
    unfolding ask
    ask-Runs f h = record { run = λ w i p. (i, h (f w.outside).0 w.state.angels p) }

    pub if-Runs :
        (b : Bool) (m n : Action D A)
        → Runs I P m Q
        → Runs I P n Q
        → Runs I P (if b then m else n) Q
    if-Runs true m n h k = h
    if-Runs false m n h k = k

  weaker :
      (I : Condition) (Q R : A → Condition) (x : Result Failure A) (w : World D)
      → ((a : A) (s : List ManagementAngel) → Q a s → R a s)
      → Ends I Q x w
      → Ends I R x w
  weaker I Q R (ok a) w k e = (e.0, k a w.state.angels e.1)
  weaker I Q R (err x) w k e = e

  pub strengthen-Runs :
      {I P S : Condition} {Q : A → Condition} {m : Action D A}
      → ((s : List ManagementAngel) → S s → P s)
      → Runs I P m Q
      → Runs I S m Q
  strengthen-Runs k h = record { run = λ w i p. h.run w i (k w.state.angels p) }

module _ {D : Type 0} {I P : Condition} where
  pub modify-Runs :
      {Q : Condition} (f : ManagementState → ManagementState)
      → ((s : ManagementState) → P s.angels → Q (f s).angels)
      → Runs {D = D} I P (modify f) (λ _. Q)
  unfolding modify
  modify-Runs f h = record { run = λ w i p. (i, h w.state p) }

  pub require-Runs :
      {Q : Condition} (b : Bool) (e : Failure)
      → (b ≡ true → (s : List ManagementAngel) → P s → Q s)
      → Runs {D = D} I P (require b e) (λ _. Q)
  unfolding require pure throw
  require-Runs true e h = record { run = λ w i p. (i, h refl w.state.angels p) }
  require-Runs false e h = record { run = λ w i p. i }

  -- What is stored has the invariant.
  pub checkpoint-Runs :
      (d : Dependencies D)
      → ((s : List ManagementAngel) → P s → I s)
      → Runs I P (checkpoint d) (λ _. P)
  unfolding checkpoint
  checkpoint-Runs d h = record {
    run = λ w i p. stored (d.persist w.state w.outside).0 (d.persist w.state w.outside).1 w i p;
  }
    where
      stored :
          (x : Result Failure (Unit {0})) (o : D) (w : World D)
          → I w.saved.angels
          → P w.state.angels
          → Ends I (λ _. P) (stored_if x o w).0 (stored_if x o w).1
      stored (ok u) o w i p = (h w.state.angels p, p)
      stored (err e) o w i p = i

  pub >>=-Runs :
      {A B : Type 0} {Q : A → Condition} {R : B → Condition} {m : Action D A} {f : A → Action D B}
      → Runs I P m Q
      → ((a : A) → Runs I (Q a) (f a) R)
      → Runs I P (m >>= f) R
  unfolding ◌>>=◌
  >>=-Runs {A = A} {B = B} {Q = Q} {R = R} {m = m} {f = f} h k = record {
    run = λ w i p. next (m w).0 (m w).1 (h.run w i p);
  }
    where
      next :
          (x : Result Failure A) (w : World D)
          → Ends I Q x w
          → Ends I R (after x f w).0 (after x f w).1
      next (ok a) w e = (k a).run w e.0 e.1
      next (err x) w e = e
