-- ===== src/Management/Leads.antt =====
-- What an operation leaves, if it is done (src/management.ts).
use angel_cloud.Prelude.{◌≡◌, refl, Bool, true, false, if◌then◌else◌, Result, ok, err}
use angel_cloud.Management.State.{Failure, ManagementState}
use angel_cloud.Management.World.{
  Action, Dependencies, World, pure, gets, reads, call, ask, modify, after, stored_if, checkpoint,
  ◌>>=◌,
}

module _ {D A : Type 0} where
  abbrev pub Left : (A → ManagementState → Type 0) → Result Failure A → World D → Type 0
  Left Q (ok a) w = Q a w.state
  Left Q (err e) w = Unit

  -- From a state with `P`, the operation throws or ends in a state with `Q`.
  pub record Leads (P : ManagementState → Type 0) (m : Action D A)
      (Q : A → ManagementState → Type 0) : Type 0 where
    pub run : (w : World D) → P w.state → Left Q (m w).0 (m w).1

  module _ {P : ManagementState → Type 0} {Q : A → ManagementState → Type 0} where
    pub pure-Leads : (a : A) → ((s : ManagementState) → P s → Q a s) → Leads P (pure a) Q
    unfolding pure
    pure-Leads a h = record { run = λ w p. h w.state p }

    pub gets-Leads :
        (f : ManagementState → A) → ((s : ManagementState) → P s → Q (f s) s) → Leads P (gets f) Q
    unfolding gets
    gets-Leads f h = record { run = λ w p. h w.state p }

    pub ask-Leads :
        (f : D → A × D) → ((a : A) (s : ManagementState) → P s → Q a s) → Leads P (ask f) Q
    unfolding ask
    ask-Leads f h = record { run = λ w p. h (f w.outside).0 w.state p }

    pub if-Leads :
        (b : Bool) (m n : Action D A) → Leads P m Q → Leads P n Q → Leads P (if b then m else n) Q
    if-Leads true m n h k = h
    if-Leads false m n h k = k

  left :
      (Q : A → ManagementState → Type 0) (x : Result Failure A) (w : World D)
      → ((a : A) → x ≡ ok a → Q a w.state)
      → Left Q x w
  left Q (ok a) w h = h a refl
  left Q (err e) w h = tt

  module _ {P : ManagementState → Type 0} {Q : A → ManagementState → Type 0} where
    pub call-Leads :
        (f : D → Result Failure A × D)
        → ((a : A) (s : ManagementState) → P s → Q a s)
        → Leads P (call f) Q
    unfolding call
    call-Leads f h = record {
      run = λ w p.
          left Q (f w.outside).0 (record w { outside = (f w.outside).1 }) (λ a e. h a w.state p);
    }

    pub reads-Leads :
        (f : ManagementState → Result Failure A)
        → ((s : ManagementState) (a : A) → f s ≡ ok a → P s → Q a s)
        → Leads P (reads f) Q
    unfolding reads
    reads-Leads f h = record { run = λ w p. left Q (f w.state) w (λ a e. h w.state a e p) }

module _ {D : Type 0} {P : ManagementState → Type 0} where
  pub modify-Leads :
      {Q : ManagementState → Type 0} (f : ManagementState → ManagementState)
      → ((s : ManagementState) → P s → Q (f s))
      → Leads {D = D} P (modify f) (λ _. Q)
  unfolding modify
  modify-Leads f h = record { run = λ w p. h w.state p }

  pub checkpoint-Leads : (d : Dependencies D) → Leads P (checkpoint d) (λ _. P)
  unfolding checkpoint
  checkpoint-Leads d = record {
    run = λ w p. stored (d.persist w.state w.outside).0 (d.persist w.state w.outside).1 w p;
  }
    where
      stored :
          (x : Result Failure (Unit {0})) (o : D) (w : World D)
          → P w.state
          → Left (λ _. P) (stored_if x o w).0 (stored_if x o w).1
      stored (ok u) o w p = p
      stored (err e) o w p = tt

  pub >>=-Leads :
      {A B : Type 0} {Q : A → ManagementState → Type 0} {R : B → ManagementState → Type 0}
      {m : Action D A} {f : A → Action D B}
      → Leads P m Q
      → ((a : A) → Leads (Q a) (f a) R)
      → Leads P (m >>= f) R
  unfolding ◌>>=◌
  >>=-Leads {A = A} {B = B} {Q = Q} {R = R} {m = m} {f = f} h k = record {
    run = λ w p. next (m w).0 (m w).1 (h.run w p);
  }
    where
      next :
          (x : Result Failure A) (w : World D) → Left Q x w → Left R (after x f w).0 (after x f w).1
      next (ok a) w e = (k a).run w e
      next (err x) w e = tt
