-- ===== src/Management/Reaches.antt =====
-- Operations that are sure to be done (src/management.ts).
use angel_cloud.Prelude.{◌≡◌, sym, subst, Bool, true, false, if◌then◌else◌, Result, ok, err}
use angel_cloud.Management.State.{Failure, ManagementState}
use angel_cloud.Management.World.{
  Action, Dependencies, World, pure, reads, call, ask, modify, require, after, stored_if,
  checkpoint, ◌>>=◌,
}

module _ {D A : Type 0} where
  abbrev pub Reached : (A → ManagementState → Type 0) → Result Failure A → World D → Type 0
  Reached Q (ok a) w = Q a w.state
  Reached Q (err e) w = ⊥

  -- From a state with `P`, the operation throws nothing and ends in a state with `Q`.
  pub record Reaches (P : ManagementState → Type 0) (m : Action D A)
      (Q : A → ManagementState → Type 0) : Type 0 where
    pub run : (w : World D) → P w.state → Reached Q (m w).0 (m w).1

  module _ {P : ManagementState → Type 0} {Q : A → ManagementState → Type 0} where
    pub pure-Reaches : (a : A) → ((s : ManagementState) → P s → Q a s) → Reaches P (pure a) Q
    unfolding pure
    pure-Reaches a h = record { run = λ w p. h w.state p }

    pub ask-Reaches :
        (f : D → A × D) → ((a : A) (s : ManagementState) → P s → Q a s) → Reaches P (ask f) Q
    unfolding ask
    ask-Reaches f h = record { run = λ w p. h (f w.outside).0 w.state p }

    pub if-Reaches :
        (b : Bool) (m n : Action D A)
        → Reaches P m Q
        → Reaches P n Q
        → Reaches P (if b then m else n) Q
    if-Reaches true m n h k = h
    if-Reaches false m n h k = k

module _ {D : Type 0} {P : ManagementState → Type 0} where
  pub modify-Reaches :
      {Q : ManagementState → Type 0} (f : ManagementState → ManagementState)
      → ((s : ManagementState) → P s → Q (f s))
      → Reaches {D = D} P (modify f) (λ _. Q)
  unfolding modify
  modify-Reaches f h = record { run = λ w p. h w.state p }

  pub require-Reaches :
      (b : Bool) (e : Failure) → b ≡ true → Reaches {D = D} P (require b e) (λ _. P)
  unfolding require pure
  require-Reaches true e h = record { run = λ w p. p }
  require-Reaches false e h = cc

  pub checkpoint-Reaches :
      (d : Dependencies D)
      → ((s : ManagementState) (o : D) → (d.persist s o).0 ≡ ok tt)
      → Reaches P (checkpoint d) (λ _. P)
  unfolding checkpoint
  checkpoint-Reaches d h = record {
    run = λ w p.
        stored (d.persist w.state w.outside).0 (d.persist w.state w.outside).1 w
          (h w.state w.outside) p;
  }
    where
      stored :
          (x : Result Failure (Unit {0})) (o : D) (w : World D)
          → x ≡ ok tt
          → P w.state
          → Reached (λ _. P) (stored_if x o w).0 (stored_if x o w).1
      stored (ok u) o w e p = p
      stored (err f) o w e p = cc

  pub >>=-Reaches :
      {A B : Type 0} {Q : A → ManagementState → Type 0} {R : B → ManagementState → Type 0}
      {m : Action D A} {f : A → Action D B}
      → Reaches P m Q
      → ((a : A) → Reaches (Q a) (f a) R)
      → Reaches P (m >>= f) R
  unfolding ◌>>=◌
  >>=-Reaches {A = A} {B = B} {Q = Q} {R = R} {m = m} {f = f} h k = record {
    run = λ w p. next (m w).0 (m w).1 (h.run w p);
  }
    where
      next :
          (x : Result Failure A) (w : World D)
          → Reached Q x w
          → Reached R (after x f w).0 (after x f w).1
      next (ok a) w e = (k a).run w e
      next (err x) w e = absurd e

module _ {D A B : Type 0} {P : ManagementState → Type 0} {R : B → ManagementState → Type 0}
    (k : A → Action D B) where
  -- A value that the state determines, and one that a dependency does.
  pub reads_exactly :
      (f : ManagementState → Result Failure A) (a : A)
      → ((s : ManagementState) → P s → f s ≡ ok a)
      → Reaches P (k a) R
      → Reaches P (reads f >>= k) R
  unfolding reads ◌>>=◌
  reads_exactly f a h rest = record {
    run = λ w p.
        subst (λ x. Reached R (after x k w).0 (after x k w).1) (sym (h w.state p)) (rest.run w p);
  }

  pub calls_with :
      (f : D → Result Failure A × D)
      → ((o : D) → (a : A) × ((f o).0 ≡ ok a) × Reaches P (k a) R)
      → Reaches P (call f >>= k) R
  unfolding call ◌>>=◌
  calls_with f h = record {
    run = λ w p.
        let (a, e, rest) = h w.outside in
        let v : World D = record w { outside = (f w.outside).1 } in
        subst (λ x. Reached R (after x k v).0 (after x k v).1) (sym e) (rest.run v p);
  }
