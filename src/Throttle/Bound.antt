-- ===== src/Throttle/Bound.antt =====
-- How many links are allowed in any span of the throttle's length.
use angel_cloud.Prelude.{
  ℕ, ◌+◌, ◌*◌, ◌-◌, ◌≤◌, ◌<◌, ◌≡◌, refl, Bool, true, ◌&&◌, Option, none, some, List, [], ◌∷◌, leb,
  ltb, if◌then◌else◌, arith, Bool-cases, inl, inr, length, select, subst,
}
use angel_cloud.Throttle.{
  throttle_window_ms, ThrottleWindow, opened, spend_window, spend_allowance, ThrottleStorage, spend,
  emptied, ThrottleEvent, asked, alarmed, run_throttle, IsTimely, Due,
}

abbrev finish : ℕ → ℕ
finish start = start + throttle_window_ms

-- The times that fall in the span that begins at `start`.
abbrev in_span : ℕ → ℕ → Bool
in_span start t = leb start t && ltb t (finish start)

abbrev pub allowed_in_span : ℕ → List ℕ → ℕ
allowed_in_span start ts = length (select (in_span start) ts)

module _ (limit start : ℕ) where
  -- What can still be allowed within the span, from a window at a time.
  abbrev left_in : ThrottleWindow → ℕ → ℕ
  left_in w last =
      if leb (finish start) last
      then 0
      else if ltb last start
      then 2 * limit
      else if leb start w.window_start
      then limit - w.count
      else 2 * limit - w.count

  abbrev left : Option ThrottleWindow → ℕ → ℕ
  left none last =
      if leb (finish start) last then 0 else if ltb last start then 2 * limit else limit
  left (some w) last = left_in w last

  abbrev IsKeptWindow : Option ThrottleWindow → Option ℕ → Type 0
  IsKeptWindow none at = Unit
  IsKeptWindow (some w) at =
      (0 < w.count) × (w.count ≤ limit) × (at ≡ some (w.window_start + throttle_window_ms))

  -- A stored window is counted up to the limit, and its alarm is set.
  abbrev IsKept : ThrottleStorage → Type 0
  IsKept s = IsKeptWindow s.window s.alarm_at

  abbrev counted : Bool → ℕ → ℕ
  counted allowed now = if allowed && in_span start now then 1 else 0

  spend_window-left :
      (w : ThrottleWindow) (last now : ℕ)
      → 0 < limit
      → w.count ≤ limit
      → last ≤ now
      → counted (spend_window w limit now).1 now + left_in (spend_window w limit now).0 now
        ≤ left_in w last
  spend_window-left w last now p k t =
      elim (Bool-cases (leb throttle_window_ms (now - w.window_start))) [
        | inl e ↦ rw e (ground arith)
        | inr e ↦ elim (Bool-cases (leb limit w.count)) [
          | inl f ↦ rw (e, f) (ground arith)
          | inr f ↦ rw (e, f) (ground arith)
        ]
      ]

  opened-left :
      (last now : ℕ)
      → 0 < limit
      → last ≤ now
      → counted true now + left_in (opened now) now ≤ left none last
  opened-left last now p t = ground arith

  alarm-left :
      (o : Option ThrottleWindow) (at : Option ℕ) (last now : ℕ)
      → IsKeptWindow o at
      → last ≤ now
      → Due at now
      → left none now ≤ left o last
  alarm-left none at last now k t d = ground arith
  alarm-left (some w) at last now (positive, k, e) t d =
      let at_end : w.window_start + throttle_window_ms ≤ now = subst (λ o. Due o now) e d in
      ground arith

  allowed_in_span_step :
      (allowed : Bool) (now : ℕ) (rest : List ℕ)
      → allowed_in_span start (if allowed then now ∷ rest else rest)
        ≡ counted allowed now + allowed_in_span start rest
  allowed_in_span_step allowed now rest = ground arith

  spend-left :
      (o : Option ThrottleWindow) (at : Option ℕ) (last now : ℕ)
      → 0 < limit
      → IsKeptWindow o at
      → last ≤ now
      → counted (spend_allowance o limit now).1 now
          + left (some (spend_allowance o limit now).0) now
        ≤ left o last
  unfolding spend_allowance
  spend-left none at last now p k t = opened-left last now p t
  spend-left (some w) at last now p (positive, k, e) t = spend_window-left w last now p k t

  spend-IsKept :
      (o : Option ThrottleWindow) (at : Option ℕ) (now : ℕ)
      → 0 < limit
      → IsKeptWindow o at
      → (0 < (spend_allowance o limit now).0.count)
        × ((spend_allowance o limit now).0.count ≤ limit)
  unfolding spend_allowance
  spend-IsKept none at now p k = (omega arith, omega arith)
  spend-IsKept (some w) at now p (positive, k, e) =
      elim (Bool-cases (leb throttle_window_ms (now - w.window_start))) [
        | inl e ↦ rw e (omega arith, omega arith)
        | inr e ↦ elim (Bool-cases (leb limit w.count)) [
          | inl f ↦ rw (e, f) (positive, k)
          | inr f ↦ rw (e, f) (omega arith, ground arith)
        ]
      ]

  run_throttle-left :
      (s : ThrottleStorage) (last : ℕ) (es : List ThrottleEvent)
      → 0 < limit
      → IsKept s
      → IsTimely limit last s es
      → allowed_in_span start (run_throttle limit s es) ≤ left s.window last
  unfolding run_throttle spend
  run_throttle-left s last [] p k t = omega arith
  run_throttle-left s last (alarmed now ∷ es) p k (t, d, later) =
      let rest = run_throttle-left emptied now es p tt later in
      let step = alarm-left s.window s.alarm_at last now k t d in omega (arith, rest, step)
  run_throttle-left s last (asked now ∷ es) p k (t, later) =
      let (one, two) = spend-IsKept s.window s.alarm_at now p k in
      let rest = run_throttle-left (spend s limit now).0 now es p (one, two, refl) later in
      let step = spend-left s.window s.alarm_at last now p k t in
      rw
        (allowed_in_span_step (spend s limit now).1 now
          (run_throttle limit (spend s limit now).0 es))
        (omega (arith, rest, step))

-- Whatever is asked of the throttle and whenever, links are allowed at no more than twice the
-- limit of times in any span as long as its window, as long as the limit is positive, time does
-- not run backwards and alarms are not delivered early.
pub run_throttle-bound :
    (limit start last : ℕ) (es : List ThrottleEvent)
    → 0 < limit
    → IsTimely limit last emptied es
    → allowed_in_span start (run_throttle limit emptied es) ≤ 2 * limit
run_throttle-bound limit start last es p t =
    let h = run_throttle-left limit start emptied last es p tt t in ground (arith, h)
