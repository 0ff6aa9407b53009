-- ===== src/Throttle.antt =====
-- src/login-throttle.ts and src/workers/login-throttle.ts: how often a sign-in link can be asked for.
-- Times are milliseconds as natural numbers. `now - windowStart` may be negative in the source,
-- where it is then under the window's length as it is here.
use angel_cloud.Prelude.{
  ℕ, suc, ◌+◌, ◌-◌, ◌≤◌, Bool, true, false, Option, none, some, List, [], ◌∷◌, leb, if◌then◌else◌,
}
pub mod Bound
mod Tests

abbrev pub throttle_window_ms : ℕ
throttle_window_ms = 900_000

pub record ThrottleWindow : Type 0 where
  pub window_start : ℕ
  pub count : ℕ

abbrev pub opened : ℕ → ThrottleWindow
opened now = record { window_start = now; count = 1 }

abbrev pub spend_window : ThrottleWindow → ℕ → ℕ → ThrottleWindow × Bool
spend_window w limit now =
    if leb throttle_window_ms (now - w.window_start)
    then (opened now, true)
    else if leb limit w.count
    then (w, false)
    else (record w { count = suc w.count }, true)

unfoldable pub spend_allowance : Option ThrottleWindow → ℕ → ℕ → ThrottleWindow × Bool
spend_allowance none limit now = (opened now, true)
spend_allowance (some w) limit now = spend_window w limit now

-- The object's storage: its window, and the time of its alarm.
pub record ThrottleStorage : Type 0 where
  pub window : Option ThrottleWindow
  pub alarm_at : Option ℕ

-- LoginThrottle.spend
unfoldable pub spend : ThrottleStorage → ℕ → ℕ → ThrottleStorage × Bool
unfolding spend_allowance
spend s limit now =
    let (w, allowed) = spend_allowance s.window limit now in
    (record { window = some w; alarm_at = some (w.window_start + throttle_window_ms) }, allowed)

-- LoginThrottle.alarm: an alarm that has gone off is spent.
abbrev pub emptied : ThrottleStorage
emptied = record { window = none; alarm_at = none }

-- What happens to the object, at a time: a request, or its alarm.
pub data ThrottleEvent : Type 0 where
  asked alarmed : ℕ → ThrottleEvent

-- A run of the object, with the times at which a link was allowed.
unfoldable pub run_throttle : ℕ → ThrottleStorage → List ThrottleEvent → List ℕ
unfolding spend
run_throttle limit s [] = []
run_throttle limit s (alarmed now ∷ es) = run_throttle limit emptied es
run_throttle limit s (asked now ∷ es) =
    let (next, allowed) = spend s limit now in
    let rest = run_throttle limit next es in if allowed then now ∷ rest else rest

abbrev pub Due : Option ℕ → ℕ → Type 0
Due none now = ⊥
Due (some at) now = at ≤ now

-- Time does not run backwards, and the platform delivers an alarm that is set, at its time or later.
abbrev pub IsTimely : ℕ → ℕ → ThrottleStorage → List ThrottleEvent → Type 0
IsTimely limit last s [] = Unit
IsTimely limit last s (asked now ∷ es) = (last ≤ now) × IsTimely limit now (spend s limit now).0 es
IsTimely limit last s (alarmed now ∷ es) =
    (last ≤ now) × Due s.alarm_at now × IsTimely limit now emptied es
