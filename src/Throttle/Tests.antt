-- ===== src/Throttle/Tests.antt =====
-- A throttle of three, asked five times.
use angel_cloud.Prelude.{◌≡◌, ◌≤◌, ◌*◌, refl, List, [], ◌∷◌, arith}
use angel_cloud.Throttle.{ThrottleEvent, asked, alarmed, emptied, run_throttle, spend, IsTimely}
use angel_cloud.Throttle.Bound.{allowed_in_span, run_throttle-bound}

abbrev busy : List ThrottleEvent
busy = asked 0 ∷ asked 1 ∷ asked 2 ∷ asked 3 ∷ alarmed 900_000 ∷ asked 900_001 ∷ []

busy_test : run_throttle 3 emptied busy ≡ 0 ∷ 1 ∷ 2 ∷ 900_001 ∷ []
unfolding run_throttle
busy_test = refl

busy-IsTimely : IsTimely 3 0 emptied busy
unfolding spend
busy-IsTimely = (
  omega arith,
  (omega arith, (omega arith, (omega arith, (omega arith, omega arith, (omega arith, tt))))),
)

run_throttle-bound_example : allowed_in_span 2 (run_throttle 3 emptied busy) ≤ 2 * 3
run_throttle-bound_example = run_throttle-bound 3 2 0 busy (omega arith) busy-IsTimely
