-- ===== src/ApiLimiter/Examples.antt =====
-- Tests of the limiter, and its theorems at a concrete history.
use irrigation.Base.{
  ℕ, ◌*◌, ◌≤◌, ◌≡◌, refl, List, [], ◌∷◌, arith, length, keep_if, some, false, nat_eq,
}
use irrigation.Base.Recent.{in_window}
use irrigation.ApiLimiter.{fresh, is_allowed, wrapper, too_many}
use irrigation.ApiLimiter.Knows.{Call, grants}
use irrigation.ApiLimiter.Window.{grants-le-max_requests}
use irrigation.ApiLimiter.Refinement.{log_grants, grants-log_grants}

abbrev call : ℕ → ℕ → Call ℕ
call key at = record { key = key; max_requests = 2; window_sec = 60; at = at }

-- Client 1 asks four times in a minute and once more later, client 2 once.
abbrev traffic : List (Call ℕ)
traffic = call 1 1000 ∷ call 2 1500 ∷ call 1 2000 ∷ call 1 3000 ∷ call 1 59000 ∷ call 1 61500 ∷ []

traffic-grants : grants 1 traffic fresh ≡ 1000 ∷ 2000 ∷ 61500 ∷ []
unfolding grants is_allowed
traffic-grants = refl

third_call_waits :
    (wrapper {K = ℕ} false 1 2 60 3000
      (record { requests = λ k. some (1000 ∷ 2000 ∷ []); call_count = 2 })).0
    ≡ too_many 429 59
unfolding wrapper is_allowed
third_call_waits = refl

grants-le-max_requests_example :
    length (keep_if (in_window (60 * 1000) 61500) (grants 1 traffic fresh)) ≤ 2
grants-le-max_requests_example =
    grants-le-max_requests 1 2 60 traffic (omega arith) (omega arith) 61500

grants-log_grants_example : grants 1 traffic fresh ≡ log_grants 1 2 60 [] traffic
grants-log_grants_example = grants-log_grants 1 2 60 (omega arith) traffic (omega arith)
