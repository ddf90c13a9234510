-- ===== src/FloatMonitor/Waiting.antt =====
-- `wait_for_resume_or_cancel` of services/float_monitor.py: a worker waits for the water.
use irrigation.Base.{
  ℕ, ◌+◌, ◌*◌, ◌≤◌, ◌<◌, ◌≡◌, inl, inr, Bool, false, List, [], ◌∷◌, Option, none, some, arith,
  length, leb, if◌then◌else◌, Bool-cases,
}

-- What one turn of the loop sees: the clock, and which events are set.
pub record Turn : Type 0 where
  pub now : ℕ
  pub resume : Bool
  pub cancel : Bool
  pub shutdown : Bool

pub data Outcome : Type 0 where
  resumed cancelled shut_down timed_out : Outcome

abbrev pub poll : (deadline : ℕ) → Turn → Option Outcome
poll deadline t =
    if t.resume
    then some resumed
    else (if t.cancel
        then some cancelled
        else (if t.shutdown
            then some shut_down
            else (if leb deadline t.now then some timed_out else none)))

-- The loop over the turns that there are time for; `none` if it still waits after them.
unfoldable pub wait : (deadline : ℕ) → List Turn → Option Outcome
wait deadline [] = none
wait deadline (t ∷ ts) =
    let later = wait deadline ts in
    elim (poll deadline t) [ none ↦ later | some outcome ↦ some outcome ]

-- The parameter `timeout` is `seconds`.
unfoldable pub wait_for_resume_or_cancel : (now seconds : ℕ) → List Turn → Option Outcome
unfolding wait
wait_for_resume_or_cancel now seconds ts = wait (now + seconds * 1000) ts

-- Turns at which no event is set, each a second or more after the one before.
abbrev pub IsQuietWait : (from : ℕ) → List Turn → Type 0
IsQuietWait from [] = Unit
IsQuietWait from (t ∷ ts) =
    (t.resume ≡ false)
    × (t.cancel ≡ false)
    × (t.shutdown ≡ false)
    × (from ≤ t.now)
    × IsQuietWait (t.now + 1000) ts

wait-terminates :
    (deadline from : ℕ) (ts : List Turn)
    → deadline + 1000 ≤ from + length ts * 1000
    → from < deadline + 1000
    → IsQuietWait from ts
    → wait deadline ts ≡ some timed_out
unfolding wait
wait-terminates deadline from [] h early quiet = ground arith
wait-terminates deadline from (t ∷ ts) h early quiet = elim (Bool-cases (leb deadline t.now)) [
  | inl late ↦ ground arith
  | inr soon ↦
      let (r, c, s, after, rest) = quiet in
      let again = wait-terminates deadline (t.now + 1000) ts (omega arith) (ground arith) rest in
      ground (arith, again)
]

-- A wait for `seconds` seconds ends after at most `seconds + 1` turns if no event is set, each turn
-- taking a second or more, and then its outcome is a timeout.
wait_for_resume_or_cancel-terminates :
    (now seconds : ℕ) (ts : List Turn)
    → length ts ≡ seconds + 1
    → IsQuietWait now ts
    → wait_for_resume_or_cancel now seconds ts ≡ some timed_out
unfolding wait_for_resume_or_cancel
wait_for_resume_or_cancel-terminates now seconds ts h quiet =
    wait-terminates (now + seconds * 1000) now ts (omega (arith, h)) (omega arith) quiet
