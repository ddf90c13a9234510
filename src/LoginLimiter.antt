-- ===== src/LoginLimiter.antt =====
-- services/rate_limiter.py: failed logins by address, and the lockout; and the login request of
-- routes/auth.py, which is its client.
-- Times are milliseconds, and the configured spans are seconds.
pub mod Lockout
pub mod Knows
pub mod Guesses
pub mod Examples
use irrigation.Base.{
  ℕ, ◌+◌, ◌-◌, ◌*◌, ◌/◌, Bool, true, false, not, List, [], ◌∷◌, ◌++◌, Option, none, some, length,
  ltb, leb, if◌then◌else◌, Key,
}
use irrigation.Base.Recent.{recent_of}
use irrigation.Base.Store.{Store, empty, put, del, get_or}

pub record Limiter (K : Type 0) : Type 0 where
  pub attempts : Store K (List ℕ)
  pub lockouts : Store K ℕ
  pub max_attempts : ℕ
  pub window_sec : ℕ
  pub lockout_sec : ℕ

-- `__init__`
abbrev pub new_limiter : {K : Type 0} → (max_attempts window_sec lockout_sec : ℕ) → Limiter K
new_limiter max_attempts window_sec lockout_sec = record {
  attempts = empty;
  lockouts = empty;
  max_attempts = max_attempts;
  window_sec = window_sec;
  lockout_sec = lockout_sec;
}

-- LOGIN_MAX_ATTEMPTS, LOGIN_WINDOW_SEC and LOGIN_LOCKOUT_SEC of constants.py.
abbrev pub login_limiter : {K : Type 0} → Limiter K
login_limiter = new_limiter 5 300 900

abbrev pub Answer : Type 0
Answer = Bool × ℕ

module _ {K : Type 0} ⦃e : Key K⦄ where
  -- The end of `check`, once no lockout is active.
  pub count_recent : K → (now : ℕ) → Limiter K → Answer × Limiter K
  count_recent ip now s =
      let recent = recent_of now (s.window_sec * 1000) (get_or ip [] s.attempts) in
      if leb s.max_attempts (length recent)
      then (
        (false, s.lockout_sec),
        record s {
          attempts = put ip recent s.attempts;
          lockouts = put ip (now + s.lockout_sec * 1000) s.lockouts;
        },
      )
      else ((true, 0), record s { attempts = put ip recent s.attempts })

  -- An expired lockout is forgotten together with the failures that led to it.
  pub forget : K → Limiter K → Limiter K
  forget ip s = record s { lockouts = del ip s.lockouts; attempts = del ip s.attempts }

  pub check_lockout : K → (now : ℕ) → Option ℕ → Limiter K → Answer × Limiter K
  unfolding count_recent forget
  check_lockout ip now none s = count_recent ip now s
  check_lockout ip now (some expiry) s =
      if ltb now expiry
      then ((false, (expiry - now) / 1000 + 1), s)
      else count_recent ip now (forget ip s)

  pub check : K → (now : ℕ) → Limiter K → Answer × Limiter K
  unfolding check_lockout
  check ip now s = check_lockout ip now (s.lockouts ip) s

  pub record_failure : K → (now : ℕ) → Limiter K → Limiter K
  record_failure ip now s = record s {
    attempts =
        put ip (recent_of now (s.window_sec * 1000) (get_or ip [] s.attempts ++ now ∷ []))
          s.attempts;
  }

  pub reset : K → Limiter K → Limiter K
  reset ip s = record s { attempts = del ip s.attempts; lockouts = del ip s.lockouts }

  -- `api_login` of routes/auth.py: the answer's status with the limiter's new state. `verified` is
  -- the answer of `verify_password`, and `after` the time when it has come. The code takes the lock
  -- for the check and again for what it records, with `verify_password` between; here this is one
  -- step, so that the requests of an address come one after the other.
  pub api_login : K → (now after : ℕ) → (verified : Bool) → Limiter K → ℕ × Limiter K
  unfolding check record_failure reset
  api_login ip now after verified s =
      let ((allowed, retry_after), s') = check ip now s in
      if not allowed
      then (429, s')
      else (if verified then (200, reset ip s') else (401, record_failure ip after s'))
