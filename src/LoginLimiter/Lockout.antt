-- ===== src/LoginLimiter/Lockout.antt =====
-- How long an address stays locked out, and when it is let in again.
use irrigation.Base.{
  ℕ, ◌+◌, ◌*◌, ◌≤◌, ◌<◌, ◌≡◌, refl, ◌∙◌, inl, inr, Bool, true, false, List, [], ◌∷◌, Option, none,
  some, arith, ltb, lt→ltb, Key, ◌==◌, Bool-cases,
}
use irrigation.LoginLimiter.{
  Limiter, count_recent, forget, check_lockout, check, record_failure, reset, api_login,
}

-- A login request; `after` is the time when the password has been compared.
pub record Request (K : Type 0) : Type 0 where
  pub ip : K
  pub now : ℕ
  pub after : ℕ
  pub verified : Bool

module _ {K : Type 0} ⦃e : Key K⦄ where
  abbrev pub serve : Request K → Limiter K → ℕ × Limiter K
  serve r s = api_login r.ip r.now r.after r.verified s

  unfoldable pub run : List (Request K) → Limiter K → Limiter K
  run [] s = s
  run (r ∷ rs) s = run rs (serve r s).1

  -- The requests of `ip` come before `expiry`; other addresses do as they please.
  abbrev pub Before : K → ℕ → List (Request K) → Type 0
  Before ip expiry [] = Unit
  Before ip expiry (r ∷ rs) = (r.ip ≡ ip → r.now < expiry) × Before ip expiry rs

  count_recent-other :
      (ip k : K) (now : ℕ) (s : Limiter K)
      → (ip == k) ≡ false
      → ((count_recent ip now s).1.lockouts k ≡ s.lockouts k)
        × ((count_recent ip now s).1.attempts k ≡ s.attempts k)
  unfolding count_recent
  count_recent-other ip k now s h = ground arith

  pub check-other :
      (ip k : K) (now : ℕ) (s : Limiter K)
      → (ip == k) ≡ false
      → ((check ip now s).1.lockouts k ≡ s.lockouts k)
        × ((check ip now s).1.attempts k ≡ s.attempts k)
  unfolding check check_lockout forget
  check-other ip k now s h =
      ground (arith, count_recent-other ip k now s h, count_recent-other ip k now (forget ip s) h)

  -- What one address does is invisible to the others.
  pub api_login-other :
      (ip k : K) (now after : ℕ) (v : Bool) (s : Limiter K)
      → (ip == k) ≡ false
      → ((api_login ip now after v s).1.lockouts k ≡ s.lockouts k)
        × ((api_login ip now after v s).1.attempts k ≡ s.attempts k)
  unfolding api_login record_failure reset
  api_login-other ip k now after v s h = ground (arith, check-other ip k now s h)

  count_recent-config :
      (ip : K) (now : ℕ) (s : Limiter K)
      → ((count_recent ip now s).1.max_attempts ≡ s.max_attempts)
        × ((count_recent ip now s).1.window_sec ≡ s.window_sec)
        × ((count_recent ip now s).1.lockout_sec ≡ s.lockout_sec)
  unfolding count_recent
  count_recent-config ip now s = ground arith

  -- No request changes the limits.
  pub api_login-config :
      (ip : K) (now after : ℕ) (v : Bool) (s : Limiter K)
      → ((api_login ip now after v s).1.max_attempts ≡ s.max_attempts)
        × ((api_login ip now after v s).1.window_sec ≡ s.window_sec)
        × ((api_login ip now after v s).1.lockout_sec ≡ s.lockout_sec)
  unfolding api_login check check_lockout record_failure reset forget
  api_login-config ip now after v s =
      ground (arith, count_recent-config ip now s, count_recent-config ip now (forget ip s))

  api_login-locked :
      (ip : K) (now after expiry : ℕ) (v : Bool) (s : Limiter K)
      → s.lockouts ip ≡ some expiry
      → now < expiry
      → api_login ip now after v s ≡ (429, s)
  unfolding api_login check check_lockout
  api_login-locked ip now after expiry v s locked h = rw (locked, lt→ltb now expiry h)

  -- A lockout stands until it expires.
  pub run-locked :
      (ip : K) (expiry : ℕ) (rs : List (Request K)) (s : Limiter K)
      → s.lockouts ip ≡ some expiry
      → Before ip expiry rs
      → (run rs s).lockouts ip ≡ some expiry
  unfolding run
  run-locked ip expiry [] s locked h = locked
  run-locked ip expiry (r ∷ rs) s locked h = elim (Bool-cases (r.ip == ip)) [
    | inl t ↦
        let same : r.ip ≡ ip = (e.eqb_iff r.ip ip).0 t in
        run-locked ip expiry rs _
          (rw (same, api_login-locked ip r.now r.after expiry r.verified s locked (h.0 same))
            locked)
          h.1
    | inr f ↦
        run-locked ip expiry rs _
          (rw ((api_login-other r.ip ip r.now r.after r.verified s f).0) locked) h.1
  ]

  count_recent-refuses :
      (ip : K) (now retry : ℕ) (s : Limiter K)
      → (count_recent ip now s).0 ≡ (false, retry)
      → ((count_recent ip now s).1.lockouts ip ≡ some (now + retry * 1000))
        × ((count_recent ip now s).1.max_attempts ≡ s.max_attempts)
  unfolding count_recent
  count_recent-refuses ip now retry s h = ground (arith, e.eqb_iff ip ip)

  forget-max_attempts : (ip : K) (s : Limiter K) → (forget ip s).max_attempts ≡ s.max_attempts
  unfolding forget
  forget-max_attempts ip s = refl

  -- A refusal leaves a lockout behind that ends within `retry_after` seconds.
  abbrev LocksUntil : K → (now retry max_attempts : ℕ) → Limiter K → Type 0
  LocksUntil ip now retry max_attempts s =
      (expiry : ℕ) × (s.lockouts ip ≡ some expiry)
      × (expiry ≤ now + retry * 1000)
      × (s.max_attempts ≡ max_attempts)

  check_lockout-LocksUntil :
      (ip : K) (now retry : ℕ) (s : Limiter K) (o : Option ℕ)
      → s.lockouts ip ≡ o
      → (check_lockout ip now o s).0 ≡ (false, retry)
      → LocksUntil ip now retry s.max_attempts (check_lockout ip now o s).1
  unfolding check_lockout
  check_lockout-LocksUntil ip now retry s none known h =
      let (locked, same) = count_recent-refuses ip now retry s h in
      (now + retry * 1000, locked, omega arith, same)
  check_lockout-LocksUntil ip now retry s (some expiry) known h =
      elim (Bool-cases (ltb now expiry)) [
        | inl t ↦ rw t (expiry, known, ground arith, refl)
        | inr f ↦
            let (locked, same) = count_recent-refuses ip now retry (forget ip s) (rw f at h) in
            rw f (now + retry * 1000, locked, omega arith, same ∙ forget-max_attempts ip s)
      ]

  check_expired :
      (ip : K) (expiry later : ℕ) (s : Limiter K)
      → s.lockouts ip ≡ some expiry
      → expiry ≤ later
      → 0 < s.max_attempts
      → (check ip later s).0 ≡ (true, 0)
  unfolding check check_lockout count_recent forget
  check_expired ip expiry later s locked h pos = ground (arith, e.eqb_iff ip ip)

  -- `retry_after` is honest: once that many seconds have passed since a refusal, the address is let in.
  check_after_retry :
      (ip : K) (now retry later : ℕ) (s : Limiter K)
      → 0 < s.max_attempts
      → (check ip now s).0 ≡ (false, retry)
      → now + retry * 1000 ≤ later
      → (check ip later (check ip now s).1).0 ≡ (true, 0)
  unfolding check
  check_after_retry ip now retry later s pos h wait =
      let (expiry, locked, soon, same) =
        check_lockout-LocksUntil ip now retry s (s.lockouts ip) refl h in
      check_expired ip expiry later (check ip now s).1 locked (omega arith) (omega (arith, same))
