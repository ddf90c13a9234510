-- ===== src/LoginLimiter/Examples.antt =====
-- Tests of the login limiter, and its theorems at concrete requests.
use irrigation.Base.{
  ℕ, ◌*◌, ◌+◌, ◌≤◌, ◌≡◌, refl, false, List, [], ◌∷◌, some, arith, length, keep_if, nat_eq,
}
use irrigation.Base.Recent.{in_window}
use irrigation.LoginLimiter.{Limiter, new_limiter, api_login}
use irrigation.LoginLimiter.Lockout.{Request}
use irrigation.LoginLimiter.Knows.{guesses}
use irrigation.LoginLimiter.Guesses.{guesses-le-max_attempts}

abbrev wrong : ℕ → ℕ → Request ℕ
wrong ip now = record { ip = ip; now = now; after = now + 100; verified = false }

-- Two wrong passwords in a minute lock address 7 out for a minute; address 8 fails once.
abbrev small : Limiter ℕ
small = new_limiter 2 60 60

abbrev attack : List (Request ℕ)
attack =
    wrong 7 1000 ∷ wrong 8 1500 ∷ wrong 7 2000 ∷ wrong 7 3000 ∷ wrong 7 4000 ∷ wrong 7 64000 ∷ []

attack-guesses : guesses 7 attack small ≡ 1100 ∷ 2100 ∷ 64100 ∷ []
unfolding guesses api_login
attack-guesses = refl

guesses-le-max_attempts_example :
    length (keep_if (in_window (60 * 1000) 4000) (guesses 7 attack (new_limiter 2 60 60))) ≤ 2
guesses-le-max_attempts_example =
    guesses-le-max_attempts 7 2 60 60 (omega arith) attack (ground arith) 4000

abbrev locked_out : Limiter ℕ
locked_out = record small { lockouts = λ k. some 63000 }
