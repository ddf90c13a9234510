-- ===== src/LoginLimiter/Guesses.antt =====
-- How many wrong passwords an address can try in a span of time.
use mathlib.Core.List.{append-nil}
use irrigation.Base.{
  ℕ, ◌*◌, ◌≤◌, ◌≡◌, refl, sym, ap, ◌∙◌, subst, inl, inr, false, ◌&&◌, List, [], ◌∷◌, ◌++◌, arith,
  nat_beq, length, keep_if, if◌then◌else◌, Key, ◌==◌, Bool-cases,
}
use irrigation.Base.Recent.{recent_of, in_window, one_more}
use irrigation.Base.Store.{or_default}
use irrigation.LoginLimiter.{Limiter, new_limiter, check, api_login}
use irrigation.LoginLimiter.Lockout.{Request, serve, api_login-other, api_login-config}
use irrigation.LoginLimiter.Knows.{
  guesses, IsAttack, Knows, Knows-later, Knows-check, Knows-record_failure, span,
}

module _ {K : Type 0} ⦃e : Key K⦄ (k : K) (m w l : ℕ) (enough : w ≤ l) where
  Knows-other :
      (r : Request K) (last : ℕ) (s : Limiter K) (past : List ℕ)
      → last ≤ r.after
      → (r.ip == k) ≡ false
      → Knows k m w l enough last s past
      → Knows k m w l enough r.after (serve r s).1 past
  Knows-other r last s past h other known =
      let (same_lockout, same_attempts) = api_login-other r.ip k r.now r.after r.verified s other in
      let (same_limit, same_window, same_span) = api_login-config r.ip r.now r.after r.verified s in
      let later = Knows-later k m w l enough last r.after s past h known in
      record {
        limit = same_limit ∙ later.limit;
        window = same_window ∙ later.window;
        lockout = same_span ∙ later.lockout;
        old = later.old;
        covers = λ t g.
            ap (λ o. recent_of t (span k m w l enough) (or_default [] o)) same_attempts
            ∙ later.covers t g;
        bound = later.bound;
        locked = λ expiry h'. later.locked expiry (sym same_lockout ∙ h');
      }

  -- A wrong password is either turned away or counted.
  Knows-wrong :
      (last now after : ℕ) (s : Limiter K) (past : List ℕ)
      → last ≤ now
      → now ≤ after
      → Knows k m w l enough last s past
      → Knows k m w l enough after
          (api_login k now after false s).1
          (past ++ (if nat_beq (api_login k now after false s).0 401 then after ∷ [] else []))
  unfolding api_login
  Knows-wrong last now after s past h g known =
      let checked = Knows-check k m w l enough last now s past h known in
      elim (Bool-cases (check k now s).0.0) [
        | inl t ↦ rw t (
            Knows-record_failure k m w l enough now after _ past g (checked.unlocked t)
              (checked.room t) checked.knows)
        | inr f ↦ rw (f, append-nil) (Knows-later k m w l enough now after _ past g checked.knows)
      ]

  Knows-request :
      (r : Request K) (last : ℕ) (s : Limiter K) (past : List ℕ)
      → last ≤ r.now
      → r.now ≤ r.after
      → (r.ip ≡ k → r.verified ≡ false)
      → Knows k m w l enough last s past
      → Knows k m w l enough r.after
          (serve r s).1
          (past ++ (if r.ip == k && nat_beq (serve r s).0 401 then r.after ∷ [] else []))
  Knows-request r last s past h g wrong known = elim (Bool-cases (r.ip == k)) [
    | inl t ↦
        let same : r.ip ≡ k = (e.eqb_iff r.ip k).0 t in
        rw (t, same, wrong same) (Knows-wrong last r.now r.after s past h g known)
    | inr f ↦ rw (f, append-nil) (Knows-other r last s past (omega arith) f known)
  ]

  guesses-bounded :
      (rs : List (Request K)) (last : ℕ) (s : Limiter K) (past : List ℕ)
      → IsAttack k last rs
      → Knows k m w l enough last s past
      → (t : ℕ) → length (keep_if (in_window (w * 1000) t) (past ++ guesses k rs s)) ≤ m
  unfolding guesses
  guesses-bounded [] last s past h known t = rw append-nil (known.bound t)
  guesses-bounded (r ∷ rs) last s past h known t =
      subst (λ x. length (keep_if (in_window (w * 1000) t) x) ≤ m)
        (one_more (r.ip == k && nat_beq (serve r s).0 401) past r.after
          (guesses k rs (serve r s).1))
        (guesses-bounded rs r.after (serve r s).1 _ h.3
          (Knows-request r last s past h.0 h.1 h.2 known) t)

  -- An address all of whose requests have a wrong password (a right one would reset its count): in
  -- any `window_sec` seconds at most `max_attempts` of them are compared at all, if the requests of
  -- the address are served one after the other and a lockout is at least as long as the window.
  pub guesses-le-max_attempts :
      (rs : List (Request K))
      → IsAttack k 0 rs
      → (t : ℕ) → length (keep_if (in_window (w * 1000) t) (guesses k rs (new_limiter m w l))) ≤ m
  guesses-le-max_attempts rs h t =
      guesses-bounded rs 0 (new_limiter m w l) [] h
        (record {
          limit = refl;
          window = refl;
          lockout = refl;
          old = tt;
          covers = λ later g. refl;
          bound = λ t'. omega arith;
          locked = λ expiry h'. refl;
        })
        t
