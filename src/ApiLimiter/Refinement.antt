-- ===== src/ApiLimiter/Refinement.antt =====
-- The limiter against its specification, a log of the requests that got through.
use mathlib.Core.List.{append-nil}
use irrigation.Base.{
  ℕ, ◌*◌, ◌≤◌, ◌≡◌, refl, sym, ◌∙◌, ap, inl, inr, ◌&&◌, List, [], ◌∷◌, ◌++◌, arith, length, ltb,
  if◌then◌else◌, Key, ◌==◌, Bool-cases,
}
use native.Mathlib.Nat.{le_refl}
use irrigation.Base.Recent.{recent_of}
use irrigation.ApiLimiter.{Limiter, fresh, count_call, decide_recent, is_allowed}
use irrigation.ApiLimiter.Knows.{
  Call, is_grant, serve, grants, IsHistory, Knows, Knows-serve, Knows-other, Knows-count_call,
}

module _ {K : Type 0} ⦃e : Key K⦄ where
  -- A call is let through exactly if fewer than `m` of those let through lie in its window.
  pub log_grants : (k : K) (m w : ℕ) (log : List ℕ) → List (Call K) → List ℕ
  log_grants k m w log [] = []
  log_grants k m w log (c ∷ cs) =
      let passed = c.at ∷ log_grants k m w (log ++ c.at ∷ []) cs in
      let held = log_grants k m w log cs in
      if c.key == k && ltb (length (recent_of c.at (w * 1000) log)) m then passed else held

  is_grant-decide_recent :
      (k : K) (m now w : ℕ) (recent : List ℕ) (s : Limiter K)
      → is_grant (decide_recent k m now w recent s).0 ≡ ltb (length recent) m
  unfolding decide_recent
  is_grant-decide_recent k m now w [] s = ground arith
  is_grant-decide_recent k m now w (x ∷ xs) s = ground arith

  module _ (k : K) (m w : ℕ) (wide : w ≤ 120) where
    is_grant-is_allowed :
        (now last : ℕ) (s : Limiter K) (log : List ℕ)
        → last ≤ now
        → Knows k m w last s log
        → is_grant (is_allowed k m w now s).0 ≡ ltb (length (recent_of now (w * 1000) log)) m
    unfolding is_allowed
    is_grant-is_allowed now last s log h known =
        is_grant-decide_recent k m now (w * 1000) _ (count_call now s)
        ∙ ap (λ l. ltb (length l) m)
            ((Knows-count_call k m w now last s log (omega arith) h known).covers now (le_refl _))

    -- The step for a call by `k`, from the refinement of the calls that follow.
    own :
        (now last : ℕ) (s : Limiter K) (log : List ℕ) (cs : List (Call K))
        → last ≤ now
        → IsHistory k m w now cs
        → Knows k m w last s log
        → ((last' : ℕ) (s' : Limiter K) (log' : List ℕ)
            → IsHistory k m w last' cs
            → Knows k m w last' s' log'
            → grants k cs s' ≡ log_grants k m w log' cs)
        → (if is_grant (is_allowed k m w now s).0
            then now ∷ grants k cs (is_allowed k m w now s).1
            else grants k cs (is_allowed k m w now s).1)
          ≡ (if ltb (length (recent_of now (w * 1000) log)) m
              then now ∷ log_grants k m w (log ++ now ∷ []) cs
              else log_grants k m w log cs)
    own now last s log cs h rest known later =
        let r = is_allowed k m w now s in
        let agree = is_grant-is_allowed now last s log h known in
        let knows : Knows k m w now r.1 (log ++ (if is_grant r.0 then now ∷ [] else [])) =
          Knows-serve k m w now last s log (omega arith) h known in
        elim (Bool-cases (is_grant r.0)) [
          | inl t ↦ rw (sym agree ∙ t, t) (ap (λ l. now ∷ l) (later now r.1 _ rest (rw t at knows)))
          | inr f ↦ rw (sym agree ∙ f, f) (later now r.1 log rest (rw (f, append-nil) at knows))
        ]

    grants-log :
        (cs : List (Call K)) (last : ℕ) (s : Limiter K) (log : List ℕ)
        → IsHistory k m w last cs
        → Knows k m w last s log
        → grants k cs s ≡ log_grants k m w log cs
    unfolding grants log_grants
    grants-log [] last s log h known = refl
    grants-log (c ∷ cs) last s log h known = elim (Bool-cases (c.key == k)) [
      | inl t ↦
          let ek : c.key ≡ k = (e.eqb_iff c.key k).0 t in
          rw (t, ek, (h.1 ek).0, (h.1 ek).1) (own c.at last s log cs h.0 h.2 known (grants-log cs))
      | inr f ↦ rw f (
          grants-log cs c.at (serve c s).1 log h.2
            (Knows-other k m w c last s log (omega arith) h.0 f known))
    ]

    -- If the window of a group is at most 120 s, all calls of a client to it have the same limits and the
    -- clock does not go back, the limiter lets through exactly the calls of the client that its
    -- specification does, the log of granted calls, whatever other clients do in between.
    pub grants-log_grants :
        (cs : List (Call K)) → IsHistory k m w 0 cs → grants k cs fresh ≡ log_grants k m w [] cs
    grants-log_grants cs h =
        grants-log cs 0 fresh [] h (record { covers = λ later g. refl; bound = λ t. omega arith })
