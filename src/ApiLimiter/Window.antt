-- ===== src/ApiLimiter/Window.antt =====
-- The promise of the sliding window, over a history of calls by any clients.
use mathlib.Core.List.{append-nil}
use irrigation.Base.{
  ℕ, ◌*◌, ◌≤◌, ◌≡◌, refl, subst, inl, inr, ◌&&◌, List, [], ◌∷◌, ◌++◌, arith, length, keep_if,
  if◌then◌else◌, Key, ◌==◌, Bool-cases,
}
use irrigation.ApiLimiter.Knows.{
  Call, is_grant, serve, grants, IsHistory, Knows, Knows-serve, Knows-other,
}
use irrigation.Base.Recent.{in_window, one_more}
use irrigation.ApiLimiter.{Limiter, fresh, prune_window}

module _ {K : Type 0} ⦃e : Key K⦄ (k : K) (m w : ℕ) where
  Knows-call :
      (c : Call K) (last : ℕ) (s : Limiter K) (past : List ℕ)
      → w * 1000 ≤ prune_window
      → last ≤ c.at
      → (c.key ≡ k → (c.max_requests ≡ m) × (c.window_sec ≡ w))
      → Knows k m w last s past
      → Knows k m w c.at
          (serve c s).1
          (past ++ (if c.key == k && is_grant (serve c s).0 then c.at ∷ [] else []))
  Knows-call c last s past wide h same known = elim (Bool-cases (c.key == k)) [
    | inl t ↦
        let ek : c.key ≡ k = (e.eqb_iff c.key k).0 t in
        rw (t, ek, (same ek).0, (same ek).1) (Knows-serve k m w c.at last s past wide h known)
    | inr f ↦ rw (f, append-nil) (Knows-other k m w c last s past wide h f known)
  ]

  grants-bounded :
      (cs : List (Call K)) (last : ℕ) (s : Limiter K) (past : List ℕ)
      → w * 1000 ≤ prune_window
      → IsHistory k m w last cs
      → Knows k m w last s past
      → (t : ℕ) → length (keep_if (in_window (w * 1000) t) (past ++ grants k cs s)) ≤ m
  unfolding grants
  grants-bounded [] last s past wide h known t = rw append-nil (known.bound t)
  grants-bounded (c ∷ cs) last s past wide h known t =
      subst (λ l. length (keep_if (in_window (w * 1000) t) l) ≤ m)
        (one_more (c.key == k && is_grant (serve c s).0) past c.at (grants k cs (serve c s).1))
        (grants-bounded cs c.at (serve c s).1 _ wide h.2
          (Knows-call c last s past wide h.0 h.1 known) t)

  -- In any span of `window_sec` seconds at most `max_requests` calls of a client to a group get
  -- through, whatever other clients do, if all calls of the client to the group have these limits,
  -- the window is at most 120 s, and the clock does not go back.
  pub grants-le-max_requests :
      (cs : List (Call K))
      → w ≤ 120
      → IsHistory k m w 0 cs
      → (t : ℕ) → length (keep_if (in_window (w * 1000) t) (grants k cs fresh)) ≤ m
  grants-le-max_requests cs wide h t =
      grants-bounded cs 0 fresh [] (omega arith) h
        (record { covers = λ later g. refl; bound = λ t. omega arith }) t
