-- ===== src/ApiLimiter/Recent.antt =====
-- What the pruning of old requests leaves alone.
use irrigation.Base.{
  ℕ, ◌+◌, ◌≤◌, ◌≡◌, refl, ◌∙◌, inl, inr, List, [], ◌∷◌, Bool-cases, Option, none, some, nat_beq,
  ◌%◌,
}
use irrigation.Base.Recent.{recent_of, recent_of-recent_of}
use irrigation.Base.Store.{get_or, or_default}
use irrigation.ApiLimiter.{
  Limiter, or_delete, pruned, prune_every, prune_window, prune_old, count_call,
}

recent_of-or_delete :
    (later w : ℕ) (xs : List ℕ)
    → recent_of later w (or_default [] (or_delete xs)) ≡ recent_of later w xs
recent_of-or_delete later w [] = refl
recent_of-or_delete later w (x ∷ xs) = refl

recent_of-pruned :
    (now later w v : ℕ) (o : Option (List ℕ))
    → now ≤ later
    → w ≤ v
    → recent_of later w (or_default [] (pruned now v o)) ≡ recent_of later w (or_default [] o)
recent_of-pruned now later w v none h g = refl
recent_of-pruned now later w v (some ts) h g =
    recent_of-or_delete later w _ ∙ recent_of-recent_of now later w v ts h g

module _ {K : Type 0} (k : K) where
  abbrev pub stored : Limiter K → List ℕ
  stored s = get_or k [] s.requests

  pub count_call-recent :
      (now later w : ℕ) (s : Limiter K)
      → now ≤ later
      → w ≤ prune_window
      → recent_of later w (stored (count_call now s)) ≡ recent_of later w (stored s)
  unfolding count_call prune_old
  count_call-recent now later w s h g =
      elim (Bool-cases (nat_beq ((s.call_count + 1) % prune_every) 0)) [
        | inl t ↦ rw t (recent_of-pruned now later w prune_window (s.requests k) h g)
        | inr f ↦ rw f
      ]
