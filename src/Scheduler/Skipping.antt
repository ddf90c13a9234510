-- ===== src/Scheduler/Skipping.antt =====
-- How often `request_skip_current_zone` of irrigation_scheduler.py says yes.
use irrigation.Base.{
  ℕ, ◌≡◌, ◌∙◌, ◌≤◌, ◌+◌, ◌-◌, refl, sym, subst, inl, inr, not, List, [], ◌∷◌, arith, All, ltb, ◌==◌,
  nat_eq, nat_beq_iff, if◌then◌else◌, Bool-cases,
}
use irrigation.Base.Maps.{get_or, insert, lookup-insert}
use irrigation.ZoneControl.{World}
use irrigation.Scheduler.{
  Scheduler, ok, no_session, debounced, skip_debounce, is_group_session_active,
  request_skip_current_zone,
}
use irrigation.Scheduler.Sparing.{cancel_group_jobs-Spares}
use irrigation.Scheduler.Waiting.{
  Request, skip_current_zone, cancel_group, control, shut_down, serve, serve_all,
}

abbrev last_skip : (gid : ℕ) → Scheduler → ℕ
last_skip gid s = get_or gid 0 s.last_skip_ts

-- Skips are asked for at the time or later.
abbrev pub IsSince : ℕ → Request → Type 0
IsSince t (skip_current_zone gid now) = t ≤ now
IsSince t _ = Unit

ok-late :
    (gid now : ℕ) (s : Scheduler)
    → (request_skip_current_zone gid now s).1 ≡ ok
    → last_skip gid s + 1000 ≤ now
unfolding request_skip_current_zone
ok-late gid now s h = ground arith

last_skip-insert :
    (g gid now : ℕ) (s : Scheduler)
    → get_or gid 0 (insert g now s.last_skip_ts) ≡ (if g == gid then now else last_skip gid s)
last_skip-insert g gid now s =
    rw (get_or, lookup-insert g gid now s.last_skip_ts)
      (elim (Bool-cases (g == gid)) [ inl same ↦ rw same refl | inr other ↦ rw other refl ])

ok-last :
    (gid now : ℕ) (s : Scheduler)
    → (request_skip_current_zone gid now s).1 ≡ ok
    → last_skip gid (request_skip_current_zone gid now s).0 ≡ now
unfolding request_skip_current_zone
ok-last gid now s h = elim (Bool-cases (not (is_group_session_active gid s))) [
  | inl idle ↦ (let clash : no_session ≡ ok = rw (request_skip_current_zone, idle) at h in cc)
  | inr busy ↦ elim (Bool-cases (ltb (now - last_skip gid s) skip_debounce)) [
    | inl soon ↦
        (let clash : debounced ≡ ok = rw (request_skip_current_zone, busy, soon) at h in cc)
    | inr late ↦
        rw (request_skip_current_zone, busy, late)
          (last_skip-insert gid gid now s ∙ rw ((nat_beq_iff gid gid).1 refl) refl)
  ]
]

skip-late :
    (t gid g now : ℕ) (s : Scheduler)
    → t ≤ now
    → t ≤ last_skip gid s
    → t ≤ last_skip gid (request_skip_current_zone g now s).0
unfolding request_skip_current_zone
skip-late t gid g now s since h = elim (Bool-cases (not (is_group_session_active g s))) [
  | inl idle ↦ rw (request_skip_current_zone, idle) h
  | inr busy ↦ elim (Bool-cases (ltb (now - last_skip g s) skip_debounce)) [
    | inl soon ↦ rw (request_skip_current_zone, busy, soon) h
    | inr late ↦
        rw (request_skip_current_zone, busy, late, last_skip-insert g gid now s)
          (elim (Bool-cases (g == gid)) [ inl same ↦ rw same since | inr other ↦ rw other h ])
  ]
]

serve-late :
    (t gid : ℕ) (r : Request) (w : World) (s : Scheduler)
    → IsSince t r
    → t ≤ last_skip gid s
    → t ≤ last_skip gid (serve r w s)
unfolding serve
serve-late t gid (skip_current_zone g now) w s since h = skip-late t gid g now s since h
serve-late t gid (cancel_group g immediate) w s since h =
    subst (λ m. t ≤ get_or gid 0 m) (sym (cancel_group_jobs-Spares g immediate w s).skips) h
serve-late t gid (control event) w s since h = h
serve-late t gid shut_down w s since h = h

serve_all-late :
    (t gid : ℕ) (requests : List (Request × World)) (s : Scheduler)
    → All (λ (r : Request × World). IsSince t r.0) requests
    → t ≤ last_skip gid s
    → t ≤ last_skip gid (serve_all requests s)
unfolding serve_all
serve_all-late t gid [] s since h = h
serve_all-late t gid ((r, w) ∷ requests) s since h =
    serve_all-late t gid requests (serve r w s) since.1 (serve-late t gid r w s since.0 h)

-- Two skips of the same group that are both accepted are a second apart or more, whatever other
-- requests come in between, as long as the monotonic clock does not go back.
request_skip_current_zone-apart :
    (gid t t' : ℕ) (requests : List (Request × World)) (s : Scheduler)
    → All (λ (r : Request × World). IsSince t r.0) requests
    → (request_skip_current_zone gid t s).1 ≡ ok
    → let s₁ = serve_all requests (request_skip_current_zone gid t s).0 in
      (request_skip_current_zone gid t' s₁).1 ≡ ok → t + 1000 ≤ t'
request_skip_current_zone-apart gid t t' requests s since first second =
    let s₁ = serve_all requests (request_skip_current_zone gid t s).0 in
    let kept =
      serve_all-late t gid requests (request_skip_current_zone gid t s).0 since
        (omega (arith, ok-last gid t s first)) in
    omega (arith, ok-late gid t' s₁ second, kept)
