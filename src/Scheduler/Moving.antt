-- ===== src/Scheduler/Moving.antt =====
-- Which zones the steps of a program's run in irrigation_scheduler.py can start.
use irrigation.Base.{
  ℕ, Bool-cases, ◌==◌, nat_eq, nat_beq_iff, ◌||◌, ◌≡◌, ◌∙◌, refl, ap, inl, inr, Bool, true, false,
  List, [], ◌∷◌, Option, none, some, ◌⊎◌, arith, All, ◌==◌, nat_eq, if◌then◌else◌, Option-cases,
}
use irrigation.Base.Maps.{lookup, map_some, adjust, lookup-adjust}
use irrigation.ZoneControl.{Zone, System, World, zones_by_group}
use irrigation.ZoneControl.Master.{active, is_on_or_starting}
use irrigation.ZoneControl.Stop.{Stop, stop_zone, stop_all_in_group}
use irrigation.ZoneControl.Emergency.{emergency}
use irrigation.ZoneControl.Quiet.{
  moved, Moves, Moves-refl, Moves-trans, Moves-IsStep, Moves-update_zone_state,
}
use irrigation.ZoneControl.Stopping.{stop_zone-stops}
use irrigation.ZoneControl.Exclusive.{Moves-exclusive_start_zone}
use irrigation.ZoneControl.Calls.{
  stop_zone-step, stop_all_in_group-step, stop_groups-step, retry-step,
}
use irrigation.ZoneControl.Steps.{close_masters-SameZones, fire-SameZones}
use irrigation.ZoneControl.Trace.{
  Event, start, stop_one, stop_group, emergency_stop, emergency_retry, emergency_close, timer,
  perform,
}
use irrigation.Scheduler.{Scheduler, request_skip_current_zone}
use irrigation.Scheduler.Jobs.{
  cancel_group_jobs, cancel_each, cancel_zone_jobs, cancel_stop, set_cancel, halt_group,
}
use irrigation.Scheduler.Steps.{peers_off-step, switch_zones-step}
use irrigation.Scheduler.Waiting.{
  Request, skip_current_zone, cancel_group, control, shut_down, serve, serve_all,
}
use irrigation.Scheduler.Program.{clear_expired, peers_off, switch_zones, plan_end}

-- More zones may start.
widened :
    (may may' : Bool) (a b : Option Zone)
    → (may ≡ true → may' ≡ true)
    → moved may a b ≡ true
    → moved may' a b ≡ true
widened may may' none none h m = refl
widened may may' none (some y) h m = ground arith
widened may may' (some x) none h m = ground arith
widened may may' (some x) (some y) h m = ground arith

pub Moves-wider :
    (only wider : ℕ → Bool) {s s' : System}
    → ((i : ℕ) → only i ≡ true → wider i ≡ true)
    → Moves only s s'
    → Moves wider s s'
Moves-wider only wider {s} {s'} h m = record {
  at = λ i. widened (only i) (wider i) (lookup i s.zones) (lookup i s'.zones) (h i) (m.at i);
}

narrowed :
    (may may' : Bool) (a b : Option Zone)
    → (may ≡ true → (may' ≡ true) ⊎ (active b ≡ false))
    → moved may a b ≡ true
    → moved may' a b ≡ true
narrowed may may' none none h m = refl
narrowed may may' none (some y) h m = ground arith
narrowed may may' (some x) none h m = ground arith
narrowed may may' (some x) (some y) h m = ground arith

-- A zone that does not run in the end need not be listed.
pub Moves-narrower :
    (only narrower : ℕ → Bool) {s s' : System}
    → ((i : ℕ) → only i ≡ true → (narrower i ≡ true) ⊎ (is_on_or_starting i s' ≡ false))
    → Moves only s s'
    → Moves narrower s s'
Moves-narrower only narrower {s} {s'} h m = record {
  at = λ i. narrowed (only i) (narrower i) (lookup i s.zones) (lookup i s'.zones) (h i) (m.at i);
}

moved-adjusted :
    (may b : Bool) (f : Zone → Zone) (o : Option Zone)
    → ((z : Zone) → moved may (some z) (some (f z)) ≡ true)
    → ((z : Zone) → moved may (some z) (some z) ≡ true)
    → moved may o (if b then map_some f o else o) ≡ true
moved-adjusted may true f none h k = refl
moved-adjusted may true f (some z) h k = h z
moved-adjusted may false f none h k = refl
moved-adjusted may false f (some z) h k = k z

-- A change of a row that keeps its group and its state.
pub Moves-adjust :
    (only : ℕ → Bool) (id : ℕ) (f : Zone → Zone) (s : System)
    → ((may : Bool) → (z : Zone) → moved may (some z) (some (f z)) ≡ true)
    → Moves only s (record s { zones = adjust id f s.zones })
Moves-adjust only id f s h = record {
  at = λ i.
      rw (lookup-adjust id i f s.zones)
        (moved-adjusted (only i) (id == i) f (lookup i s.zones) (h (only i)) (λ z. ground arith));
}

module _ (only : ℕ → Bool) where
  pub plan_end-Moves :
      (id : ℕ) (end_time : Option ℕ) (s : System) → Moves only s (plan_end id end_time s)
  plan_end-Moves id end_time s =
      Moves-adjust only id (λ z. record z { planned_end_time = end_time }) s (λ may z. ground arith)

  pub peers_off-Moves : (w : World) (ids : List ℕ) (s : System) → Moves only s (peers_off w ids s)
  peers_off-Moves w ids s = peers_off-step (Moves only) (Moves-IsStep only) w ids s

  pub switch_zones-Moves :
      (id gid : ℕ) (w : World) (s : System)
      → only id ≡ true
      → Moves only s (switch_zones id gid w s)
  switch_zones-Moves id gid w s h =
      switch_zones-step (Moves only) (Moves-IsStep only) id gid w s
        (λ u reason t _. Moves-update_zone_state only id u reason t (rw h (ground arith)))

  pub clear_expired-Moves :
      (id : ℕ) (z : Zone) (s : Scheduler) → Moves only s.system (clear_expired id z s).system
  clear_expired-Moves id z s = elim (Option-cases z.postpone_until) [
    | inl never ↦ rw (clear_expired, never) (Moves-refl only s.system s.system refl)
    | inr (t, there) ↦
        rw (clear_expired, there)
          (Moves-adjust only id (λ z. record z { postpone_until = none }) s.system
            (λ may z. ground arith))
  ]

  pub stop_zone-Moves :
      (id : ℕ) (stop : Stop) (w : World) (s : System) → Moves only s (stop_zone id stop w s).0
  stop_zone-Moves id stop w s = stop_zone-step (Moves only) (Moves-IsStep only) id stop w s

  -- A zone that is watered may start, too, until it is stopped.
  abbrev pub or_zone : ℕ → ℕ → Bool
  or_zone id i = only i || i == id

  pub stopped-Moves :
      (id : ℕ) (stop : Stop) (w : World) (s₁ s₂ : System)
      → Moves (or_zone id) s₁ s₂
      → Moves only s₁ (stop_zone id stop w s₂).0
  stopped-Moves id stop w s₁ s₂ m =
      Moves-narrower (or_zone id) only
        (λ i may. elim (Bool-cases (i == id)) [
          | inl same ↦ inr (
              ap (λ k. is_on_or_starting k (stop_zone id stop w s₂).0) ((nat_beq_iff i id).0 same)
              ∙ stop_zone-stops id stop w s₂)
          | inr another ↦ inl (ground arith)
        ])
        (Moves-trans {s₂ = s₂} m
          (stop_zone-step (Moves (or_zone id)) (Moves-IsStep (or_zone id)) id stop w s₂))

  -- May the request be made, as far as it starts a zone?
  abbrev pub Allows : Request → Type 0
  Allows (control (start id source)) = only id ≡ true
  Allows _ = Unit

  perform-Moves :
      (event : Event) (w : World) (s : System)
      → Allows (control event)
      → Moves only s (perform event w s)
  perform-Moves (start id source) w s h = Moves-exclusive_start_zone only id source w s h
  perform-Moves (stop_one id stop) w s h = stop_zone-Moves id stop w s
  perform-Moves (stop_group gid stop) w s h =
      stop_all_in_group-step (Moves only) (Moves-IsStep only) gid stop w s
  perform-Moves (emergency_stop gids reason) w s h =
      stop_groups-step (Moves only) (Moves-IsStep only) gids (emergency reason) w s
  perform-Moves (emergency_retry gids reason) w s h =
      retry-step (Moves only) (Moves-IsStep only) gids reason w s
  perform-Moves (emergency_close groups) w s h =
      Moves-refl only s _ (close_masters-SameZones [] groups w s).zones
  perform-Moves (timer key) w s h = Moves-refl only s _ (fire-SameZones key w s).zones

pub cancel_each-system : (ids : List ℕ) (s : Scheduler) → (cancel_each ids s).system ≡ s.system
unfolding cancel_each cancel_zone_jobs
cancel_each-system [] s = refl
cancel_each-system (id ∷ ids) s = cancel_each-system ids (cancel_zone_jobs id s)

pub set_cancel-system : (gid : ℕ) (s : Scheduler) → (set_cancel gid s).system ≡ s.system
set_cancel-system gid s = elim (Option-cases (lookup gid s.group_cancel_events)) [
  | inl free ↦ rw (set_cancel, free) refl
  | inr (e, held) ↦ rw (set_cancel, held) refl
]

-- The zones are stopped.
pub cancel_group_jobs-system :
    (gid : ℕ) (immediate : Bool) (w : World) (s : Scheduler)
    → (cancel_group_jobs gid immediate w s).system
      ≡ stop_all_in_group gid (cancel_stop immediate) w s.system
unfolding cancel_group_jobs halt_group
cancel_group_jobs-system gid immediate w s =
    let s₁ = halt_group gid immediate w s in
    cancel_each-system (zones_by_group gid s₁.system) s₁
    ∙ ap (stop_all_in_group gid (cancel_stop immediate) w) (set_cancel-system gid s)

request_skip-system :
    (gid now : ℕ) (s : Scheduler) → (request_skip_current_zone gid now s).0.system ≡ s.system
unfolding request_skip_current_zone
request_skip-system gid now s = ground arith

pub serve-Moves :
    (only : ℕ → Bool) (r : Request) (w : World) (s : Scheduler)
    → Allows only r
    → Moves only s.system (serve r w s).system
unfolding serve
serve-Moves only (skip_current_zone gid now) w s h =
    Moves-refl only s.system _ (ap (λ (t : System). t.zones) (request_skip-system gid now s))
serve-Moves only (cancel_group gid immediate) w s h =
    rw (cancel_group_jobs-system gid immediate w s) (
      stop_all_in_group-step (Moves only) (Moves-IsStep only) gid (cancel_stop immediate) w
        s.system)
serve-Moves only (control event) w s h = perform-Moves only event w s.system h
serve-Moves only shut_down w s h = Moves-refl only s.system s.system refl

pub serve_all-Moves :
    (only : ℕ → Bool) (requests : List (Request × World)) (s : Scheduler)
    → All (λ (r : Request × World). Allows only r.0) requests
    → Moves only s.system (serve_all requests s).system
unfolding serve_all
serve_all-Moves only [] s h = Moves-refl only s.system s.system refl
serve_all-Moves only ((r, w) ∷ requests) s h =
    Moves-trans {s₂ = (serve r w s).system} (serve-Moves only r w s h.0)
      (serve_all-Moves only requests (serve r w s) h.1)
