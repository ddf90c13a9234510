-- ===== src/Scheduler/Sparing.antt =====
-- What `cancel_group_jobs` of irrigation_scheduler.py does not touch.
use irrigation.Base.{ℕ, ◌≡◌, ◌∙◌, refl, inl, inr, Bool, List, [], ◌∷◌, nat_eq, Option-cases}
use irrigation.Base.Maps.{lookup}
use irrigation.ZoneControl.{World, zones_by_group}
use irrigation.Scheduler.{Scheduler}
use irrigation.Scheduler.Jobs.{
  cancel_group_jobs, cancel_each, cancel_zone_jobs, set_cancel, halt_group,
}

-- The same events of the groups, times of skips, and log.
pub record Spares (s s' : Scheduler) : Type 0 where
  pub events : s'.group_cancel_events ≡ s.group_cancel_events
  pub skips : s'.last_skip_ts ≡ s.last_skip_ts
  pub log : s'.log ≡ s.log

Spares-trans : (s₁ s₂ s₃ : Scheduler) → Spares s₁ s₂ → Spares s₂ s₃ → Spares s₁ s₃
Spares-trans s₁ s₂ s₃ h k = record {
  events = k.events ∙ h.events;
  skips = k.skips ∙ h.skips;
  log = k.log ∙ h.log;
}

cancel_each-Spares : (ids : List ℕ) (s : Scheduler) → Spares s (cancel_each ids s)
unfolding cancel_each cancel_zone_jobs
cancel_each-Spares [] s = record { events = refl; skips = refl; log = refl }
cancel_each-Spares (id ∷ ids) s =
    let h = cancel_each-Spares ids (cancel_zone_jobs id s) in
    record { events = h.events; skips = h.skips; log = h.log }

halt_group-Spares :
    (gid : ℕ) (immediate : Bool) (w : World) (s : Scheduler)
    → Spares s (halt_group gid immediate w s)
unfolding halt_group
halt_group-Spares gid immediate w s = elim (Option-cases (lookup gid s.group_cancel_events)) [
  | inl free ↦ rw (set_cancel, free) (record { events = refl; skips = refl; log = refl })
  | inr (e, held) ↦ rw (set_cancel, held) (record { events = refl; skips = refl; log = refl })
]

pub cancel_group_jobs-Spares :
    (gid : ℕ) (immediate : Bool) (w : World) (s : Scheduler)
    → Spares s (cancel_group_jobs gid immediate w s)
unfolding cancel_group_jobs
cancel_group_jobs-Spares gid immediate w s =
    let s₁ = halt_group gid immediate w s in
    let ids = zones_by_group gid s₁.system in
    let h =
      Spares-trans s s₁ (cancel_each ids s₁) (halt_group-Spares gid immediate w s)
        (cancel_each-Spares ids s₁) in
    record { events = h.events; skips = h.skips; log = h.log }
