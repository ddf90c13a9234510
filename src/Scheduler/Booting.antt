-- ===== src/Scheduler/Booting.antt =====
-- What the start of irrigation_scheduler.py leaves running.
use irrigation.Base.{
  ℕ, ◌≡◌, ◌∙◌, ◌-◌, refl, ap, inl, inr, true, false, List, arith, contains, contains-keep_if,
  nat_beq_iff, nat_eq, Bool-cases, Option-cases, keep_if,
}
use irrigation.Base.Maps.{lookup}
use irrigation.ZoneControl.{
  ZoneState, off, starting, on, stopping, fault, paused, other, System, World, in_group, is_active,
  keys,
}
use irrigation.ZoneControl.Master.{is_on_or_starting}
use irrigation.ZoneControl.Quiet.{Moves-off, Moves-IsStep, contains-keys}
use irrigation.ZoneControl.Stopping.{stop_each-stops}
use irrigation.ZoneControl.Calls.{stop_each-step}
use irrigation.Scheduler.{Scheduler}
use irrigation.Scheduler.Jobs.{cleanup_jobs_on_boot}
use irrigation.Scheduler.Recovery.{Program, recover_missed_runs}
use irrigation.Scheduler.Programs.{load_programs}
use irrigation.Scheduler.Boot.{
  is_lingering, lingers, boot_stop, clear_expired_postpones, stop_on_boot_active_zones, boot,
}

active-lingers : (st : ZoneState) → is_active st ≡ true → is_lingering st ≡ true
active-lingers off h = ground arith
active-lingers starting h = refl
active-lingers on h = refl
active-lingers stopping h = refl
active-lingers fault h = ground arith
active-lingers paused h = refl
active-lingers other h = ground arith

contains-lingering :
    (i : ℕ) (s : System)
    → is_on_or_starting i s ≡ true
    → contains (keep_if (λ id. lingers (lookup id s.zones)) (keys s.zones)) i ≡ true
contains-lingering i s runs =
    contains-keep_if (λ id. lingers (lookup id s.zones)) (keys s.zones) i
    ∙ (elim (Option-cases (lookup i s.zones)) [
      | inl missing ↦ (let clash : false ≡ true = rw missing at runs in cc)
      | inr (z, there) ↦
          rw
            (
              contains-keys z.group_id i s.zones
                  (ap (in_group z.group_id) there ∙ (nat_beq_iff z.group_id z.group_id).1 refl),
              there,
            )
            (active-lingers z.state (rw there at runs))
    ])

stop_on_boot-stops :
    (i : ℕ) (w : World) (s : System) → is_on_or_starting i (stop_on_boot_active_zones w s) ≡ false
unfolding stop_on_boot_active_zones
stop_on_boot-stops i w s =
    let ids = keep_if (λ id. lingers (lookup id s.zones)) (keys s.zones) in
    elim (Bool-cases (is_on_or_starting i s)) [
      | inl runs ↦ stop_each-stops ids i boot_stop w s (contains-lingering i s runs)
      | inr rests ↦
          Moves-off i (stop_each-step _ (Moves-IsStep (λ _. false)) ids boot_stop w s) refl rests
    ]

-- Whatever state a crash has left behind, and whatever the jobs that are live already do before the last
-- step of the start, the runs that have just been recovered included: when that step has gone through
-- the zones, no zone is on or starting, if none is started while it does so.
pub boot-stops :
    (programs : List (ℕ × Program)) (midnight weekday : ℕ) (w : World)
    (others : ℕ → Scheduler → Scheduler) (s : Scheduler) (i : ℕ)
    → is_on_or_starting i (boot programs midnight weekday w others s).system ≡ false
unfolding boot
boot-stops programs midnight weekday w others s i =
    let s₀ = others 0 (clear_expired_postpones w.time s) in
    let s₁ = others 1 (load_programs programs midnight w.time s₀) in
    let s₂ = others 2 (recover_missed_runs programs weekday (w.time - midnight) w.time s₁) in
    stop_on_boot-stops i w (others 3 (cleanup_jobs_on_boot s₂)).system
