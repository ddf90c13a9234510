-- ===== src/Scheduler/Recovery.antt =====
-- `recover_missed_runs` of irrigation_scheduler.py: the programs that were running when the service
-- went down.
use irrigation.Base.{
  ℕ, zero, suc, ◌+◌, ◌-◌, ◌*◌, ◌/◌, Bool, true, false, not, ◌&&◌, ◌||◌, List, [], ◌∷◌, Option, none,
  some, ltb, leb, any, length, contains, if◌then◌else◌, nat_eq, nat_beq,
}
use irrigation.Base.Maps.{lookup}
use irrigation.ZoneControl.{ZoneState, on, System}
use irrigation.Scheduler.{program_recover, job_id, job_run_program, date, Scheduler}
use irrigation.Scheduler.Jobs.{add_job}

pub data ScheduleType : Type 0 where
  weekdays interval even_odd unknown : ScheduleType

-- "HH:MM"
pub record Time : Type 0 where
  pub hours : ℕ
  pub minutes : ℕ

-- A time is none if the text is not two numbers and a colon.
pub record Program : Type 0 where
  pub enabled : Bool
  pub time : Option Time
  pub extra_times : List (Option Time)
  pub zones : List ℕ
  pub schedule_type : ScheduleType
  -- 0 is Monday.
  pub days : List ℕ
  pub interval_days : ℕ
  pub even : Bool

abbrev pub is_time : Time → Bool
is_time t = ltb t.hours 24 && ltb t.minutes 60

abbrev pub time_of_day : Time → ℕ
time_of_day t = t.hours * 3600 + t.minutes * 60

abbrev insert_sorted : ℕ → List ℕ → List ℕ
insert_sorted x [] = x ∷ []
insert_sorted x (y ∷ ys) = if leb x y then x ∷ y ∷ ys else y ∷ insert_sorted x ys

-- `sorted(zones)`
abbrev pub sorted : List ℕ → List ℕ
sorted [] = []
sorted (x ∷ xs) = insert_sorted x (sorted xs)

abbrev pub drop {ℓ} : {A : Type ℓ} → ℕ → List A → List A
drop zero xs = xs
drop (suc n) [] = []
drop (suc n) (x ∷ xs) = drop n xs

abbrev pub sum : List ℕ → ℕ
sum [] = 0
sum (x ∷ xs) = x + sum xs

-- A zone that is not there takes no time.
abbrev pub duration_in : System → ℕ → ℕ
duration_in s id = elim (lookup id s.zones) [ none ↦ 0 | some z ↦ z.duration ]

abbrev pub durations : System → List ℕ → List ℕ
durations s [] = []
durations s (id ∷ ids) = duration_in s id ∷ durations s ids

abbrev is_on_state : ZoneState → Bool
is_on_state on = true
is_on_state _ = false

abbrev pub is_on : System → ℕ → Bool
is_on s id = elim (lookup id s.zones) [ none ↦ false | some z ↦ is_on_state z.state ]

-- The loop for `start_idx`: the durations that are left, and the minutes and zones before them.
unfoldable pub start_idx : (elapsed_min : ℕ) → List ℕ → (cumulative idx : ℕ) → ℕ
start_idx elapsed [] cumulative idx = idx
start_idx elapsed (dur ∷ durs) cumulative idx =
    let rest = start_idx elapsed durs (cumulative + dur) (suc idx) in
    if leb (cumulative + dur) elapsed then rest else idx

-- The zones that are left of a program that began at `start` on the day of `now`, in seconds.
unfoldable pub missed_zones : (start now : ℕ) → List ℕ → System → List ℕ
unfolding start_idx
missed_zones start now zones s =
    let durs = durations s zones in
    if ltb now start || any (is_on s) zones || leb (start + sum durs * 60) now
    then []
    else drop (start_idx ((now - start) / 60) durs 0 0) zones

-- One program, on a day of the week at a second of the day, and at an absolute time.
unfoldable pub recover_program :
    (program_id : ℕ) → Program → (weekday now time : ℕ) → Scheduler → Scheduler
unfolding missed_zones
recover_program pid p weekday now time s = elim p.time [
  | none ↦ s
  | some t ↦
      let left = missed_zones (time_of_day t) now (sorted p.zones) s.system in
      if not (contains p.days weekday) || not (is_time t) || nat_beq (length left) 0
      then s
      else add_job (job_id program_recover pid (time ∷ []))
          (record { call = job_run_program pid left; trigger = date time }) s
]

unfoldable pub recover_missed_runs :
    List (ℕ × Program) → (weekday now time : ℕ) → Scheduler → Scheduler
unfolding recover_program
recover_missed_runs [] weekday now time s = s
recover_missed_runs ((pid, p) ∷ programs) weekday now time s =
    recover_missed_runs programs weekday now time (recover_program pid p weekday now time s)
