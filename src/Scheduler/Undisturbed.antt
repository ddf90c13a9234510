-- ===== src/Scheduler/Undisturbed.antt =====
-- Runs of a program of irrigation_scheduler.py that nobody disturbs: what such a run may find, and the
-- entries of the log that it leaves.
use irrigation.Base.{
  ℕ, ◌≡◌, ◌≢◌, ◌∙◌, refl, sym, ap, ap₂, inl, inr, false, List, [], ◌∷◌, ◌++◌, Option, none, some,
  arith, ◌+◌, ◌*◌, nat_eq, nat_beq, nat_beq_iff, Option-cases,
}
use mathlib.Core.List.{append_assoc, append-nil}
use irrigation.Base.Maps.{lookup}
use irrigation.ZoneControl.{Postpone, System}
use irrigation.Scheduler.{Scheduler, Log, zone_auto_start, is_cancelled, is_skipped}
use irrigation.Scheduler.Recovery.{duration_in, durations}
use irrigation.Scheduler.Waiting.{Outside, Thread}
use irrigation.Scheduler.Rows.{row_of, SameRows, SameRows-trans}

-- Nothing is cancelled, skipped or shut down.
pub record IsCalm (s : Scheduler) : Type 0 where
  pub cancelled : (gid : ℕ) → is_cancelled gid s ≡ false
  pub skipped : (gid : ℕ) → is_skipped gid s ≡ false
  pub shutdown : s.shutdown ≡ false

-- Nobody makes a request, and no weather is taken into account.
pub record IsUndisturbed (o : Outside) : Type 0 where
  pub others : (n : ℕ) → o.others n ≡ []
  pub coefficient : (n : ℕ) → o.coefficient n ≡ none
  pub should_skip : o.should_skip ≡ false
  pub cancelled_today : (n gid : ℕ) → o.cancelled_today n gid ≡ false

-- The zone is there, has a duration and is not postponed.
pub record IsReady (s : System) (id : ℕ) : Type 0 where
  pub duration : ℕ
  pub row : row_of (lookup id s.zones) ≡ some (duration, none)
  pub positive : duration ≢ 0

-- The entries of the log that the starts leave, the first one at a time: each entry has the end that
-- is planned, which is the start of the next zone.
abbrev pub plan : (time : ℕ) → System → List ℕ → List Log
plan time s [] = []
plan time s (id ∷ ids) =
    let d = duration_in s id in zone_auto_start id d (time + d * 60) ∷ plan (time + d * 60) s ids

-- The same requests and sessions.
pub record IsSameCalm (s s' : Scheduler) : Type 0 where
  pub is_set : s'.is_set ≡ s.is_set
  pub events : s'.group_cancel_events ≡ s.group_cancel_events
  pub skips : s'.group_skip_current_events ≡ s.group_skip_current_events
  pub shutdown : s'.shutdown ≡ s.shutdown

pub IsCalm-IsSameCalm : (s s' : Scheduler) → IsSameCalm s s' → IsCalm s → IsCalm s'
IsCalm-IsSameCalm s s' e h = record {
  cancelled = λ gid. rw (e.is_set, e.events) (h.cancelled gid);
  skipped = λ gid. rw e.skips (h.skipped gid);
  shutdown = e.shutdown ∙ h.shutdown;
}

-- What a part of the run takes, and what it leaves in the log.
pub record IsAfter (p : Thread) (seconds : ℕ) (entries : List Log) (q : Thread) : Type 0 where
  pub calm : IsCalm q.scheduler
  pub rows : SameRows p.scheduler.system q.scheduler.system
  pub clock : q.clock ≡ p.clock + seconds
  pub log : q.scheduler.log ≡ p.scheduler.log ++ entries

pub IsAfter-trans :
    {p q r : Thread} {m n total : ℕ} {xs ys : List Log}
    → IsAfter p m xs q
    → IsAfter q n ys r
    → total ≡ m + n
    → IsAfter p total (xs ++ ys) r
IsAfter-trans {p} {q} {r} {m} {n} {total} {xs} {ys} h k e = record {
  calm = k.calm;
  rows = SameRows-trans h.rows k.rows;
  clock = omega (arith, h.clock, k.clock, e);
  log = k.log ∙ ap (λ l. l ++ ys) h.log ∙ append_assoc p.scheduler.log xs ys;
}

pub same_rows : (s : System) → SameRows s s
same_rows s = record { at = λ id. refl }

-- A part that takes no time and logs nothing.
pub instant :
    (p q : Thread)
    → IsCalm q.scheduler
    → SameRows p.scheduler.system q.scheduler.system
    → q.clock ≡ p.clock
    → q.scheduler.log ≡ p.scheduler.log
    → IsAfter p 0 [] q
instant p q calm rows clock log = record {
  calm = calm;
  rows = rows;
  clock = omega (arith, clock);
  log = log ∙ sym (append-nil p.scheduler.log);
}

pub not_zero : (n : ℕ) → n ≢ 0 → nat_beq n 0 ≡ false
not_zero n h = ground (arith, nat_beq_iff n 0)

pub IsReady-SameRows : (id : ℕ) (s s' : System) → SameRows s s' → IsReady s id → IsReady s' id
IsReady-SameRows id s s' rows r = record {
  duration = r.duration;
  row = rows.at id ∙ r.row;
  positive = r.positive;
}

abbrev duration_of_row : Option (ℕ × Option Postpone) → ℕ
duration_of_row none = 0
duration_of_row (some (d, postponed)) = d

duration_in-row :
    (id : ℕ) (s : System) → duration_in s id ≡ duration_of_row (row_of (lookup id s.zones))
duration_in-row id s = elim (Option-cases (lookup id s.zones)) [
  | inl missing ↦ rw (duration_in, missing) refl
  | inr (z, there) ↦ rw (duration_in, there) refl
]

pub duration_in-ready : (id : ℕ) (s : System) (r : IsReady s id) → duration_in s id ≡ r.duration
duration_in-ready id s r = duration_in-row id s ∙ ap duration_of_row r.row

duration_in-SameRows :
    (id : ℕ) (s s' : System) → SameRows s s' → duration_in s' id ≡ duration_in s id
duration_in-SameRows id s s' rows =
    duration_in-row id s' ∙ ap duration_of_row (rows.at id) ∙ sym (duration_in-row id s)

pub durations-SameRows :
    (ids : List ℕ) (s s' : System) → SameRows s s' → durations s' ids ≡ durations s ids
durations-SameRows [] s s' rows = refl
durations-SameRows (id ∷ ids) s s' rows =
    ap₂ (λ d ds. d ∷ ds) (duration_in-SameRows id s s' rows) (durations-SameRows ids s s' rows)

pub plan-SameRows :
    (time : ℕ) (ids : List ℕ) (s s' : System) → SameRows s s' → plan time s' ids ≡ plan time s ids
plan-SameRows time [] s s' rows = refl
plan-SameRows time (id ∷ ids) s s' rows = rw (duration_in-SameRows id s s' rows) (
    let d = duration_in s id in
    ap (λ l. zone_auto_start id d (time + d * 60) ∷ l)
      (plan-SameRows (time + d * 60) ids s s' rows))
