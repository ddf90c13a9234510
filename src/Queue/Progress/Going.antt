-- ===== src/Queue/Progress/Going.antt =====
-- Stretches of the steps of an undisturbed worker of services/program_queue.py.
use Prim.Native.String.{String}
use mathlib.Core.List.{append_assoc}
use irrigation.Base.{
  ℕ, ◌+◌, ◌≤◌, ◌≡◌, refl, sym, ap, subst, ◌∙◌, false, List, [], ◌∷◌, ◌++◌, arith, length, All,
  string_eq,
}
use irrigation.Queue.{QueueEntry, Phase, running_zones, GroupQueue}
use irrigation.Queue.Worker.{
  World, no_monitor, ZoneStart, run_zone, ask_float, work, work_at, stopping,
}

-- Nothing stops the worker: no shutdown, and there is no float monitor.
abbrev pub IsCalm : World → Type 0
IsCalm w = (w.shutdown ≡ false) × (w.float ≡ no_monitor)

-- The starts of an entry's zones, in order.
abbrev pub starts_of : String → List ℕ → List ZoneStart
starts_of id [] = []
starts_of id (zone ∷ zones) = (id, zone) ∷ starts_of id zones

-- Worker steps with no call between them, and the zones that they start.
module _ (max_wait : ℕ) where
  unfoldable pub run_worker : List World → GroupQueue → GroupQueue × List ZoneStart
  run_worker [] gq = (gq, [])
  run_worker (w ∷ ws) gq =
      let (gq', started) = work max_wait w gq in
      let (gq'', started') = run_worker ws gq' in (gq'', started ++ started')

run_zone-calm :
    (w : World) (entry : QueueEntry) (zone : ℕ) (zones : List ℕ)
    → IsCalm w
    → entry.cancel_event ≡ false
    → run_zone w entry (zone ∷ zones) ≡ (running_zones entry zones, (entry.entry_id, zone) ∷ [])
unfolding run_zone ask_float
run_zone-calm w entry zone zones calm plain =
    let free : stopping w entry ≡ false = ground (arith, calm.0) in simp (free, calm.1) refl

-- The worker goes from `gq` to `gq'` in `k` of the steps `ws`, and starts the zones `started`.
pub record Goes (ws : List World) (gq : GroupQueue) (k : ℕ) (gq' : GroupQueue)
    (started : List ZoneStart) : Type 0 where
  pub rest : List World
  pub steps : length ws ≡ k + length rest
  pub calm : All IsCalm rest
  pub reaches :
      run_worker 0 ws gq ≡ ((run_worker 0 rest gq').0, started ++ (run_worker 0 rest gq').1)

pub Goes-one :
    (ws : List World) (gq gq' : GroupQueue) (started : List ZoneStart)
    → All IsCalm ws
    → 1 ≤ length ws
    → ((w : World) → IsCalm w → work 0 w gq ≡ (gq', started))
    → Goes ws gq 1 gq' started
unfolding run_worker
Goes-one [] gq gq' started calm room h = absurd (omega arith)
Goes-one (w ∷ ws) gq gq' started calm room h = record {
  rest = ws;
  steps = omega arith;
  calm = calm.1;
  reaches = rw (h w calm.0);
}

pub Goes-trans :
    {ws : List World} {gq gq' gq'' : GroupQueue} {k k' : ℕ} {started started' : List ZoneStart}
    → Goes ws gq k gq' started
    → ((rest : List World)
        → All IsCalm rest
        → length ws ≡ k + length rest
        → Goes rest gq' k' gq'' started')
    → Goes ws gq (k + k') gq'' (started ++ started')
Goes-trans {ws} {gq} {gq'} {gq''} {k} {k'} {started} {started'} g later =
    let g' = later g.rest g.calm g.steps in
    record {
      rest = g'.rest;
      steps = omega (arith, g.steps, g'.steps);
      calm = g'.calm;
      reaches =
          g.reaches
          ∙ ap (λ (r : GroupQueue × List ZoneStart). both r.0 (started ++ r.1)) g'.reaches
          ∙ ap (both (run_worker 0 g'.rest gq'').0) (sym (append_assoc started started' _));
    }
  where
    both : GroupQueue → List ZoneStart → GroupQueue × List ZoneStart
    both a b = (a, b)

Goes-zero : (ws : List World) (gq : GroupQueue) → All IsCalm ws → Goes ws gq 0 gq []
Goes-zero ws gq calm = record { rest = ws; steps = omega arith; calm = calm; reaches = refl }

pub Goes-steps :
    {ws : List World} {gq gq' : GroupQueue} {k k' : ℕ} {started : List ZoneStart}
    → k ≡ k'
    → Goes ws gq k gq' started
    → Goes ws gq k' gq' started
Goes-steps {ws} {gq} {gq'} {started = started} e g = subst (λ n. Goes ws gq n gq' started) e g

abbrev pub at : Phase → GroupQueue → GroupQueue
at phase gq = record gq { phase = phase }

pub Goes-zones :
    (zones : List ℕ) (entry : QueueEntry) (gq : GroupQueue) (ws : List World)
    → entry.cancel_event ≡ false
    → All IsCalm ws
    → length zones ≤ length ws
    → Goes ws
        (at (running_zones entry zones) gq)
        (length zones)
        (at (running_zones entry []) gq)
        (starts_of entry.entry_id zones)
unfolding work work_at
Goes-zones [] entry gq ws plain calm room = Goes-zero ws _ calm
Goes-zones (zone ∷ zones) entry gq ws plain calm room = Goes-steps (omega arith) (
    Goes-trans
      (Goes-one ws _ (at (running_zones entry zones) gq) ((entry.entry_id, zone) ∷ []) calm
        (omega arith) (λ w c. rw (run_zone-calm w entry zone zones c plain)))
      (λ rest c e. Goes-zones zones entry gq rest plain c (omega (arith, e))))

pub length-zero {ℓ} : {A : Type ℓ} (xs : List A) → length xs ≡ 0 → xs ≡ []
length-zero [] h = refl
length-zero (x ∷ xs) h = absurd (omega arith)
