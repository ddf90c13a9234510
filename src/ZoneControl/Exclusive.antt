-- ===== src/ZoneControl/Exclusive.antt =====
-- Mutual exclusion in a group: `exclusive_start_zone` of services/zone_control.py.
use Prim.Native.String.{String}
use irrigation.Base.{
  ℕ, ◌≡◌, ◌≢◌, refl, sym, ap, ◌∙◌, inl, inr, Bool, true, false, not, ◌&&◌, some, arith, contains,
  contains-keep_if, ◌==◌, nat_eq, list_eq, nat_beq_iff, Bool-cases,
}
use irrigation.Base.Maps.{lookup}
use irrigation.ZoneControl.{
  Zone, System, World, is_active, in_group, publish, relay_publish, reaches, zones_by_group,
}
use irrigation.ZoneControl.Start.{
  to_starting, peers_of, acknowledged_on, stop_peers, open_master, open_run, mark_starting,
  switch_on, start_zone, exclusive_start_zone,
}
use irrigation.ZoneControl.Master.{active, is_on_or_starting}
use irrigation.ZoneControl.Quiet.{
  Moves-IsStep, Moves, Moves-off, update_zone_state-runs, update_zone_state-starts,
  contains-zones_by_group, Moves-update_zone_state,
}
use irrigation.ZoneControl.Calls.{exclusive_start_zone-step}
use irrigation.ZoneControl.Steps.{opened-SameZones}
use irrigation.ZoneControl.Peers.{stop_peers-stops, stop_peers-other}
use mathlib.Core.Bool.{false≢true}

mark_starting-runs :
    (id : ℕ) (z : Zone) (w : World) (s : System)
    → lookup id s.zones ≡ some z
    → is_on_or_starting id (mark_starting id z w s) ≡ true
unfolding mark_starting
mark_starting-runs id z w s there = elim (Bool-cases (is_active z.state)) [
  | inl runs ↦ rw (mark_starting, runs) (ap active there ∙ runs)
  | inr rests ↦
      rw (mark_starting, rests) (update_zone_state-starts id (to_starting w) _ s z there refl)
]

switch_on-runs :
    (id : ℕ) (z : Zone) (w : World) (s : System)
    → is_on_or_starting id s ≡ true
    → is_on_or_starting id (switch_on id z w s) ≡ true
unfolding switch_on
switch_on-runs id z w s h = elim (Bool-cases (reaches w z.topic z.mqtt_server_id)) [
  | inl sent ↦
      rw (switch_on, sent)
        (update_zone_state-runs id acknowledged_on "mqtt_ack_on" (publish (relay_publish z true) s)
          h refl)
  | inr unsent ↦ rw (switch_on, unsent) h
]

start_zone-runs :
    (id : ℕ) (z : Zone) (source : String) (w : World) (s : System)
    → lookup id s.zones ≡ some z
    → is_on_or_starting id (start_zone id z source w s) ≡ true
unfolding start_zone
start_zone-runs id z source w s there =
    switch_on-runs id z w
      (open_master z.group_id w (open_run id z.group_id source w (mark_starting id z w s)))
      (ap (λ zones. active (lookup id zones))
          (opened-SameZones id z.group_id source w (mark_starting id z w s)).zones
        ∙ mark_starting-runs id z w s there)

-- The peers of a zone in a group are the others of the group.
contains-peers_of :
    (id gid i : ℕ) (s : System)
    → gid ≢ 0
    → contains (peers_of id gid s) i ≡ (in_group gid (lookup i s.zones) && not (i == id))
contains-peers_of id gid i s grouped = elim (Bool-cases (gid == 0)) [
  | inl zero ↦ absurd (grouped ((nat_beq_iff gid 0).0 zero))
  | inr nonzero ↦
      rw (peers_of, nonzero)
        (contains-keep_if (λ peer. not (peer == id)) (zones_by_group gid s) i
          ∙ ap (λ b. b && not (i == id)) (contains-zones_by_group gid i s))
]

-- What a start of a zone of a group leaves of the peers, when it began with `s`.
peers-off :
    (id i : ℕ) (z : Zone) (w : World) (s s₁ : System)
    → z.group_id ≢ 0
    → in_group z.group_id (lookup i s.zones) ≡ true
    → is_on_or_starting i (stop_peers w (peers_of id z.group_id s) s₁) ≡ true
    → i ≡ id
peers-off id i z w s s₁ grouped member runs = elim (Bool-cases (i == id)) [
  | inl same ↦ (nat_beq_iff i id).0 same
  | inr other ↦ absurd (
      false≢true (
        sym (
          stop_peers-stops w (peers_of id z.group_id s) i s₁
            (contains-peers_of id z.group_id i s grouped ∙ rw (member, other) refl))
        ∙ runs))
]

started-runs :
    (id : ℕ) (z : Zone) (source : String) (w : World) (s : System)
    → lookup id s.zones ≡ some z
    → z.group_id ≢ 0
    → is_on_or_starting id (stop_peers w (peers_of id z.group_id s) (start_zone id z source w s))
      ≡ true
started-runs id z source w s there grouped =
    ap active (
      stop_peers-other id w (peers_of id z.group_id s) (start_zone id z source w s) (
        contains-peers_of id z.group_id id s grouped
        ∙ rw ((nat_beq_iff id id).1 refl) (ground arith)))
    ∙ start_zone-runs id z source w s there

-- Only the started zone can start to run.
pub Moves-exclusive_start_zone :
    (only : ℕ → Bool) (id : ℕ) (source : String) (w : World) (s : System)
    → only id ≡ true
    → Moves only s (exclusive_start_zone id source w s).0
Moves-exclusive_start_zone only id source w s h =
    exclusive_start_zone-step (Moves only) (Moves-IsStep only) id
      (λ u reason t _. Moves-update_zone_state only id u reason t (rw h (ground arith))) source w s

pub other-rested :
    (only : ℕ → Bool) (s s' : System) (i : ℕ)
    → Moves only s s'
    → only i ≡ false
    → is_on_or_starting i s' ≡ true
    → is_on_or_starting i s ≡ true
other-rested only s s' i m h runs = elim (Bool-cases (is_on_or_starting i s)) [
  | inl ran ↦ ran
  | inr rested ↦ absurd (false≢true (sym (Moves-off i m h rested) ∙ runs))
]

-- A zone of a group, started in whatever state the group is, runs and is the only one of the group
-- that does. No other zone of the system runs that did not run before.
pub exclusive_start_zone-IsAlone :
    (id : ℕ) (source : String) (w : World) (s : System) (z : Zone)
    → lookup id s.zones ≡ some z
    → z.group_id ≢ 0
    → let s' = (exclusive_start_zone id source w s).0 in
      (is_on_or_starting id s' ≡ true)
      × ((i : ℕ)
          → in_group z.group_id (lookup i s.zones) ≡ true
          → is_on_or_starting i s' ≡ true
          → i ≡ id)
      × ((i : ℕ) → i ≢ id → is_on_or_starting i s' ≡ true → is_on_or_starting i s ≡ true)
unfolding exclusive_start_zone
exclusive_start_zone-IsAlone id source w s z there grouped =
    let m = Moves-exclusive_start_zone (λ i. i == id) id source w s ((nat_beq_iff id id).1 refl) in
    (
      rw (exclusive_start_zone, there) (started-runs id z source w s there grouped),
      λ i member.
          rw (exclusive_start_zone, there)
            (peers-off id i z w s (start_zone id z source w s) grouped member),
      λ i other. other-rested (λ i. i == id) s _ i m (ground (arith, nat_beq_iff i id)),
    )
