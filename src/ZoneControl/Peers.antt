-- ===== src/ZoneControl/Peers.antt =====
-- Which zones run after `exclusive_start_zone`.
use irrigation.Base.{
  ℕ, ◌≡◌, refl, ap, ◌∙◌, subst, inl, inr, true, false, List, [], ◌∷◌, some, arith, contains, ◌==◌,
  nat_eq, list_eq, nat_beq_iff, Bool-cases, Option-cases,
}
use irrigation.Base.Maps.{lookup}
use irrigation.ZoneControl.{ZoneState, Zone, System, World, is_active, is_off, reaches}
use irrigation.ZoneControl.Start.{
  to_stopping, peer_off, switch_peer_off, stop_peer, mark_peer, stop_peers,
}
use irrigation.ZoneControl.Master.{active, is_on_or_starting}
use irrigation.ZoneControl.Calls.{switch_peer_off-step, stop_peers-step}
use irrigation.ZoneControl.Quiet.{Moves-IsStep, Moves-off, update_zone_state-stops, lookup-other}

off-active : (state : ZoneState) → is_off state ≡ true → is_active state ≡ false
off-active state h = ground arith

mark_peer-stops :
    (id : ℕ) (z : Zone) (s : System)
    → lookup id s.zones ≡ some z
    → is_on_or_starting id (mark_peer id z s) ≡ false
unfolding mark_peer
mark_peer-stops id z s there = elim (Bool-cases (is_off z.state)) [
  | inl off ↦ rw (mark_peer, off) (ap active there ∙ off-active z.state off)
  | inr not_off ↦ rw (mark_peer, not_off) (update_zone_state-stops id to_stopping _ s refl)
]

stop_peer-stops :
    (w : World) (id : ℕ) (s : System) → is_on_or_starting id (stop_peer w id s) ≡ false
unfolding stop_peer
stop_peer-stops w id s = elim (Option-cases (lookup id s.zones)) [
  | inl missing ↦ rw (missing, stop_peer) (ap active missing)
  | inr (z, there) ↦
      rw (there, stop_peer)
        (Moves-off id (switch_peer_off-step _ (Moves-IsStep (λ _. false)) id z w (mark_peer id z s))
          refl (mark_peer-stops id z s there))
]

pub stop_peers-stops :
    (w : World) (ids : List ℕ) (i : ℕ) (s : System)
    → contains ids i ≡ true
    → is_on_or_starting i (stop_peers w ids s) ≡ false
unfolding stop_peers
stop_peers-stops w [] i s h = ground arith
stop_peers-stops w (id ∷ ids) i s h = elim (Bool-cases (id == i)) [
  | inl same ↦
      Moves-off i (stop_peers-step _ (Moves-IsStep (λ _. false)) w ids (stop_peer w id s)) refl (
        subst (λ j. is_on_or_starting j (stop_peer w id s) ≡ false) ((nat_beq_iff id i).0 same)
          (stop_peer-stops w id s))
  | inr other ↦ stop_peers-stops w ids i (stop_peer w id s) (ground arith)
]

switch_peer_off-other :
    (i k : ℕ) (z : Zone) (w : World) (s : System)
    → (k == i) ≡ false
    → lookup i (switch_peer_off k z w s).zones ≡ lookup i s.zones
unfolding switch_peer_off
switch_peer_off-other i k z w s h = elim (Bool-cases (reaches w z.topic z.mqtt_server_id)) [
  | inl sent ↦ rw (switch_peer_off, sent) (lookup-other i k peer_off "peer_off" _ h)
  | inr unsent ↦ rw (switch_peer_off, unsent) refl
]

mark_peer-other :
    (i k : ℕ) (z : Zone) (s : System)
    → (k == i) ≡ false
    → lookup i (mark_peer k z s).zones ≡ lookup i s.zones
unfolding mark_peer
mark_peer-other i k z s h = elim (Bool-cases (is_off z.state)) [
  | inl off ↦ rw (mark_peer, off) refl
  | inr not_off ↦ rw (mark_peer, not_off) (lookup-other i k to_stopping _ s h)
]

stop_peer-other :
    (i k : ℕ) (w : World) (s : System)
    → (k == i) ≡ false
    → lookup i (stop_peer w k s).zones ≡ lookup i s.zones
unfolding stop_peer
stop_peer-other i k w s h = elim (Option-cases (lookup k s.zones)) [
  | inl missing ↦ rw (stop_peer, missing) refl
  | inr (z, there) ↦
      rw (stop_peer, there)
        (switch_peer_off-other i k z w (mark_peer k z s) h ∙ mark_peer-other i k z s h)
]

pub stop_peers-other :
    (i : ℕ) (w : World) (ids : List ℕ) (s : System)
    → contains ids i ≡ false
    → lookup i (stop_peers w ids s).zones ≡ lookup i s.zones
unfolding stop_peers
stop_peers-other i w [] s h = refl
stop_peers-other i w (k ∷ ids) s h =
    stop_peers-other i w ids (stop_peer w k s) (ground arith)
    ∙ stop_peer-other i k w s (ground arith)
