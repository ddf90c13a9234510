-- ===== src/Scheduler/Rows.antt =====
-- The columns of a zone that no run of a program in irrigation_scheduler.py changes.
use irrigation.Base.{
  ℕ, ◌≡◌, ◌∙◌, refl, ap, Bool, true, false, Option, none, some, ◌==◌, nat_eq, if◌then◌else◌,
}
use irrigation.Base.Maps.{lookup, map_some, adjust, lookup-adjust}
use irrigation.ZoneControl.{Zone, Postpone, System, World, apply_update}
use irrigation.ZoneControl.Stop.{Stop, measured, stop_zone}
use irrigation.ZoneControl.Quiet.{lookup-update_zone_state}
use irrigation.ZoneControl.Calls.{stop_zone-step}
use irrigation.ZoneControl.Steps.{IsStep}
use irrigation.Scheduler.Program.{plan_end, switch_zones}
use irrigation.Scheduler.Steps.{switch_zones-step}

-- The duration and the postponement.
abbrev pub row_of : Option Zone → Option (ℕ × Option Postpone)
row_of none = none
row_of (some z) = some (z.duration, z.postpone_until)

pub record SameRows (s s' : System) : Type 0 where
  pub at : (id : ℕ) → row_of (lookup id s'.zones) ≡ row_of (lookup id s.zones)

row-adjusted :
    (b : Bool) (f : Zone → Zone) (o : Option Zone)
    → ((z : Zone) → row_of (some (f z)) ≡ row_of (some z))
    → row_of (if b then map_some f o else o) ≡ row_of o
row-adjusted true f none h = refl
row-adjusted true f (some z) h = h z
row-adjusted false f o h = refl

SameRows-adjust :
    (id : ℕ) (f : Zone → Zone) (s : System)
    → ((z : Zone) → row_of (some (f z)) ≡ row_of (some z))
    → SameRows s (record s { zones = adjust id f s.zones })
SameRows-adjust id f s h = record {
  at =
      λ i. ap row_of (lookup-adjust id i f s.zones) ∙ row-adjusted (id == i) f (lookup i s.zones) h;
}

pub SameRows-trans : {s₁ s₂ s₃ : System} → SameRows s₁ s₂ → SameRows s₂ s₃ → SameRows s₁ s₃
SameRows-trans h k = record { at = λ id. k.at id ∙ h.at id }

SameRows-IsStep : IsStep SameRows
SameRows-IsStep = record {
  same = λ s s' e. record { at = λ id. ap (λ zones. row_of (lookup id zones)) e.zones };
  trans = λ s₁ s₂ s₃ h k. SameRows-trans h k;
  rest = λ k u reason s h. record {
    at = λ id.
        ap row_of (lookup-update_zone_state id k u reason s)
        ∙ row-adjusted (k == id) (apply_update u) (lookup id s.zones) (λ z. refl);
  };
  measure = λ k stats s. SameRows-adjust k (measured stats) s (λ z. refl);
}

pub switch_zones-SameRows :
    (id gid : ℕ) (w : World) (s : System) → SameRows s (switch_zones id gid w s)
switch_zones-SameRows id gid w s =
    switch_zones-step SameRows SameRows-IsStep id gid w s (λ u reason t h. record {
      at = λ i.
          ap row_of (lookup-update_zone_state i id u reason t)
          ∙ row-adjusted (id == i) (apply_update u) (lookup i t.zones) (λ z. refl);
    })

pub plan_end-SameRows :
    (id : ℕ) (end_time : Option ℕ) (s : System) → SameRows s (plan_end id end_time s)
plan_end-SameRows id end_time s =
    SameRows-adjust id (λ z. record z { planned_end_time = end_time }) s (λ z. refl)

pub stop_zone-SameRows :
    (id : ℕ) (stop : Stop) (w : World) (s : System) → SameRows s (stop_zone id stop w s).0
stop_zone-SameRows id stop w s = stop_zone-step SameRows SameRows-IsStep id stop w s
