-- ===== src/Decision.antt =====
-- services/irrigation_decision.py: the table of rules that decides whether a site is watered. Humidity of
-- the soil is in hundredths of a percent, wind in hundredths of a kilometre per hour, and the rest as in
-- EtCalculator. The texts of the reasons are left out, but for what they are about.
pub mod Rules
pub mod Examples
use irrigation.Base.{
  ℕ, ◌*◌, Bool, false, not, ◌&&◌, ◌||◌, List, [], ◌∷◌, ◌++◌, Option, none, some, ltb, leb, nat_beq,
  if◌then◌else◌,
}
use irrigation.EtCalculator.{
  ℤ, Site, orsk, cholpon_ata, other_site, below, above, calc_irrigation_need,
}

pub data Action : Type 0 where
  stop skip postpone emergency irrigate : Action

pub record IrrigationDecision : Type 0 where
  pub decision : Action
  pub rule_id : ℕ
  pub coefficient : ℕ
  -- In minutes of the day.
  pub syringe_time : Option ℕ

pub record Conditions : Type 0 where
  pub site : Site
  pub month : ℕ
  pub day : ℕ
  pub t_avg : ℤ
  pub t_current : ℤ
  pub precip_24h : ℕ
  pub precip_48h : ℕ
  pub precip_forecast_12h : ℕ
  pub wind_speed : ℕ
  pub soil_moisture : Option ℕ

-- `(month, day)` between two such pairs.
abbrev pub not_after : ℕ → ℕ → ℕ → ℕ → Bool
not_after month day month' day' = ltb month month' || nat_beq month month' && leb day day'

abbrev pub is_in_season : Site → (month day : ℕ) → Bool
is_in_season orsk month day = not_after 4 15 month day && not_after month day 10 31
is_in_season cholpon_ata month day = not_after 4 1 month day && not_after month day 10 31
is_in_season other_site month day = false

-- The conditions of the rules 1 to 8 in `evaluate_decision`.
abbrev pub off_season : Conditions → Bool
off_season c = not (is_in_season c.site c.month c.day)

abbrev pub frost : Conditions → Bool
frost c = below c.t_current 5

abbrev pub windy : Conditions → Bool
windy c = ltb 2500 c.wind_speed

abbrev pub rain_24h : Conditions → Bool
rain_24h c = ltb 500 c.precip_24h

abbrev pub rain_forecast : Conditions → Bool
rain_forecast c = ltb 500 c.precip_forecast_12h

abbrev pub is_moist : Option ℕ → Bool
is_moist none = false
is_moist (some pct) = leb 5000 pct

abbrev pub is_critical : Option ℕ → Bool
is_critical none = false
is_critical (some pct) = ltb pct 3000

abbrev pub below_min : Conditions → Bool
below_min c = ltb (calc_irrigation_need c.t_avg c.precip_48h c.site) 200000000

-- A cooling cycle at noon in the heat.
abbrev pub syringe_time_of : Site → ℤ → Option ℕ
syringe_time_of orsk t = if above t 35 then some (13 * 60) else none
syringe_time_of cholpon_ata t = if above t 28 then some (12 * 60) else none
syringe_time_of other_site t = none

abbrev pub final_rule : Site → (syringe_time : Option ℕ) → ℕ
final_rule site none = 12
final_rule orsk (some t) = 9
final_rule cholpon_ata (some t) = 10
final_rule other_site (some t) = 10

abbrev pub ruling : Action → (rule_id coefficient : ℕ) → IrrigationDecision
ruling action rule_id coefficient = record {
  decision = action;
  rule_id = rule_id;
  coefficient = coefficient;
  syringe_time = none;
}

abbrev pub watering : Conditions → IrrigationDecision
watering c = record {
  decision = irrigate;
  rule_id = final_rule c.site (syringe_time_of c.site c.t_current);
  coefficient = 100;
  syringe_time = syringe_time_of c.site c.t_current;
}

unfoldable pub evaluate_decision : Conditions → IrrigationDecision
unfolding calc_irrigation_need
evaluate_decision c =
    if off_season c
    then ruling stop 1 0
    else (if frost c
        then ruling stop 2 0
        else (if windy c
            then ruling postpone 3 100
            else (if rain_24h c
                then ruling skip 4 0
                else (if rain_forecast c
                    then ruling skip 5 0
                    else (if is_moist c.soil_moisture
                        then ruling skip 6 0
                        else (if is_critical c.soil_moisture
                            then ruling emergency 7 120
                            else (if below_min c then ruling skip 8 0 else watering c)))))))

-- The two rules on the moisture of the soil, which are not triggered without a sensor.
abbrev soil_rules : Option ℕ → List (ℕ × Bool)
soil_rules none = (6, false) ∷ (7, false) ∷ []
soil_rules (some pct) = (6, leb 5000 pct) ∷ (7, ltb pct 3000) ∷ []

-- `evaluate_decision_verbose`: the rules with whether they are triggered, by conditions of its own.
unfoldable pub rules_checked : Conditions → List (ℕ × Bool)
unfolding calc_irrigation_need
rules_checked c =
    let in_season = is_in_season c.site c.month c.day in
    let irrigation_need = calc_irrigation_need c.t_avg c.precip_48h c.site in
    (1, not in_season)
      ∷ (2, below c.t_current 5)
      ∷ (3, ltb 2500 c.wind_speed)
      ∷ (4, ltb 500 c.precip_24h)
      ∷ (5, ltb 500 c.precip_forecast_12h)
      ∷ soil_rules c.soil_moisture
    ++ (8, ltb irrigation_need 200000000) ∷ []
