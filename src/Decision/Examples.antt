-- ===== src/Decision/Examples.antt =====
-- Decisions on a hot day.
use irrigation.Base.{◌≡◌, refl, some}
use irrigation.EtCalculator.{pos, orsk}
use irrigation.Decision.{Conditions, evaluate_decision}

abbrev hot_day : Conditions
hot_day = record {
  site = orsk;
  month = 7;
  day = 1;
  t_avg = pos 3000;
  t_current = pos 3700;
  precip_24h = 0;
  precip_48h = 0;
  precip_forecast_12h = 0;
  wind_speed = 1000;
  soil_moisture = some 4000;
}

cooling : (evaluate_decision hot_day).rule_id ≡ 9
unfolding evaluate_decision
cooling = refl
