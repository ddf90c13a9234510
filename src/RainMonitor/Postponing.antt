-- ===== src/RainMonitor/Postponing.antt =====
-- Which zones are postponed, over every sequence of readings.
use Prim.Native.String.{String}
use mathlib.Core.Bool.{false≢true}
use irrigation.Base.{
  ◌≡◌, refl, sym, ap, ◌∙◌, inl, inr, Bool, true, false, ◌&&◌, List, [], ◌∷◌, map, Option, none,
  some, arith, All, if◌then◌else◌, Option-cases, Bool-cases, string_eq,
}
use irrigation.RainMonitor.{
  Zone, Group, SensorType, Monitor, Day, is_targeted, postpone, resume, is_rain_reason,
  on_rain_start, on_rain_stop, set_rain, handle_payload, parse_payload, logical_rain,
}

-- No end of a postponement without a reason for one.
abbrev pub IsFree : Zone → Type 0
IsFree z = z.postpone_reason ≡ none → z.postpone_until ≡ none

-- What a zone is like in rain, until the given end, and when it is dry; before a reading only that a
-- zone that has no reason to be postponed is not.
abbrev pub FitsNow : Option Bool → (until : String) → Zone → Type 0
FitsNow none until z = IsFree z
FitsNow (some true) until z = (z.postpone_reason ≡ some "rain") × (z.postpone_until ≡ some until)
FitsNow (some false) until z = (is_rain_reason z.postpone_reason ≡ false) × IsFree z

abbrev pub Fits : List Group → Option Bool → (until : String) → Zone → Type 0
Fits groups rains until z = is_targeted groups z ≡ true → FitsNow rains until z

abbrev pub AllFit : List Group → (until : String) → Monitor → Type 0
AllFit groups until m = All (Fits groups m.is_rain until) m.zones

start-AllFit :
    (groups : List Group) (until : String) (zones : List Zone)
    → All
        (Fits groups (some true) until)
        (map (λ z. if is_targeted groups z then postpone until z else z) zones)
start-AllFit groups until [] = tt
start-AllFit groups until (z ∷ zones) = elim (Bool-cases (is_targeted groups z)) [
  | inl t ↦ rw t (λ h. (refl, refl), start-AllFit groups until zones)
  | inr f ↦ rw f (λ h. absurd (false≢true (sym f ∙ h)), start-AllFit groups until zones)
]

-- A zone that is not postponed for rain is free.
FitsNow-IsFree :
    (rains : Option Bool) (until : String) (z : Zone)
    → FitsNow rains until z
    → is_rain_reason z.postpone_reason ≡ false
    → IsFree z
FitsNow-IsFree none until z fits dry = fits
FitsNow-IsFree (some true) until z fits dry =
    absurd (false≢true (sym dry ∙ ap is_rain_reason fits.0))
FitsNow-IsFree (some false) until z fits dry = fits.1

stop-AllFit :
    (groups : List Group) (rains : Option Bool) (until until' : String) (zones : List Zone)
    → All (Fits groups rains until) zones
    → All (Fits groups (some false) until') (
        map
          (λ z. if is_targeted groups z && is_rain_reason z.postpone_reason then resume z else z)
          zones)
stop-AllFit groups rains until until' [] fits = tt
stop-AllFit groups rains until until' (z ∷ zones) (now, later) =
    let rest = stop-AllFit groups rains until until' zones later in
    elim (Bool-cases (is_targeted groups z)) [
      | inr f ↦ rw f (λ h. absurd (false≢true (sym f ∙ h)), rest)
      | inl t ↦ elim (Bool-cases (is_rain_reason z.postpone_reason)) [
        | inl rain ↦ rw (t, rain) (λ h. (refl, λ _. refl), rest)
        | inr other ↦ rw (t, other) (λ h. (other, FitsNow-IsFree rains until z (now t) other), rest)
      ]
    ]

-- The end of the postponements: rain sets it to the end of the day.
abbrev pub until_of : Bool → Day → (until : String) → String
until_of true day until = day.end_of_day
until_of false day until = until

set_rain-AllFit :
    (groups : List Group) (day : Day) (rains : Bool) (until : String) (m : Monitor)
    → AllFit groups until m
    → AllFit groups (until_of rains day until) (set_rain groups day rains m)
unfolding set_rain on_rain_start on_rain_stop
set_rain-AllFit groups day true until m fits = start-AllFit groups day.end_of_day m.zones
set_rain-AllFit groups day false until m fits =
    stop-AllFit groups m.is_rain until until m.zones fits

-- A reading of the sensor.
pub record Reading : Type 0 where
  pub day : Day
  pub payload : String

unfoldable pub run : SensorType → List Group → List Reading → Monitor → Monitor
run sensor groups [] m = m
run sensor groups (r ∷ rs) m = run sensor groups rs (handle_payload sensor groups r.day r.payload m)

-- The end of the postponements after a payload.
abbrev pub end_of : SensorType → Day → (until : String) → Option Bool → String
end_of sensor day until none = until
end_of sensor day until (some raw) = until_of (logical_rain sensor raw) day until

-- The end of the day of the last reading that says that it rains, or what was the end before.
abbrev pub last_end : SensorType → List Reading → (until : String) → String
last_end sensor [] until = until
last_end sensor (r ∷ rs) until =
    last_end sensor rs (end_of sensor r.day until (parse_payload r.payload))

handle_payload-AllFit :
    (sensor : SensorType) (groups : List Group) (r : Reading) (until : String) (m : Monitor)
    → AllFit groups until m
    → AllFit groups
        (end_of sensor r.day until (parse_payload r.payload))
        (handle_payload sensor groups r.day r.payload m)
unfolding handle_payload
handle_payload-AllFit sensor groups r until m fits = elim (Option-cases (parse_payload r.payload)) [
  | inl bad ↦ rw (bad, handle_payload) fits
  | inr (raw, good) ↦
      rw (good, handle_payload)
        (set_rain-AllFit groups r.day (logical_rain sensor raw) until m fits)
]

abbrev pub reading_of : SensorType → Option Bool → Option Bool → Option Bool
reading_of sensor rains none = rains
reading_of sensor rains (some raw) = some (logical_rain sensor raw)

-- What the last reading that makes sense says, or what was known before.
abbrev pub last_rain : SensorType → List Reading → Option Bool → Option Bool
last_rain sensor [] rains = rains
last_rain sensor (r ∷ rs) rains =
    last_rain sensor rs (reading_of sensor rains (parse_payload r.payload))

pub handle_payload-is_rain :
    (sensor : SensorType) (groups : List Group) (r : Reading) (m : Monitor)
    → (handle_payload sensor groups r.day r.payload m).is_rain
      ≡ reading_of sensor m.is_rain (parse_payload r.payload)
unfolding handle_payload set_rain on_rain_start on_rain_stop
handle_payload-is_rain sensor groups r m = elim (Option-cases (parse_payload r.payload)) [
  | inl bad ↦ rw (bad, handle_payload) refl
  | inr (raw, good) ↦ rw (good, handle_payload) (ground arith)
]

-- After any readings the monitor holds what the last readable one said. If that was rain, every zone
-- of a group that uses the sensor is postponed for rain, to the end of the day of that reading; if it
-- was none, no such zone is postponed for rain, and one without a reason has no end of a postponement
-- either. Before the readings the zones are to be like that for what the monitor holds.
pub run-AllFit :
    (sensor : SensorType) (groups : List Group) (rs : List Reading) (until : String) (m : Monitor)
    → AllFit groups until m
    → ((run sensor groups rs m).is_rain ≡ last_rain sensor rs m.is_rain)
      × AllFit groups (last_end sensor rs until) (run sensor groups rs m)
unfolding run
run-AllFit sensor groups [] until m fits = (refl, fits)
run-AllFit sensor groups (r ∷ rs) until m fits =
    let m' : Monitor = handle_payload sensor groups r.day r.payload m in
    let rest =
      run-AllFit sensor groups rs (end_of sensor r.day until (parse_payload r.payload)) m'
        (handle_payload-AllFit sensor groups r until m fits) in
    (rest.0 ∙ ap (last_rain sensor rs) (handle_payload-is_rain sensor groups r m), rest.1)

-- A shower takes every postponement of the zones that it concerns away, also one that somebody had
-- set for another reason before; all other zones are as they were.
on_rain_stop-on_rain_start :
    (groups : List Group) (before after : Day) (m : Monitor)
    → (on_rain_stop groups after (on_rain_start groups before m)).zones
      ≡ map (λ z. if is_targeted groups z then resume z else z) m.zones
unfolding on_rain_stop on_rain_start
on_rain_stop-on_rain_start groups before after m = shower m.zones
  where
    shower :
        (zones : List Zone)
        → map
            (λ z. if is_targeted groups z && is_rain_reason z.postpone_reason then resume z else z)
            (map (λ z. if is_targeted groups z then postpone before.end_of_day z else z) zones)
          ≡ map (λ z. if is_targeted groups z then resume z else z) zones
    shower [] = refl
    shower (z ∷ zones) = elim (Bool-cases (is_targeted groups z)) [
      | inl t ↦ rw (t, t) (ap (λ l. resume z ∷ l) (shower zones))
      | inr f ↦ rw (f, f) (ap (λ l. z ∷ l) (shower zones))
    ]
