-- ===== src/Decision/Rules.antt =====
-- The decision and the rules of services/irrigation_decision.py.
use irrigation.Base.{ℕ, ◌≤◌, Option, none, some, Bool, true, false, List, [], ◌∷◌, if◌then◌else◌}
use irrigation.Decision.{
  Action, stop, skip, postpone, emergency, irrigate, IrrigationDecision, ruling,
}

-- The first rule that is triggered, or the last one.
abbrev pub first_triggered : List (ℕ × Bool) → (last : ℕ) → ℕ
first_triggered [] last = last
first_triggered ((id, triggered) ∷ rules) last =
    if triggered then id else first_triggered rules last

abbrev pub waters : Action → Bool
waters emergency = true
waters irrigate = true
waters _ = false

abbrev chain : (b₁ b₂ b₃ b₄ b₅ b₆ b₇ b₈ : Bool) → IrrigationDecision → IrrigationDecision
chain b₁ b₂ b₃ b₄ b₅ b₆ b₇ b₈ d =
    if b₁
    then ruling stop 1 0
    else (if b₂
        then ruling stop 2 0
        else (if b₃
            then ruling postpone 3 100
            else (if b₄
                then ruling skip 4 0
                else (if b₅
                    then ruling skip 5 0
                    else (if b₆
                        then ruling skip 6 0
                        else (if b₇
                            then ruling emergency 7 120
                            else (if b₈ then ruling skip 8 0 else d)))))))

-- Is the soil as moist as that, in hundredths of a percent, by the sensor?
abbrev pub AtLeast : ℕ → Option ℕ → Type 0
AtLeast limit none = ⊥
AtLeast limit (some pct) = limit ≤ pct
