-- ===== src/Base/Recent.antt =====
-- Lists of time stamps seen through a sliding window of `w` milliseconds, as both rate limiters
-- keep them. `ts > now - w` is written `now < ts + w`, which is the same and stays in ℕ.
use mathlib.Core.Path.{◌≡◌, refl}
use mathlib.Core.Logic.{inl, inr}
use mathlib.Core.Bool.{Bool, true, false, ◌&&◌}
use mathlib.Core.List.{List, [], ◌∷◌, ◌++◌, append-nil, append_assoc}
use native.Mathlib.Omega.{arith}
use Prim.Native.Nat.{ℕ, ◌+◌, ◌≤◌, ◌<◌}
use irrigation.Base.Tests.{ltb, leb, leb→le, if◌then◌else◌, Bool-cases}
use irrigation.Base.Lists.{
  length, length-append, keep_if, length-keep_if_mono, length-keep_if-le, keep_if-append,
}

-- `[ts for ts in timestamps if ts > now - window]`
abbrev pub recent_of : (now window : ℕ) → List ℕ → List ℕ
recent_of now window = keep_if (λ ts. ltb now (ts + window))

-- Is `g` among the last `w` milliseconds up to `t`?
abbrev pub in_window : (w t g : ℕ) → Bool
in_window w t g = leb g t && ltb t (g + w)

-- Pruning by a wider or earlier window loses nothing that a later look would count.
pub recent_of-recent_of :
    (now later w v : ℕ) (xs : List ℕ)
    → now ≤ later
    → w ≤ v
    → recent_of later w (recent_of now v xs) ≡ recent_of later w xs
recent_of-recent_of now later w v [] h g = refl
recent_of-recent_of now later w v (x ∷ xs) h g =
    ground (arith, recent_of-recent_of now later w v xs h g)

in_window-recent : (w t now g : ℕ) → now ≤ t → in_window w t g ≡ true → ltb now (g + w) ≡ true
in_window-recent w t now g h e = ground arith

not_yet : (w t now : ℕ) → leb now t ≡ false → keep_if (in_window w t) (now ∷ []) ≡ []
not_yet w t now h = ground arith

-- A window that is not full when it is looked at takes one more.
pub bound_snoc :
    (w m at now : ℕ) (past : List ℕ)
    → at ≤ now
    → length (recent_of at w past) < m
    → ((t : ℕ) → length (keep_if (in_window w t) past) ≤ m)
    → (t : ℕ) → length (keep_if (in_window w t) (past ++ now ∷ [])) ≤ m
bound_snoc w m at now past h room old t = elim (Bool-cases (leb now t)) [
  | inl late ↦ rw keep_if-append (
      omega (
        arith,
        length-append {0} (keep_if (in_window w t) past),
        length-keep_if-le (in_window w t) (now ∷ []),
        length-keep_if_mono (in_window w t) (λ ts. ltb at (ts + w)) past
            (λ g. in_window-recent w t at g (omega (arith, leb→le now t late))),
      ))
  | inr early ↦ rw (keep_if-append, not_yet w t now early, append-nil) (old t)
]

pub one_more :
    (b : Bool) (past : List ℕ) (now : ℕ) (rest : List ℕ)
    → (past ++ (if b then now ∷ [] else [])) ++ rest ≡ past ++ (if b then now ∷ rest else rest)
one_more true past now rest = append_assoc past (now ∷ []) rest
one_more false past now rest = rw append-nil
