-- ===== src/Topics/Normal.antt =====
-- The normal form of a topic.
use irrigation.Base.{
  ℕ, ◌≡◌, refl, ap, ◌∙◌, inl, inr, Bool, true, false, [], ◌∷◌, ◌++◌, arith, length, length-append,
  if◌then◌else◌, ◌==◌, nat_eq, list_eq, list_beq_iff, Bool-cases,
}
use irrigation.Topics.{
  Topic, lstrip, rstrip, unless_blank, slash, drop_slashes, on_suffix, strip_on, with_slash,
  normalize_topic,
}

-- Empty, or one slash and something that does not begin with one.
abbrev OneSlash : Topic → Type 0
OneSlash [] = Unit
OneSlash (c ∷ []) = c ≡ slash
OneSlash (c ∷ d ∷ s) = (c ≡ slash) × ((d == slash) ≡ false)

drop_slashes-OneSlash : (s : Topic) → OneSlash (slash ∷ drop_slashes s)
unfolding drop_slashes
drop_slashes-OneSlash [] = refl
drop_slashes-OneSlash (c ∷ s) = elim (Bool-cases (c == slash)) [
  | inl t ↦ rw t (drop_slashes-OneSlash s)
  | inr f ↦ rw f (refl, f)
]

one_slash :
    (a b : Bool) (c d : ℕ) (s : Topic)
    → c ≡ slash
    → (d == slash) ≡ false
    → OneSlash (if a then [] else c ∷ (if b then [] else d ∷ s))
one_slash true b c d s h k = tt
one_slash false true c d s h k = h
one_slash false false c d s h k = (h, k)

one_or_none : (a : Bool) (c : ℕ) → c ≡ slash → OneSlash (if a then [] else c ∷ [])
one_or_none true c h = tt
one_or_none false c h = h

strip_on-OneSlash : (s : Topic) → OneSlash s → OneSlash (strip_on s)
unfolding strip_on
strip_on-OneSlash [] h = tt
strip_on-OneSlash (c ∷ []) h = one_or_none _ c h
strip_on-OneSlash (c ∷ d ∷ s) h = one_slash _ _ c d (strip_on s) h.0 h.1

with_slash-OneSlash : (s : Topic) → OneSlash (with_slash s)
unfolding drop_slashes
with_slash-OneSlash [] = tt
with_slash-OneSlash (c ∷ s) = drop_slashes-OneSlash (c ∷ s)

-- Whatever is given, the normal form is empty or begins with exactly one slash.
normalize_topic-OneSlash : (s : Topic) → OneSlash (normalize_topic s)
unfolding normalize_topic
normalize_topic-OneSlash s =
    strip_on-OneSlash (with_slash (rstrip (lstrip s))) (with_slash-OneSlash (rstrip (lstrip s)))

-- What ends in the suffix has no blank at its end.
unless_blank-on : (c : ℕ) (s : Topic) → unless_blank c (s ++ on_suffix) ≡ c ∷ s ++ on_suffix
unless_blank-on c [] = refl
unless_blank-on c (d ∷ s) = refl

rstrip-on : (s : Topic) → rstrip (s ++ on_suffix) ≡ s ++ on_suffix
unfolding rstrip
rstrip-on [] = refl
rstrip-on (c ∷ s) = ap (unless_blank c) (rstrip-on s) ∙ unless_blank-on c s

longer-on : (c : ℕ) (s : Topic) → (c ∷ s ++ on_suffix == on_suffix) ≡ false
longer-on c s = elim (Bool-cases (c ∷ s ++ on_suffix == on_suffix)) [
  | inr f ↦ f
  | inl t ↦
      let same : c ∷ s ++ on_suffix ≡ on_suffix =
        (list_beq_iff (c ∷ s ++ on_suffix) on_suffix).0 t in
      absurd (omega (arith, ap length same, length-append s on_suffix))
]

strip_on-on : (s : Topic) → strip_on (s ++ on_suffix) ≡ s
unfolding strip_on
strip_on-on [] = refl
strip_on-on (c ∷ s) = rw (longer-on c s) (ap (λ r. c ∷ r) (strip_on-on s))

-- The topic on which a relay is commanded, its base topic with "/on", has the normal form of the
-- base topic, and a base topic is its own normal form: one with one slash at its beginning, no
-- blank at its end, and something else than "/on" there.
pub normalize_topic-on :
    (d : ℕ) (s : Topic)
    → (d == slash) ≡ false
    → rstrip (slash ∷ d ∷ s) ≡ slash ∷ d ∷ s
    → strip_on (slash ∷ d ∷ s) ≡ slash ∷ d ∷ s
    → (normalize_topic (slash ∷ d ∷ s) ≡ slash ∷ d ∷ s)
      × (normalize_topic (slash ∷ d ∷ s ++ on_suffix) ≡ slash ∷ d ∷ s)
unfolding normalize_topic lstrip drop_slashes
normalize_topic-on d s h r o =
    (rw (r, h) o, rw (rstrip-on (slash ∷ d ∷ s), h) (strip_on-on (slash ∷ d ∷ s)))
