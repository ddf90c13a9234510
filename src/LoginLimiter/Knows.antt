-- ===== src/LoginLimiter/Knows.antt =====
-- The invariant of the limiter over a history of login requests: what it knows of the guesses so
-- far of one address.
use native.Mathlib.Nat.{le_refl}
use irrigation.Base.{
  ℕ, ◌+◌, ◌*◌, ◌≤◌, ◌<◌, ◌≡◌, refl, sym, ◌∙◌, inl, inr, Bool, true, false, ◌&&◌, List, [], ◌∷◌,
  ◌++◌, Option, none, some, arith, ltb, leb, nat_beq, length, keep_if, keep_if-append, All,
  All-append, All-imp, if◌then◌else◌, Key, ◌==◌, Bool-cases, ap,
}
use mathlib.Core.Bool.{false≢true}
use irrigation.Base.Recent.{recent_of, in_window, recent_of-recent_of, bound_snoc}
use irrigation.Base.Store.{get_or, put}
use irrigation.LoginLimiter.{Limiter, count_recent, forget, check_lockout, check, record_failure}
use irrigation.LoginLimiter.Lockout.{Request, serve}

-- Time stamps leave the window and do not come back.
recent_of-nil :
    (w now later : ℕ) (xs : List ℕ)
    → now ≤ later
    → recent_of now w xs ≡ []
    → recent_of later w xs ≡ []
recent_of-nil w now later xs h none_left =
    sym (recent_of-recent_of now later w w xs h (le_refl w)) ∙ ap (recent_of later w) none_left

recent_of-expired :
    (w now later : ℕ) (xs : List ℕ)
    → All (λ g. g ≤ now) xs
    → now + w ≤ later
    → recent_of later w xs ≡ []
recent_of-expired w now later [] h g = refl
recent_of-expired w now later (x ∷ xs) h g = ground (arith, recent_of-expired w now later xs h.1 g)

none≢some : {n : ℕ} → none ≡ some n → ⊥
none≢some h = cc

module _ {K : Type 0} ⦃e : Key K⦄ where
  -- The times at which a wrong password of `k` was recorded.
  unfoldable pub guesses : K → List (Request K) → Limiter K → List ℕ
  guesses k [] s = []
  guesses k (r ∷ rs) s =
      let rest = guesses k rs (serve r s).1 in
      if r.ip == k && nat_beq (serve r s).0 401 then r.after ∷ rest else rest

  -- Requests come one after the other, and those of `k` have a wrong password.
  abbrev pub IsAttack : (k : K) (last : ℕ) → List (Request K) → Type 0
  IsAttack k last [] = Unit
  IsAttack k last (r ∷ rs) =
      (last ≤ r.now) × (r.now ≤ r.after) × (r.ip ≡ k → r.verified ≡ false) × IsAttack k r.after rs

  module _ (k : K) (m w l : ℕ) (enough : w ≤ l) where
    abbrev pub span : ℕ
    span = w * 1000

    pub record Knows (last : ℕ) (s : Limiter K) (past : List ℕ) : Type 0 where
      pub limit : s.max_attempts ≡ m
      pub window : s.window_sec ≡ w
      pub lockout : s.lockout_sec ≡ l
      pub old : All (λ g. g ≤ last) past
      pub covers :
          (later : ℕ)
          → last ≤ later
          → recent_of later span (get_or k [] s.attempts) ≡ recent_of later span past
      pub bound : (t : ℕ) → length (keep_if (in_window span t) past) ≤ m
      -- When a lockout ends, no guess is left in the window.
      pub locked : (expiry : ℕ) → s.lockouts k ≡ some expiry → recent_of expiry span past ≡ []

    -- What a check tells: a password may be tried only if the window has room.
    pub record Checked (now : ℕ) (past : List ℕ) (r : (Bool × ℕ) × Limiter K) : Type 0 where
      pub knows : Knows now r.1 past
      pub room : r.0.0 ≡ true → length (recent_of now span past) < m
      pub unlocked : r.0.0 ≡ true → r.1.lockouts k ≡ none

    -- Storing the recent attempts keeps what is known of them.
    covers_recent :
        (now : ℕ) (recent past stored : List ℕ)
        → recent ≡ recent_of now span stored
        → ((later : ℕ) → now ≤ later → recent_of later span stored ≡ recent_of later span past)
        → (later : ℕ) → now ≤ later
        → recent_of later span recent ≡ recent_of later span past
    covers_recent now recent past stored is_recent known later g =
        ap (recent_of later span) is_recent
        ∙ recent_of-recent_of now later span span stored g (le_refl span)
        ∙ known later g

    get_or-put :
        (recent : List ℕ) (m' : K → Option (List ℕ)) → get_or k [] (put k recent m') ≡ recent
    get_or-put recent m' = rw ((e.eqb_iff k k).1 refl)

    count_recent-Checked :
        (now : ℕ) (s : Limiter K) (past : List ℕ)
        → s.lockouts k ≡ none
        → Knows now s past
        → Checked now past (count_recent k now s)
    unfolding count_recent
    count_recent-Checked now s past open_door known =
        elim (Bool-cases (leb s.max_attempts (length recent))) [
          | inl t ↦ rw t (record {
            knows = record {
              limit = known.limit;
              window = known.window;
              lockout = known.lockout;
              old = known.old;
              covers = λ later g.
                  ap (recent_of later span) (get_or-put recent s.attempts) ∙ keeps later g;
              bound = known.bound;
              locked = λ expiry h.
                  recent_of-expired span now expiry past known.old
                    (ends_late expiry (rw ((e.eqb_iff k k).1 refl) at h));
            };
            room = λ x. absurd (false≢true x);
            unlocked = λ x. absurd (false≢true x);
          })
          | inr f ↦ rw f (record {
            knows = record {
              limit = known.limit;
              window = known.window;
              lockout = known.lockout;
              old = known.old;
              covers = λ later g.
                  ap (recent_of later span) (get_or-put recent s.attempts) ∙ keeps later g;
              bound = known.bound;
              locked = known.locked;
            };
            room = λ _. has_room f;
            unlocked = λ _. open_door;
          })
        ]
      where
        stored : List ℕ
        stored = get_or k [] s.attempts

        recent : List ℕ
        recent = recent_of now (s.window_sec * 1000) stored

        is_recent : recent ≡ recent_of now span stored
        is_recent = ap (λ x. recent_of now (x * 1000) stored) known.window

        keeps : (later : ℕ) → now ≤ later → recent_of later span recent ≡ recent_of later span past
        keeps = covers_recent now recent past stored is_recent known.covers

        has_room : leb s.max_attempts (length recent) ≡ false → length (recent_of now span past) < m
        has_room f =
            ground (arith, known.limit, ap length (is_recent ∙ known.covers now (le_refl now)))

        ends_late :
            (expiry : ℕ) → some (now + s.lockout_sec * 1000) ≡ some expiry → now + span ≤ expiry
        ends_late expiry h = ground (arith, known.lockout, enough)

    pub Knows-later :
        (last now : ℕ) (s : Limiter K) (past : List ℕ)
        → last ≤ now
        → Knows last s past
        → Knows now s past
    Knows-later last now s past h known = record {
      limit = known.limit;
      window = known.window;
      lockout = known.lockout;
      old = All-imp _ _ past (λ g p. omega arith) known.old;
      covers = λ later g. known.covers later (omega arith);
      bound = known.bound;
      locked = known.locked;
    }

    Knows-forget :
        (now expiry : ℕ) (s : Limiter K) (past : List ℕ)
        → s.lockouts k ≡ some expiry
        → expiry ≤ now
        → Knows now s past
        → ((forget k s).lockouts k ≡ none) × Knows now (forget k s) past
    unfolding forget
    Knows-forget now expiry s past was h known = (
      rw ((e.eqb_iff k k).1 refl),
      record {
        limit = known.limit;
        window = known.window;
        lockout = known.lockout;
        old = known.old;
        covers = λ later g.
            rw ((e.eqb_iff k k).1 refl)
              (sym (recent_of-nil span expiry later past (omega arith) (known.locked expiry was)));
        bound = known.bound;
        locked = λ other h'. absurd (none≢some (rw ((e.eqb_iff k k).1 refl) at h'));
      },
    )

    check_lockout-Checked :
        (now : ℕ) (s : Limiter K) (past : List ℕ) (o : Option ℕ)
        → s.lockouts k ≡ o
        → Knows now s past
        → Checked now past (check_lockout k now o s)
    unfolding check_lockout
    check_lockout-Checked now s past none was known = count_recent-Checked now s past was known
    check_lockout-Checked now s past (some expiry) was known = elim (Bool-cases (ltb now expiry)) [
      | inl t ↦ rw t (record { knows = known; room = λ x. cc; unlocked = λ x. cc })
      | inr f ↦
          let (open_door, known') = Knows-forget now expiry s past was (ground arith) known in
          rw f (count_recent-Checked now (forget k s) past open_door known')
    ]

    pub Knows-check :
        (last now : ℕ) (s : Limiter K) (past : List ℕ)
        → last ≤ now
        → Knows last s past
        → Checked now past (check k now s)
    unfolding check
    Knows-check last now s past h known =
        check_lockout-Checked now s past (s.lockouts k) refl (Knows-later last now s past h known)

    pub Knows-record_failure :
        (now after : ℕ) (s : Limiter K) (past : List ℕ)
        → now ≤ after
        → s.lockouts k ≡ none
        → length (recent_of now span past) < m
        → Knows now s past
        → Knows after (record_failure k after s) (past ++ after ∷ [])
    unfolding record_failure
    Knows-record_failure now after s past h open_door room known = record {
      limit = known.limit;
      window = known.window;
      lockout = known.lockout;
      old =
          All-append (λ g. g ≤ after) past (after ∷ [])
            (All-imp (λ g. g ≤ now) (λ g. g ≤ after) past (λ g p. omega arith) known.old)
            (le_refl after, tt);
      covers = λ later g.
          ap (recent_of later span) (get_or-put _ s.attempts)
          ∙ covers_recent after _ (past ++ after ∷ []) (get_or k [] s.attempts ++ after ∷ [])
              (ap (λ x. recent_of after (x * 1000) (get_or k [] s.attempts ++ after ∷ []))
                known.window)
              (λ later' g'. snoc later' (omega arith)) later g;
      bound = bound_snoc span m now after past h room known.bound;
      locked = λ expiry h'. absurd (none≢some (sym open_door ∙ h'));
    }
      where
        snoc :
            (later : ℕ)
            → now ≤ later
            → recent_of later span (get_or k [] s.attempts ++ after ∷ [])
              ≡ recent_of later span (past ++ after ∷ [])
        snoc later g =
            keep_if-append _ (get_or k [] s.attempts) (after ∷ [])
            ∙ ap (λ x. x ++ recent_of later span (after ∷ [])) (known.covers later g)
            ∙ sym (keep_if-append _ past (after ∷ []))
