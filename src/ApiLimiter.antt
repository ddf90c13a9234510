-- ===== src/ApiLimiter.antt =====
-- services/api_rate_limiter.py: the sliding window of requests for each client and endpoint group.
-- Times are milliseconds.
pub mod Recent
pub mod Knows
pub mod Window
pub mod Refinement
pub mod Examples
use irrigation.Base.{
  ℕ, ◌+◌, ◌-◌, ◌*◌, ◌/◌, ◌%◌, max, Bool, true, false, List, [], ◌∷◌, ◌++◌, Option, none, some,
  length, leb, nat_beq, if◌then◌else◌, Key,
}
use irrigation.Base.Recent.{recent_of}
use irrigation.Base.Store.{Store, put, get_or, empty}

-- `_REQUESTS` and `_CALL_COUNT`. A key is an address with the name of an endpoint group.
pub record Limiter (K : Type 0) : Type 0 where
  pub requests : Store K (List ℕ)
  pub call_count : ℕ

abbrev pub prune_every : ℕ
prune_every = 500

abbrev pub prune_window : ℕ
prune_window = 120 * 1000

-- What a key holds after the pruning: a key whose list becomes empty is deleted.
abbrev pub or_delete : List ℕ → Option (List ℕ)
or_delete [] = none
or_delete (t ∷ ts) = some (t ∷ ts)

abbrev pub pruned : (now window : ℕ) → Option (List ℕ) → Option (List ℕ)
pruned now window none = none
pruned now window (some timestamps) = or_delete (recent_of now window timestamps)

pub data Verdict : Type 0 where
  allowed : Verdict
  refused : (retry_after : ℕ) → Verdict
  -- `recent[0]` of an empty list, which only a limit of no requests reaches.
  index_error : Verdict

-- `max(1, int(recent[0] - cutoff) + 1)`
pub retry_after_of : (now window oldest : ℕ) → ℕ
retry_after_of now window oldest = max 1 ((oldest + window - now) / 1000 + 1)

module _ {K : Type 0} where
  abbrev pub fresh : Limiter K
  fresh = record { requests = empty; call_count = 0 }

  pub prune_old : (now window : ℕ) → Store K (List ℕ) → Store K (List ℕ)
  prune_old now window m k = pruned now window (m k)

  -- The housekeeping that every 500th call does.
  pub count_call : ℕ → Limiter K → Limiter K
  unfolding prune_old
  count_call now s =
      let n = s.call_count + 1 in
      record {
        requests =
            if nat_beq (n % prune_every) 0
            then prune_old now prune_window s.requests
            else s.requests;
        call_count = n;
      }

module _ {K : Type 0} ⦃e : Key K⦄ where
  -- The end of the call, from the requests inside the window.
  pub decide_recent : K → (max_requests now window : ℕ) → List ℕ → Limiter K → Verdict × Limiter K
  unfolding retry_after_of
  decide_recent key max_requests now window recent s =
      if leb max_requests (length recent)
      then elim recent [
        | [] ↦ (index_error, s)
        | oldest ∷ later ↦ (
          refused (retry_after_of now window oldest),
          record s { requests = put key (oldest ∷ later) s.requests },
        )
      ]
      else (allowed, record s { requests = put key (recent ++ now ∷ []) s.requests })

  pub is_allowed : K → (max_requests window_sec now : ℕ) → Limiter K → Verdict × Limiter K
  unfolding count_call decide_recent
  is_allowed key max_requests window_sec now s0 =
      let s = count_call now s0 in
      let window = window_sec * 1000 in
      let recent = recent_of now window (get_or key [] s.requests) in
      decide_recent key max_requests now window recent s

-- The wrapper of `rate_limit`: the handler runs, or the client gets a 429 with `Retry-After`.
pub data Response : Type 0 where
  handler_result : Response
  too_many : (status retry_after : ℕ) → Response
  server_error : Response

pub respond : Verdict → Response
respond allowed = handler_result
respond (refused retry_after) = too_many 429 retry_after
respond index_error = server_error

module _ {K : Type 0} ⦃e : Key K⦄ where
  pub wrapper :
      (testing : Bool) → K → (max_requests window_sec now : ℕ) → Limiter K → Response × Limiter K
  unfolding is_allowed respond
  wrapper true key max_requests window_sec now s = (handler_result, s)
  wrapper false key max_requests window_sec now s =
      let (v, s') = is_allowed key max_requests window_sec now s in (respond v, s')
