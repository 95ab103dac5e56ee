-- ===== src/Ratelimit.antt =====
-- app/ratelimit.py: shared rate limits, counted in a table of buckets.
pub mod Budget
use paari_payments_protocol.Prelude.{
  ltb, if◌then◌else◌, ◌==◌, number_eq, text_eq, select, first, update_where, is_some, ℕ, ◌+◌, ◌-◌,
  ◌%◌, String, Bool, not, ◌&&◌, Option, none, some, List, [], ◌∷◌, ◌++◌,
}
use paari_payments_protocol.Models.Rows.{RateBucket, Db}

-- PRUNE_AFTER
abbrev pub prune_after : ℕ
prune_after = 3600

-- `RateLimitedError`, which says after how many seconds to try again
pub data RateCheck : Type 0 where
  admitted : RateCheck
  rate_limited : ℕ → RateCheck

unfoldable pub bucket_start : ℕ → ℕ → ℕ
bucket_start now window_seconds = now - now % window_seconds

abbrev pub in_window : String → ℕ → RateBucket → Bool
in_window scope start b = b.scope == scope && b.window_start == start

-- The buckets that are not older than an hour.
abbrev pub prune : ℕ → List RateBucket → List RateBucket
prune now = select (λ b. not (ltb (b.window_start + prune_after) now))

abbrev pub count_up : RateBucket → RateBucket
count_up b = record b { count = b.count + 1 }

-- The table after the prune and the update, or the insert where no row was updated. The unique key
-- makes the update run after a lost insert race end in the same table as after a race that is won.
unfoldable pub increment : ℕ → String → ℕ → String → List RateBucket → List RateBucket
increment now scope start org_id buckets =
    let kept = prune now buckets in
    if is_some (first (in_window scope start) kept)
    then update_where (in_window scope start) count_up kept
    else kept ++ record { org_id = org_id; scope = scope; window_start = start; count = 1 } ∷ []

abbrev pub count_of : Option RateBucket → ℕ
count_of none = 0
count_of (some b) = b.count

-- `check_rate`: it commits in either case, so the table is what the next request finds
unfoldable pub check_rate :
    ℕ → String → ℕ → ℕ → String → List RateBucket → RateCheck × List RateBucket
unfolding bucket_start increment
check_rate now scope limit window_seconds org_id buckets =
    let start = bucket_start now window_seconds in
    let after = increment now scope start org_id buckets in
    (
      if ltb limit (count_of (first (in_window scope start) after))
          then rate_limited (window_seconds - now % window_seconds)
          else admitted,
      after,
    )
