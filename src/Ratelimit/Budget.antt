-- ===== src/Ratelimit/Budget.antt =====
-- app/ratelimit.py, "Raises RateLimitedError when the scope already used its budget": what a scope
-- is granted in one window, over any sequence of requests.
use paari_payments_protocol.Prelude.{
  ltb, if◌then◌else◌, ◌==◌, number_eq, text_eq, eq_iff, eq_refl, first, ℕ, ◌+◌, ◌-◌, ◌%◌, ◌≤◌, suc,
  String, Bool, true, false, ◌&&◌, List, [], ◌∷◌, ◌≡◌, refl, arith, first-update_where,
  first-append_none, first-append, first_holds, Bool-cases, Option-cases, inl, inr, All,
}
use paari_payments_protocol.Models.Rows.{RateBucket}
use paari_payments_protocol.Ratelimit.{
  RateCheck, admitted, rate_limited, bucket_start, in_window, prune, increment, count_of,
  check_rate, count_up,
}

-- One call of `check_rate`.
pub record Request : Type 0 where
  pub at : ℕ
  pub scope : String
  pub limit : ℕ
  pub window_seconds : ℕ
  pub org_id : String

unfoldable pub serve_one : Request → List RateBucket → RateCheck × List RateBucket
serve_one r = check_rate r.at r.scope r.limit r.window_seconds r.org_id

abbrev pub is_admitted : RateCheck → Bool
is_admitted admitted = true
is_admitted (rate_limited n) = false

abbrev pub asks : String → ℕ → Request → Bool
asks scope start r = r.scope == scope && bucket_start r.at r.window_seconds == start

-- How many requests of the scope are admitted in the window that starts at `start`, among requests
-- that are served one after another.
unfoldable pub granted : String → ℕ → List Request → List RateBucket → ℕ
unfolding serve_one bucket_start
granted scope start [] buckets = 0
granted scope start (r ∷ rs) buckets =
    let (verdict, after) = serve_one r buckets in
    let rest = granted scope start rs after in
    if asks scope start r && is_admitted verdict then suc rest else rest

-- The number of requests of the scope in the window.
unfoldable pub asked : String → ℕ → List Request → ℕ
unfolding bucket_start
asked scope start [] = 0
asked scope start (r ∷ rs) =
    let rest = asked scope start rs in if asks scope start r then suc rest else rest

abbrev pub min_of : ℕ → ℕ → ℕ
min_of a b = if ltb a b then a else b

module _ (scope : String) (start : ℕ) where
  abbrev used_up : List RateBucket → ℕ
  used_up buckets = count_of (first (in_window scope start) buckets)

  -- Within an hour of its start no bucket of the window is pruned.
  first-prune :
      (now : ℕ) (bs : List RateBucket)
      → now ≤ start + 3600
      → first (in_window scope start) (prune now bs) ≡ first (in_window scope start) bs
  first-prune now [] h = refl
  first-prune now (b ∷ bs) h = ground (arith, first-prune now bs h)

  used_up-increment :
      (now : ℕ) (org : String) (bs : List RateBucket)
      → now ≤ start + 3600
      → used_up (increment now scope start org bs) ≡ suc (used_up bs)
  unfolding increment
  used_up-increment now org bs h =
      let new : RateBucket = record {
        org_id = org;
        scope = scope;
        window_start = start;
        count = 1;
      } in
      elim (Option-cases (first (in_window scope start) (prune now bs))) [
        | inl e ↦ ground (
          arith,
          e,
          first-prune now bs h,
          eq_refl scope,
          first-append_none (in_window scope start) (prune now bs) (new ∷ []),
        )
        | inr (b, e) ↦ ground (
          arith,
          e,
          first-prune now bs h,
          first-update_where (in_window scope start) (in_window scope start) count_up (prune now bs)
              (λ a. refl),
          first_holds (in_window scope start) (prune now bs) b,
        )
      ]

  counts-increment :
      (now : ℕ) (s : String) (t : ℕ) (org : String) (bs : List RateBucket)
      → now ≤ start + 3600
      → (s == scope && t == start) ≡ true
      → (used_up (increment now s t org bs) ≡ suc (used_up bs))
        × (count_of (first (in_window s t) (increment now s t org bs)) ≡ suc (used_up bs))
  counts-increment now s t org bs h e =
      let p : s ≡ scope = ground (arith, eq_iff s scope) in
      let q : t ≡ start = ground arith in let u = used_up-increment now org bs h in rw (p, q) (u, u)

  used_up-increment_other :
      (now : ℕ) (s : String) (t : ℕ) (org : String) (bs : List RateBucket)
      → now ≤ start + 3600
      → (s == scope && t == start) ≡ false
      → used_up (increment now s t org bs) ≡ used_up bs
  unfolding increment
  used_up-increment_other now s t org bs h d =
      let new : RateBucket = record { org_id = org; scope = s; window_start = t; count = 1 } in
      let kept =
        first-update_where (in_window scope start) (in_window s t) count_up (prune now bs)
          (λ a. refl) in
      elim (Option-cases (first (in_window scope start) (prune now bs))) [
        | inl e ↦ ground (
          arith,
          e,
          first-prune now bs h,
          kept,
          first-append_none (in_window scope start) (prune now bs) (new ∷ []),
        )
        | inr (b, e) ↦ ground (
          arith,
          e,
          first-prune now bs h,
          kept,
          first-append (in_window scope start) (prune now bs) (new ∷ []) b,
          first_holds (in_window scope start) (prune now bs) b,
          eq_iff b.scope scope,
          eq_iff b.scope s,
          eq_iff s scope,
        )
      ]

  -- For requests that are all served within an hour of the window's start, where those of the scope
  -- in the window pass the same limit: of the requests of the scope in the window, exactly as many
  -- are admitted as the bucket has left, or all if they are fewer. Requests of other scopes and
  -- windows in between change nothing.
  pub granted_exactly :
      (limit : ℕ) (rs : List Request) (bs : List RateBucket)
      → All
          (λ (r : Request). (r.at ≤ start + 3600) × (asks scope start r ≡ true → r.limit ≡ limit))
          rs
      → granted scope start rs bs ≡ min_of (asked scope start rs) (limit - used_up bs)
  unfolding granted serve_one check_rate asked bucket_start
  granted_exactly limit [] bs w = ground arith
  granted_exactly limit (r ∷ rs) bs ((early, same), ws) =
      let t = r.at - r.at % r.window_seconds in
      let after = increment r.at r.scope t r.org_id bs in
      let ih = granted_exactly limit rs after ws in
      elim (Bool-cases (r.scope == scope && t == start)) [
        | inl e ↦
            let (c, d) = counts-increment r.at r.scope t r.org_id bs early e in
            ground (arith, e, ih, c, d, same e)
        | inr e ↦ ground (arith, e, ih, used_up-increment_other r.at r.scope t r.org_id bs early e)
      ]
