-- ===== src/RunPlan/Ratio.antt =====
-- `mnFixRatio`, `getRatioOfOnPerEvents` and `parseEventDurationForRunPlan`.
pub mod Laws
pub mod Duration
use otsdaq_mu2e.Base.{
  ℕ, zero, suc, ◌+◌, ◌-◌, ◌*◌, ◌/◌, ◌%◌, Bool, true, false, not, ◌&&◌, ◌||◌, ◌⊎◌, inl, inr, List,
  [], ◌∷◌, if◌then◌else◌, ◌==◌, ltb, leb, is_empty, get_or, u32,
}
use otsdaq_mu2e.RunPlan.Types.{
  standard_n_values, standard_n, n_coarse, PlanError, no_units, sub_fine_m, sub_fine_n,
  no_clocks_per_event, no_clocks_per_on, not_standard, not_periodic,
}
use otsdaq_mu2e.RunPlan.Double.{Double, of_nat, divide, multiply, truncate}

-- 's', 'm', 'u', 'n', 'c'
unfoldable pub starts_units : ℕ → Bool
starts_units c = c == 115 || (c == 109 || (c == 117 || (c == 110 || c == 99)))

-- The text before the first character of the units, and the rest.
unfoldable pub split_units_at : List ℕ → List ℕ × List ℕ
split_units_at [] = ([], [])
split_units_at (c ∷ cs) =
    let rest = split_units_at cs in if starts_units c then ([], c ∷ cs) else (c ∷ rest.0, rest.1)

-- `parseEventDurationForRunPlan`: the value and the units
unfoldable pub parse_event_duration : List ℕ → PlanError ⊎ (List ℕ × List ℕ)
parse_event_duration text =
    let parts = split_units_at text in if is_empty parts.1 then inl (no_units text) else inr parts

-- The search loop: the first N for which at least one event is on, and its M; (0, 0) if none.
unfoldable pub search_ratio : Double → List ℕ → ℕ × ℕ
search_ratio target [] = (0, 0)
search_ratio target (n ∷ ns) =
    let rest = search_ratio target ns in
    let m = u32 (truncate (multiply target (of_nat n))) in
    if ltb 0 m then (if ltb (standard_n 0) n then (1, n) else (m, n)) else rest

-- `targetRatio`
unfoldable pub target_ratio : ℕ → ℕ → Double
target_ratio per_on per_event = divide (of_nat 1) (divide (of_nat per_on) (of_nat per_event))

-- `getRatioOfOnPerEvents`
unfoldable pub get_ratio_of_on_per_events : ℕ → ℕ → PlanError ⊎ (ℕ × ℕ)
get_ratio_of_on_per_events per_on per_event =
    if per_event == 0
    then inl no_clocks_per_event
    else if per_on == 0
    then inl no_clocks_per_on
    else (let found = search_ratio (target_ratio per_on per_event) standard_n_values in
        inr (if found.0 == 0 then (1, standard_n n_coarse) else found))

-- `validN`
unfoldable pub is_standard : List ℕ → ℕ → Bool
is_standard [] n = false
is_standard (x ∷ xs) n = n == x || is_standard xs n

-- The checks after the resolution.
unfoldable pub check_resolved : PlanError ⊎ (ℕ × ℕ) → PlanError ⊎ (ℕ × ℕ)
check_resolved (inl e) = inl e
check_resolved (inr (m, n)) =
    if not (is_standard standard_n_values n)
    then inl (not_standard m n)
    else if not (n == standard_n 0) && not (m == 1)
    then inl (not_periodic m n)
    else inr (m, n)

-- `mnFixRatio`: the ratio in place of M:N
unfoldable pub mn_fix_ratio : ℕ → ℕ → PlanError ⊎ (ℕ × ℕ)
mn_fix_ratio m n =
    if ltb 0 n && ltb n (standard_n 0)
    then (if m == 0 || ltb n m
        then inl (sub_fine_m m n)
        else if not (standard_n 0 % n == 0)
        then inl (sub_fine_n m n)
        else inr (m, n))
    else check_resolved (get_ratio_of_on_per_events n m)
