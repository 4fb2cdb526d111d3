-- ===== src/RunPlan/Ratio/Laws.antt =====
-- What `mnFixRatio` lets pass.
use otsdaq_mu2e.Base.{
  ℕ, ◌%◌, ◌≡◌, ◌≤◌, ◌<◌, refl, sym, ◌∙◌, true, ◌&&◌, ◌⊎◌, inl, inr, ltb, arith, Bool-cases,
}
use otsdaq_mu2e.RunPlan.Types.{standard_n_values, PlanError}
use otsdaq_mu2e.RunPlan.Ratio.{
  get_ratio_of_on_per_events, is_standard, check_resolved, mn_fix_ratio,
}

-- A ratio that a plan can hold.
pub record IsResolved (m n : ℕ) : Type 0 where
  pub some_on : 0 < m
  pub below_100 : n < 100 → (m ≤ n) × (0 < n) × (100 % n ≡ 0)
  pub from_100 : 100 ≤ n → is_standard standard_n_values n ≡ true
  pub above_100 : 100 < n → m ≡ 1

ratio_on : (a b : ℕ) {m n : ℕ} → get_ratio_of_on_per_events a b ≡ inr (m, n) → 0 < m
unfolding get_ratio_of_on_per_events
ratio_on a b {m = m} {n = n} h = ground arith

is_standard_bound : (n : ℕ) → is_standard standard_n_values n ≡ true → 100 ≤ n
unfolding is_standard
is_standard_bound n h = ground arith

check_resolved_lem :
    (r : PlanError ⊎ (ℕ × ℕ)) {m n : ℕ}
    → check_resolved r ≡ inr (m, n)
    → (r ≡ inr (m, n)) × (is_standard standard_n_values n ≡ true) × ((n ≡ 100) ⊎ (m ≡ 1))
unfolding check_resolved
check_resolved_lem (inl e) h = absurd (ground arith)
check_resolved_lem (inr (a, b)) {m = m} {n = n} h = ground arith

coarse-IsResolved :
    (a b : ℕ) {m n : ℕ}
    → check_resolved (get_ratio_of_on_per_events a b) ≡ inr (m, n)
    → IsResolved m n
coarse-IsResolved a b {m = m} {n = n} h =
    let (made, standard, periodic) =
      check_resolved_lem (get_ratio_of_on_per_events a b) {m = m} {n = n} h in
    record {
      some_on = ratio_on a b {m = m} {n = n} made;
      below_100 = λ low. absurd (omega (arith, is_standard_bound n standard));
      from_100 = λ _. standard;
      above_100 = λ high. omega arith;
    }

-- A ratio that `mnFixRatio` lets pass has some event on; below N = 100 it is at most one event in
-- one and N divides 100; from 100 on, N is a standard value, and above 100, M is 1.
pub mn_fix_ratio_sound : (m n : ℕ) {m' n' : ℕ} → mn_fix_ratio m n ≡ inr (m', n') → IsResolved m' n'
unfolding mn_fix_ratio
mn_fix_ratio_sound m n {m' = m'} {n' = n'} h = elim (Bool-cases (ltb 0 n && ltb n 100)) [
  | inl e ↦ record {
    some_on = ground arith;
    below_100 = λ low. ground arith;
    from_100 = λ high. absurd (ground arith);
    above_100 = λ high. absurd (ground arith);
  }
  | inr e ↦
      let taken : mn_fix_ratio m n ≡ check_resolved (get_ratio_of_on_per_events n m) = rw e refl in
      coarse-IsResolved n m {m = m'} {n = n'} (sym taken ∙ h)
]
