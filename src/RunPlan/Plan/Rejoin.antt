-- ===== src/RunPlan/Plan/Rejoin.antt =====
-- A subsystem that comes back with a coarse ratio after it has left.
use otsdaq_mu2e.Base.{
  ℕ, zero, suc, ◌+◌, ◌≡◌, ◌<◌, ◌≤◌, refl, inr, false, List, [], ◌∷◌, ◌++◌, map, get_or, arith,
  replicate, bit_and, bit_or,
}
use otsdaq_mu2e.RunPlan.Types.{standard_n, n_coarse, Op, and_mode, goto_label, OnRequest}
use otsdaq_mu2e.Base.Bits.{bit, bit-bit_and, bit-bit_or, bit-zero}
use otsdaq_mu2e.RunPlan.Ratio.{mn_fix_ratio}
use otsdaq_mu2e.RunPlan.Plan.{
  should_set, fine_keep, fine_and, fine_or, fine_on, fine_slot_on, event_ops, loop_ends, plan_on,
  periodic_mode_on,
}
use otsdaq_mu2e.RunPlan.Plan.Pattern.{after_slot}
use otsdaq_mu2e.RunPlan.Plan.Events.{
  event_modes, after_heads, modes-coarse_on, modes-loop_ends, resolved_plan,
}

should_set_coarse : (q : OnRequest) (i : ℕ) → 100 < q.n_part → should_set q i ≡ false
unfolding should_set
should_set_coarse q i h = ground arith

dark_slot :
    (q : OnRequest) (i k mode : ℕ)
    → 100 < q.n_part
    → bit k (get_or q.and_masks i 0) ≡ 0
    → bit k (get_or q.or_masks (n_coarse + i) 0) ≡ 0
    → bit k (after_slot q i mode) ≡ 0
unfolding fine_and fine_or
dark_slot q i k mode h cleared free =
    let a = get_or q.and_masks i 0 in
    let o = get_or q.or_masks (n_coarse + i) 0 in
    rw (should_set_coarse q i h) (
      omega (
        arith,
        bit-bit_or k (bit_and mode (fine_and q i)) (bit_or o 0),
        bit-bit_or k o 0,
        bit-zero k,
        bit-bit_and k mode (fine_and q i),
        bit-bit_and k a (fine_keep q i),
      ))

module _ (q : OnRequest) (k : ℕ) (coarse : 100 < q.n_part)
    (cleared : (i : ℕ) → i < 100 → bit k (get_or q.and_masks i 0) ≡ 0)
    (free : (i : ℕ) → bit k (get_or q.or_masks i 0) ≡ 0) where
  dark-fine_on :
      (tail : List Op)
      → ((mode : ℕ) → event_modes mode tail ≡ [])
      → (n i mode : ℕ) → i + n ≤ 100
      → map (bit k) (event_modes mode (fine_on q n i ++ tail)) ≡ replicate n 0
  unfolding fine_on fine_slot_on event_ops event_modes
  dark-fine_on tail quiet zero i mode h = rw (quiet mode) refl
  dark-fine_on tail quiet (suc n) i mode h =
      let now = dark_slot q i k mode coarse (cleared i (omega arith)) (free (n_coarse + i)) in
      rw now (rw (dark-fine_on tail quiet n (i + 1) (after_slot q i mode) (omega arith)) refl)

  dark-plan_on : (mode : ℕ) → map (bit k) (event_modes mode (plan_on q)) ≡ replicate 100 0
  unfolding plan_on event_modes
  dark-plan_on mode =
      let ends = loop_ends (λ i. get_or q.and_masks i 0) n_coarse 1 ++ (goto_label ∷ []) in
      let tail = and_mode 0 48 (get_or q.and_masks (standard_n 0) 0) ∷ ends in
      let quiet : (m : ℕ) → event_modes m tail ≡ [] = λ m.
        modes-loop_ends (λ i. get_or q.and_masks i 0) n_coarse 1
          (bit_and m (get_or q.and_masks (standard_n 0) 0)) in
      rw (modes-coarse_on q n_coarse mode (fine_on q (standard_n 0) 0 ++ tail))
        (dark-fine_on tail quiet 100 0 (after_heads q n_coarse mode) (omega arith))

-- A subsystem whose bit `k` is 0 in the AND masks of all 100 events and in all OR masks, as it is
-- after the subsystem has left, and that joins again with a ratio that resolves to N > 100, stays
-- off: bit `k` is 0 in every event of a pass through the plan that is written, whatever the mode
-- bits before.
pub periodic_mode_on_dark :
    (q : OnRequest) (ops : List Op) (m n k mode : ℕ)
    → mn_fix_ratio q.m_part q.n_part ≡ inr (m, n)
    → 100 < n
    → periodic_mode_on q ≡ inr ops
    → ((i : ℕ) → i < 100 → bit k (get_or q.and_masks i 0) ≡ 0)
    → ((i : ℕ) → bit k (get_or q.or_masks i 0) ≡ 0)
    → map (bit k) (event_modes mode ops) ≡ replicate 100 0
periodic_mode_on_dark q ops m n k mode r coarse h cleared free =
    rw (resolved_plan q m n {ops = ops} (omega arith) r h)
      (dark-plan_on (record q { m_part = m; n_part = n }) k coarse cleared free mode)
