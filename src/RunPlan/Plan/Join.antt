-- ===== src/RunPlan/Plan/Join.antt =====
-- A subsystem that joins the plan changes its own bits only.
use otsdaq_mu2e.Base.{
  ℕ, zero, suc, ◌+◌, ◌-◌, ◌≡◌, ◌<◌, ◌≤◌, refl, sym, ap, ◌∙◌, ◌⊎◌, inl, inr, Bool, true, false, ◌&&◌,
  List, [], ◌∷◌, ◌++◌, map, get_or, arith, if◌then◌else◌, bit_and, bit_or, ◌==◌, length, Bool-cases,
}
use otsdaq_mu2e.RunPlan.Types.{
  standard_n, n_coarse, all48, not64, Op, and_mode, goto_label, OnRequest, PlanError,
}
use otsdaq_mu2e.Base.Bits.{bit, bit-bit_and, bit-bit_or, bit-zero, bit_bound, bit-ones}
use otsdaq_mu2e.RunPlan.Plan.{
  and_places, or_places, wrong_sizes, set_bits_mask, coarse_or, coarse_on, fine_keep, fine_and,
  fine_or, fine_on, fine_slot_on, event_ops, loop_ends, plan_on, checked_on, with_ratio,
  periodic_mode_on, should_set, should_clear,
}
use otsdaq_mu2e.RunPlan.Ratio.{mn_fix_ratio}
use otsdaq_mu2e.RunPlan.Plan.Events.{checked_on-plan_on}
use otsdaq_mu2e.RunPlan.Plan.Pattern.{bit-not64, set_bits_mask_bound}
use otsdaq_mu2e.RunPlan.Plan.Operands.{
  and_operands, or_operands, at_places, at_places-get_or, and-loop_ends, or-loop_ends,
}

bit-fine_and :
    (q : OnRequest) (k i : ℕ)
    → k < 48
    → bit k (set_bits_mask q) ≡ 0
    → bit k (fine_and q i) ≡ bit k (get_or q.and_masks i 0)
unfolding fine_and fine_keep
bit-fine_and q k i g other =
    let m = get_or q.and_masks i 0 in
    let kept = bit_and all48 (not64 (set_bits_mask q)) in
    elim (Bool-cases (should_clear q i)) [
      | inl e ↦ rw e (
          omega (
            arith,
            bit-bit_and k m kept,
            bit-not64 k (set_bits_mask q) g (set_bits_mask_bound q),
            bit_bound k m,
          ))
      | inr e ↦ rw e (omega (arith, bit-bit_and k m all48, bit-ones 48 k g, bit_bound k m))
    ]

bit-or_if : (k x y : ℕ) (b : Bool) → bit k y ≡ 0 → bit k (bit_or x (if b then y else 0)) ≡ bit k x
bit-or_if k x y true h = omega (arith, bit-bit_or k x y)
bit-or_if k x y false h = omega (arith, bit-bit_or k x 0, bit-zero k)

module _ (q : OnRequest) (k : ℕ) (g : k < 48) (other : bit k (set_bits_mask q) ≡ 0) where
  old_and : ℕ → ℕ
  old_and i = bit k (get_or q.and_masks i 0)

  old_or : ℕ → ℕ
  old_or i = bit k (get_or q.or_masks i 0)

  and-coarse_on : (l : ℕ) (ops : List Op) → and_operands (coarse_on q l ++ ops) ≡ and_operands ops
  unfolding and_operands coarse_on
  and-coarse_on zero ops = refl
  and-coarse_on (suc l) ops = and-coarse_on l ops

  and-fine_on :
      (n i : ℕ) (ops : List Op)
      → map (bit k) (and_operands (fine_on q n i ++ ops))
        ≡ at_places old_and n i ++ map (bit k) (and_operands ops)
  unfolding and_operands fine_on fine_slot_on event_ops old_and
  and-fine_on zero i ops = refl
  and-fine_on (suc n) i ops = rw (bit-fine_and q k i g other) (rw (and-fine_on n (i + 1) ops) refl)

  or-coarse_on :
      (l : ℕ) (ops : List Op)
      → l ≤ n_coarse
      → map (bit k) (or_operands (coarse_on q l ++ ops))
        ≡ at_places old_or l (n_coarse - l) ++ map (bit k) (or_operands ops)
  unfolding or_operands coarse_on coarse_or old_or
  or-coarse_on zero ops h = refl
  or-coarse_on (suc l) ops h =
      let next : n_coarse - l ≡ n_coarse - suc l + 1 = omega arith in
      let rest = or-coarse_on l ops (omega arith) in
      let same =
        bit-or_if k (get_or q.or_masks (n_coarse - suc l) 0) (set_bits_mask q)
          (q.apply_or && standard_n (suc l) == q.n_part) other in
      rw same (rw rest (rw next refl))

  or-fine_on :
      (n i : ℕ) (ops : List Op)
      → map (bit k) (or_operands (fine_on q n i ++ ops))
        ≡ at_places old_or n (n_coarse + i) ++ map (bit k) (or_operands ops)
  unfolding or_operands fine_on fine_slot_on event_ops fine_or old_or
  or-fine_on zero i ops = refl
  or-fine_on (suc n) i ops =
      let next : n_coarse + (i + 1) ≡ n_coarse + i + 1 = omega arith in
      let rest = or-fine_on n (i + 1) ops in
      let same =
        bit-or_if k (get_or q.or_masks (n_coarse + i) 0) (set_bits_mask q) (should_set q i) other in
      rw same (rw rest (rw next refl))

  and-plan_on :
      length q.and_masks ≡ 110 → map (bit k) (and_operands (plan_on q)) ≡ map (bit k) q.and_masks
  unfolding plan_on and_operands old_and
  and-plan_on e =
      let ends = loop_ends (λ i. get_or q.and_masks i 0) n_coarse 1 ++ (goto_label ∷ []) in
      let tail = and_mode 0 48 (get_or q.and_masks (standard_n 0) 0) ∷ ends in
      let table = ap (λ n. at_places old_and n 0) (sym e) ∙ at_places-get_or (bit k) q.and_masks in
      rw (and-coarse_on n_coarse (fine_on q (standard_n 0) 0 ++ tail)) (
        rw (and-fine_on 100 0 tail)
          (rw (and-loop_ends k (λ i. get_or q.and_masks i 0) n_coarse 0) table))

  or-plan_on :
      length q.or_masks ≡ 109 → map (bit k) (or_operands (plan_on q)) ≡ map (bit k) q.or_masks
  unfolding plan_on or_operands old_or
  or-plan_on e =
      let ends = loop_ends (λ i. get_or q.and_masks i 0) n_coarse 1 ++ (goto_label ∷ []) in
      let tail = and_mode 0 48 (get_or q.and_masks (standard_n 0) 0) ∷ ends in
      let table = ap (λ n. at_places old_or n 0) (sym e) ∙ at_places-get_or (bit k) q.or_masks in
      rw (or-coarse_on n_coarse (fine_on q (standard_n 0) 0 ++ tail) (omega arith)) (
        rw (or-fine_on 100 0 tail)
          (rw (or-loop_ends (λ i. get_or q.and_masks i 0) n_coarse 1) table))

-- What a made plan rests on: some ratio, and masks of the right sizes.
pub record MadePlan (q : OnRequest) (ops : List Op) : Type 0 where
  pub m : ℕ
  pub n : ℕ
  pub is_plan : ops ≡ plan_on (record q { m_part = m; n_part = n })
  pub ands : length q.and_masks ≡ 110
  pub ors : length q.or_masks ≡ 109

pub checked_plan : (q : OnRequest) {ops : List Op} → checked_on q ≡ inr ops → MadePlan q ops
unfolding checked_on wrong_sizes and_places or_places
checked_plan q {ops = ops} h = record {
  m = q.m_part;
  n = q.n_part;
  is_plan = ground arith;
  ands = ground arith;
  ors = ground arith;
}

ratio_plan :
    (q : OnRequest) (r : PlanError ⊎ (ℕ × ℕ)) {ops : List Op}
    → with_ratio q r ≡ inr ops
    → MadePlan q ops
unfolding with_ratio
ratio_plan q (inl e) h = absurd (ground arith)
ratio_plan q (inr (m, n)) {ops = ops} h =
    let made = checked_plan (record q { m_part = m; n_part = n }) {ops = ops} h in
    record {
      m = m;
      n = n;
      is_plan = checked_on-plan_on (record q { m_part = m; n_part = n }) h;
      ands = made.ands;
      ors = made.ors;
    }

made_plan : (q : OnRequest) {ops : List Op} → periodic_mode_on q ≡ inr ops → MadePlan q ops
unfolding periodic_mode_on
made_plan q {ops = ops} h = elim (Bool-cases (q.value == 0 && (q.m_part == 1 && q.n_part == 1))) [
  | inl e ↦
      let taken : periodic_mode_on q ≡ checked_on q = rw e refl in
      checked_plan q {ops = ops} (sym taken ∙ h)
  | inr e ↦
      let taken : periodic_mode_on q ≡ with_ratio q (mn_fix_ratio q.m_part q.n_part) = rw e refl in
      ratio_plan q (mn_fix_ratio q.m_part q.n_part) {ops = ops} (sym taken ∙ h)
]

-- A subsystem that joins leaves the others alone: in the plan that is written, a bit below 48 that
-- is not one of its bits has the values of the given masks, at every place of the AND and of the OR
-- operations.
pub periodic_mode_on_keeps :
    (q : OnRequest) (ops : List Op) (k : ℕ)
    → periodic_mode_on q ≡ inr ops
    → k < 48
    → bit k (set_bits_mask q) ≡ 0
    → (map (bit k) (and_operands ops) ≡ map (bit k) q.and_masks)
      × (map (bit k) (or_operands ops) ≡ map (bit k) q.or_masks)
unfolding set_bits_mask
periodic_mode_on_keeps q ops k h g other =
    let made = made_plan q {ops = ops} h in
    let q' = record q { m_part = made.m; n_part = made.n } in
    rw made.is_plan (and-plan_on q' k g other made.ands, or-plan_on q' k g other made.ors)
