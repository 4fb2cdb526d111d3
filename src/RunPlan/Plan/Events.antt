-- ===== src/RunPlan/Plan/Events.antt =====
-- The mode bits of the events, in one pass through a plan.
use otsdaq_mu2e.Base.{
  ℕ, zero, suc, ◌+◌, ◌-◌, ◌≡◌, ◌<◌, ◌≤◌, refl, sym, ap, ◌∙◌, inl, inr, true, ◌&&◌, List, [], ◌∷◌,
  ◌++◌, map, get_or, arith, offsets, bit_and, bit_or, ◌==◌, Bool-cases,
}
use otsdaq_mu2e.RunPlan.Types.{
  standard_n, n_coarse, Op, set_tag, label, or_singleshot, or_mode, and_mode, loop, heartbeat,
  marker, wait, inc_tag, do_loop, goto_label, OnRequest,
}
use otsdaq_mu2e.Base.Bits.{bit}
use otsdaq_mu2e.RunPlan.Ratio.{mn_fix_ratio}
use otsdaq_mu2e.RunPlan.Plan.{
  set_bits_mask, coarse_or, coarse_on, fine_on, fine_slot_on, event_ops, loop_ends, plan_on,
  checked_on, with_ratio, periodic_mode_on,
}
use otsdaq_mu2e.RunPlan.Plan.Pattern.{in_window, one_if, after_slot, bit-after_slot}

-- The mode bits at each HEARTBEAT in one pass, without those of the single shots; the operations on
-- mode bits take 48 bits from bit 0 on.
unfoldable pub event_modes : ℕ → List Op → List ℕ
event_modes mode [] = []
event_modes mode (and_mode s c v ∷ ops) = event_modes (bit_and mode v) ops
event_modes mode (or_mode s c v ∷ ops) = event_modes (bit_or mode v) ops
event_modes mode (heartbeat ∷ ops) = mode ∷ event_modes mode ops
event_modes mode (set_tag n ∷ ops) = event_modes mode ops
event_modes mode (label ∷ ops) = event_modes mode ops
event_modes mode (or_singleshot s c v ∷ ops) = event_modes mode ops
event_modes mode (loop n ∷ ops) = event_modes mode ops
event_modes mode (marker ∷ ops) = event_modes mode ops
event_modes mode (wait n u ∷ ops) = event_modes mode ops
event_modes mode (inc_tag ∷ ops) = event_modes mode ops
event_modes mode (do_loop ∷ ops) = event_modes mode ops
event_modes mode (goto_label ∷ ops) = event_modes mode ops

-- The mode bits behind the heads of the coarse loops.
abbrev pub after_heads : OnRequest → ℕ → ℕ → ℕ
after_heads q zero mode = mode
after_heads q (suc l) mode =
    after_heads q l
      (bit_or mode (bit_or (get_or q.or_masks (n_coarse - suc l) 0) (coarse_or q (suc l))))

pub modes-coarse_on :
    (q : OnRequest) (l mode : ℕ) (ops : List Op)
    → event_modes mode (coarse_on q l ++ ops) ≡ event_modes (after_heads q l mode) ops
unfolding coarse_on event_modes
modes-coarse_on q zero mode ops = refl
modes-coarse_on q (suc l) mode ops =
    modes-coarse_on q l
      (bit_or mode (bit_or (get_or q.or_masks (n_coarse - suc l) 0) (coarse_or q (suc l)))) ops

pub modes-loop_ends :
    (f : ℕ → ℕ) (n l mode : ℕ) → event_modes mode (loop_ends f n l ++ (goto_label ∷ [])) ≡ []
unfolding loop_ends event_modes
modes-loop_ends f zero l mode = refl
modes-loop_ends f (suc n) l mode =
    modes-loop_ends f n (l + 1) (bit_and mode (f (standard_n 0 + 1 + (l - 1))))

module _ (q : OnRequest) (k : ℕ) (all : q.apply_or ≡ true) (fine : q.n_part ≡ 100) (g : k < 48)
    (own : bit k (set_bits_mask q) ≡ 1) (free : (i : ℕ) → bit k (get_or q.or_masks i 0) ≡ 0) where
  modes-fine_on :
      (tail : List Op)
      → ((mode : ℕ) → event_modes mode tail ≡ [])
      → (n i mode : ℕ) → i + n ≤ 100
      → map (bit k) (event_modes mode (fine_on q n i ++ tail))
        ≡ map (λ j. one_if (in_window q.m_part q.offset j)) (offsets n i 1)
  unfolding fine_on fine_slot_on event_ops event_modes
  modes-fine_on tail quiet zero i mode h = rw (quiet mode) refl
  modes-fine_on tail quiet (suc n) i mode h =
      let now = bit-after_slot q i k mode all fine (omega arith) g own (free (n_coarse + i)) in
      let later = modes-fine_on tail quiet n (i + 1) (after_slot q i mode) (omega arith) in
      rw now (rw later refl)

  modes-plan_on :
      (mode : ℕ)
      → map (bit k) (event_modes mode (plan_on q))
        ≡ map (λ j. one_if (in_window q.m_part q.offset j)) (offsets 100 0 1)
  unfolding plan_on event_modes
  modes-plan_on mode =
      let ends = loop_ends (λ i. get_or q.and_masks i 0) n_coarse 1 ++ (goto_label ∷ []) in
      let tail = and_mode 0 48 (get_or q.and_masks (standard_n 0) 0) ∷ ends in
      let quiet : (m : ℕ) → event_modes m tail ≡ [] = λ m.
        modes-loop_ends (λ i. get_or q.and_masks i 0) n_coarse 1
          (bit_and m (get_or q.and_masks (standard_n 0) 0)) in
      rw (modes-coarse_on q n_coarse mode (fine_on q (standard_n 0) 0 ++ tail))
        (modes-fine_on tail quiet 100 0 (after_heads q n_coarse mode) (omega arith))

pub checked_on-plan_on : (q : OnRequest) {ops : List Op} → checked_on q ≡ inr ops → ops ≡ plan_on q
unfolding checked_on
checked_on-plan_on q h = ground arith

unit_ratio : mn_fix_ratio 1 1 ≡ inr (1, 1)
unfolding mn_fix_ratio
unit_ratio = refl

-- A plan that is made is that of the resolved ratio, if this is not a repeated one.
pub resolved_plan :
    (q : OnRequest) (m n : ℕ) {ops : List Op}
    → 100 ≤ n
    → mn_fix_ratio q.m_part q.n_part ≡ inr (m, n)
    → periodic_mode_on q ≡ inr ops
    → ops ≡ plan_on (record q { m_part = m; n_part = n })
unfolding periodic_mode_on with_ratio
resolved_plan q m n {ops = ops} large r h =
    elim (Bool-cases (q.value == 0 && (q.m_part == 1 && q.n_part == 1))) [
      | inl e ↦
          let a : q.m_part ≡ 1 = ground arith in
          let b : q.n_part ≡ 1 = ground arith in
          let one : mn_fix_ratio q.m_part q.n_part ≡ inr (1, 1) = rw a (rw b unit_ratio) in
          ground (arith, one, r)
      | inr e ↦
          let taken : periodic_mode_on q ≡ with_ratio q (mn_fix_ratio q.m_part q.n_part) =
            rw e refl in
          checked_on-plan_on (record q { m_part = m; n_part = n })
            (sym (ap (with_ratio q) r) ∙ (sym taken ∙ h))
    ]

-- A subsystem that joins the plan with a ratio that resolves to M in 100, its OR operations not
-- suppressed. Let `k` be one of its bits, below 48, that no OR operation of the plan so far sets.
-- In one pass through the plan that is written, whatever the mode bits before, bit `k` is on in the
-- 100 events exactly where the event is in the window of M events that begins at the offset, taken
-- round the circle of 100; the single shots are left aside.
pub periodic_mode_on-in_window :
    (q : OnRequest) (ops : List Op) (m k mode : ℕ)
    → mn_fix_ratio q.m_part q.n_part ≡ inr (m, 100)
    → periodic_mode_on q ≡ inr ops
    → q.apply_or ≡ true
    → k < 48
    → bit k (set_bits_mask q) ≡ 1
    → ((i : ℕ) → bit k (get_or q.or_masks i 0) ≡ 0)
    → map (bit k) (event_modes mode ops)
      ≡ map (λ j. one_if (in_window m q.offset j)) (offsets 100 0 1)
unfolding set_bits_mask
periodic_mode_on-in_window q ops m k mode r h all g own free =
    rw (resolved_plan q m 100 {ops = ops} (omega arith) r h)
      (modes-plan_on (record q { m_part = m; n_part = 100 }) k all refl g own free mode)
