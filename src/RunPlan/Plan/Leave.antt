-- ===== src/RunPlan/Plan/Leave.antt =====
-- A subsystem that leaves the plan: its bits are off everywhere, those of the others stay.
use Prim.Native.Nat.{max}
use otsdaq_mu2e.Base.{
  ℕ, zero, suc, ◌+◌, ◌-◌, ◌^◌, ◌≡◌, ◌<◌, ◌≤◌, refl, sym, ap, ◌∙◌, inr, true, List, [], ◌∷◌, ◌++◌,
  map, get_or, arith, bit_and, length, min, replicate,
}
use otsdaq_mu2e.RunPlan.Types.{n_coarse, all48, not64, Op, and_mode, goto_label, OffRequest}
use otsdaq_mu2e.Base.Bits.{bit, bit-bit_and, bit-bit_or, bit_bound, bit-complement}
use otsdaq_mu2e.RunPlan.Plan.{
  and_places, or_places, wrong_sizes, field_mask, use_masks, clear_bits_mask, coarse_off,
  coarse_off_or, fine_off, fine_slot_off, fine_off_and, fine_off_or, event_ops, loop_ends, end_mask,
  plan_off, periodic_mode_off,
}
use otsdaq_mu2e.RunPlan.Plan.Pattern.{bit-not64}
use otsdaq_mu2e.RunPlan.Plan.Operands.{
  and_operands, or_operands, at_places, at_places-get_or, at_places-ext, and-loop_ends,
  or-loop_ends,
}

clear_bits_mask_bound : (q : OffRequest) → clear_bits_mask q < 2 ^ 64
unfolding clear_bits_mask field_mask
clear_bits_mask_bound q = ground arith

-- The operands of a plan with masks, when bit `k` of each kind is known.
module _ (q : OffRequest) (k : ℕ) (a e o : ℕ → ℕ) (on : use_masks q ≡ true)
    (fine : (i : ℕ)
      → bit k (bit_and (get_or q.and_masks i 0) (bit_and all48 (not64 (clear_bits_mask q)))) ≡ a i)
    (ends : (i : ℕ) → bit k (end_mask q i) ≡ e i)
    (ors : (i : ℕ)
      → bit k (bit_and (get_or q.or_masks i 0) (not64 (clear_bits_mask q))) ≡ o i) where
  and-coarse_off : (l : ℕ) (ops : List Op) → and_operands (coarse_off q l ++ ops) ≡ and_operands ops
  unfolding and_operands coarse_off coarse_off_or
  and-coarse_off zero ops = refl
  and-coarse_off (suc l) ops = rw on (and-coarse_off l ops)

  and-fine_off :
      (n i : ℕ) (ops : List Op)
      → map (bit k) (and_operands (fine_off q n i ++ ops))
        ≡ at_places a n i ++ map (bit k) (and_operands ops)
  unfolding and_operands fine_off fine_slot_off fine_off_and fine_off_or event_ops
  and-fine_off zero i ops = refl
  and-fine_off (suc n) i ops = rw on (rw (fine i) (rw (and-fine_off n (i + 1) ops) refl))

  or-coarse_off :
      (l : ℕ) (ops : List Op)
      → l ≤ n_coarse
      → map (bit k) (or_operands (coarse_off q l ++ ops))
        ≡ at_places o l (n_coarse - l) ++ map (bit k) (or_operands ops)
  unfolding or_operands coarse_off coarse_off_or
  or-coarse_off zero ops h = refl
  or-coarse_off (suc l) ops h =
      let next : n_coarse - l ≡ n_coarse - suc l + 1 = omega arith in
      rw on (rw (ors (n_coarse - suc l)) (rw (or-coarse_off l ops (omega arith)) (rw next refl)))

  or-fine_off :
      (n i : ℕ) (ops : List Op)
      → map (bit k) (or_operands (fine_off q n i ++ ops))
        ≡ at_places o n (n_coarse + i) ++ map (bit k) (or_operands ops)
  unfolding or_operands fine_off fine_slot_off fine_off_and fine_off_or event_ops
  or-fine_off zero i ops = refl
  or-fine_off (suc n) i ops =
      let next : n_coarse + (i + 1) ≡ n_coarse + i + 1 = omega arith in
      rw on (rw (ors (n_coarse + i)) (rw (or-fine_off n (i + 1) ops) (rw next refl)))

  operands-plan_off :
      (map (bit k) (and_operands (plan_off q)) ≡ at_places a 100 0 ++ at_places e 10 100)
      × (map (bit k) (or_operands (plan_off q)) ≡ at_places o 109 0)
  unfolding plan_off and_operands or_operands
  operands-plan_off =
      let tail =
        and_mode 0 48 (end_mask q 100) ∷ (loop_ends (end_mask q) n_coarse 1 ++ (goto_label ∷ [])) in
      (
        rw (and-coarse_off n_coarse (fine_off q 100 0 ++ tail)) (
            rw (and-fine_off 100 0 tail) (
              rw (and-loop_ends k (end_mask q) n_coarse 0) (
                ap (λ xs. at_places a 100 0 ++ xs)
                  (at_places-ext (λ i. bit k (end_mask q i)) e ends 10 100)))),
        rw (or-coarse_off n_coarse (fine_off q 100 0 ++ tail) (omega arith))
            (rw (or-fine_off 100 0 tail) (rw (or-loop_ends (end_mask q) n_coarse 1) refl)),
      )

-- What a made plan with masks rests on.
record MadeOff (q : OffRequest) (ops : List Op) : Type 0 where
  is_plan : ops ≡ plan_off q
  ands : length q.and_masks ≡ 110
  ors : length q.or_masks ≡ 109

made_off :
    (q : OffRequest) {ops : List Op}
    → use_masks q ≡ true
    → periodic_mode_off q ≡ inr ops
    → MadeOff q ops
unfolding periodic_mode_off wrong_sizes and_places or_places
made_off q {ops = ops} on h = record {
  is_plan = ground arith;
  ands = ground arith;
  ors = ground arith;
}

module _ (q : OffRequest) (k : ℕ) (g : k < 48) where
  cleared :
      (x : ℕ)
      → bit k (bit_and x (not64 (clear_bits_mask q)))
        ≡ min (bit k x) (1 - bit k (clear_bits_mask q))
  cleared x = omega (
    arith,
    bit-bit_and k x (not64 (clear_bits_mask q)),
    bit-complement 64 k (clear_bits_mask q) (omega arith) (omega (arith, clear_bits_mask_bound q)),
  )

  cleared48 :
      (x : ℕ)
      → bit k (bit_and x (bit_and all48 (not64 (clear_bits_mask q))))
        ≡ min (bit k x) (1 - bit k (clear_bits_mask q))
  cleared48 x = omega (
    arith,
    bit-bit_and k x (bit_and all48 (not64 (clear_bits_mask q))),
    bit-not64 k (clear_bits_mask q) g (clear_bits_mask_bound q),
  )

  end_bit :
      (i : ℕ)
      → use_masks q ≡ true
      → bit k (end_mask q i) ≡ max (bit k (get_or q.and_masks i 0)) (bit k (clear_bits_mask q))
  unfolding end_mask
  end_bit i on = rw on (bit-bit_or k (get_or q.and_masks i 0) (clear_bits_mask q))

-- A subsystem that leaves is off: in the plan that is written with the masks of the plan so far, a
-- bit of the field that is cleared, below 48, is 0 in the AND of all 100 events, 1 in the ten AND
-- operations behind them, and 0 in all OR operations.
pub periodic_mode_off_clears :
    (q : OffRequest) (ops : List Op) (k : ℕ)
    → use_masks q ≡ true
    → periodic_mode_off q ≡ inr ops
    → k < 48
    → bit k (clear_bits_mask q) ≡ 1
    → (map (bit k) (and_operands ops) ≡ replicate 100 0 ++ replicate 10 1)
      × (map (bit k) (or_operands ops) ≡ replicate 109 0)
periodic_mode_off_clears q ops k on h g own = rw (made_off q {ops = ops} on h).is_plan (
    operands-plan_off q k (λ _. 0) (λ _. 1) (λ _. 0) on
      (λ i. omega (arith, cleared48 q k g (get_or q.and_masks i 0)))
      (λ i. omega (arith, end_bit q k g i on, bit_bound k (get_or q.and_masks i 0)))
      (λ i. omega (arith, cleared q k g (get_or q.or_masks i 0))))

-- A subsystem that leaves does not touch the others: in the plan that is written with the masks of
-- the plan so far, a bit below 48 outside the field that is cleared has the values of those masks,
-- at every place of the AND and of the OR operations.
pub periodic_mode_off_keeps :
    (q : OffRequest) (ops : List Op) (k : ℕ)
    → use_masks q ≡ true
    → periodic_mode_off q ≡ inr ops
    → k < 48
    → bit k (clear_bits_mask q) ≡ 0
    → (map (bit k) (and_operands ops) ≡ map (bit k) q.and_masks)
      × (map (bit k) (or_operands ops) ≡ map (bit k) q.or_masks)
periodic_mode_off_keeps q ops k on h g other =
    let made = made_off q {ops = ops} on h in
    let parts =
      operands-plan_off q k (λ i. bit k (get_or q.and_masks i 0))
        (λ i. bit k (get_or q.and_masks i 0)) (λ i. bit k (get_or q.or_masks i 0)) on
        (λ i.
          omega
            (arith, cleared48 q k g (get_or q.and_masks i 0), bit_bound k (get_or q.and_masks i 0)))
        (λ i. omega (arith, end_bit q k g i on))
        (λ i.
          omega
            (arith, cleared q k g (get_or q.or_masks i 0), bit_bound k (get_or q.or_masks i 0))) in
    rw made.is_plan (
      parts.0
          ∙ (ap (λ n. at_places (λ i. bit k (get_or q.and_masks i 0)) n 0) (sym made.ands)
              ∙ at_places-get_or (bit k) q.and_masks),
      parts.1
          ∙ (ap (λ n. at_places (λ i. bit k (get_or q.or_masks i 0)) n 0) (sym made.ors)
              ∙ at_places-get_or (bit k) q.or_masks),
    )
