-- ===== src/RunPlan/Tests.antt =====
-- Runs of the ratio and of the plan, and the theorems at them.
use otsdaq_mu2e.Base.{
  ◌↔◌, ◌*◌, ◌+◌, ◌^◌, inl, false, ℕ, zero, suc, ◌<◌, ◌≡◌, refl, inr, true, List, [], ◌∷◌, ◌++◌, map,
  length, get_or, replicate, offsets, arith, All,
}
use otsdaq_mu2e.RunPlan.Types.{no_units, extracting, not_consecutive, all48, OnRequest, OffRequest}
use otsdaq_mu2e.Base.Bits.{bit}
use otsdaq_mu2e.RunPlan.Double.{
  nearest, round_bits, round_ratio, of_nat, divide, multiply, truncate,
}
use otsdaq_mu2e.RunPlan.Ratio.{
  starts_units, parse_event_duration, search_ratio, split_units_at, target_ratio,
  get_ratio_of_on_per_events, is_standard, check_resolved, mn_fix_ratio,
}
use otsdaq_mu2e.RunPlan.Ratio.Laws.{IsResolved, mn_fix_ratio_sound}
use otsdaq_mu2e.RunPlan.Plan.{
  and_places, or_places, wrong_sizes, field_mask, set_bits_mask, clear_bits_mask, use_masks,
  checked_on, with_ratio, plan_on, plan_off, periodic_mode_on, periodic_mode_off,
}
use otsdaq_mu2e.RunPlan.Plan.Shape.{shape, plan_on-plan_off}
use otsdaq_mu2e.RunPlan.Plan.Pattern.{in_window, one_if}
use otsdaq_mu2e.RunPlan.Plan.Events.{event_modes, periodic_mode_on-in_window}
use otsdaq_mu2e.RunPlan.Plan.Operands.{and_operands, or_operands}
use otsdaq_mu2e.RunPlan.Plan.Leave.{periodic_mode_off_clears}
use otsdaq_mu2e.RunPlan.Plan.Rejoin.{periodic_mode_on_dark}
use otsdaq_mu2e.RunPlan.Extract.{given, read_comparison, op_code}
use otsdaq_mu2e.RunPlan.Extract.Laws.{
  HeldOp, held_wait, held_other, compared, IsSameOp, read_comparison_duration,
}
use otsdaq_mu2e.RunPlan.Extract.Blind.{read_comparison_blind}
use otsdaq_mu2e.RunPlan.Ratio.Duration.{IsPlain, IsUnitLetter, parse_event_duration_lem}

-- The division and the product of 11 in 100 round to a number just below 11.
mn_fix_ratio_11 : mn_fix_ratio 11 100 ≡ inr (10, 100)
unfolding mn_fix_ratio check_resolved get_ratio_of_on_per_events target_ratio search_ratio
    is_standard nearest round_bits round_ratio of_nat divide multiply truncate
mn_fix_ratio_11 = refl

mn_fix_ratio_30 : mn_fix_ratio 30 100 ≡ inr (30, 100)
unfolding mn_fix_ratio check_resolved get_ratio_of_on_per_events target_ratio search_ratio
    is_standard nearest round_bits round_ratio of_nat divide multiply truncate
mn_fix_ratio_30 = refl

mn_fix_ratio_200 : mn_fix_ratio 1 200 ≡ inr (1, 200)
unfolding mn_fix_ratio check_resolved get_ratio_of_on_per_events target_ratio search_ratio
    is_standard nearest round_bits round_ratio of_nat divide multiply truncate
mn_fix_ratio_200 = refl

mn_fix_ratio_sound_example : IsResolved 30 100
mn_fix_ratio_sound_example = mn_fix_ratio_sound 30 100 mn_fix_ratio_30

-- "17ns"
abbrev duration_text : List ℕ
duration_text = 49 ∷ 55 ∷ 110 ∷ 115 ∷ []

parse_17ns : parse_event_duration duration_text ≡ inr (49 ∷ 55 ∷ [], 110 ∷ 115 ∷ [])
unfolding parse_event_duration split_units_at starts_units
parse_17ns = refl

parse_event_duration_lem_example :
    ((parse_event_duration duration_text ≡ inr (49 ∷ 55 ∷ [], 110 ∷ 115 ∷ [])) ↔ (
      ((49 ∷ 55 ∷ []) ++ (110 ∷ 115 ∷ []) ≡ duration_text)
      × All IsPlain (49 ∷ 55 ∷ [])
      × IsUnitLetter 110))
    × ((parse_event_duration duration_text ≡ inl (no_units duration_text))
        ↔ All IsPlain duration_text)
parse_event_duration_lem_example =
    parse_event_duration_lem duration_text (49 ∷ 55 ∷ []) (110 ∷ 115 ∷ [])

get_or-replicate : (n x i : ℕ) (ys : List ℕ) → i < n → get_or (replicate n x ++ ys) i 0 ≡ x
get_or-replicate zero x i ys h = absurd (omega arith)
get_or-replicate (suc n) x zero ys h = refl
get_or-replicate (suc n) x (suc i) ys h = get_or-replicate n x i ys (omega arith)

abbrev zeros : ℕ → List ℕ
zeros n = replicate n 0

get_or-zeros : (n i : ℕ) → get_or (zeros n) i 0 ≡ 0
get_or-zeros zero i = refl
get_or-zeros (suc n) zero = refl
get_or-zeros (suc n) (suc i) = get_or-zeros n i

-- Bit 4 joins with 30 events in 100, from event 5 on.
abbrev join : OnRequest
join = record {
  init_tag = 0;
  start_bit = 4;
  bit_count = 1;
  value = 1;
  m_part = 30;
  n_part = 100;
  offset = 5;
  split_number = 49 ∷ 55 ∷ [];
  split_units = 110 ∷ 115 ∷ [];
  and_masks = replicate 110 all48;
  or_masks = replicate 109 0;
  single_shot = [];
  apply_or = true;
}

made_join : periodic_mode_on join ≡ inr (plan_on join)
unfolding periodic_mode_on with_ratio checked_on wrong_sizes and_places or_places
made_join = rw mn_fix_ratio_30 refl

own_bit : bit 4 (set_bits_mask join) ≡ 1
unfolding set_bits_mask field_mask
own_bit = refl

free_bit : (i : ℕ) → bit 4 (get_or (replicate 109 0) i 0) ≡ 0
free_bit i = rw (get_or-zeros 109 i) refl

periodic_mode_on-in_window_example :
    map (bit 4) (event_modes 0 (plan_on join))
    ≡ map (λ j. one_if (in_window 30 5 j)) (offsets 100 0 1)
periodic_mode_on-in_window_example =
    periodic_mode_on-in_window join (plan_on join) 30 4 0 mn_fix_ratio_30 made_join refl
      (omega arith) own_bit free_bit

-- Bit 4 leaves.
abbrev leave : OffRequest
leave = record {
  start_bit = 4;
  bit_count = 1;
  split_number = 49 ∷ 55 ∷ [];
  split_units = 110 ∷ 115 ∷ [];
  and_masks = replicate 110 all48;
  or_masks = replicate 109 16;
}

leave_uses : use_masks leave ≡ true
unfolding use_masks
leave_uses = refl

made_leave : periodic_mode_off leave ≡ inr (plan_off leave)
unfolding periodic_mode_off wrong_sizes and_places or_places
made_leave = rw leave_uses refl

leave-bit : bit 4 (clear_bits_mask leave) ≡ 1
unfolding clear_bits_mask field_mask
leave-bit = refl

periodic_mode_off_clears_example :
    (map (bit 4) (and_operands (plan_off leave)) ≡ replicate 100 0 ++ replicate 10 1)
    × (map (bit 4) (or_operands (plan_off leave)) ≡ replicate 109 0)
periodic_mode_off_clears_example =
    periodic_mode_off_clears leave (plan_off leave) 4 leave_uses made_leave (omega arith) leave-bit

plan_on-plan_off_example : map shape (plan_on join) ≡ map shape (plan_off leave)
plan_on-plan_off_example = plan_on-plan_off join leave refl refl

-- Bit 4 comes back with one event in 200, on the masks that are left after it has left.
abbrev rejoin : OnRequest
rejoin = record join {
  m_part = 1;
  n_part = 200;
  and_masks = replicate 100 0xffff_ffff_ffef ++ replicate 10 all48;
}

made_rejoin : periodic_mode_on rejoin ≡ inr (plan_on rejoin)
unfolding periodic_mode_on with_ratio checked_on wrong_sizes and_places or_places
made_rejoin = rw mn_fix_ratio_200 refl

left_bit : (i : ℕ) → i < 100 → bit 4 (get_or rejoin.and_masks i 0) ≡ 0
left_bit i h = rw (get_or-replicate 100 0xffff_ffff_ffef i (replicate 10 all48) h) refl

periodic_mode_on_dark_example : map (bit 4) (event_modes 0 (plan_on rejoin)) ≡ replicate 100 0
periodic_mode_on_dark_example =
    periodic_mode_on_dark rejoin (plan_on rejoin) 1 200 4 0 mn_fix_ratio_200 (omega arith)
      made_rejoin left_bit free_bit

and_count : length (replicate 110 all48) ≡ and_places
unfolding and_places
and_count = refl

or_count : length (zeros 109) ≡ or_places
unfolding or_places
or_count = refl

-- Two WAITs behind operations of the same codes, one of which has other operands in the CFO.
abbrev some_ops : List HeldOp
some_ops =
    held_other 0xffff_ffff 0xffff_fff0 (6 * 2 ^ 24 + 0xffff) (6 * 2 ^ 24 + 0xfffe)
    ∷ held_wait
    ∷ held_other 7 7 (3 * 2 ^ 24) (3 * 2 ^ 24)
    ∷ held_wait
    ∷ []

some_ops-IsSameOp : All (IsSameOp 5) some_ops
unfolding op_code
some_ops-IsSameOp = ((refl, λ e. omega arith), (tt, ((refl, λ e. omega arith), (tt, tt))))

read_comparison_duration_example :
    read_comparison 5 true true (record {
      mismatches = compared 5 339 40 some_ops;
      ands = replicate 110 all48;
      ors = replicate 109 0;
    })
    ≡ inr (record {
      event_duration = 339;
      and_masks = given true (replicate 110 all48);
      or_masks = given true (replicate 109 0);
    })
read_comparison_duration_example =
    read_comparison_duration 5 339 40 some_ops (replicate 110 all48) (replicate 109 0) (omega arith)
      refl (λ e. omega arith) (λ e. omega arith) refl some_ops-IsSameOp refl and_count or_count

-- A duration of one clock.
read_comparison_blind_example :
    (last : ℕ) × (address : ℕ) × (read_comparison 5 false false
        (record { mismatches = compared 5 1 40 some_ops; ands = []; ors = [] })
      ≡ inl (extracting (not_consecutive last address)))
read_comparison_blind_example =
    read_comparison_blind 5 1 (omega arith) refl refl (λ e. omega arith) 40 some_ops false false []
      [] (omega arith) refl some_ops-IsSameOp refl
