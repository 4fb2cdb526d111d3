-- ===== src/RunPlan/MacroTests.antt =====
-- Subsystems that join and leave on a small host, and the theorems at them.
use otsdaq_mu2e.Base.{
  ltb, if◌then◌else◌, ℕ, ◌+◌, ◌-◌, ◌*◌, ◌^◌, ◌≡◌, ◌<◌, refl, ap, true, false, inr, List, [], ◌∷◌,
  ◌++◌, map, length, take, drop, get_or, arith, All, replicate,
}
use otsdaq_mu2e.Base.Bits.{bit}
use otsdaq_mu2e.RunPlan.Types.{Op}
use otsdaq_mu2e.RunPlan.Plan.{
  plan_on, coarse_on, coarse_or, set_bits_mask, field_mask, shot_at, fine_on, fine_slot_on,
  fine_and, fine_keep, fine_or, should_clear, should_set, fine_phase, sub_fine_phase,
  clear_bits_mask, plan_off, periodic_mode_on, periodic_mode_off, with_ratio, checked_on,
  wrong_sizes, and_places, or_places, use_masks, coarse_off, coarse_off_or, fine_off, fine_slot_off,
  fine_off_and, fine_off_or, event_ops, loop_ends, end_mask,
}
use otsdaq_mu2e.RunPlan.Double.{
  nearest, round_bits, round_ratio, of_nat, divide, multiply, truncate,
}
use otsdaq_mu2e.RunPlan.Ratio.{
  mn_fix_ratio, check_resolved, get_ratio_of_on_per_events, search_ratio, target_ratio, is_standard,
}
use otsdaq_mu2e.RunPlan.Plan.Operands.{and_operands, or_operands}
use otsdaq_mu2e.RunPlan.Extract.{
  Comparison, dummy_request, extract_event_duration, compare_dummy, read_comparison, check_masks,
  scan_words, scan_word, take_wait, on_scan, op_code,
}
use otsdaq_mu2e.RunPlan.Macros.{
  subsystem_leave, leave_field, leave_plan, Host, CfoState, JoinArgs, crv, calo, subsystem_join,
  join_field, join_with, join_passes, set_plan, duty_ratio,
}
use otsdaq_mu2e.RunPlan.Macros.Held.{
  Macro, bits_of, join, leave, run_macro, HostLaws, Watched, Holds,
}
use otsdaq_mu2e.RunPlan.Macros.Passes.{Prepared, subsystem_join-Prepared}
use otsdaq_mu2e.RunPlan.Macros.Keeps.{run_macros, run_macros-Holds}
use otsdaq_mu2e.RunPlan.SingleShot.{is_on_slot, on_fine_slots, split_count}
use otsdaq_mu2e.RunPlan.SingleShot.Split.{HasPlan, counts_of, split_count_lem}

-- The operands of a plan, behind the number of those of the ANDs.
abbrev code_of : List Op → List ℕ
code_of ops = length (and_operands ops) ∷ and_operands ops ++ or_operands ops

abbrev tail_of : List ℕ → List ℕ
tail_of [] = []
tail_of (x ∷ xs) = xs

-- The plan in the memory has a duration of 68 clocks.
abbrev comparison_of : List ℕ → Comparison
comparison_of memory = record {
  mismatches = (2, 0, 68) ∷ (3, 5 * 2 ^ 24, 5 * 2 ^ 24) ∷ [];
  ands = take (get_or memory 0 0) (tail_of memory);
  ors = drop (get_or memory 0 0) (tail_of memory);
}

abbrev digits_from : ℕ → List ℕ → ℕ
digits_from n [] = n
digits_from n (c ∷ cs) = if ltb c 48 then n else digits_from (n * 10 + (c - 48)) cs

abbrev small_host : Host
small_host = record {
  compile = code_of;
  load = λ ws memory. (true, ws);
  compare_plan = λ memory ws. comparison_of memory;
  wait_code = 5;
  strtoul = digits_from 0;
  split_at_colons = λ text. [];
  to_text = λ n. n ∷ [];
}

take-append : (xs ys : List ℕ) → take (length xs) (xs ++ ys) ≡ xs
take-append [] ys = refl
take-append (x ∷ xs) ys = ap (λ l. x ∷ l) (take-append xs ys)

drop-append : (xs ys : List ℕ) → drop (length xs) (xs ++ ys) ≡ ys
drop-append [] ys = refl
drop-append (x ∷ xs) ys = drop-append xs ys

small_host-HostLaws : HostLaws small_host
small_host-HostLaws = record {
  loaded = λ ws memory ok. refl;
  compared_ands = λ ops ws. take-append (and_operands ops) (or_operands ops);
  compared_ors = λ ops ws. drop-append (and_operands ops) (or_operands ops);
}

abbrev first_plan : List Op
first_plan = plan_off dummy_request

abbrev running : CfoState
running = record {
  beam_on_mode = false;
  beam_off_mode = true;
  memory = code_of first_plan;
  plans = [];
}

-- The CRV joins with 50%, and the calorimeter leaves.
abbrev crv_args : JoinArgs
crv_args = record {
  subsystem = crv;
  duty_cycle = 53 ∷ 48 ∷ 37 ∷ [];
  offset = 0;
  bit_position = 0;
  bit_count = 0;
  bit_value = 0;
}

abbrev crv_joins : Macro
crv_joins = join crv_args

abbrev calo_leaves : Macro
calo_leaves = leave (record { subsystem = calo; bit_position = 0; bit_count = 0 })

-- The bit of the tracker.
abbrev tracker_bit : Watched
tracker_bit = record {
  k = 15;
  ands = map (bit 15) (and_operands first_plan);
  ors = map (bit 15) (or_operands first_plan);
}

crv_and_calo-other : All (λ m. bit 15 (bits_of m) ≡ 0) (crv_joins ∷ calo_leaves ∷ [])
unfolding field_mask
crv_and_calo-other = (refl, (refl, tt))

crv_join_ok : (run_macro small_host crv_joins running).0 ≡ inr tt
unfolding subsystem_join join_field join_with join_passes set_plan duty_ratio extract_event_duration
    compare_dummy read_comparison check_masks scan_words scan_word take_wait on_scan op_code
    periodic_mode_on periodic_mode_off with_ratio checked_on wrong_sizes and_places or_places
    mn_fix_ratio check_resolved get_ratio_of_on_per_events search_ratio target_ratio is_standard
    plan_off use_masks coarse_off coarse_off_or fine_off fine_slot_off fine_off_and fine_off_or
    event_ops loop_ends end_mask and_operands or_operands nearest round_bits round_ratio of_nat
    divide multiply truncate
crv_join_ok = refl

calo_leave_ok :
    (run_macro small_host calo_leaves (run_macro small_host crv_joins running).1).0 ≡ inr tt
unfolding subsystem_join join_field join_with join_passes set_plan duty_ratio extract_event_duration
    compare_dummy read_comparison check_masks scan_words scan_word take_wait on_scan op_code
    periodic_mode_on periodic_mode_off with_ratio checked_on wrong_sizes and_places or_places
    mn_fix_ratio check_resolved get_ratio_of_on_per_events search_ratio target_ratio is_standard
    plan_off use_masks coarse_off coarse_off_or fine_off fine_slot_off fine_off_and fine_off_or
    event_ops loop_ends end_mask and_operands or_operands nearest round_bits round_ratio of_nat
    divide multiply truncate plan_on coarse_on coarse_or set_bits_mask field_mask shot_at fine_on
    fine_slot_on fine_and fine_keep fine_or should_clear should_set fine_phase sub_fine_phase
    subsystem_leave leave_field leave_plan clear_bits_mask
calo_leave_ok = refl

run_macros-Holds_example :
    Holds small_host tracker_bit (run_macros small_host (crv_joins ∷ calo_leaves ∷ []) running)
run_macros-Holds_example =
    run_macros-Holds small_host small_host-HostLaws tracker_bit (crv_joins ∷ calo_leaves ∷ [])
      running (omega arith) crv_and_calo-other
      ((λ e. ground (arith, crv_join_ok)), ((λ e. ground (arith, calo_leave_ok)), tt))
      (record {
        held = first_plan;
        in_memory = refl;
        bits = record { and_bits = refl; or_bits = refl };
      })

subsystem_join-Prepared_example :
    Prepared first_plan running (subsystem_join small_host crv_args running).1
subsystem_join-Prepared_example =
    subsystem_join-Prepared small_host first_plan crv_args small_host-HostLaws running refl
      crv_join_ok

-- A single shot of 120 events at 50% takes three passes of 50 slots at most.
abbrev half_slots : List ℕ
half_slots = on_fine_slots 1 2 100 0

abbrev all_ands : List ℕ
all_ands = replicate and_places (2 ^ 48 - 1)

all_ands-size : length all_ands ≡ and_places
unfolding and_places
all_ands-size = refl

half_slots-any : 0 < length half_slots
unfolding on_fine_slots is_on_slot
half_slots-any = omega arith

split_count_lem_example :
    (counts_of (split_count false (length half_slots) 120) ≡ 120)
    × All (HasPlan (2 ^ 31) all_ands half_slots) (split_count false (length half_slots) 120)
split_count_lem_example =
    split_count_lem (2 ^ 31) all_ands half_slots all_ands-size false 120 half_slots-any
