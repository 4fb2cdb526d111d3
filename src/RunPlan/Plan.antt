-- ===== src/RunPlan/Plan.antt =====
-- `generateSharedRunPlanWithPeriodicModeOn` and `…Off`: the lines that are written to the file of
-- the run plan, without their indentation and comments.
pub mod Shape
pub mod Pattern
pub mod Events
pub mod Operands
pub mod Join
pub mod Leave
pub mod Rejoin
use otsdaq_mu2e.Base.{
  ℕ, zero, suc, ◌+◌, ◌-◌, ◌*◌, ◌/◌, ◌%◌, ◌^◌, Bool, true, false, not, ◌&&◌, ◌||◌, ◌⊎◌, inl, inr,
  List, [], ◌∷◌, ◌++◌, if◌then◌else◌, ◌==◌, ltb, leb, is_empty, get_or, length, bit_and, bit_or,
}
use otsdaq_mu2e.RunPlan.Types.{
  standard_n_values, standard_n, n_coarse, u64, not64, all48, Op, set_tag, label, or_singleshot,
  or_mode, and_mode, loop, heartbeat, marker, wait, inc_tag, do_loop, goto_label, PlanError,
  mask_sizes, singleshot_size, OnRequest, OffRequest,
}
use otsdaq_mu2e.RunPlan.Ratio.{mn_fix_ratio}

-- The sizes of the masks that a plan has places for.
unfoldable pub and_places : ℕ
and_places = standard_n 0 + 1 + n_coarse

unfoldable pub or_places : ℕ
or_places = n_coarse + standard_n 0

unfoldable pub wrong_sizes : List ℕ → List ℕ → Bool
wrong_sizes ands ors = not (length ands == and_places) || not (length ors == or_places)

-- `((uint64_t(1) << count) - 1) << start`
unfoldable pub field_mask : ℕ → ℕ → ℕ
field_mask start count = u64 ((2 ^ count - 1) * 2 ^ start)

-- `setBitsMask48`
unfoldable pub set_bits_mask : OnRequest → ℕ
set_bits_mask q = bit_and (u64 (q.value * 2 ^ q.start_bit)) (field_mask q.start_bit q.bit_count)

-- `singleShotMasks.size() ? singleShotMasks[i] : 0`
unfoldable pub shot_at : OnRequest → ℕ → ℕ
shot_at q i = if is_empty q.single_shot then 0 else get_or q.single_shot i 0

-- `new_coarse_or`, for the loop `l`
unfoldable pub coarse_or : OnRequest → ℕ → ℕ
coarse_or q l = if q.apply_or && standard_n l == q.n_part then set_bits_mask q else 0

-- The coarse loops, from the outermost `l` down to 1.
unfoldable pub coarse_on : OnRequest → ℕ → List Op
coarse_on q zero = []
coarse_on q (suc l) =
    or_singleshot 0 48 (shot_at q (n_coarse - suc l))
    ∷ or_mode 0 48 (bit_or (get_or q.or_masks (n_coarse - suc l) 0) (coarse_or q (suc l)))
    ∷ loop (standard_n (suc l) / standard_n l)
    ∷ coarse_on q l

-- `finePhase100`
unfoldable pub fine_phase : ℕ → ℕ → ℕ
fine_phase offset i = (i + standard_n 0 - offset % standard_n 0) % standard_n 0

-- `subFinePhase`
unfoldable pub sub_fine_phase : ℕ → ℕ → ℕ → ℕ
sub_fine_phase n offset i = if n == 0 then 0 else (i + n - offset % n) % n

unfoldable pub should_clear : OnRequest → ℕ → Bool
should_clear q i =
    (ltb (standard_n 0) q.n_part && ltb 0 i)
    || ((q.n_part == standard_n 0 && leb q.m_part (fine_phase q.offset i))
        || (ltb q.n_part (standard_n 0) && leb q.m_part (sub_fine_phase q.n_part q.offset i)))

unfoldable pub should_set : OnRequest → ℕ → Bool
should_set q i =
    q.apply_or
    && ((q.n_part == standard_n 0 && ltb (fine_phase q.offset i) q.m_part)
        || (ltb q.n_part (standard_n 0) && ltb (sub_fine_phase q.n_part q.offset i) q.m_part))

-- `new_and`
unfoldable pub fine_keep : OnRequest → ℕ → ℕ
fine_keep q i = if should_clear q i then bit_and all48 (not64 (set_bits_mask q)) else all48

-- `merged_and` and `merged_or` of a fine position
unfoldable pub fine_and : OnRequest → ℕ → ℕ
fine_and q i = bit_and (get_or q.and_masks i 0) (fine_keep q i)

unfoldable pub fine_or : OnRequest → ℕ → ℕ
fine_or q i =
    bit_or (get_or q.or_masks (n_coarse + i) 0) (if should_set q i then set_bits_mask q else 0)

-- The event of a fine position.
unfoldable pub event_ops : List ℕ → List ℕ → List Op → List Op
event_ops number units rest = heartbeat ∷ marker ∷ wait number units ∷ inc_tag ∷ rest

-- One fine position.
unfoldable pub fine_slot_on : OnRequest → ℕ → List Op → List Op
fine_slot_on q i rest =
    and_mode 0 48 (fine_and q i)
    ∷ or_mode 0 48 (fine_or q i)
    ∷ or_singleshot 0 48 (shot_at q (n_coarse + i))
    ∷ event_ops q.split_number q.split_units rest

-- `count` fine positions from `i` on
unfoldable pub fine_on : OnRequest → ℕ → ℕ → List Op
fine_on q zero i = []
fine_on q (suc count) i = fine_slot_on q i (fine_on q count (i + 1))

-- The ends of `count` coarse loops, from the loop `l` on; `mask` gives the operand of a place.
unfoldable pub loop_ends : (ℕ → ℕ) → ℕ → ℕ → List Op
loop_ends mask zero l = []
loop_ends mask (suc count) l =
    do_loop ∷ and_mode 0 48 (mask (standard_n 0 + 1 + (l - 1))) ∷ loop_ends mask count (l + 1)

-- The plan, on the resolved ratio.
unfoldable pub plan_on : OnRequest → List Op
plan_on q =
    set_tag q.init_tag ∷ label ∷ coarse_on q n_coarse
    ++ (fine_on q (standard_n 0) 0
        ++ (and_mode 0 48 (get_or q.and_masks (standard_n 0) 0)
              ∷ loop_ends (λ i. get_or q.and_masks i 0) n_coarse 1
            ++ (goto_label ∷ [])))

-- The checks of the sizes.
unfoldable pub checked_on : OnRequest → PlanError ⊎ List Op
checked_on q =
    if wrong_sizes q.and_masks q.or_masks
    then inl (mask_sizes (length q.and_masks) (length q.or_masks))
    else if not (is_empty q.single_shot) && not (length q.single_shot == or_places)
    then inl (singleshot_size (length q.single_shot))
    else inr (plan_on q)

unfoldable pub with_ratio : OnRequest → PlanError ⊎ (ℕ × ℕ) → PlanError ⊎ List Op
with_ratio q (inl e) = inl e
with_ratio q (inr (m, n)) = checked_on (record q { m_part = m; n_part = n })

-- `generateSharedRunPlanWithPeriodicModeOn`
unfoldable pub periodic_mode_on : OnRequest → PlanError ⊎ List Op
periodic_mode_on q =
    if q.value == 0 && (q.m_part == 1 && q.n_part == 1)
    then checked_on q
    else with_ratio q (mn_fix_ratio q.m_part q.n_part)

-- `useMasks`
unfoldable pub use_masks : OffRequest → Bool
use_masks q = not (is_empty q.and_masks) || not (is_empty q.or_masks)

-- `clearBitsMask48`
unfoldable pub clear_bits_mask : OffRequest → ℕ
clear_bits_mask q = if ltb 0 q.bit_count then field_mask q.start_bit q.bit_count else 0

unfoldable pub coarse_off_or : OffRequest → ℕ → Op
coarse_off_or q i =
    if use_masks q
    then or_mode 0 48 (bit_and (get_or q.or_masks i 0) (not64 (clear_bits_mask q)))
    else or_mode 0 1 0

unfoldable pub coarse_off : OffRequest → ℕ → List Op
coarse_off q zero = []
coarse_off q (suc l) =
    or_singleshot 0 48 0
    ∷ coarse_off_or q (n_coarse - suc l)
    ∷ loop (standard_n (suc l) / standard_n l)
    ∷ coarse_off q l

unfoldable pub fine_off_and : OffRequest → ℕ → Op
fine_off_and q i =
    if use_masks q
    then and_mode 0 48
        (bit_and (get_or q.and_masks i 0) (bit_and all48 (not64 (clear_bits_mask q))))
    else and_mode q.start_bit q.bit_count 0

unfoldable pub fine_off_or : OffRequest → ℕ → Op
fine_off_or q i =
    if use_masks q
    then or_mode 0 48 (bit_and (get_or q.or_masks (n_coarse + i) 0) (not64 (clear_bits_mask q)))
    else or_mode 0 1 0

unfoldable pub fine_slot_off : OffRequest → ℕ → List Op → List Op
fine_slot_off q i rest =
    fine_off_and q i
    ∷ fine_off_or q i
    ∷ or_singleshot 0 48 0
    ∷ event_ops q.split_number q.split_units rest

unfoldable pub fine_off : OffRequest → ℕ → ℕ → List Op
fine_off q zero i = []
fine_off q (suc count) i = fine_slot_off q i (fine_off q count (i + 1))

-- The operand of an AND behind the fine loop.
unfoldable pub end_mask : OffRequest → ℕ → ℕ
end_mask q i = if use_masks q then bit_or (get_or q.and_masks i 0) (clear_bits_mask q) else all48

unfoldable pub plan_off : OffRequest → List Op
plan_off q =
    set_tag 0 ∷ label ∷ coarse_off q n_coarse
    ++ (fine_off q (standard_n 0) 0
        ++ (and_mode 0 48 (end_mask q (standard_n 0)) ∷ loop_ends (end_mask q) n_coarse 1
            ++ (goto_label ∷ [])))

-- `generateSharedRunPlanWithPeriodicModeOff`
unfoldable pub periodic_mode_off : OffRequest → PlanError ⊎ List Op
periodic_mode_off q =
    if use_masks q && wrong_sizes q.and_masks q.or_masks
    then inl (mask_sizes (length q.and_masks) (length q.or_masks))
    else inr (plan_off q)
