-- ===== src/RunPlan/Extract.antt =====
-- `extractSharedRunPlanEventDuration`: a plan with a duration that no user has is compared with the
-- one that the CFO holds, and the operands that differ tell the duration. The compiler of run plans
-- and the comparison are code of the CFO library, and the parameter `Cfo` here.
pub mod Laws
pub mod Blind
use otsdaq_mu2e.Base.{
  ℕ, ◌+◌, ◌-◌, ◌*◌, ◌/◌, ◌%◌, ◌^◌, Bool, true, false, not, ◌&&◌, ◌⊎◌, inl, inr, Option, none, some,
  List, [], ◌∷◌, if◌then◌else◌, ◌==◌, is_empty, length, bit_and, bit_or,
}
use otsdaq_mu2e.RunPlan.Types.{
  Op, PlanError, no_mismatch, other_op, not_consecutive, durations_differ, and_size, or_size,
  extracting, OffRequest,
}
use otsdaq_mu2e.RunPlan.Plan.{and_places, or_places, periodic_mode_off}

-- One entry of `mismatches`: the address, the expected and the actual word.
abbrev pub Mismatch : Type 0
Mismatch = ℕ × ℕ × ℕ

-- What `CompareRunPlanData` gives: the mismatches in the order of their addresses, and the operands
-- of the AND and OR operations.
pub record Comparison : Type 0 where
  pub mismatches : List Mismatch
  pub ands : List ℕ
  pub ors : List ℕ

-- `CFO_Compiler::processFile`, `CompareRunPlanData`, and the code of the WAIT operation.
pub record Cfo : Type 0 where
  pub compile : List Op → List ℕ
  pub compare_plan : List ℕ → Comparison
  pub wait_code : ℕ

-- The local variables of the search.
pub record Scan : Type 0 where
  pub duration : ℕ
  pub last_address : ℕ
  pub potential : ℕ

-- `(word >> 24) & 0xEF`
unfoldable pub op_code : ℕ → ℕ
op_code word = bit_and (word / 2 ^ 24) 0xEF

-- The upper half of the operand of a WAIT.
unfoldable pub take_wait : Scan → ℕ → ℕ → PlanError ⊎ Scan
take_wait s address actual =
    let d = bit_or s.potential (actual % 0x10000 * 2 ^ 32) in
    if not (s.last_address == address - 1)
    then inl (not_consecutive s.last_address address)
    else if s.duration == 0
    then inr (record s { duration = d; potential = d })
    else if not (s.duration == d)
    then inl (durations_differ s.duration d)
    else inr (record s { potential = d })

-- One mismatch.
unfoldable pub scan_word : ℕ → Scan → Mismatch → PlanError ⊎ Scan
scan_word wait_code s (address, expected, actual) =
    if address % 2 == 0
    then inr (record s { potential = actual; last_address = address })
    else if not (op_code expected == op_code actual)
    then inl (other_op address expected actual)
    else if op_code expected == wait_code
    then take_wait s address actual
    else inr s

unfoldable pub on_scan : PlanError ⊎ Scan → (Scan → PlanError ⊎ Scan) → PlanError ⊎ Scan
on_scan (inl e) f = inl e
on_scan (inr s) f = f s

unfoldable pub scan_words : ℕ → Scan → List Mismatch → PlanError ⊎ Scan
scan_words wait_code s [] = inr s
scan_words wait_code s (m ∷ ms) = on_scan (scan_word wait_code s m) λ s'. scan_words wait_code s' ms

-- What the function leaves: the value returned, and the vectors that the caller gave.
pub record Extraction : Type 0 where
  pub event_duration : ℕ
  pub and_masks : Option (List ℕ)
  pub or_masks : Option (List ℕ)

abbrev pub given : Bool → List ℕ → Option (List ℕ)
given true xs = some xs
given false xs = none

-- The checks of the sizes of the masks, after the search.
unfoldable pub check_masks : Bool → Bool → Comparison → PlanError ⊎ Scan → PlanError ⊎ Extraction
check_masks ands ors c (inl e) = inl (extracting e)
check_masks ands ors c (inr s) =
    if ands && not (length c.ands == and_places)
    then inl (extracting (and_size (length c.ands)))
    else if ors && not (length c.ors == or_places)
    then inl (extracting (or_size (length c.ors)))
    else inr (record {
      event_duration = s.duration;
      and_masks = given ands c.ands;
      or_masks = given ors c.ors;
    })

unfoldable pub read_comparison : ℕ → Bool → Bool → Comparison → PlanError ⊎ Extraction
read_comparison wait_code ands ors c =
    if is_empty c.mismatches
    then inl (extracting no_mismatch)
    else check_masks ands ors c (
        scan_words wait_code (record { duration = 0; last_address = 0; potential = 0 })
          c.mismatches)

-- The duration 2 ^ 47 + 1, as text, and "clocks".
abbrev pub dummy_request : OffRequest
dummy_request = record {
  start_bit = 0;
  bit_count = 1;
  split_number = 49 ∷ 52 ∷ 48 ∷ 55 ∷ 51 ∷ 55 ∷ 52 ∷ 56 ∷ 56 ∷ 51 ∷ 53 ∷ 53 ∷ 51 ∷ 50 ∷ 57 ∷ [];
  split_units = 99 ∷ 108 ∷ 111 ∷ 99 ∷ 107 ∷ 115 ∷ [];
  and_masks = [];
  or_masks = [];
}

unfoldable pub compare_dummy : Cfo → Bool → Bool → PlanError ⊎ List Op → PlanError ⊎ Extraction
compare_dummy cfo ands ors (inl e) = inl (extracting e)
compare_dummy cfo ands ors (inr ops) =
    read_comparison cfo.wait_code ands ors (cfo.compare_plan (cfo.compile ops))

-- `extractSharedRunPlanEventDuration`; `ands` and `ors` say which vectors the caller gave.
unfoldable pub extract_event_duration : Cfo → Bool → Bool → PlanError ⊎ Extraction
extract_event_duration cfo ands ors = compare_dummy cfo ands ors (periodic_mode_off dummy_request)
