-- ===== src/RunPlan/Types.antt =====
-- The data of the Shared Run Plan: its operations, the arguments of the two generators, the errors.
use otsdaq_mu2e.Base.{ℕ, Bool, List, [], ◌∷◌, ◌-◌, ◌%◌, ◌^◌, get_or, length}

-- `standardNValues_`
abbrev pub standard_n_values : List ℕ
standard_n_values =
    100 ∷ 200 ∷ 1000 ∷ 2000 ∷ 10000 ∷ 100000 ∷ 1000000 ∷ 10000000 ∷ 100000000 ∷ 1000000000 ∷ []

-- `standardNValues_[l]`
abbrev pub standard_n : ℕ → ℕ
standard_n l = get_or standard_n_values l 0

-- `N_coarse`
abbrev pub n_coarse : ℕ
n_coarse = length standard_n_values - 1

abbrev pub u64 : ℕ → ℕ
u64 x = x % 2 ^ 64

-- `~x` of a `uint64_t`
abbrev pub not64 : ℕ → ℕ
not64 x = 0xffff_ffff_ffff_ffff - x

-- 48 ones
abbrev pub all48 : ℕ
all48 = 0xffff_ffff_ffff

-- One line of the text of a run plan; the operations on mode bits have a start bit, a bit count and
-- a value.
pub data Op : Type 0 where
  set_tag : ℕ → Op
  label : Op
  or_singleshot or_mode and_mode : ℕ → ℕ → ℕ → Op
  loop : ℕ → Op
  heartbeat marker : Op
  wait : List ℕ → List ℕ → Op
  inc_tag do_loop goto_label : Op

-- What the exceptions say.
pub data PlanError : Type 0 where
  no_units : List ℕ → PlanError
  sub_fine_m sub_fine_n : ℕ → ℕ → PlanError
  no_clocks_per_event no_clocks_per_on : PlanError
  not_standard not_periodic : ℕ → ℕ → PlanError
  mask_sizes : ℕ → ℕ → PlanError
  singleshot_size : ℕ → PlanError
  no_mismatch : PlanError
  other_op : ℕ → ℕ → ℕ → PlanError
  not_consecutive : ℕ → ℕ → PlanError
  durations_differ : ℕ → ℕ → PlanError
  and_size or_size : ℕ → PlanError
  extracting : PlanError → PlanError

-- The arguments of `generateSharedRunPlanWithPeriodicModeOn`.
pub record OnRequest : Type 0 where
  pub init_tag : ℕ
  pub start_bit : ℕ
  pub bit_count : ℕ
  pub value : ℕ
  pub m_part : ℕ
  pub n_part : ℕ
  pub offset : ℕ
  pub split_number : List ℕ
  pub split_units : List ℕ
  pub and_masks : List ℕ
  pub or_masks : List ℕ
  pub single_shot : List ℕ
  pub apply_or : Bool

-- The arguments of `generateSharedRunPlanWithPeriodicModeOff`.
pub record OffRequest : Type 0 where
  pub start_bit : ℕ
  pub bit_count : ℕ
  pub split_number : List ℕ
  pub split_units : List ℕ
  pub and_masks : List ℕ
  pub or_masks : List ℕ
