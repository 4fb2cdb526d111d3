-- ===== src/RunPlan/Macros.antt =====
-- The macros `SharedRunPlanSubsystemJoin` and `SharedRunPlanSubsystemLeave`, on the plan that the CFO
-- holds.
pub mod Held
pub mod Keeps
pub mod Passes
use otsdaq_mu2e.Base.{
  ℕ, Bool, true, false, not, ◌||◌, ◌⊎◌, inl, inr, Option, none, some, List, [], ◌∷◌, if◌then◌else◌,
  ◌==◌, ltb, u32, ⊤,
}
use otsdaq_mu2e.RunPlan.Types.{Op, PlanError, OnRequest, OffRequest}
use otsdaq_mu2e.RunPlan.Plan.{periodic_mode_on, periodic_mode_off}
use otsdaq_mu2e.RunPlan.Extract.{Cfo, Comparison, Extraction, extract_event_duration}

-- The names of `supportedSubsystems_`, and any other.
pub data Subsystem : Type 0 where
  crv calo tracker stm ext_mon custom : Subsystem
  unsupported : List ℕ → Subsystem

-- `supportedSubsystems_`
abbrev pub mode_bit : Subsystem → Option ℕ
mode_bit crv = some 31
mode_bit calo = some 23
mode_bit tracker = some 15
mode_bit stm = some 37
mode_bit ext_mon = some 39
mode_bit custom = some 0
mode_bit (unsupported name) = none

-- What is not code of the repository: the compiler, `SetRunPlanData` (the memory of the CFO and
-- whether it is what was written), `CompareRunPlanData` on the memory, the code of the WAIT
-- operation, `strtoul`, the split of a text at its colons, and `to_string`.
pub record Host : Type 0 where
  pub compile : List Op → List ℕ
  pub load : List ℕ → List ℕ → Bool × List ℕ
  pub compare_plan : List ℕ → List ℕ → Comparison
  pub wait_code : ℕ
  pub strtoul : List ℕ → ℕ
  pub split_at_colons : List ℕ → List (List ℕ)
  pub to_text : ℕ → List ℕ

-- What the exceptions of the macros say.
pub data MacroError : Type 0 where
  not_in_plan load_failed : MacroError
  unknown_subsystem illegal_percentage illegal_ratio : List ℕ → MacroError
  bad_plan : PlanError → MacroError

-- The modes and the memory of the CFO, and the plans set so far, the latest first.
pub record CfoState : Type 0 where
  pub beam_on_mode : Bool
  pub beam_off_mode : Bool
  pub memory : List ℕ
  pub plans : List (List Op)

abbrev pub Ending : Type 0
Ending = (MacroError ⊎ ⊤) × CfoState

abbrev pub then_macro : Ending → (CfoState → Ending) → Ending
then_macro (inl why, s) f = (inl why, s)
then_macro (inr done, s) f = f s

-- The arguments of the join; the last three are read for "Custom" only.
pub record JoinArgs : Type 0 where
  pub subsystem : Subsystem
  pub duty_cycle : List ℕ
  pub offset : ℕ
  pub bit_position : ℕ
  pub bit_count : ℕ
  pub bit_value : ℕ

pub record LeaveArgs : Type 0 where
  pub subsystem : Subsystem
  pub bit_position : ℕ
  pub bit_count : ℕ

-- `onBits_startBit`, `onBits_bitCount` and `onBits_value`
abbrev pub Field : Type 0
Field = ℕ × ℕ × ℕ

abbrev pub on_field : JoinArgs → Subsystem → ℕ → Field
on_field a custom b = (a.bit_position, a.bit_count, a.bit_value)
on_field a crv b = (b, 1, 1)
on_field a calo b = (b, 1, 1)
on_field a tracker b = (b, 1, 1)
on_field a stm b = (b, 1, 1)
on_field a ext_mon b = (b, 1, 1)
on_field a (unsupported name) b = (b, 1, 1)

abbrev pub off_field : LeaveArgs → Subsystem → ℕ → ℕ × ℕ
off_field a custom b = (a.bit_position, a.bit_count)
off_field a crv b = (b, 1)
off_field a calo b = (b, 1)
off_field a tracker b = (b, 1)
off_field a stm b = (b, 1)
off_field a ext_mon b = (b, 1)
off_field a (unsupported name) b = (b, 1)

-- The last character is '%'.
abbrev pub ends_in_percent : List ℕ → Bool
ends_in_percent [] = false
ends_in_percent (c ∷ []) = c == 37
ends_in_percent (c ∷ d ∷ cs) = ends_in_percent (d ∷ cs)

-- The two parts of a ratio.
unfoldable pub ratio_of : Host → List ℕ → List (List ℕ) → MacroError ⊎ (ℕ × ℕ)
ratio_of h text (m ∷ n ∷ []) = inr (u32 (h.strtoul m), u32 (h.strtoul n))
ratio_of h text [] = inl (illegal_ratio text)
ratio_of h text (m ∷ []) = inl (illegal_ratio text)
ratio_of h text (m ∷ n ∷ p ∷ parts) = inl (illegal_ratio text)

-- The duty cycle as a percentage or as a ratio
unfoldable pub duty_ratio : Host → List ℕ → MacroError ⊎ (ℕ × ℕ)
duty_ratio h text =
    let m = u32 (h.strtoul text) in
    if ends_in_percent text
    then if ltb 100 m then inl (illegal_percentage text) else inr (m, 100)
    else ratio_of h text (h.split_at_colons text)

-- `SetRunplan`
abbrev pub end_load : List Op → Bool × List ℕ → CfoState → Ending
end_load ops (true, memory) s = (inr tt, record s { memory = memory; plans = ops ∷ s.plans })
end_load ops (false, memory) s = (inl load_failed, record s { memory = memory })

-- A plan is written, compiled and set.
unfoldable pub set_plan : Host → PlanError ⊎ List Op → CfoState → Ending
set_plan h (inl why) s = (inl (bad_plan why), s)
set_plan h (inr ops) s = end_load ops (h.load (h.compile ops) s.memory) s

-- The CFO library on the memory of the CFO.
abbrev pub cfo_with : Host → List ℕ → Cfo
cfo_with h memory = record {
  compile = h.compile;
  compare_plan = h.compare_plan memory;
  wait_code = h.wait_code;
}

abbrev pub masks_of : Option (List ℕ) → List ℕ
masks_of none = []
masks_of (some xs) = xs

-- "clocks"
abbrev pub clocks_text : List ℕ
clocks_text = 99 ∷ 108 ∷ 111 ∷ 99 ∷ 107 ∷ 115 ∷ []

abbrev pub join_request : Host → JoinArgs → Field → ℕ × ℕ → Extraction → Bool → OnRequest
join_request h a (start, count, value) (m, n) x apply_or = record {
  init_tag = 0;
  start_bit = start;
  bit_count = count;
  value = value;
  m_part = m;
  n_part = n;
  offset = a.offset;
  split_number = h.to_text x.event_duration;
  split_units = clocks_text;
  and_masks = masks_of x.and_masks;
  or_masks = masks_of x.or_masks;
  single_shot = [];
  apply_or = apply_or;
}

-- The two passes: the AND masks first, then those and the OR masks.
unfoldable pub join_passes :
    Host → JoinArgs → Field → ℕ × ℕ → PlanError ⊎ Extraction → CfoState → Ending
join_passes h a f r (inl why) s = (inl (bad_plan why), s)
join_passes h a f r (inr x) s =
    then_macro (set_plan h (periodic_mode_on (join_request h a f r x false)) s)
      (set_plan h (periodic_mode_on (join_request h a f r x true)))

unfoldable pub join_with : Host → JoinArgs → Field → MacroError ⊎ (ℕ × ℕ) → CfoState → Ending
join_with h a f (inl why) s = (inl why, s)
join_with h a f (inr r) s =
    join_passes h a f r (extract_event_duration (cfo_with h s.memory) true true) s

abbrev pub name_of : Subsystem → List ℕ
name_of (unsupported name) = name
name_of _ = []

unfoldable pub join_field : Host → JoinArgs → Option ℕ → CfoState → Ending
join_field h a none s = (inl (unknown_subsystem (name_of a.subsystem)), s)
join_field h a (some b) s = join_with h a (on_field a a.subsystem b) (duty_ratio h a.duty_cycle) s

abbrev pub is_in_plan : CfoState → Bool
is_in_plan s = s.beam_on_mode || s.beam_off_mode

-- `SharedRunPlanSubsystemJoin`, up to the status that it prints
unfoldable pub subsystem_join : Host → JoinArgs → CfoState → Ending
subsystem_join h a s =
    if is_in_plan s then join_field h a (mode_bit a.subsystem) s else (inl not_in_plan, s)

abbrev pub leave_request : Host → ℕ × ℕ → Extraction → OffRequest
leave_request h (start, count) x = record {
  start_bit = start;
  bit_count = count;
  split_number = h.to_text x.event_duration;
  split_units = clocks_text;
  and_masks = masks_of x.and_masks;
  or_masks = masks_of x.or_masks;
}

unfoldable pub leave_plan : Host → ℕ × ℕ → PlanError ⊎ Extraction → CfoState → Ending
leave_plan h f (inl why) s = (inl (bad_plan why), s)
leave_plan h f (inr x) s = set_plan h (periodic_mode_off (leave_request h f x)) s

unfoldable pub leave_field : Host → LeaveArgs → Option ℕ → CfoState → Ending
leave_field h a none s = (inl (unknown_subsystem (name_of a.subsystem)), s)
leave_field h a (some b) s =
    leave_plan h (off_field a a.subsystem b)
      (extract_event_duration (cfo_with h s.memory) true true) s

-- `SharedRunPlanSubsystemLeave`
unfoldable pub subsystem_leave : Host → LeaveArgs → CfoState → Ending
subsystem_leave h a s =
    if is_in_plan s then leave_field h a (mode_bit a.subsystem) s else (inl not_in_plan, s)
