-- ===== src/RunPlan/Macros/Held.antt =====
-- The plan in the memory of the CFO, and what the extraction reads of it.
use otsdaq_mu2e.Base.{
  ℕ, ◌*◌, ◌^◌, ◌≡◌, ◌≢◌, refl, ap, sym, ◌∙◌, Bool, true, false, ◌⊎◌, inl, inr, Option, none, some,
  List, map, if◌then◌else◌, ltb, length, bit_and, arith, Bool-cases, is_empty, ◌==◌, ==_iff,
}
use otsdaq_mu2e.Base.Bits.{bit}
use otsdaq_mu2e.RunPlan.Types.{u64, Op, PlanError}
use otsdaq_mu2e.RunPlan.Plan.{
  and_places, or_places, field_mask, use_masks, periodic_mode_off, plan_off,
}
use otsdaq_mu2e.RunPlan.Plan.Operands.{and_operands, or_operands}
use otsdaq_mu2e.RunPlan.Extract.{
  Cfo, Comparison, Scan, Extraction, check_masks, read_comparison, compare_dummy,
  extract_event_duration, scan_words, dummy_request,
}
use otsdaq_mu2e.RunPlan.Macros.{
  mode_bit, Host, load_failed, CfoState, Ending, then_macro, JoinArgs, LeaveArgs, Field, on_field,
  off_field, end_load, set_plan, cfo_with, subsystem_join, subsystem_leave,
}

-- One use of a macro.
pub data Macro : Type 0 where
  join : JoinArgs → Macro
  leave : LeaveArgs → Macro

abbrev pub run_macro : Host → Macro → CfoState → Ending
run_macro h (join a) s = subsystem_join h a s
run_macro h (leave a) s = subsystem_leave h a s

-- The mode bits that a macro is about.
abbrev pub bits_on : Field → ℕ
bits_on (start, count, value) = bit_and (u64 (value * 2 ^ start)) (field_mask start count)

abbrev pub bits_off : ℕ × ℕ → ℕ
bits_off (start, count) = if ltb 0 count then field_mask start count else 0

abbrev pub joining_bits : JoinArgs → Option ℕ → ℕ
joining_bits a none = 0
joining_bits a (some b) = bits_on (on_field a a.subsystem b)

abbrev pub leaving_bits : LeaveArgs → Option ℕ → ℕ
leaving_bits a none = 0
leaving_bits a (some b) = bits_off (off_field a a.subsystem b)

abbrev pub bits_of : Macro → ℕ
bits_of (join a) = joining_bits a (mode_bit a.subsystem)
bits_of (leave a) = leaving_bits a (mode_bit a.subsystem)

-- A load that succeeds leaves in the memory what was written, and the comparison gives the operands
-- of the plan in the memory.
pub record HostLaws (h : Host) : Type 0 where
  pub loaded : (ws memory : List ℕ) → (h.load ws memory).0 ≡ true → (h.load ws memory).1 ≡ ws
  pub compared_ands :
      (ops : List Op) (ws : List ℕ) → (h.compare_plan (h.compile ops) ws).ands ≡ and_operands ops
  pub compared_ors :
      (ops : List Op) (ws : List ℕ) → (h.compare_plan (h.compile ops) ws).ors ≡ or_operands ops

-- What the extraction has read.
record Extracted (cfo : Cfo) (x : Extraction) : Type 0 where
  expected : List ℕ
  ands : x.and_masks ≡ some (cfo.compare_plan expected).ands
  ors : x.or_masks ≡ some (cfo.compare_plan expected).ors
  size : length (cfo.compare_plan expected).ands ≡ and_places

check_masks_sound :
    (c : Comparison) (r : PlanError ⊎ Scan) {x : Extraction}
    → check_masks true true c r ≡ inr x
    → (x.and_masks ≡ some c.ands) × (x.or_masks ≡ some c.ors) × (length c.ands ≡ and_places)
unfolding check_masks
check_masks_sound c (inl why) {x = x} h = absurd (ground arith)
check_masks_sound c (inr t) {x = x} h = elim (Bool-cases (length c.ands == and_places)) [
  | inr other ↦ absurd (ground arith)
  | inl same ↦ elim (Bool-cases (length c.ors == or_places)) [
    | inr other ↦ absurd (ground arith)
    | inl too ↦
        let found : Extraction = record {
          event_duration = t.duration;
          and_masks = some c.ands;
          or_masks = some c.ors;
        } in
        let read : found ≡ x = ground arith in
        (
          sym (ap (λ y. y.and_masks) read),
          sym (ap (λ y. y.or_masks) read),
          (==_iff (length c.ands) and_places).0 same,
        )
  ]
]

read_comparison_sound :
    (code : ℕ) (c : Comparison) {x : Extraction}
    → read_comparison code true true c ≡ inr x
    → (x.and_masks ≡ some c.ands) × (x.or_masks ≡ some c.ors) × (length c.ands ≡ and_places)
unfolding read_comparison
read_comparison_sound code c {x = x} h =
    let start : Scan = record { duration = 0; last_address = 0; potential = 0 } in
    elim (Bool-cases (is_empty c.mismatches)) [
      | inl none_differ ↦ absurd (ground arith)
      | inr differ ↦ check_masks_sound c (scan_words code start c.mismatches) {x = x} (ground arith)
    ]

extract_sound :
    (cfo : Cfo) {x : Extraction} → extract_event_duration cfo true true ≡ inr x → Extracted cfo x
unfolding extract_event_duration compare_dummy periodic_mode_off use_masks
extract_sound cfo {x = x} h =
    let dummy = cfo.compile (plan_off dummy_request) in
    let parts = read_comparison_sound cfo.wait_code (cfo.compare_plan dummy) {x = x} h in
    record { expected = dummy; ands = parts.0; ors = parts.1; size = parts.2 }

-- A mode bit, and its values at the places of the AND and of the OR operations.
pub record Watched : Type 0 where
  pub k : ℕ
  pub ands : List ℕ
  pub ors : List ℕ

-- No load has failed.
abbrev pub Loads : Ending → Type 0
Loads r = r.0 ≢ inl load_failed

module _ (w : Watched) where
  -- The operands of a plan have these bits.
  pub record HasBits (ops : List Op) : Type 0 where
    pub and_bits : map (bit w.k) (and_operands ops) ≡ w.ands
    pub or_bits : map (bit w.k) (or_operands ops) ≡ w.ors

  -- What is read of the memory.
  pub record Reads (x : Extraction) : Type 0 where
    pub plan : List Op
    pub and_masks : x.and_masks ≡ some (and_operands plan)
    pub or_masks : x.or_masks ≡ some (or_operands plan)
    pub size : length (and_operands plan) ≡ and_places
    pub bits : HasBits plan

module _ (h : Host) (w : Watched) where
  -- The memory holds a plan with these bits.
  pub record Holds (s : CfoState) : Type 0 where
    pub held : List Op
    pub in_memory : s.memory ≡ h.compile held
    pub bits : HasBits w held

module _ (h : Host) (laws : HostLaws h) where
  pub extract_operands :
      (s : CfoState) (held : List Op) {x : Extraction}
      → s.memory ≡ h.compile held
      → extract_event_duration (cfo_with h s.memory) true true ≡ inr x
      → (x.and_masks ≡ some (and_operands held))
        × (x.or_masks ≡ some (or_operands held))
        × (length (and_operands held) ≡ and_places)
  extract_operands s held {x = x} stored e =
      let read = extract_sound (cfo_with h s.memory) {x = x} e in
      let ands_same : (h.compare_plan s.memory read.expected).ands ≡ and_operands held =
        ap (λ m. (h.compare_plan m read.expected).ands) stored
        ∙ laws.compared_ands held read.expected in
      let ors_same : (h.compare_plan s.memory read.expected).ors ≡ or_operands held =
        ap (λ m. (h.compare_plan m read.expected).ors) stored
        ∙ laws.compared_ors held read.expected in
      (
        read.ands ∙ ap some ands_same,
        read.ors ∙ ap some ors_same,
        sym (ap length ands_same) ∙ read.size,
      )

module _ (h : Host) (laws : HostLaws h) (w : Watched) where
  pub end_load-Holds :
      (ops : List Op) (l : Bool × List ℕ) (s : CfoState)
      → (l.0 ≡ true → l.1 ≡ h.compile ops)
      → HasBits w ops
      → Loads (end_load ops l s)
      → Holds h w (end_load ops l s).1
  end_load-Holds ops (true, memory) s written bits ok = record {
    held = ops;
    in_memory = written refl;
    bits = bits;
  }
  end_load-Holds ops (false, memory) s written bits ok = absurd (ok refl)

  pub set_plan-Holds :
      (r : PlanError ⊎ List Op) (s : CfoState)
      → ((ops : List Op) → r ≡ inr ops → HasBits w ops)
      → Holds h w s
      → Loads (set_plan h r s)
      → Holds h w (set_plan h r s).1
  unfolding set_plan
  set_plan-Holds (inl why) s good known ok = known
  set_plan-Holds (inr ops) s good known ok =
      end_load-Holds ops (h.load (h.compile ops) s.memory) s (laws.loaded (h.compile ops) s.memory)
        (good ops refl) ok

  pub then_macro-Holds :
      (r : Ending) (f : CfoState → Ending)
      → (Loads r → Holds h w r.1)
      → ((s : CfoState) → Holds h w s → Loads (f s) → Holds h w (f s).1)
      → Loads (then_macro r f)
      → Holds h w (then_macro r f).1
  then_macro-Holds (inl why, s) f first next ok = first ok
  then_macro-Holds (inr done, s) f first next ok = next s (first (λ e. ground arith)) ok

  pub extract-Reads :
      (s : CfoState) {x : Extraction}
      → Holds h w s
      → extract_event_duration (cfo_with h s.memory) true true ≡ inr x
      → Reads w x
  extract-Reads s {x = x} known e =
      let read = extract_operands h laws s known.held {x = x} known.in_memory e in
      record {
        plan = known.held;
        and_masks = read.0;
        or_masks = read.1;
        size = read.2;
        bits = known.bits;
      }
