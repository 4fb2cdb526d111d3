-- ===== src/RunPlan/Extract/Laws.antt =====
-- The duration that the comparison shows is the one that the CFO holds.
use otsdaq_mu2e.Base.{
  ℕ, ◌+◌, ◌*◌, ◌/◌, ◌%◌, ◌^◌, ◌≡◌, ◌≢◌, ◌<◌, refl, ◌∙◌, Bool, true, false, ◌⊎◌, inl, inr, List, [],
  ◌∷◌, arith, All, Bool-cases, bit_and, bit_or, length, is_empty, if◌then◌else◌, ◌==◌, ⊤,
}
use otsdaq_mu2e.Base.Bits.{bit_or_fields}
use otsdaq_mu2e.RunPlan.Plan.{and_places, or_places}
use otsdaq_mu2e.RunPlan.Extract.{
  Mismatch, Scan, op_code, take_wait, scan_word, on_scan, scan_words, given, check_masks,
  read_comparison,
}

-- An operation of the plan that the CFO holds, beside that of the dummy: a WAIT for the duration, or
-- another one with the lower and the upper word of the dummy and of the CFO.
pub data HeldOp : Type 0 where
  held_wait : HeldOp
  held_other : (low held_low high held_high : ℕ) → HeldOp

-- Only words that differ are listed.
abbrev pub differing : ℕ → ℕ → ℕ → List Mismatch → List Mismatch
differing a expected actual rest = if expected == actual then rest else (a, expected, actual) ∷ rest

-- The words that differ from address `a` on, where the CFO waits for `d` clocks and the dummy for
-- 2 ^ 47 + 1.
abbrev pub compared : ℕ → ℕ → ℕ → List HeldOp → List Mismatch
compared code d a [] = []
compared code d a (held_wait ∷ ops) = differing a 1 (d % 2 ^ 32) (
    differing (a + 1) (code * 2 ^ 24 + 0x8000) (code * 2 ^ 24 + d / 2 ^ 32)
      (compared code d (a + 2) ops))
compared code d a (held_other low held_low high held_high ∷ ops) =
    differing a low held_low (differing (a + 1) high held_high (compared code d (a + 2) ops))

-- The operations are the same ones, and only the WAITs have the code of a WAIT.
abbrev pub IsSameOp : ℕ → HeldOp → Type 0
IsSameOp code held_wait = ⊤
IsSameOp code (held_other low held_low high held_high) =
    (op_code high ≡ op_code held_high) × (op_code high ≢ code)

abbrev pub has_wait : List HeldOp → Bool
has_wait [] = false
has_wait (held_wait ∷ ops) = true
has_wait (held_other low held_low high held_high ∷ ops) = has_wait ops

if_same : (b : Bool) (x : ℕ) → (if b then x else x) ≡ x
if_same true x = refl
if_same false x = refl

differing-nonempty :
    (a e x : ℕ) (ms : List Mismatch) → is_empty ms ≡ false → is_empty (differing a e x ms) ≡ false
differing-nonempty a e x ms some = elim (Bool-cases (e == x)) [
  | inl same ↦ rw same some
  | inr other ↦ rw other refl
]

module _ (code d : ℕ) (h : d < 2 ^ 48) (own : bit_and code 0xEF ≡ code) where
  pub op_code_wait : (x : ℕ) → x < 2 ^ 16 → op_code (code * 2 ^ 24 + x) ≡ code
  unfolding op_code
  op_code_wait x g = let e : (code * 2 ^ 24 + x) / 2 ^ 24 ≡ code = omega arith in rw e own

  whole_duration : bit_or (d % 2 ^ 32) ((code * 2 ^ 24 + d / 2 ^ 32) % 0x10000 * 2 ^ 32) ≡ d
  whole_duration =
      omega (
        arith,
        bit_or_fields 32 ((code * 2 ^ 24 + d / 2 ^ 32) % 0x10000) (d % 2 ^ 32) (omega arith),
      )

  -- The scan before a WAIT: nothing found yet, or the duration.
  abbrev Found : ℕ → Type 0
  Found u = (u ≡ 0) ⊎ (u ≡ d)

  pub low_word :
      (s : Scan) (a e x : ℕ)
      → a % 2 ≡ 0
      → scan_word code s (a, e, x) ≡ inr (record s { last_address = a; potential = x })
  unfolding scan_word
  low_word s a e x even = ground arith

  high_word :
      (s : Scan) (a : ℕ)
      → a % 2 ≡ 0
      → Found s.duration
      → scan_word code
          (record s { last_address = a; potential = d % 2 ^ 32 })
          (a + 1, code * 2 ^ 24 + 0x8000, code * 2 ^ 24 + d / 2 ^ 32)
        ≡ inr (record { duration = d; last_address = a; potential = d })
  unfolding scan_word take_wait
  high_word s a even found =
      rw (op_code_wait 0x8000 (omega arith))
        (rw (op_code_wait (d / 2 ^ 32) (omega arith)) (rw whole_duration (ground arith)))

  pub high_other :
      (s : Scan) (a e x : ℕ)
      → a % 2 ≡ 0
      → op_code e ≡ op_code x
      → op_code e ≢ code
      → scan_word code s (a + 1, e, x) ≡ inr s
  unfolding scan_word
  high_other s a e x even same other = ground arith

  -- A scan that has found `u` so far, and then `v`.
  abbrev ScansTo : ℕ → ℕ → List Mismatch → Type 0
  ScansTo u v ms =
      (s : Scan) → s.duration ≡ u → (t : Scan) × (scan_words code s ms ≡ inr t) × (t.duration ≡ v)

  low-ScansTo :
      (u v a e x : ℕ) (ms : List Mismatch)
      → a % 2 ≡ 0
      → ScansTo u v ms
      → ScansTo u v (differing a e x ms)
  unfolding scan_words on_scan
  low-ScansTo u v a e x ms even later s found = elim (Bool-cases (e == x)) [
    | inl same ↦ rw same (later s found)
    | inr other ↦ rw other (
        let end = later (record s { last_address = a; potential = x }) found in
        (end.0, rw (low_word s a e x even) end.1, end.2))
  ]

  high-ScansTo :
      (u v a e x : ℕ) (ms : List Mismatch)
      → a % 2 ≡ 0
      → op_code e ≡ op_code x
      → op_code e ≢ code
      → ScansTo u v ms
      → ScansTo u v (differing (a + 1) e x ms)
  unfolding scan_words on_scan
  high-ScansTo u v a e x ms even same_op no_wait later s found = elim (Bool-cases (e == x)) [
    | inl same ↦ rw same (later s found)
    | inr other ↦ rw other (
        let end = later s found in
        (end.0, rw (high_other s a e x even same_op no_wait) end.1, end.2))
  ]

  module _ (high : d / 2 ^ 32 ≢ 0x8000) where
    pub high_differs : (code * 2 ^ 24 + 0x8000 == code * 2 ^ 24 + d / 2 ^ 32) ≡ false
    high_differs = ground arith

    pub compared-nonempty :
        (a : ℕ) (ops : List HeldOp) → has_wait ops ≡ true → is_empty (compared code d a ops) ≡ false
    compared-nonempty a [] some = cc
    compared-nonempty a (held_wait ∷ ops) some =
        differing-nonempty a 1 (d % 2 ^ 32) _ (rw high_differs refl)
    compared-nonempty a (held_other l l' x x' ∷ ops) some =
        differing-nonempty a l l' _
          (differing-nonempty (a + 1) x x' _ (compared-nonempty (a + 2) ops some))

  module _ (low : d % 2 ^ 32 ≢ 1) (high : d / 2 ^ 32 ≢ 0x8000) where
    low_differs : (1 == d % 2 ^ 32) ≡ false
    low_differs = ground arith

    wait-ScansTo :
        (u v a : ℕ) (ms : List Mismatch)
        → a % 2 ≡ 0
        → Found u
        → ScansTo d v ms
        → ScansTo u v (
            differing a 1
              (d % 2 ^ 32)
              (differing (a + 1) (code * 2 ^ 24 + 0x8000) (code * 2 ^ 24 + d / 2 ^ 32) ms))
    unfolding scan_words on_scan
    wait-ScansTo u v a ms even found later s at_u =
        let end = later (record { duration = d; last_address = a; potential = d }) refl in
        let so_far : Found s.duration = rw at_u found in
        rw low_differs (
          rw (high_differs high) (
            end.0,
            rw (low_word s a 1 (d % 2 ^ 32) even) (rw (high_word s a even so_far) end.1),
            end.2,
          ))

    compared-ScansTo :
        (u a : ℕ) (ops : List HeldOp)
        → a % 2 ≡ 0
        → All (IsSameOp code) ops
        → Found u
        → ScansTo u (if has_wait ops then d else u) (compared code d a ops)
    unfolding scan_words
    compared-ScansTo u a [] even same found = λ s at_u. (s, refl, at_u)
    compared-ScansTo u a (held_wait ∷ ops) even same found =
        wait-ScansTo u d a _ even found (λ s at_d.
          let end = compared-ScansTo d (a + 2) ops (omega arith) same.1 (inr refl) s at_d in
          (end.0, end.1, end.2 ∙ if_same (has_wait ops) d))
    compared-ScansTo u a (held_other l l' x x' ∷ ops) even same found =
        let later = compared-ScansTo u (a + 2) ops (omega arith) same.1 found in
        low-ScansTo u _ a l l' _ even (high-ScansTo u _ a x x' _ even same.0.0 same.0.1 later)

-- The CFO holds the operations of the dummy, with at least one WAIT, but each WAIT is for `d` clocks
-- below 2 ^ 48, and the operands of the other operations are any. The comparison lists the words
-- that differ. Where both words of `d` differ from those of the dummy, 1 and 0x8000, and the masks
-- have the sizes of a plan, the comparison is read as the duration `d` and these masks.
pub read_comparison_duration :
    (code d a : ℕ) (ops : List HeldOp) (ands ors : List ℕ)
    → d < 2 ^ 48
    → bit_and code 0xEF ≡ code
    → d % 2 ^ 32 ≢ 1
    → d / 2 ^ 32 ≢ 0x8000
    → a % 2 ≡ 0
    → All (IsSameOp code) ops
    → has_wait ops ≡ true
    → length ands ≡ and_places
    → length ors ≡ or_places
    → read_comparison code true true
        (record { mismatches = compared code d a ops; ands = ands; ors = ors })
      ≡ inr (record { event_duration = d; and_masks = given true ands; or_masks = given true ors })
unfolding read_comparison check_masks
read_comparison_duration code d a ops ands ors h own low high even same waits sizes sizes' =
    let (t, scanned, duration) =
      compared-ScansTo code d h own low high 0 a ops even same (inl refl)
        (record { duration = 0; last_address = 0; potential = 0 }) refl in
    rw (compared-nonempty code d h own high a ops waits)
      (rw scanned (ground (arith, duration, sizes, sizes', waits)))
