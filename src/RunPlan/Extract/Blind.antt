-- ===== src/RunPlan/Extract/Blind.antt =====
-- Durations that the comparison does not show: the lower word is that of the dummy.
use otsdaq_mu2e.Base.{
  ℕ, ◌+◌, ◌*◌, ◌/◌, ◌%◌, ◌^◌, ◌≡◌, ◌≢◌, ◌<◌, refl, true, inl, inr, List, [], ◌∷◌, arith, All,
  Bool-cases, bit_and, ◌==◌, Bool,
}
use otsdaq_mu2e.RunPlan.Types.{extracting, not_consecutive}
use otsdaq_mu2e.RunPlan.Extract.{
  Mismatch, Scan, take_wait, scan_word, on_scan, scan_words, check_masks, read_comparison,
}
use otsdaq_mu2e.RunPlan.Extract.Laws.{
  HeldOp, held_wait, held_other, differing, high_differs, compared-nonempty, compared, IsSameOp,
  has_wait, op_code_wait, low_word, high_other,
}

module _ (code d : ℕ) (h : d < 2 ^ 48) (own : bit_and code 0xEF ≡ code) (low : d % 2 ^ 32 ≡ 1)
    (high : d / 2 ^ 32 ≢ 0x8000) where
  -- A scan of what is at `a` or later ends with the exception, where the last lower word that
  -- differed is before `a`.
  abbrev FailsFrom : ℕ → List Mismatch → Type 0
  FailsFrom a ms =
      (s : Scan)
      → s.last_address < a
      → (last : ℕ) × (address : ℕ) × (scan_words code s ms ≡ inl (not_consecutive last address))

  wait_word :
      (s : Scan) (a : ℕ)
      → a % 2 ≡ 0
      → s.last_address < a
      → scan_word code s (a + 1, code * 2 ^ 24 + 0x8000, code * 2 ^ 24 + d / 2 ^ 32)
        ≡ inl (not_consecutive s.last_address (a + 1))
  unfolding scan_word take_wait
  wait_word s a even before =
      rw (op_code_wait code d h own 0x8000 (omega arith))
        (rw (op_code_wait code d h own (d / 2 ^ 32) (omega arith)) (ground arith))

  wait-FailsFrom :
      (a : ℕ) (ms : List Mismatch)
      → a % 2 ≡ 0
      → FailsFrom a (
          differing a 1
            (d % 2 ^ 32)
            (differing (a + 1) (code * 2 ^ 24 + 0x8000) (code * 2 ^ 24 + d / 2 ^ 32) ms))
  unfolding scan_words on_scan
  wait-FailsFrom a ms even s before = rw low (
      rw (high_differs code d h own high)
        (s.last_address, a + 1, rw (wait_word s a even before) refl))

  high-FailsFrom :
      (a e x : ℕ) (ms : List Mismatch)
      → a % 2 ≡ 0
      → IsSameOp code (held_other 0 0 e x)
      → FailsFrom (a + 2) ms
      → (s : Scan) → s.last_address < a + 1
      → (last : ℕ) × (address : ℕ) × (scan_words code s (differing (a + 1) e x ms)
          ≡ inl (not_consecutive last address))
  unfolding scan_words on_scan
  high-FailsFrom a e x ms even same later s before = elim (Bool-cases (e == x)) [
    | inl equal ↦ rw equal (later s (omega arith))
    | inr other ↦ rw other (
        let end = later s (omega arith) in
        (end.0, end.1, rw (high_other code d h own s a e x even same.0 same.1) end.2))
  ]

  other-FailsFrom :
      (a l l' e x : ℕ) (ms : List Mismatch)
      → a % 2 ≡ 0
      → IsSameOp code (held_other l l' e x)
      → FailsFrom (a + 2) ms
      → FailsFrom a (differing a l l' (differing (a + 1) e x ms))
  unfolding scan_words on_scan
  other-FailsFrom a l l' e x ms even same later s before = elim (Bool-cases (l == l')) [
    | inl equal ↦ rw equal (high-FailsFrom a e x ms even same later s (omega arith))
    | inr other ↦ rw other (
        let s' = record s { last_address = a; potential = l' } in
        let end = high-FailsFrom a e x ms even same later s' (omega arith) in
        (end.0, end.1, rw (low_word code d h own s a l l' even) end.2))
  ]

  compared-FailsFrom :
      (a : ℕ) (ops : List HeldOp)
      → a % 2 ≡ 0
      → All (IsSameOp code) ops
      → has_wait ops ≡ true
      → FailsFrom a (compared code d a ops)
  compared-FailsFrom a [] even same waits = cc
  compared-FailsFrom a (held_wait ∷ ops) even same waits = wait-FailsFrom a _ even
  compared-FailsFrom a (held_other l l' e x ∷ ops) even same waits =
      other-FailsFrom a l l' e x _ even same.0
        (compared-FailsFrom (a + 2) ops (omega arith) same.1 waits)

  -- The CFO holds the operations of the dummy, with at least one WAIT and none at address 0, and
  -- each WAIT is for `d` clocks below 2 ^ 48, whose lower word is 1, that of the dummy, and whose
  -- upper word is another one; a duration of one clock is an example. Then the comparison is not
  -- read: it throws, since the mismatch of the upper word does not follow one of the lower word.
  pub read_comparison_blind :
      (a : ℕ) (ops : List HeldOp) (wants_ands wants_ors : Bool) (ands ors : List ℕ)
      → 0 < a
      → a % 2 ≡ 0
      → All (IsSameOp code) ops
      → has_wait ops ≡ true
      → (last : ℕ) × (address : ℕ) × (read_comparison code wants_ands wants_ors
            (record { mismatches = compared code d a ops; ands = ands; ors = ors })
          ≡ inl (extracting (not_consecutive last address)))
  unfolding read_comparison check_masks
  read_comparison_blind a ops wants_ands wants_ors ands ors later even same waits =
      let (last, address, thrown) =
        compared-FailsFrom a ops even same waits
          (record { duration = 0; last_address = 0; potential = 0 }) later in
      (last, address, rw (compared-nonempty code d h own high a ops waits) (rw thrown refl))
