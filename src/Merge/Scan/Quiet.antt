-- ===== src/Merge/Scan/Quiet.antt =====
-- The scans when nothing is pending.
use otsdaq_mu2e.Base.{ℕ, ◌+◌, ◌≡◌, refl, false, inr, none, [], arith, ltb}
use otsdaq_mu2e.Merge.Types.{Side, dtc0, dtc1, EventLibrary, Settings, MergeState}
use otsdaq_mu2e.Merge.Scan.{
  scan_timeout, scan_overflow, first_blame, publish_pending, settle, check_pending,
}

module _ ⦃l : EventLibrary⦄ where
  scan_overflow-none : (o : Settings) (side : Side) (now : ℕ) → scan_overflow o side now [] ≡ none
  unfolding scan_overflow
  scan_overflow-none o side now =
      let none_over : ltb o.pair_max_pending 0 ≡ false = ground arith in rw none_over refl

  first_blame_quiet :
      (o : Settings) (now : ℕ) (t : MergeState)
      → t.pending_dtc0 ≡ []
      → t.pending_dtc1 ≡ []
      → first_blame o now t ≡ none
  unfolding first_blame scan_timeout
  first_blame_quiet o now t none0 none1 =
      rw none0
        (rw none1 (rw (scan_overflow-none o dtc0 now) (rw (scan_overflow-none o dtc1 now) refl)))

  pub check_pending_quiet :
      (o : Settings) (t : MergeState)
      → t.pending_dtc0 ≡ []
      → t.pending_dtc1 ≡ []
      → check_pending o t ≡ (inr tt, publish_pending (record t { readings = t.readings + 1 }))
  unfolding check_pending settle
  check_pending_quiet o t none0 none1 =
      rw (first_blame_quiet o (l.now t.readings) t none0 none1) refl
