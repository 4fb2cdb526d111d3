-- ===== src/Merge/Stage/Accept.antt =====
-- The checks of `stageDetachedHalf` that a half passes.
use otsdaq_mu2e.Base.{
  ℕ, ◌-◌, ◌%◌, ◌≡◌, ◌<◌, refl, Bool, true, false, not, ◌&&◌, none, arith, leb, ◌==◌,
}
use otsdaq_mu2e.Base.Assoc.{lookup, has}
use otsdaq_mu2e.Merge.Types.{
  Side, dtc0, dtc1, is_even_odd, EventLibrary, Settings, MergeState, pending_of, other_side,
}
use otsdaq_mu2e.Merge.Stage.{parity_of, tag_offset, join_or_keep, stage_key, stage_half}
use otsdaq_mu2e.Merge.Stage.Step.{HasKey, NotPassed}

module _ ⦃l : EventLibrary⦄ where
  right_parity :
      (o : Settings) (side : Side) (key : ℕ) (half : l.Event)
      → HasKey o side key half
      → (is_even_odd o.merge_mode && not (l.window_tag half % 2 == parity_of side)) ≡ false
  right_parity o dtc0 key half k = ground (arith, k.tag, k.even)
  right_parity o dtc1 key half k = ground (arith, k.tag, k.even)

  pub stage_half-key :
      (o : Settings) (side : Side) (key : ℕ) (half : l.Event) (s : MergeState)
      → HasKey o side key half
      → stage_half o side half s ≡ stage_key side key half s
  unfolding stage_half
  stage_half-key o side key half s k =
      let tag : l.window_tag half - tag_offset o side ≡ key = omega (arith, k.tag) in
      rw (right_parity o side key half k) (rw tag refl)

  not_passed :
      (key : ℕ) (have : Bool) (last : ℕ)
      → (have ≡ true → last < key)
      → (have && leb key last) ≡ false
  not_passed key have last np = ground (arith, np)

  pub stage_key-free :
      (side : Side) (key : ℕ) (half : l.Event) (s : MergeState)
      → NotPassed key s
      → lookup key (pending_of side s) ≡ none
      → stage_key side key half s
        ≡ join_or_keep side key half (lookup key (pending_of (other_side side) s)) s
  unfolding stage_key
  stage_key-free side key half s np free =
      let open_tag : (s.have_merged_tag && leb key s.last_merged_base_tag) ≡ false =
        not_passed key s.have_merged_tag s.last_merged_base_tag np in
      let fresh : has key (pending_of side s) ≡ false = ground (arith, free) in
      rw open_tag (rw fresh refl)
