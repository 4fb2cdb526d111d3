-- ===== src/Merge/Stage/Step.antt =====
-- What one call of `stageDetachedHalf` can do, as a relation between the states.
use otsdaq_mu2e.Base.{
  ℕ, ◌+◌, ◌-◌, ◌%◌, ◌≡◌, ◌<◌, refl, true, false, not, ◌&&◌, ◌⊎◌, inl, inr, Option, none, some, leb,
  ◌==◌, arith, ⊤, Bool-cases,
}
use otsdaq_mu2e.Base.Assoc.{has, lookup, lookup-not_has}
use otsdaq_mu2e.Merge.Types.{
  Side, dtc0, dtc1, is_even_odd, EventLibrary, Settings, MergeError, PendingHalf, MergeState,
  pending_of, count_unmatched, other_side,
}
use otsdaq_mu2e.Merge.Build.{build_merged}
use otsdaq_mu2e.Merge.Stage.{
  parity_of, tag_offset, ordered_halves, keep_half, record_merged, join_built, join_or_keep,
  stage_key, stage_half,
}

module _ ⦃l : EventLibrary⦄ where
  -- The half is the one that the side delivers for the base tag `key`.
  pub record HasKey (o : Settings) (side : Side) (key : ℕ) (half : l.Event) : Type 0 where
    pub tag : l.window_tag half ≡ key + tag_offset o side
    pub even : is_even_odd o.merge_mode ≡ true → key % 2 ≡ 0

  -- Nothing with this base tag or a later one has been merged.
  abbrev pub NotPassed : ℕ → MergeState → Type 0
  NotPassed key s = s.have_merged_tag ≡ true → s.last_merged_base_tag < key

  pub data StageStep (o : Settings) (side : Side) (half : l.Event) (s : MergeState)
      (r : MergeError ⊎ ⊤) (s' : MergeState) : Type 0 where
    refused :
        (why : MergeError)
        → r ≡ inl why
        → s' ≡ count_unmatched side s
        → StageStep o side half s r s'
    unbuilt :
        (why : MergeError)
        → r ≡ inl why
        → s' ≡ record s { readings = s.readings + 1 }
        → StageStep o side half s r s'
    kept :
        (key : ℕ)
        → HasKey o side key half
        → lookup key (pending_of side s) ≡ none
        → lookup key (pending_of (other_side side) s) ≡ none
        → r ≡ inr tt
        → s' ≡ keep_half side key half s
        → StageStep o side half s r s'
    joined :
        (key : ℕ) (partner : PendingHalf) (event : l.Event)
        → HasKey o side key half
        → NotPassed key s
        → lookup key (pending_of side s) ≡ none
        → lookup key (pending_of (other_side side) s) ≡ some partner
        → build_merged
            (ordered_halves side half partner.event).0
            (ordered_halves side half partner.event).1
            key
          ≡ inr event
        → r ≡ inr tt
        → s' ≡ record_merged side key (ordered_halves side half partner.event) event s
        → StageStep o side half s r s'

  module _ (o : Settings) (side : Side) (half : l.Event) (s : MergeState) where
    join_built_step :
        (key : ℕ) (partner : PendingHalf) (b : MergeError ⊎ l.Event)
        → build_merged
            (ordered_halves side half partner.event).0
            (ordered_halves side half partner.event).1
            key
          ≡ b
        → HasKey o side key half
        → NotPassed key s
        → lookup key (pending_of side s) ≡ none
        → lookup key (pending_of (other_side side) s) ≡ some partner
        → StageStep o side half s
            (join_built side key (ordered_halves side half partner.event) b s).0
            (join_built side key (ordered_halves side half partner.event) b s).1
    unfolding join_built
    join_built_step key partner (inl why) built k np mine theirs = unbuilt why refl refl
    join_built_step key partner (inr event) built k np mine theirs =
        joined key partner event k np mine theirs built refl refl

    join_or_keep_step :
        (key : ℕ) (found : Option PendingHalf)
        → lookup key (pending_of (other_side side) s) ≡ found
        → HasKey o side key half
        → NotPassed key s
        → lookup key (pending_of side s) ≡ none
        → StageStep o side half s
            (join_or_keep side key half found s).0
            (join_or_keep side key half found s).1
    unfolding join_or_keep
    join_or_keep_step key none theirs k np mine = kept key k mine theirs refl refl
    join_or_keep_step key (some partner) theirs k np mine =
        join_built_step key partner _ refl k np mine theirs

    stage_key_step :
        (key : ℕ)
        → HasKey o side key half
        → StageStep o side half s (stage_key side key half s).0 (stage_key side key half s).1
    unfolding stage_key
    stage_key_step key k = elim (Bool-cases (s.have_merged_tag && leb key s.last_merged_base_tag)) [
      | inl e ↦ rw e (refused _ refl refl)
      | inr e ↦ rw e (elim (Bool-cases (has key (pending_of side s))) [
        | inl f ↦ rw f (refused _ refl refl)
        | inr f ↦ rw f (join_or_keep_step key _ refl k (λ t. ground arith) (lookup-not_has key _ f))
      ])
    ]

  has_parity :
      (o : Settings) (side : Side) (half : l.Event)
      → (is_even_odd o.merge_mode && not (l.window_tag half % 2 == parity_of side)) ≡ false
      → HasKey o side (l.window_tag half - tag_offset o side) half
  has_parity o dtc0 half h = record { tag = ground arith; even = λ m. ground arith }
  has_parity o dtc1 half h = record { tag = ground arith; even = λ m. ground arith }

  pub stage_half_step :
      (o : Settings) (side : Side) (half : l.Event) (s : MergeState)
      → StageStep o side half s (stage_half o side half s).0 (stage_half o side half s).1
  unfolding stage_half
  stage_half_step o side half s =
      elim (Bool-cases
        (is_even_odd o.merge_mode && not (l.window_tag half % 2 == parity_of side))) [
          | inl e ↦ rw e (refused _ refl refl)
          | inr e ↦ rw e (stage_key_step o side half s _ (has_parity o side half e))
        ]
