-- ===== src/Track/Tests.antt =====
-- The check of the tags in the merge of two DTCs, and the theorems at it.
use otsdaq_mu2e.Base.{ℕ, ◌+◌, ◌≡◌, refl, true, false, List, [], ◌∷◌, arith}
use otsdaq_mu2e.Track.Tag.{
  TagSettings, TagState, TagInput, expected_sources, evb_n, evb_n_other, note_mismatch,
  check_subevent_tags,
}
use otsdaq_mu2e.Track.Rounds.{RoundOver, check_subevent_tags-RoundOver, check_subevent_tags_resync}
use otsdaq_mu2e.Track.Bounds.{IsBounded, check_subevent_tags-IsBounded}

-- Even and odd events of two DTCs.
abbrev pub two_dtcs : TagSettings
two_dtcs = record {
  in_evb_mode = false;
  merging = true;
  skip_by_32 = false;
  active_match = false;
  evb_num_dest_nodes = 1;
  evb_num_dest_nodes_other = 1;
  live_sources = 0;
  live_sources_other = 0;
}

pub two_sources : expected_sources two_dtcs ≡ 2
unfolding expected_sources evb_n evb_n_other
two_sources = refl

abbrev pub expects_10 : TagState
expects_10 = record {
  subevents_count = 0;
  evb_tag_synced = false;
  next_event_window_tag = 10;
  expected_event_tag = 0;
  sources_seen = [];
  mismatched_tags_count = 0;
  mismatched_tag_jumps = [];
}

-- The subevents of a pair with the base tag: that of DTC_1 first, with the tag that follows.
abbrev round_of : ℕ → List TagInput
round_of base =
    record { rx_tag = base + 1; source_dtc_id = 5; tag_offset = 1; source_group = 1 }
    ∷ record { rx_tag = base; source_dtc_id = 5; tag_offset = 0; source_group = 0 }
    ∷ []

check_subevent_tags-RoundOver_example :
    RoundOver two_dtcs 10 expects_10 (check_subevent_tags two_dtcs (round_of 10) expects_10)
check_subevent_tags-RoundOver_example =
    check_subevent_tags-RoundOver two_dtcs 10 (round_of 10) expects_10 refl refl refl refl
      (refl, (refl, tt)) (refl, (refl, tt)) (omega (arith, two_sources))
      (omega (arith, two_sources))

check_subevent_tags_resync_example :
    RoundOver two_dtcs 12
      (note_mismatch 12 expects_10)
      (check_subevent_tags two_dtcs (round_of 12) expects_10)
check_subevent_tags_resync_example =
    check_subevent_tags_resync two_dtcs 12 (round_of 12) expects_10 refl refl refl
      (λ e. omega arith) (refl, (refl, tt)) (refl, (refl, tt)) (omega (arith, two_sources))
      (omega (arith, two_sources))

check_subevent_tags-IsBounded_example :
    IsBounded two_dtcs (check_subevent_tags two_dtcs (round_of 12) expects_10).1
check_subevent_tags-IsBounded_example =
    check_subevent_tags-IsBounded two_dtcs (omega (arith, two_sources)) (round_of 12) expects_10
      (record { jumps = omega arith; sources = omega (arith, two_sources) })
