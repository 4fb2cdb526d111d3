-- ===== src/Track/Rounds.antt =====
-- A round: the subevents of one tag, one from each source, in any order.
use otsdaq_mu2e.Base.{
  ℕ, suc, ◌+◌, ◌≡◌, ◌≢◌, ◌<◌, refl, true, false, not, ◌&&◌, ◌⊎◌, inr, List, [], ◌∷◌, ◌==◌, leb,
  length, arith, u64, ⊤, All,
}
use otsdaq_mu2e.Track.Tag.{
  TagSettings, TagState, TagInput, TagError, eff_tag, src_key, expected_sources, stride,
  use_source_set, is_member, sync_tag, is_tag_ok, note_mismatch, advance_tag, follow_tag,
  settle_tag, end_mismatch, check_subevent_tag, check_subevent_tags,
}

abbrev pub counted : TagState → TagState
counted s = record s { subevents_count = u64 (s.subevents_count + 1) }

-- The starting tag is known, or is not taken from the first subevent.
abbrev pub IsSynced : TagSettings → TagState → Type 0
IsSynced o s = (o.in_evb_mode && not s.evb_tag_synced) ≡ false

-- The sources of the subevents are all different, and none has been seen.
abbrev pub Fresh : List ℕ → List TagInput → Type 0
Fresh seen [] = Unit
Fresh seen (i ∷ is) = (is_member (src_key i) seen ≡ false) × Fresh (src_key i ∷ seen) is

abbrev pub AllTag : ℕ → List TagInput → Type 0
AllTag tag = All (λ i. eff_tag i ≡ tag)

check_tag-ok :
    (o : TagSettings) (i : TagInput) (tag : ℕ) (s : TagState)
    → IsSynced o s
    → eff_tag i ≡ tag
    → s.next_event_window_tag ≡ tag
    → is_member (src_key i) s.sources_seen ≡ false
    → check_subevent_tag o i s ≡ (inr tt, follow_tag o true tag (src_key i) (counted s))
unfolding check_subevent_tag sync_tag is_tag_ok settle_tag
check_tag-ok o i tag s synced same expected fresh =
    let agrees : (s.next_event_window_tag == tag) ≡ true = ground arith in
    let first : (use_source_set o && is_member (src_key i) s.sources_seen) ≡ false = ground arith in
    rw synced (rw same (rw agrees (rw first refl)))

follow_tag-more :
    (o : TagSettings) (tag key : ℕ) (s : TagState)
    → use_source_set o ≡ true
    → is_member key s.sources_seen ≡ false
    → suc (length s.sources_seen) < expected_sources o
    → follow_tag o true tag key s ≡ record s { sources_seen = key ∷ s.sources_seen }
unfolding follow_tag advance_tag
follow_tag-more o tag key s many fresh few =
    let open_round : leb (expected_sources o) (suc (length s.sources_seen)) ≡ false =
      ground arith in
    rw many (rw fresh (rw open_round refl))

follow_tag-last :
    (o : TagSettings) (tag key : ℕ) (s : TagState)
    → use_source_set o ≡ true
    → is_member key s.sources_seen ≡ false
    → suc (length s.sources_seen) ≡ expected_sources o
    → follow_tag o true tag key s
      ≡ record s { sources_seen = []; next_event_window_tag = u64 (tag + stride o) }
unfolding follow_tag advance_tag
follow_tag-last o tag key s many fresh full =
    let whole : leb (expected_sources o) (suc (length s.sources_seen)) ≡ true = ground arith in
    rw many (rw fresh (rw whole refl))

-- The next tag is expected, from no source so far, the start is as known as before, and no mismatch
-- is counted or recorded beyond those of `s`.
pub record RoundOver (o : TagSettings) (tag : ℕ) (s : TagState) (r : (TagError ⊎ ⊤) × TagState)
    : Type 0 where
  pub returned : r.0 ≡ inr tt
  pub next : r.1.next_event_window_tag ≡ u64 (tag + stride o)
  pub none_seen : r.1.sources_seen ≡ []
  pub synced : r.1.evb_tag_synced ≡ s.evb_tag_synced
  pub count : r.1.mismatched_tags_count ≡ s.mismatched_tags_count
  pub jumps : r.1.mismatched_tag_jumps ≡ s.mismatched_tag_jumps

-- The rest of a round, when some sources have delivered the tag.
round_rest :
    (o : TagSettings) (tag : ℕ) (i : TagInput) (is : List TagInput) (s : TagState)
    → use_source_set o ≡ true
    → IsSynced o s
    → s.next_event_window_tag ≡ tag
    → AllTag tag (i ∷ is)
    → Fresh s.sources_seen (i ∷ is)
    → length s.sources_seen + length (i ∷ is) ≡ expected_sources o
    → RoundOver o tag s (check_subevent_tags o (i ∷ is) s)
unfolding check_subevent_tags
round_rest o tag i [] s many synced expected tags fresh full =
    rw (check_tag-ok o i tag s synced tags.0 expected fresh.0) (
      rw (follow_tag-last o tag (src_key i) (counted s) many fresh.0 (omega arith)) (record {
        returned = refl;
        next = refl;
        none_seen = refl;
        synced = refl;
        count = refl;
        jumps = refl;
      }))
round_rest o tag i (j ∷ is) s many synced expected tags fresh full =
    let t = record (counted s) { sources_seen = src_key i ∷ s.sources_seen } in
    let rest = round_rest o tag j is t many synced expected tags.1 fresh.1 (omega arith) in
    rw (check_tag-ok o i tag s synced tags.0 expected fresh.0) (
      rw (follow_tag-more o tag (src_key i) (counted s) many fresh.0 (omega arith)) (record {
        returned = rest.returned;
        next = rest.next;
        none_seen = rest.none_seen;
        synced = rest.synced;
        count = rest.count;
        jumps = rest.jumps;
      }))

-- With a set of sources, when the tag that is expected comes once from each source, in any order,
-- nothing counts as a mismatch, and then the tag one stride on is expected.
pub check_subevent_tags-RoundOver :
    (o : TagSettings) (tag : ℕ) (is : List TagInput) (s : TagState)
    → use_source_set o ≡ true
    → IsSynced o s
    → s.next_event_window_tag ≡ tag
    → s.sources_seen ≡ []
    → AllTag tag is
    → Fresh [] is
    → length is ≡ expected_sources o
    → 0 < expected_sources o
    → RoundOver o tag s (check_subevent_tags o is s)
check_subevent_tags-RoundOver o tag [] s many synced expected none_seen tags fresh full any =
    absurd (omega arith)
check_subevent_tags-RoundOver o tag (i ∷ is) s many synced expected none_seen tags fresh full any =
    round_rest o tag i is s many synced expected tags (rw none_seen fresh)
      (rw none_seen (omega arith))

-- The first subevent of a tag that was not expected, without the active match.
restarted : ℕ → ℕ → TagState → TagState
restarted tag key s = record (note_mismatch tag (counted s)) {
  sources_seen = key ∷ [];
  next_event_window_tag = tag;
}

check_tag-mismatch :
    (o : TagSettings) (i : TagInput) (tag : ℕ) (s : TagState)
    → use_source_set o ≡ true
    → o.active_match ≡ false
    → IsSynced o s
    → eff_tag i ≡ tag
    → s.next_event_window_tag ≢ tag
    → check_subevent_tag o i s ≡ (inr tt, advance_tag o tag (restarted tag (src_key i) s))
unfolding check_subevent_tag sync_tag is_tag_ok settle_tag end_mismatch follow_tag restarted
check_tag-mismatch o i tag s many passive synced same other =
    let differs : (s.next_event_window_tag == tag) ≡ false = ground arith in
    rw synced (rw same (rw differs (rw passive (rw many refl))))

advance_tag-last :
    (o : TagSettings) (tag : ℕ) (s : TagState)
    → length s.sources_seen ≡ expected_sources o
    → advance_tag o tag s
      ≡ record s { sources_seen = []; next_event_window_tag = u64 (tag + stride o) }
unfolding advance_tag
advance_tag-last o tag s full =
    let whole : leb (expected_sources o) (length s.sources_seen) ≡ true = ground arith in
    rw whole refl

advance_tag-more :
    (o : TagSettings) (tag : ℕ) (s : TagState)
    → length s.sources_seen < expected_sources o
    → advance_tag o tag s ≡ s
unfolding advance_tag
advance_tag-more o tag s few =
    let open_round : leb (expected_sources o) (length s.sources_seen) ≡ false = ground arith in
    rw open_round refl

-- There is one source, or others are to come.
restarted_alone :
    (o : TagSettings) (tag key : ℕ) (s : TagState)
    → 1 ≡ expected_sources o
    → RoundOver o tag (note_mismatch tag s) (inr tt, advance_tag o tag (restarted tag key s))
unfolding restarted note_mismatch
restarted_alone o tag key s full = rw (advance_tag-last o tag (restarted tag key s) full) (record {
  returned = refl;
  next = refl;
  none_seen = refl;
  synced = refl;
  count = refl;
  jumps = refl;
})

restarted_round :
    (o : TagSettings) (tag : ℕ) (i j : TagInput) (is : List TagInput) (s : TagState)
    → use_source_set o ≡ true
    → IsSynced o s
    → AllTag tag (j ∷ is)
    → Fresh (src_key i ∷ []) (j ∷ is)
    → length (i ∷ j ∷ is) ≡ expected_sources o
    → RoundOver o tag
        (note_mismatch tag s)
        (check_subevent_tags o (j ∷ is) (advance_tag o tag (restarted tag (src_key i) s)))
unfolding restarted note_mismatch
restarted_round o tag i j is s many synced tags fresh full =
    let t = restarted tag (src_key i) s in
    let rest = round_rest o tag j is t many synced refl tags fresh (omega arith) in
    rw (advance_tag-more o tag t (omega arith)) (record {
      returned = rest.returned;
      next = rest.next;
      none_seen = rest.none_seen;
      synced = rest.synced;
      count = rest.count;
      jumps = rest.jumps;
    })

-- With a set of sources and without the active match, when a tag comes that was not expected, once
-- from each source, in any order, exactly its first subevent counts as a mismatch, which is
-- recorded while there are fewer than 100, and then the tag one stride on is expected.
pub check_subevent_tags_resync :
    (o : TagSettings) (tag : ℕ) (is : List TagInput) (s : TagState)
    → use_source_set o ≡ true
    → o.active_match ≡ false
    → IsSynced o s
    → s.next_event_window_tag ≢ tag
    → AllTag tag is
    → Fresh [] is
    → length is ≡ expected_sources o
    → 0 < expected_sources o
    → RoundOver o tag (note_mismatch tag s) (check_subevent_tags o is s)
unfolding check_subevent_tags
check_subevent_tags_resync o tag [] s many passive synced other tags fresh full any =
    absurd (omega arith)
check_subevent_tags_resync o tag (i ∷ []) s many passive synced other tags fresh full any =
    rw (check_tag-mismatch o i tag s many passive synced tags.0 other)
      (restarted_alone o tag (src_key i) s full)
check_subevent_tags_resync o tag (i ∷ j ∷ is) s many passive synced other tags fresh full any =
    rw (check_tag-mismatch o i tag s many passive synced tags.0 other)
      (restarted_round o tag i j is s many synced tags.1 fresh.1 full)
