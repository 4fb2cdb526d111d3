-- ===== src/Track/Bounds.antt =====
-- What the check of the tags keeps in bounds.
use otsdaq_mu2e.Base.{
  ℕ, ◌≤◌, ◌<◌, Bool, true, false, ◌⊎◌, inl, inr, List, [], ◌∷◌, not, ◌&&◌, ltb, leb, length,
  length-append, arith, ⊤, Bool-cases,
}
use otsdaq_mu2e.Track.Tag.{
  TagSettings, TagState, TagInput, TagError, eff_tag, src_key, expected_sources, use_source_set,
  sync_tag, note_mismatch, advance_tag, follow_tag, settle_tag, end_mismatch, check_subevent_tag,
  check_subevent_tags, then_check,
}

-- At most 100 jumps are recorded, and fewer sources are waited behind than make a round.
pub record IsBounded (o : TagSettings) (s : TagState) : Type 0 where
  pub jumps : length s.mismatched_tag_jumps ≤ 100
  pub sources : length s.sources_seen < expected_sources o

module _ (o : TagSettings) (any : 0 < expected_sources o) where
  advance_tag-IsBounded :
      (tag : ℕ) (s : TagState)
      → length s.mismatched_tag_jumps ≤ 100
      → IsBounded o (advance_tag o tag s)
  unfolding advance_tag
  advance_tag-IsBounded tag s few =
      elim (Bool-cases (leb (expected_sources o) (length s.sources_seen))) [
        | inl e ↦ rw e (record { jumps = few; sources = any })
        | inr e ↦ rw e (record { jumps = few; sources = ground arith })
      ]

  follow_tag-IsBounded :
      (ok : Bool) (tag key : ℕ) (s : TagState)
      → IsBounded o s
      → IsBounded o (follow_tag o ok tag key s)
  unfolding follow_tag
  follow_tag-IsBounded ok tag key s k = elim (Bool-cases (use_source_set o)) [
    | inl e ↦ rw e (elim (Bool-cases ok) [
      | inl f ↦ rw f (advance_tag-IsBounded tag _ k.jumps)
      | inr f ↦ rw f (advance_tag-IsBounded tag _ k.jumps)
    ])
    | inr e ↦ rw e (record { jumps = k.jumps; sources = k.sources })
  ]

  note_mismatch-IsBounded :
      (tag : ℕ) (s : TagState) → IsBounded o s → IsBounded o (note_mismatch tag s)
  unfolding note_mismatch
  note_mismatch-IsBounded tag s k = elim (Bool-cases (ltb (length s.mismatched_tag_jumps) 100)) [
    | inl e ↦ rw e (record {
      jumps =
          ground
            (arith, length-append s.mismatched_tag_jumps ((s.next_event_window_tag, tag) ∷ []));
      sources = k.sources;
    })
    | inr e ↦ rw e (record { jumps = k.jumps; sources = k.sources })
  ]

  end_mismatch-IsBounded :
      (active : Bool) (tag key : ℕ) (s : TagState)
      → IsBounded o s
      → IsBounded o (end_mismatch o active tag key s).1
  unfolding end_mismatch
  end_mismatch-IsBounded true tag key s k = note_mismatch-IsBounded tag s k
  end_mismatch-IsBounded false tag key s k =
      follow_tag-IsBounded false tag key _ (note_mismatch-IsBounded tag s k)

  settle_tag-IsBounded :
      (ok : Bool) (tag key : ℕ) (s : TagState)
      → IsBounded o s
      → IsBounded o (settle_tag o ok tag key s).1
  unfolding settle_tag
  settle_tag-IsBounded true tag key s k = follow_tag-IsBounded true tag key s k
  settle_tag-IsBounded false tag key s k = end_mismatch-IsBounded o.active_match tag key s k

  sync_tag-IsBounded : (tag : ℕ) (s : TagState) → IsBounded o s → IsBounded o (sync_tag o tag s)
  unfolding sync_tag
  sync_tag-IsBounded tag s k = elim (Bool-cases (o.in_evb_mode && not s.evb_tag_synced)) [
    | inl e ↦ rw e (record { jumps = k.jumps; sources = any })
    | inr e ↦ rw e k
  ]

  check_tag-IsBounded :
      (i : TagInput) (s : TagState) → IsBounded o s → IsBounded o (check_subevent_tag o i s).1
  unfolding check_subevent_tag
  check_tag-IsBounded i s k =
      settle_tag-IsBounded _ (eff_tag i) (src_key i) _
        (sync_tag-IsBounded (eff_tag i) _ (record { jumps = k.jumps; sources = k.sources }))

  then_check-IsBounded :
      (r : (TagError ⊎ ⊤) × TagState) (f : TagState → (TagError ⊎ ⊤) × TagState)
      → IsBounded o r.1
      → ((s : TagState) → IsBounded o s → IsBounded o (f s).1)
      → IsBounded o (then_check r f).1
  then_check-IsBounded (inl e, s) f k next = k
  then_check-IsBounded (inr x, s) f k next = next s k

  -- Where at least one source is expected, whatever subevents come, at most 100 jumps are recorded,
  -- and the set of sources stays smaller than a round.
  pub check_subevent_tags-IsBounded :
      (is : List TagInput) (s : TagState)
      → IsBounded o s
      → IsBounded o (check_subevent_tags o is s).1
  unfolding check_subevent_tags
  check_subevent_tags-IsBounded [] s k = k
  check_subevent_tags-IsBounded (i ∷ is) s k =
      then_check-IsBounded (check_subevent_tag o i s) (check_subevent_tags o is)
        (check_tag-IsBounded i s k) (check_subevent_tags-IsBounded is)
