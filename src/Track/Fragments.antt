-- ===== src/Track/Fragments.antt =====
-- The data blocks of a subevent: what the loop over them counts, checks and saves.
use otsdaq_mu2e.Base.{
  ℕ, zero, suc, ◌+◌, ◌-◌, ◌*◌, ◌/◌, ◌%◌, ◌^◌, Bool, ◌&&◌, ◌⊎◌, inl, inr, List, [], ◌∷◌, ◌++◌,
  if◌then◌else◌, ◌==◌, u64, ⊤,
}
use otsdaq_mu2e.Track.Tag.{TagInput, src_key, use_source_set}
use otsdaq_mu2e.Track.Types.{
  DataBlock, Counts, HandlerState, HandlerSettings, HandlerError, bad_emulation, add_at,
  add_by_source,
}
use otsdaq_mu2e.Track.Emulator.{Checking, is_timeout, check_emulator_block}

abbrev pub Handling : Type 0
Handling = (HandlerError ⊎ ⊤) × HandlerState

-- What follows a step that has not thrown.
abbrev pub then_handle : Handling → (HandlerState → Handling) → Handling
then_handle (inl why, s) f = (inl why, s)
then_handle (inr done, s) f = f s

-- A change of the counts.
abbrev pub with_counts : (Counts → Counts) → HandlerState → HandlerState
with_counts f s = record s { counts = f s.counts }

-- `n` 32-bit words from the given one on.
abbrev pub words_from : (ℕ → ℕ) → ℕ → ℕ → List ℕ
words_from f i zero = []
words_from f i (suc n) = f i ∷ words_from f (i + 1) n

-- `for(l = 0; l < bytes; l += 4)`
abbrev pub words_in : ℕ → ℕ
words_in bytes = (bytes + 3) / 4

abbrev pub append_words : Bool → List ℕ → Counts → Counts
append_words writes ws c = if writes then record c { file = c.file ++ ws } else c

-- A 32-bit word of the payload.
abbrev pub payload_word : DataBlock → ℕ → ℕ
payload_word b i = b.words (2 * i) + 2 ^ 16 * b.words (2 * i + 1)

-- `GetByteCount() - 16` as it is added to a `uint64_t`.
abbrev pub payload_delta : DataBlock → ℕ
payload_delta b = b.byte_count + (2 ^ 64 - 16)

-- A data block up to its emulated data: the counts, and the words of its header packet.
unfoldable pub count_block : HandlerSettings → TagInput → Bool → DataBlock → Counts → Counts
count_block o i save b c =
    let by_source = use_source_set o.tag_settings in
    let link = b.link_id in
    record c {
      fragments_count = add_at link 1 c.fragments_count;
      fragments_by_source =
          if by_source
          then add_by_source (src_key i) link 1 c.fragments_by_source
          else c.fragments_by_source;
      header_timeouts_count =
          if is_timeout b then add_at link 1 c.header_timeouts_count else c.header_timeouts_count;
      file = if save && o.has_file then c.file ++ words_from b.raw 0 4 else c.file;
      payload_byte_count = add_at link (payload_delta b) c.payload_byte_count;
      payload_bytes_by_source =
          if by_source
          then add_by_source (src_key i) link (payload_delta b) c.payload_bytes_by_source
          else c.payload_bytes_by_source;
      total_subevent_bytes = u64 (c.total_subevent_bytes + b.byte_count);
      payload_empty_count =
          if b.byte_count == 16 then add_at link 1 c.payload_empty_count else c.payload_empty_count;
    }

abbrev pub end_emulation : Checking → HandlerState → Handling
end_emulation (inl why, t) s = (inl (bad_emulation why), record s { emulator = t })
end_emulation (inr done, t) s = (inr tt, record s { emulator = t })

unfoldable pub check_emulation : HandlerSettings → TagInput → DataBlock → HandlerState → Handling
check_emulation o i b s =
    if o.check_roc_emulator_data
    then end_emulation (check_emulator_block (i.source_dtc_id % 2 ^ 8) b s.emulator) s
    else (inr tt, s)

-- The words of the payload.
unfoldable pub save_payload : HandlerSettings → Bool → DataBlock → Counts → Counts
save_payload o save b =
    append_words (save && o.has_file) (words_from (payload_word b) 0 (words_in (b.byte_count - 16)))

unfoldable pub handle_block :
    HandlerSettings → TagInput → Bool → DataBlock → HandlerState → Handling
handle_block o i save b s =
    then_handle (check_emulation o i b (with_counts (count_block o i save b) s))
      λ s1. (inr tt, with_counts (save_payload o save b) s1)

unfoldable pub handle_blocks :
    HandlerSettings → TagInput → Bool → List DataBlock → HandlerState → Handling
handle_blocks o i save [] s = (inr tt, s)
handle_blocks o i save (b ∷ bs) s =
    then_handle (handle_block o i save b s) (handle_blocks o i save bs)
