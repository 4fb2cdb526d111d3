-- ===== src/Flash/Segment/ReadBack.antt =====
-- `verifySegment`: by CRC (new MiV), or read back piece by piece (older MiV).
pub mod Sends
use otsdaq_mu2e.Base.{
  ℕ, zero, suc, ◌+◌, ◌-◌, ◌*◌, ◌/◌, ◌%◌, Bool, true, false, not, ◌&&◌, ◌||◌, ◌⊎◌, inl, inr, Option,
  none, some, List, [], ◌∷◌, ◌++◌, if◌then◌else◌, ◌==◌, length, take, drop, filter, is_empty,
  offsets, min, u32, ⊤,
}
use otsdaq_mu2e.Base.Assoc.{Map, lookup, has, find_or, insert}
use otsdaq_mu2e.Flash.Types.{Options, Job, Reason, during, read_back_stage, not_idle, cmd, act_read}
use otsdaq_mu2e.Flash.Checksum.{crc32}
use otsdaq_mu2e.Flash.Exec.{
  branch◌then◌else◌, Platform, Session, Action, pure, gets, attempt, fold_m, ◌>>=◌, ◌>>◌,
}
use otsdaq_mu2e.Flash.Port.{is_alive, is_new_miv, result_of}
use otsdaq_mu2e.Flash.Link.{send_when_idle}
use otsdaq_mu2e.Flash.Verify.{parallel_crc, collect_piece_mismatch}

-- The local variables of one attempt at a piece: `sent`, `again` and `last` (`none` is "").
pub record PieceRound : Type 0 where
  pub sent : List ℕ
  pub again : List ℕ
  pub last : Map (Option Reason)

abbrev pub piece_failed : PieceRound → ℕ → Reason → PieceRound
piece_failed c r why = record c { again = c.again ++ (r ∷ []); last = insert r (some why) c.last }

unfoldable pub piece_sent : PieceRound → ℕ → Reason ⊎ Bool → PieceRound
piece_sent c r (inl e) = piece_failed c r (during read_back_stage e)
piece_sent c r (inr true) = record c { sent = c.sent ++ (r ∷ []) }
piece_sent c r (inr false) = piece_failed c r (during read_back_stage not_idle)

unfoldable pub piece_collected : PieceRound → ℕ → Reason ⊎ Option Reason → PieceRound
piece_collected c r (inl e) = piece_failed c r (during read_back_stage e)
piece_collected c r (inr (some why)) = piece_failed c r why
piece_collected c r (inr none) = record c { last = insert r none c.last }

-- `for(auto r : pending) err[r] = last[r]`: a pending ROC has a message in `last`.
unfoldable pub record_errors : List ℕ → Map (Option Reason) → Map Reason → Map Reason
record_errors [] last err = err
record_errors (r ∷ rs) last err =
    record_errors rs last (elim (find_or none r last) [ some why ↦ insert r why err | none ↦ err ])

-- `piece`: the smallest read-back size of the ROCs
unfoldable pub piece_size : (ℕ → ℕ) → List ℕ → ℕ
piece_size read_bytes [] = 1016
piece_size read_bytes (r ∷ rs) = min (read_bytes r) (piece_size read_bytes rs)

abbrev pub is_errorless : Map Reason → ℕ → Bool
is_errorless err r = not (has r err)

-- `n`: what is left of the segment, at most a piece, made even
abbrev pub piece_bytes : ℕ → ℕ → ℕ → ℕ
piece_bytes piece len p = min piece (len - p) + min piece (len - p) % 2

module _ ⦃p : Platform⦄ where
  unfoldable pub piece_send : Job → ℕ → ℕ → PieceRound → ℕ → Action PieceRound
  piece_send j file_off n c r = do
    got ←
        attempt
          (send_when_idle j.opt r (cmd act_read (u32 (j.opt.start_address + file_off)) n) 2000)
    pure (piece_sent c r got)

  unfoldable pub piece_collect : Job → ℕ → ℕ → PieceRound → ℕ → Action PieceRound
  piece_collect j file_off n c r = do
    got ← attempt (collect_piece_mismatch j r file_off n)
    pure (piece_collected c r got)

  -- One attempt at a piece.
  unfoldable pub piece_round :
      (List ℕ → Map (Option Reason) → Action (List ℕ × Map (Option Reason)))
      → Job
      → ℕ
      → ℕ
      → List ℕ
      → Map (Option Reason)
      → Action (List ℕ × Map (Option Reason))
  piece_round again j file_off n pending last =
      branch is_empty pending then pure (pending, last) else (do
        c ← fold_m (piece_send j file_off n) (record { sent = []; again = []; last = last }) pending
        d ← fold_m (piece_collect j file_off n) c c.sent
        again d.again d.last)

  -- At most `tries` attempts at a piece: the ROCs still pending, and the last message of each.
  unfoldable pub piece_rounds :
      ℕ → Job → ℕ → ℕ → List ℕ → Map (Option Reason) → Action (List ℕ × Map (Option Reason))
  piece_rounds zero j file_off n pending last = pure (pending, last)
  piece_rounds (suc tries) j file_off n pending last =
      piece_round (piece_rounds tries j file_off n) j file_off n pending last

  -- The body of the loop over the pieces; it ends when no ROC is left.
  unfoldable pub read_back_piece :
      Job → ℕ → ℕ → ℕ → List ℕ × Map Reason → ℕ → Action (List ℕ × Map Reason)
  read_back_piece j off len piece (rocs, err) pos =
      branch is_empty rocs then pure (rocs, err) else (do
        done ← piece_rounds 4 j (off + pos) (piece_bytes piece len pos) rocs []
        let err' = record_errors done.0 done.1 err
        pure (filter (is_errorless err') rocs, err'))

  unfoldable pub read_back_segment : Job → ℕ → ℕ → ℕ → List ℕ → Map Reason → Action (Map Reason)
  read_back_segment j off len piece rocs err = do
    done ←
        fold_m (read_back_piece j off len piece) (rocs, err)
          (offsets ((len + piece - 1) / piece) 0 piece)
    pure done.1

  unfoldable pub crc_segment : Job → ℕ → ℕ → List ℕ → Map Reason → Action (Map Reason)
  crc_segment j off len rocs err = branch is_empty rocs then pure err else (do
    chk ←
        parallel_crc j.opt rocs (u32 (j.opt.start_address + off)) len
          (crc32 (take len (drop off j.image))) j.opt.crc_segment_timeout_ms 2
    pure (record_errors rocs chk err))

  -- `verifySegment`: the errors after it
  unfoldable pub verify_segment : Job → List ℕ → ℕ → ℕ → Map Reason → Action (Map Reason)
  verify_segment j rs off len err = do
    crc_rocs ← gets λ s. filter (λ r. is_alive r s && not (has r err) && is_new_miv r s) rs
    rb_rocs ← gets λ s. filter (λ r. is_alive r s && not (has r err) && not (is_new_miv r s)) rs
    err' ← crc_segment j off len crc_rocs err
    piece ← gets λ s. piece_size (λ r. (result_of r s).read_bytes) rb_rocs
    read_back_segment j off len piece rb_rocs err'
