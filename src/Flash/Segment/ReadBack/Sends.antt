-- ===== src/Flash/Segment/ReadBack/Sends.antt =====
-- `verifySegment` sends only commands that read the flash.
use otsdaq_mu2e.Base.{ℕ, zero, suc, Option, List}
use otsdaq_mu2e.Base.Assoc.{Map}
use otsdaq_mu2e.Flash.Types.{Job, Reason}
use otsdaq_mu2e.Flash.Exec.{Platform, Action}
use otsdaq_mu2e.Flash.Exec.Sends.{Condition, Sends, Sends-pure}
use otsdaq_mu2e.Flash.Link.Sends.{link_rules, send_when_idle-Sends}
use otsdaq_mu2e.Flash.Verify.Sends.{MayRead, parallel_crc-Sends, collect_piece_mismatch-Sends}
use otsdaq_mu2e.Flash.Segment.ReadBack.{
  PieceRound, piece_send, piece_collect, piece_round, piece_rounds, read_back_piece,
  read_back_segment, crc_segment, verify_segment,
}

module _ ⦃p : Platform⦄ {Q : Condition} where
  piece_send-Sends :
      (j : Job) (file_off n : ℕ) (c : PieceRound) (r : ℕ)
      → MayRead Q
      → Sends Q (piece_send j file_off n c r)
  unfolding piece_send
  piece_send-Sends j file_off n c r may =
      let ok = λ (addr : ℕ). may.flash r addr n in search (link_rules, send_when_idle-Sends)

  piece_collect-Sends :
      (j : Job) (file_off n : ℕ) (c : PieceRound) (r : ℕ) → Sends Q (piece_collect j file_off n c r)
  unfolding piece_collect
  piece_collect-Sends j file_off n c r = search (link_rules, collect_piece_mismatch-Sends)

  piece_round-Sends :
      (again : List ℕ → Map (Option Reason) → Action (List ℕ × Map (Option Reason))) (j : Job)
      (file_off n : ℕ) (pending : List ℕ) (last : Map (Option Reason))
      → MayRead Q
      → ((pending : List ℕ) (last : Map (Option Reason)) → Sends Q (again pending last))
      → Sends Q (piece_round again j file_off n pending last)
  unfolding piece_round
  piece_round-Sends again j file_off n pending last may k =
      search (link_rules, piece_send-Sends, piece_collect-Sends) depth 9

  piece_rounds-Sends :
      (tries : ℕ) (j : Job) (file_off n : ℕ) (pending : List ℕ) (last : Map (Option Reason))
      → MayRead Q
      → Sends Q (piece_rounds tries j file_off n pending last)
  unfolding piece_rounds
  piece_rounds-Sends zero j file_off n pending last may = Sends-pure _
  piece_rounds-Sends (suc tries) j file_off n pending last may =
      piece_round-Sends _ j file_off n pending last may
        λ pending' last'. piece_rounds-Sends tries j file_off n pending' last' may

  read_back_piece-Sends :
      (j : Job) (off len piece : ℕ) (b : List ℕ × Map Reason) (pos : ℕ)
      → MayRead Q
      → Sends Q (read_back_piece j off len piece b pos)
  unfolding read_back_piece
  read_back_piece-Sends j off len piece (rocs, err) pos may =
      search (link_rules, piece_rounds-Sends) depth 9

  read_back_segment-Sends :
      (j : Job) (off len piece : ℕ) (rocs : List ℕ) (err : Map Reason)
      → MayRead Q
      → Sends Q (read_back_segment j off len piece rocs err)
  unfolding read_back_segment
  read_back_segment-Sends j off len piece rocs err may = search (link_rules, read_back_piece-Sends)

  crc_segment-Sends :
      (j : Job) (off len : ℕ) (rocs : List ℕ) (err : Map Reason)
      → MayRead Q
      → Sends Q (crc_segment j off len rocs err)
  unfolding crc_segment
  crc_segment-Sends j off len rocs err may = search (link_rules, parallel_crc-Sends)

  pub verify_segment-Sends :
      (j : Job) (rs : List ℕ) (off len : ℕ) (err : Map Reason)
      → MayRead Q
      → Sends Q (verify_segment j rs off len err)
  unfolding verify_segment
  verify_segment-Sends j rs off len err may =
      search (link_rules, crc_segment-Sends, read_back_segment-Sends) depth 9
