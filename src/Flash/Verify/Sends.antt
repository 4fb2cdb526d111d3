-- ===== src/Flash/Verify/Sends.antt =====
-- `parallelCrc` and `collectPieceMismatch` send no command but CRC requests.
use otsdaq_mu2e.Base.{ℕ, zero, suc, Option, List, [], ◌∷◌, ◌++◌}
use otsdaq_mu2e.Base.Assoc.{Map}
use otsdaq_mu2e.Flash.Types.{Options, Job, Reason, cmd, act_crc, act_read}
use otsdaq_mu2e.Flash.Exec.{Platform, Action}
use otsdaq_mu2e.Flash.Exec.Sends.{Condition, Sends, Sends-stall, Sends-pure}
use otsdaq_mu2e.Flash.Link.Sends.{Permits, link_rules, send_tagged-Sends}
use otsdaq_mu2e.Flash.Reply.Sends.{collect_tagged-Sends, read_reply-Sends}
use otsdaq_mu2e.Flash.Verify.{
  CrcRound, crc_send, crc_collect, crc_round, crc_rounds, parallel_crc, await_words_round,
  await_words, collect_piece_mismatch,
}

-- `Q` permits the commands that only read the flash.
pub record MayRead ⦃p : Platform⦄ (Q : Condition) : Type 0 where
  pub crc : (r addr len tag : ℕ) → Permits Q r (cmd act_crc addr len ++ (tag ∷ []))
  pub flash : (r addr n : ℕ) → Permits Q r (cmd act_read addr n)

module _ ⦃p : Platform⦄ {Q : Condition} where
  crc_send-Sends :
      (o : Options) (addr len : ℕ) (c : CrcRound) (r : ℕ)
      → MayRead Q
      → Sends Q (crc_send o addr len c r)
  unfolding crc_send
  crc_send-Sends o addr len c r may =
      let ok = may.crc r addr len in search (link_rules, send_tagged-Sends) depth 9

  crc_collect-Sends :
      (o : Options) (want timeout : ℕ) (c : CrcRound) (x : ℕ × ℕ)
      → Sends Q (crc_collect o want timeout c x)
  unfolding crc_collect
  crc_collect-Sends o want timeout c (r, tag) = search (link_rules, collect_tagged-Sends)

  crc_round-Sends :
      (again : List ℕ → Map (Option Reason) → Action (Map (Option Reason))) (o : Options)
      (addr len want timeout : ℕ) (todo : List ℕ) (res : Map (Option Reason))
      → MayRead Q
      → ((todo : List ℕ) (res : Map (Option Reason)) → Sends Q (again todo res))
      → Sends Q (crc_round again o addr len want timeout todo res)
  unfolding crc_round
  crc_round-Sends again o addr len want timeout todo res may k =
      search (link_rules, crc_send-Sends, crc_collect-Sends) depth 9

  crc_rounds-Sends :
      (tries : ℕ) (o : Options) (addr len want timeout : ℕ) (todo : List ℕ)
      (res : Map (Option Reason))
      → MayRead Q
      → Sends Q (crc_rounds tries o addr len want timeout todo res)
  unfolding crc_rounds
  crc_rounds-Sends zero o addr len want timeout todo res may = Sends-pure res
  crc_rounds-Sends (suc tries) o addr len want timeout todo res may =
      crc_round-Sends _ o addr len want timeout todo res may
        λ todo' res'. crc_rounds-Sends tries o addr len want timeout todo' res' may

  pub parallel_crc-Sends :
      (o : Options) (rs : List ℕ) (addr len want timeout tries : ℕ)
      → MayRead Q
      → Sends Q (parallel_crc o rs addr len want timeout tries)
  unfolding parallel_crc
  parallel_crc-Sends o rs addr len want timeout tries may =
      crc_rounds-Sends tries o addr len want timeout rs [] may

  await_words_round-Sends :
      (again : Action (Option Reason)) (o : Options) (r addr n t0 : ℕ)
      → Sends Q again
      → Sends Q (await_words_round again o r addr n t0)
  unfolding await_words_round
  await_words_round-Sends again o r addr n t0 k = search link_rules depth 9

  await_words-Sends :
      (fuel : ℕ) (o : Options) (r addr n t0 : ℕ) → Sends Q (await_words fuel o r addr n t0)
  unfolding await_words
  await_words-Sends zero o r addr n t0 = Sends-stall
  await_words-Sends (suc fuel) o r addr n t0 =
      await_words_round-Sends _ o r addr n t0 (await_words-Sends fuel o r addr n t0)

  pub collect_piece_mismatch-Sends :
      (j : Job) (r file_off n : ℕ) → Sends Q (collect_piece_mismatch j r file_off n)
  unfolding collect_piece_mismatch
  collect_piece_mismatch-Sends j r file_off n =
      search (link_rules, await_words-Sends, read_reply-Sends) depth 9
