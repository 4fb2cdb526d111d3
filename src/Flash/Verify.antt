-- ===== src/Flash/Verify.antt =====
-- Verification of the flash content against the file: `parallelCrc` and `collectPieceMismatch`.
pub mod Sends
pub mod Laws
use otsdaq_mu2e.Base.{
  ℕ, zero, suc, ◌+◌, ◌-◌, ◌*◌, ◌/◌, ◌%◌, ◌^◌, Bool, true, false, not, ◌&&◌, ◌||◌, ◌⊎◌, inl, inr,
  Option, none, some, List, [], ◌∷◌, ◌++◌, if◌then◌else◌, ◌==◌, ltb, leb, length, get_or, take,
  drop, filter, is_empty, offsets, min, u16, u32, bit_or, ⊤,
}
use otsdaq_mu2e.Base.Assoc.{Map, lookup, has, find_or, insert}
use otsdaq_mu2e.Flash.Types.{
  Options, Job, Reason, during, crc_stage, read_back_stage, not_idle, crc_refused, crc_differs,
  read_back_timeout, read_back_lost, read_back_mismatch, cmd, act_crc, act_read,
}
use otsdaq_mu2e.Flash.Checksum.{crc32}
use otsdaq_mu2e.Flash.Exec.{
  on_option, branch◌then◌else◌, Platform, Session, Action, pure, stall, gets, attempt, fold_m,
  ◌>>=◌, ◌>>◌,
}
use otsdaq_mu2e.Flash.Port.{
  clock_now, ms_since, sleep_ms, next_tag, is_alive, is_new_miv, result_of,
}
use otsdaq_mu2e.Flash.Link.{read_count, send_when_idle, send_tagged}
use otsdaq_mu2e.Flash.Reply.{Reply, payload, lost, collect_tagged, read_reply}

-- The CRC that a reply `[tag, crc lo, crc hi, error]` holds.
abbrev pub reported_crc : List ℕ → ℕ
reported_crc rp = bit_or (get_or rp 2 0 * 2 ^ 16) (get_or rp 1 0)

-- `parallelCrc`: what is stored into `res[r]` for a reply; `none` where the source stores "".
unfoldable pub crc_verdict : ℕ → Reply → Option Reason
crc_verdict want (lost why) = some (during crc_stage why)
crc_verdict want (payload rp) =
    if not (get_or rp 3 0 == 0)
    then some (crc_refused (get_or rp 3 0))
    else if not (reported_crc rp == want)
    then some (crc_differs (reported_crc rp) want)
    else none

-- The local variables of a round: `tags`, `again` and `res`.
pub record CrcRound : Type 0 where
  pub tags : Map ℕ
  pub again : List ℕ
  pub res : Map (Option Reason)

abbrev pub crc_failed : CrcRound → ℕ → Reason → CrcRound
crc_failed c r why = record c { again = c.again ++ (r ∷ []); res = insert r (some why) c.res }

-- The end of the `try` that sends the request to one ROC.
unfoldable pub crc_sent : CrcRound → ℕ → ℕ → Reason ⊎ Bool → CrcRound
crc_sent c r tag (inl e) = crc_failed c r (during crc_stage e)
crc_sent c r tag (inr true) = record c { tags = insert r tag c.tags }
crc_sent c r tag (inr false) = crc_failed c r (during crc_stage not_idle)

-- The end of the `try` that collects the reply of one ROC, and the test of `res[r]` after it.
unfoldable pub crc_collected : CrcRound → ℕ → ℕ → Reason ⊎ Reply → CrcRound
crc_collected c r want (inl e) = crc_failed c r (during crc_stage e)
crc_collected c r want (inr reply) = elim (crc_verdict want reply) [
  | some why ↦ crc_failed c r why
  | none ↦ record c { res = insert r none c.res }
]

-- The comparison that ends `collectPieceMismatch`: `n / 2` words against the file from `k` on;
-- past the end of the image the file counts as 0xFF.
unfoldable pub piece_mismatch : List ℕ → ℕ → ℕ → ℕ → List ℕ → Option Reason
piece_mismatch image zero addr k w = none
piece_mismatch image (suc n) addr k [] = some (read_back_mismatch addr)
piece_mismatch image (suc n) addr k (x ∷ w) =
    if x == u16 (bit_or (get_or image k 0) (get_or image (k + 1) 0xFF * 2 ^ 8))
    then piece_mismatch image n (u32 (addr + 2)) (k + 2) w
    else some (read_back_mismatch addr)

-- What `collectPieceMismatch` makes of the reply of `n / 2` words.
unfoldable pub check_piece : Job → ℕ → ℕ → Reply → Option Reason
check_piece j file_off n (lost why) = some (read_back_lost (u32 (j.opt.start_address + file_off)))
check_piece j file_off n (payload w) =
    piece_mismatch j.image (n / 2) (u32 (j.opt.start_address + file_off)) file_off w

module _ ⦃p : Platform⦄ where
  unfoldable pub crc_send : Options → ℕ → ℕ → CrcRound → ℕ → Action CrcRound
  crc_send o addr len c r = do
    tag ← next_tag
    got ← attempt (send_tagged o r (cmd act_crc addr len) tag)
    pure (crc_sent c r tag got)

  unfoldable pub crc_collect : Options → ℕ → ℕ → CrcRound → ℕ × ℕ → Action CrcRound
  crc_collect o want timeout c (r, tag) = do
    got ← attempt (collect_tagged o r tag 4 timeout)
    pure (crc_collected c r want got)

  -- One of the tries of `parallelCrc`.
  unfoldable pub crc_round :
      (List ℕ → Map (Option Reason) → Action (Map (Option Reason)))
      → Options
      → ℕ
      → ℕ
      → ℕ
      → ℕ
      → List ℕ
      → Map (Option Reason)
      → Action (Map (Option Reason))
  crc_round again o addr len want timeout todo res = branch is_empty todo then pure res else (do
    sent ← fold_m (crc_send o addr len) (record { tags = []; again = []; res = res }) todo
    done ← fold_m (crc_collect o want timeout) sent sent.tags
    again done.again done.res)

  unfoldable pub crc_rounds :
      ℕ → Options → ℕ → ℕ → ℕ → ℕ → List ℕ → Map (Option Reason) → Action (Map (Option Reason))
  crc_rounds zero o addr len want timeout todo res = pure res
  crc_rounds (suc tries) o addr len want timeout todo res =
      crc_round (crc_rounds tries o addr len want timeout) o addr len want timeout todo res

  -- `parallelCrc`; `none` for a ROC is the source's ""
  unfoldable pub parallel_crc : Options → List ℕ → ℕ → ℕ → ℕ → ℕ → ℕ → Action (Map (Option Reason))
  parallel_crc o rs addr len want timeout tries = crc_rounds tries o addr len want timeout rs []

  unfoldable pub await_words_round :
      Action (Option Reason) → Options → ℕ → ℕ → ℕ → ℕ → Action (Option Reason)
  await_words_round again o r addr n t0 = do
    count ← read_count r
    branch count == n / 2 + 4 then pure none else (do
      t ← ms_since t0
      branch ltb o.read_timeout_ms t
          then pure (some (read_back_timeout addr count))
          else (sleep_ms o.poll_ms >> again))

  unfoldable pub await_words : ℕ → Options → ℕ → ℕ → ℕ → ℕ → Action (Option Reason)
  await_words zero o r addr n t0 = stall
  await_words (suc fuel) o r addr n t0 =
      await_words_round (await_words fuel o r addr n t0) o r addr n t0

  -- `collectPieceMismatch`, for an even `n`; `none` where the source returns ""
  unfoldable pub collect_piece_mismatch : Job → ℕ → ℕ → ℕ → Action (Option Reason)
  collect_piece_mismatch j r file_off n = do
    t0 ← clock_now
    missing ← await_words p.rounds j.opt r (u32 (j.opt.start_address + file_off)) n t0
    on_option missing
        (read_reply r (u16 (n / 2)) >>= λ reply. pure (check_piece j file_off n reply))
        (λ why. pure (some why))
