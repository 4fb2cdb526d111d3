-- ===== src/Flash/Segment/Write.antt =====
-- `eraseSegment` and `writeSegment`: a command to every ROC, then the wait for all of them.
pub mod Sends
use otsdaq_mu2e.Base.{
  ℕ, zero, suc, ◌+◌, ◌-◌, ◌*◌, ◌/◌, ◌%◌, ◌^◌, Bool, true, false, not, ◌&&◌, ◌||◌, ◌⊎◌, inl, inr,
  Option, none, some, List, [], ◌∷◌, ◌++◌, if◌then◌else◌, ◌==◌, ltb, leb, length, get_or, offsets,
  min, u16, u32, bit_or, is_empty, ⊤,
}
use otsdaq_mu2e.Base.Assoc.{Map, lookup, has, find_or, insert}
use otsdaq_mu2e.Flash.Types.{
  Options, Job, Stage, Reason, during, erase_stage, write_stage, write_record, not_idle, cmd,
  act_erase, act_write,
}
use otsdaq_mu2e.Flash.Exec.{
  branch◌then◌else◌, Platform, Session, Action, pure, stall, gets, attempt, fold_m, ◌>>=◌, ◌>>◌,
}
use otsdaq_mu2e.Flash.Port.{clock_now, next_tag, is_alive, is_new_miv}
use otsdaq_mu2e.Flash.Link.{send_when_idle}
use otsdaq_mu2e.Flash.Reply.{wait_tagged_result}
use otsdaq_mu2e.Flash.Segment.Legacy.{set_if_new, wait_legacy_all}

-- The local variables of a command that goes to every ROC: the tags, when it was sent, the errors.
pub record Sending : Type 0 where
  pub tags : Map ℕ
  pub sent : Map ℕ
  pub err : Map Reason

abbrev pub no_sending : Map Reason → Sending
no_sending err = record { tags = []; sent = []; err = err }

-- The command of `eraseSegment`: an older MiV erases `1 + size / 64 kB + 1` blocks.
unfoldable pub erase_cmd : Options → ℕ → Bool → List ℕ
erase_cmd o off new = cmd act_erase (u32 (o.start_address + off)) (if new then 0x10000 else 1)

-- The words of a record: two bytes each, the lower byte first.
unfoldable pub record_words : List ℕ → ℕ → ℕ → List ℕ
record_words image zero k = []
record_words image (suc n) k =
    u16 (bit_or (get_or image k 0) (get_or image (k + 1) 0 * 2 ^ 8)) ∷ record_words image n (k + 2)

-- The command of `writeSegment` for the record of `n` bytes at `rec` of the segment at `off`.
unfoldable pub write_cmd : Job → ℕ → ℕ → ℕ → List ℕ
write_cmd j off rec n =
    cmd act_write (u32 (j.opt.start_address + off + rec)) (n / 2)
    ++ record_words j.image (n / 2) (off + rec)

-- `err_if`
abbrev pub err_if : ℕ → Option Reason → Stage → Map Reason → Map Reason
err_if r none what err = err
err_if r (some why) what err = set_if_new r (during what why) err

-- The end of the `try` that sends a command, and of the one that waits for its reply. The time of
-- sending is `none` if the MiV was not idle.
unfoldable pub command_sent : Stage → Stage → Sending → ℕ → Reason ⊎ Option ℕ → Sending
command_sent idle_stage what s r (inl e) = record s { err = insert r (during what e) s.err }
command_sent idle_stage what s r (inr none) = record s {
  err = insert r (during idle_stage not_idle) s.err;
}
command_sent idle_stage what s r (inr (some t)) = record s { sent = insert r t s.sent }

unfoldable pub command_done : Stage → ℕ → Map Reason → Reason ⊎ Option Reason → Map Reason
command_done what r err (inl e) = insert r (during what e) err
command_done what r err (inr why) = err_if r why what err

module _ ⦃p : Platform⦄ where
  -- `sendWhenIdle`, and the time if it has sent the command.
  unfoldable pub timed_send : Options → ℕ → List ℕ → Action (Option ℕ)
  timed_send o r c = do
    sent ← send_when_idle o r c 2000
    branch sent then (clock_now >>= λ t. pure (some t)) else pure none

  -- One ROC: a new MiV gets a tag behind the words.
  unfoldable pub send_command :
      Options → Stage → Stage → (Bool → List ℕ) → Sending → ℕ → Action Sending
  send_command o idle_stage what c s r = do
    new ← gets (is_new_miv r)
    branch new
        then (do
          tag ← next_tag
          got ← attempt (timed_send o r (c true ++ (tag ∷ [])))
          pure (command_sent idle_stage what (record s { tags = insert r tag s.tags }) r got))
        else (do
          got ← attempt (timed_send o r (c false))
          pure (command_sent idle_stage what s r got))

  -- The wait for a new MiV's reply; an older one is put aside in `legacy`.
  unfoldable pub await_command :
      Options → Stage → ℕ → Map ℕ → Map ℕ × Map Reason → ℕ × ℕ → Action (Map ℕ × Map Reason)
  await_command o what timeout tags (legacy, err) (r, t) = do
    new ← gets (is_new_miv r)
    branch new
        then (do
          got ← attempt (wait_tagged_result o r (find_or 0 r tags) timeout)
          pure (legacy, command_done what r err got))
        else pure (insert r t legacy, err)

  unfoldable pub await_all : Options → Stage → ℕ → ℕ → Sending → Action (Map Reason)
  await_all o what timeout min_ms s = do
    waited ← fold_m (await_command o what timeout s.tags) ([], s.err) s.sent
    wait_legacy_all o waited.0 timeout min_ms what waited.1

  -- `eraseSegment`: the errors after it
  unfoldable pub erase_segment : Options → List ℕ → ℕ → Map Reason → Action (Map Reason)
  erase_segment o rs off err = do
    s ← fold_m (send_command o erase_stage erase_stage (erase_cmd o off)) (no_sending err) rs
    await_all o erase_stage o.erase_timeout_ms o.legacy_erase_min_ms s

  -- A ROC that has failed, or has an error in this attempt, is passed over.
  unfoldable pub write_to : Job → ℕ → ℕ → ℕ → Sending → ℕ → Action Sending
  write_to j off rec n s r = do
    alive ← gets (is_alive r)
    branch not alive || has r s.err
        then pure s
        else send_command j.opt write_stage write_stage (λ new. write_cmd j off rec n) s r

  unfoldable pub write_one_record : Job → List ℕ → ℕ → ℕ → Map Reason → ℕ → Action (Map Reason)
  write_one_record j rs off len err rec = do
    s ← fold_m (write_to j off rec (min 1024 (len - rec))) (no_sending err) rs
    await_all j.opt (write_record (u32 (j.opt.start_address + off + rec))) j.opt.write_timeout_ms
        j.opt.legacy_write_min_ms s

  -- `writeSegment`: records of 1024 bytes
  unfoldable pub write_segment : Job → List ℕ → ℕ → ℕ → Map Reason → Action (Map Reason)
  write_segment j rs off len err =
      fold_m (write_one_record j rs off len) err (offsets ((len + 1023) / 1024) 0 1024)
