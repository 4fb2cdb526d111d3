-- ===== src/Flash/Reply.antt =====
-- The replies of the MiV: `readReply`, `collectTagged`, `waitTaggedResult`, `tagged`.
pub mod Sends
use otsdaq_mu2e.Base.{
  ℕ, zero, suc, ◌+◌, ◌-◌, ◌/◌, ◌%◌, Bool, Option, none, some, true, false, not, ◌&&◌, ◌||◌, ◌⊎◌,
  inl, inr, List, [], ◌∷◌, ◌++◌, if◌then◌else◌, ◌==◌, ltb, leb, bit15, length, get_or, is_empty, ⊤,
}
use otsdaq_mu2e.Flash.Types.{
  Options, Reason, not_idle, reply_size, no_reply, reply_lost, reply_tag, reply_vanished,
  tag_mismatch, miv_result, Note, drained, reply_read_failed, reg_done, reg_count, reg_command,
  reg_return,
}
use otsdaq_mu2e.Flash.Exec.{
  on_option, branch◌then◌else◌, Platform, Session, Action, pure, stall, gets, attempt, ◌>>=◌, ◌>>◌,
}
use otsdaq_mu2e.Flash.Port.{
  read_register, write_block, read_block, clock_now, ms_since, held, sleep_ms, note, next_tag,
}
use otsdaq_mu2e.Flash.Link.{read_count, send_tagged}

-- What a wait for a reply gives: the payload, or the reason that the source puts into `why`.
pub data Reply : Type 0 where
  payload : List ℕ → Reply
  lost : Reason → Reply

-- The `catch` of `readReply`: a failed block read counts as a lost reply.
unfoldable pub after_read : ℕ → Reason ⊎ Reply → Action Reply
after_read r (inl e) = note r (reply_read_failed e) >> pure (lost reply_lost)
after_read r (inr reply) = pure reply

-- The test of the tag that ends `collectTagged`.
unfoldable pub check_tag : ℕ → ℕ → Reply → Reply
check_tag tag n (lost why) = lost why
check_tag tag n (payload reply) =
    if not (length reply == n) || not (get_or reply 0 0 == tag)
    then lost (reply_tag (get_or reply 0 0) tag)
    else payload reply

-- The tests that end `waitTaggedResult`: `[tag, result, cmd_fail]`, result 0 = OK.
unfoldable pub check_result : ℕ → Reply → Option Reason
check_result tag (lost why) = some reply_vanished
check_result tag (payload reply) =
    if not (length reply == 3) || not (get_or reply 0 0 == tag)
    then some tag_mismatch
    else if get_or reply 1 0 == 0
    then none
    else some (miv_result (get_or reply 1 0) (get_or reply 2 0))

module _ ⦃p : Platform⦄ where
  -- `readReply`: none of its failures leaves it as an exception.
  unfoldable pub read_reply : ℕ → ℕ → Action Reply
  read_reply r n = do
    got ← attempt (
        held (do
          count ← read_count r
          branch count == n + 4
              then (do
                out ← read_block r reg_command n
                pure (if length out == n then payload out else lost reply_lost))
              else pure (lost reply_lost)))
    after_read r got

  -- The reason of a timeout prints two more registers; an exception of those reads leaves it.
  unfoldable pub no_reply_reason : ℕ → ℕ → Action Reason
  no_reply_reason r timeout = do
    done ← read_register r reg_done
    ret ← read_register r reg_return
    pure (no_reply timeout done ret)

  -- One round of the polling of `collectTagged` and `waitTaggedResult` for a reply of `n` words.
  unfoldable pub await_round :
      Action (Option Reason) → Options → ℕ → ℕ → ℕ → ℕ → Action (Option Reason)
  await_round again o r n t0 timeout = do
    count ← read_count r
    branch count == n + 4
        then pure none
        else branch ltb (n + 4) count
        then pure (some (reply_size count))
        else (do
          t ← ms_since t0
          branch ltb timeout t
              then (no_reply_reason r timeout >>= λ why. pure (some why))
              else (sleep_ms o.poll_ms >> again))

  -- The polling: `none` once the reply is there, or the reason why it does not come.
  unfoldable pub await_reply : ℕ → Options → ℕ → ℕ → ℕ → ℕ → Action (Option Reason)
  await_reply zero o r n t0 timeout = stall
  await_reply (suc fuel) o r n t0 timeout =
      await_round (await_reply fuel o r n t0 timeout) o r n t0 timeout

  -- `collectTagged`: the payload of a reply that carries the tag.
  unfoldable pub collect_tagged : Options → ℕ → ℕ → ℕ → ℕ → Action Reply
  collect_tagged o r tag n timeout = do
    t0 ← clock_now
    missing ← await_reply p.rounds o r n t0 timeout
    on_option missing (read_reply r n >>= λ reply. pure (check_tag tag n reply))
        (λ why. pure (lost why))

  -- `waitTaggedResult`: `none` is success (the source returns the empty string).
  unfoldable pub wait_tagged_result : Options → ℕ → ℕ → ℕ → Action (Option Reason)
  wait_tagged_result o r tag timeout = do
    t0 ← clock_now
    missing ← await_reply p.rounds o r 3 t0 timeout
    on_option missing (read_reply r 3 >>= λ reply. pure (check_result tag reply))
        (λ why. pure (some why))

  -- `tagged`
  unfoldable pub tagged : Options → ℕ → List ℕ → ℕ → ℕ → Action Reply
  tagged o r c n timeout = do
    tag ← next_tag
    sent ← send_tagged o r c tag
    branch sent then collect_tagged o r tag n timeout else pure (lost not_idle)
