-- ===== src/Flash/Link.antt =====
-- The command protocol of `FlashSession`: `waitIdle`, `sendWhenIdle` and `sendTagged`.
pub mod Sends
use otsdaq_mu2e.Base.{
  ℕ, zero, suc, ◌+◌, ◌-◌, ◌/◌, ◌%◌, Bool, Option, none, some, true, false, not, ◌&&◌, ◌||◌, ◌⊎◌,
  inl, inr, List, [], ◌∷◌, ◌++◌, if◌then◌else◌, ◌==◌, ltb, leb, bit15, length, get_or, is_empty, ⊤,
}
use otsdaq_mu2e.Flash.Types.{
  Options, Reason, not_idle, reply_size, no_reply, reply_lost, reply_tag, reply_vanished,
  tag_mismatch, miv_result, Note, drained, reply_read_failed, reg_done, reg_count, reg_command,
  reg_return,
}
use otsdaq_mu2e.Flash.Exec.{
  branch◌then◌else◌, Platform, Session, Action, pure, stall, gets, attempt, ◌>>=◌, ◌>>◌,
}
use otsdaq_mu2e.Flash.Port.{
  read_register, write_block, read_block, clock_now, ms_since, held, sleep_ms, note, next_tag,
}

-- `readRegister(REG_COUNT) & 0x7ff`
abbrev pub low11 : ℕ → ℕ
low11 x = x % 0x800

-- DONE set or nothing ever run, and an empty reply FIFO.
abbrev pub is_idle : ℕ → ℕ → Bool
is_idle done count = count == 0 && (done == 0 || bit15 done)

module _ ⦃p : Platform⦄ where
  unfoldable pub read_count : ℕ → Action ℕ
  read_count r = do count ← read_register r reg_count; pure (low11 count)

  -- The stale words of the reply FIFO are read under the lock; the count that `waitIdle` prints is
  -- the one read again there.
  unfoldable pub drain : ℕ → Action ℕ
  drain r = held (do
    count ← read_count r
    branch leb 4 count
        then (read_block r reg_command (count - 4) >>= λ junk. pure count)
        else pure count)

  -- One round of `waitIdle`; `again` is the rest of the loop.
  unfoldable pub wait_idle_round : Action Bool → Options → ℕ → ℕ → ℕ → Action Bool
  wait_idle_round again o r t0 timeout = do
    done ← read_register r reg_done
    count ← read_count r
    branch leb 4 count
        then (do
          stale ← drain r
          note r (drained stale)
          t ← ms_since t0
          branch ltb timeout t then pure false else (sleep_ms o.poll_ms >> again))
        else branch is_idle done count
        then pure true
        else (do
          t ← ms_since t0
          branch ltb timeout t then pure false else (sleep_ms o.poll_ms >> again))

  unfoldable pub wait_idle_rounds : ℕ → Options → ℕ → ℕ → ℕ → Action Bool
  wait_idle_rounds zero o r t0 timeout = stall
  wait_idle_rounds (suc fuel) o r t0 timeout =
      wait_idle_round (wait_idle_rounds fuel o r t0 timeout) o r t0 timeout

  -- `waitIdle`
  unfoldable pub wait_idle : Options → ℕ → ℕ → Action Bool
  wait_idle o r timeout = do t0 ← clock_now; wait_idle_rounds p.rounds o r t0 timeout

  -- The part of `sendWhenIdle` under the lock: the command goes out only if the MiV is idle.
  unfoldable pub send_if_idle : ℕ → List ℕ → Action Bool
  send_if_idle r c = held (do
    done ← read_register r reg_done
    count ← read_register r reg_count
    branch is_idle done (low11 count)
        then (write_block r c reg_command >> pure true)
        else pure false)

  -- One round of `sendWhenIdle`.
  unfoldable pub send_round : Action Bool → Options → ℕ → List ℕ → ℕ → ℕ → Action Bool
  send_round again o r c t0 timeout = do
    t ← ms_since t0
    branch leb timeout t then pure false else (do
      idle ← wait_idle o r (timeout - t)
      branch idle
          then (do sent ← send_if_idle r c; branch sent then pure true else again)
          else pure false)

  unfoldable pub send_rounds : ℕ → Options → ℕ → List ℕ → ℕ → ℕ → Action Bool
  send_rounds zero o r c t0 timeout = stall
  send_rounds (suc fuel) o r c t0 timeout =
      send_round (send_rounds fuel o r c t0 timeout) o r c t0 timeout

  -- `sendWhenIdle`
  unfoldable pub send_when_idle : Options → ℕ → List ℕ → ℕ → Action Bool
  send_when_idle o r c timeout = do t0 ← clock_now; send_rounds p.rounds o r c t0 timeout

  -- `sendTagged`
  unfoldable pub send_tagged : Options → ℕ → List ℕ → ℕ → Action Bool
  send_tagged o r c tag = send_when_idle o r (c ++ (tag ∷ [])) 2000
