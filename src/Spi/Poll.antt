-- ===== src/Spi/Poll.antt =====
-- `isActionDone` and the loops that wait for it.
pub mod Steady
use otsdaq_mu2e.Base.{
  ℕ, zero, suc, ◌+◌, ◌%◌, ◌/◌, Bool, true, false, not, ◌&&◌, Option, none, some, List, ◌==◌, ltb,
  bit15, u16, ⊤,
}
use otsdaq_mu2e.Spi.Exec.{
  address_done, address_status, Roc, Phase, accepted, completed, SpiError, phase_timeout, Spi, give,
  raise, keep_polling, choose, ◌>>=◌, ◌>>◌, unlock, nap, get_register,
}

abbrev pub same_flag : Bool → Bool → Bool
same_flag true b = b
same_flag false b = not b

module _ ⦃roc : Roc⦄ where
  -- The status, for a caller that wants it once the action is done.
  unfoldable pub done_status : Bool → Spi (Option ℕ)
  done_status wanted =
      choose wanted (get_register address_status >>= λ v. give (some (u16 v))) (give none)

  -- What follows the read of DONE: the status and the lock, each on request.
  unfoldable pub report_done : Bool → Bool → Bool → Spi (Bool × Option ℕ)
  report_done want_status release_lock d = do
    status ← done_status (d && want_status)
    choose (d && release_lock) (unlock >> give (d, status)) (give (d, status))

  -- `isActionDone(readStatus, releaseLockOnDone)`: whether the action is done, and the status.
  unfoldable pub action_done : Bool → Bool → Spi (Bool × Option ℕ)
  action_done want_status release_lock = do
    v ← get_register address_done
    report_done want_status release_lock (bit15 (u16 v))

  -- `isActionDone()`
  unfoldable pub is_action_done : Spi Bool
  is_action_done = do r ← action_done false false; give r.0

  -- The exception of a loop that has waited too long; some report two registers.
  unfoldable pub report_timeout : Bool → Phase → Spi ⊤
  report_timeout true phase = do
    reg128 ← get_register address_done
    reg132 ← get_register address_status
    raise (phase_timeout phase)
  report_timeout false phase = raise (phase_timeout phase)

  -- A loop that polls until DONE is `want`, with `left` naps to go: `while(isActionDone() != want)`.
  unfoldable pub await_done : Bool → ℕ → Bool → Phase → Spi ⊤
  await_done want zero report phase = do
    d ← is_action_done
    choose (same_flag d want) (give tt) (report_timeout report phase)
  await_done want (suc left) report phase = do
    d ← is_action_done
    choose (same_flag d want) (give tt) (nap >> await_done want left report phase)

  -- The wait for DONE to fall and then to rise. A loop that throws at `i > limit` naps
  -- `limit + 1` times.
  unfoldable pub await_cycle : ℕ → ℕ → Bool → Spi ⊤
  await_cycle accept_limit done_limit report =
      await_done false (accept_limit + 1) report accepted
      >> await_done true (done_limit + 1) report completed

  -- The loop of `autoProgramFromSPI` with its counter `i`, for at most `rounds` rounds. The source
  -- tests `i` in each round, and has no statement that changes it.
  unfoldable pub await_program : ℕ → ℕ → Spi ⊤
  await_program zero i = keep_polling
  await_program (suc rounds) i = do
    d ← is_action_done
    choose d (give tt)
        (choose (ltb 500 i) (raise (phase_timeout completed)) (nap >> await_program rounds i))
