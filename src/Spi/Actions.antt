-- ===== src/Spi/Actions.antt =====
-- The flash actions of `ROCPolarFireCoreInterface`: read, write, directory, erase and programming.
pub mod Lock
pub mod Busy
pub mod Naps
pub mod Cycle
pub mod Auto
use otsdaq_mu2e.Base.{
  ℕ, zero, suc, ◌+◌, ◌-◌, ◌*◌, ◌%◌, ◌/◌, Bool, true, false, not, ◌&&◌, Option, none, some, List, [],
  ◌++◌, length, ◌==◌, ltb, u16, ⊤,
}
use otsdaq_mu2e.Spi.Exec.{
  address_done, address_read_size, address_status, Roc, SpiError, too_many_bytes,
  too_many_addresses, too_many_words, read_timeout, bad_read_count, bad_status, Spi, give, raise,
  choose, ◌>>=◌, ◌>>◌, guarded, or_release, with_try_lock, unlock, nap, get_register, send_command,
  fetch_words,
}
use otsdaq_mu2e.Spi.Command.{
  read_words, directory_words, write_words, erase_words, index_words, address_words, auto_words,
}
use otsdaq_mu2e.Spi.Poll.{is_action_done, await_cycle, await_program}

module _ ⦃roc : Roc⦄ where
  -- `launchSPIFlashBlockRead`: the lock stays with the caller, unless the command fails.
  unfoldable pub launch_read : ℕ → ℕ → Spi ⊤
  launch_read start n =
      choose (ltb 1016 n) (raise (too_many_bytes n))
        (with_try_lock (or_release (send_command (read_words start n))))

  -- The timeout of a read reports the three registers.
  unfoldable pub read_late : Spi ℕ
  read_late = do
    reg128 ← get_register address_done
    reg129 ← get_register address_read_size
    reg132 ← get_register address_status
    raise (read_timeout (u16 reg128) (u16 reg129) (u16 reg132))

  -- The loop of a read: DONE and the expected count; the count is returned.
  unfoldable pub await_count : ℕ → ℕ → Spi ℕ
  await_count zero expected = do
    d ← is_action_done
    count ← get_register address_read_size
    choose (d && (u16 count % 0x800 == expected)) (give (u16 count % 0x800)) read_late
  await_count (suc left) expected = do
    d ← is_action_done
    count ← get_register address_read_size
    choose (d && (u16 count % 0x800 == expected)) (give (u16 count % 0x800))
        (nap >> await_count left expected)

  -- The part of `collectSPIFlashBlockRead` that frees the lock when it throws.
  unfoldable pub collect_words : ℕ → Spi (List ℕ)
  collect_words n = do
    count ← await_count 501 (n / 2 + 4)
    choose (not (count - 4 == n / 2)) (raise (bad_read_count count)) (fetch_words (count - 4))

  -- `collectSPIFlashBlockRead`: what was read so far, and the new words behind it.
  unfoldable pub collect_read : List ℕ → ℕ → Spi (List ℕ)
  collect_read read_data n = do
    new_words ← or_release (collect_words n)
    unlock
    count ← get_register address_read_size
    give (read_data ++ new_words)

  -- `readSPIFlashBlock`
  unfoldable pub read_flash_block : List ℕ → ℕ → ℕ → Spi (List ℕ)
  read_flash_block read_data start n = launch_read start n >> collect_read read_data n

  -- A command and the wait for its end under the lock, and the status.
  unfoldable pub checked_action : ℕ → ℕ → Bool → List ℕ → Spi ⊤
  checked_action accept_limit done_limit report c = do
    status ← guarded (
        send_command c
        >> (await_cycle accept_limit done_limit report >> get_register address_status))
    choose (u16 status == 0) (give tt) (raise (bad_status (u16 status)))

  -- A command without the wait: the lock stays taken, also when the command fails.
  unfoldable pub launch_action : List ℕ → Spi ⊤
  launch_action c = with_try_lock (send_command c)

  -- `writeSPIFlashDirectory`
  unfoldable pub write_directory : List ℕ → Bool → Spi ⊤
  write_directory addresses wait =
      choose (ltb 16 (length addresses)) (raise (too_many_addresses (length addresses))) (
        choose wait (checked_action 3000 3000 true (directory_words addresses))
          (launch_action (directory_words addresses)))

  -- `writeSPIFlashBlock`
  unfoldable pub write_flash_block : List ℕ → ℕ → Bool → Spi ⊤
  write_flash_block data_words start wait =
      choose (ltb 512 (length data_words)) (raise (too_many_words (length data_words))) (
        choose wait (checked_action 500 500 true (write_words data_words start))
          (launch_action (write_words data_words start)))

  -- `eraseSPIFlashBlock`, which does not look at the status
  unfoldable pub erase_flash_block : ℕ → ℕ → Bool → Spi ⊤
  erase_flash_block size start wait =
      choose wait (guarded (send_command (erase_words size start) >> await_cycle 500 18000 true))
        (launch_action (erase_words size start))

  -- `programFromSPIByIndex`
  unfoldable pub program_by_index : ℕ → Bool → Spi ⊤
  program_by_index index wait =
      choose wait (checked_action 500 500 false (index_words index))
        (launch_action (index_words index))

  -- `programFromSPIByAddress`
  unfoldable pub program_by_address : ℕ → Bool → Spi ⊤
  program_by_address start wait =
      choose wait (checked_action 500 500 false (address_words start))
        (launch_action (address_words start))

  -- `autoProgramFromSPI`
  unfoldable pub auto_program : Bool → Spi ⊤
  auto_program wait =
      choose wait
        (do
          status ← guarded (
              send_command auto_words
              >> (await_program roc.rounds 0 >> get_register address_status))
          choose (u16 status == 0) (give tt) (raise (bad_status (u16 status))))
        (launch_action auto_words)

-- `forceClearActionLock`
unfoldable pub force_clear_action_lock : Spi ⊤
force_clear_action_lock = unlock
