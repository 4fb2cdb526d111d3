-- ===== src/Spi/Actions/Lock.antt =====
-- The flash actions and the action lock.
use otsdaq_mu2e.Base.{ℕ, zero, suc, Bool, true, false, List}
use otsdaq_mu2e.Spi.Exec.{Roc, Spi, choose}
use otsdaq_mu2e.Spi.Exec.Lock.{
  Locks, Locks-give, Locks-raise, Locks-polling, Locks-choose, Locks-guarded, Locks-or_release,
  Locks-try_lock, Locks-bind, Locks-then, Locks-unlock, Locks-get,
}
use otsdaq_mu2e.Spi.Poll.{await_program}
use otsdaq_mu2e.Spi.Poll.Steady.{
  Steady, steady_rules, Steady-send, Steady-get, Steady-then, Steady-bind, Steady-choose,
  Steady-give, Steady-raise, Steady-nap, is_action_done-Steady, await_cycle-Steady,
}
use otsdaq_mu2e.Spi.Actions.{
  launch_read, read_late, await_count, collect_words, collect_read, read_flash_block,
  checked_action, write_directory, write_flash_block, erase_flash_block, program_by_index,
  program_by_address, auto_program,
}

-- An action that is begun with the lock free, and that has freed it when it ends; its commands go
-- out under the lock.
abbrev pub Frees : {A : Type 0} → Spi A → Type 0
Frees m = Locks false false false m

module _ ⦃roc : Roc⦄ where
  checked_action-Frees : (x y : ℕ) (r : Bool) (c : List ℕ) → Frees (checked_action x y r c)
  unfolding checked_action
  checked_action-Frees x y r c =
      Locks-bind _ _
        (Locks-guarded _
          (Steady-then _ _ (Steady-send c)
            (Steady-then _ _ (await_cycle-Steady x y r) (Steady-get _))).locks)
        λ status. Locks-choose _ _ _ (Locks-give tt) (Locks-raise _)

  read_late-Steady : Steady true read_late
  unfolding read_late
  read_late-Steady = search steady_rules depth 9

  await_count-Steady : (left expected : ℕ) → Steady true (await_count left expected)
  unfolding await_count
  await_count-Steady zero expected =
      search (steady_rules, is_action_done-Steady, read_late-Steady) depth 9
  await_count-Steady (suc left) expected = Steady-bind _ _ is_action_done-Steady λ d.
      Steady-bind _ _ (Steady-get _) λ count.
        Steady-choose _ _ _ (Steady-give _)
          (Steady-then _ _ Steady-nap (await_count-Steady left expected))

  collect_words-Steady : (n : ℕ) → Steady true (collect_words n)
  unfolding collect_words
  collect_words-Steady n = search (steady_rules, await_count-Steady) depth 9

  collect_read-Locks :
      (read_data : List ℕ) (n : ℕ) → Locks true false false (collect_read read_data n)
  unfolding collect_read
  collect_read-Locks read_data n =
      Locks-bind _ _ (Locks-or_release _ (collect_words-Steady n).locks)
        λ words. Locks-then _ _ Locks-unlock (Locks-bind _ _ (Locks-get _) λ count. Locks-give _)

  launch_read-Locks : (start n : ℕ) → Locks false true false (launch_read start n)
  unfolding launch_read
  launch_read-Locks start n =
      Locks-choose _ _ _ (Locks-raise _)
        (Locks-try_lock _ (Locks-or_release _ (Steady-send _).locks))

  read_flash_block-Frees :
      (read_data : List ℕ) (start n : ℕ) → Frees (read_flash_block read_data start n)
  unfolding read_flash_block
  read_flash_block-Frees read_data start n =
      Locks-then _ _ (launch_read-Locks start n) (collect_read-Locks read_data n)

  await_program-Steady : (rounds i : ℕ) → Steady true (await_program rounds i)
  unfolding await_program
  await_program-Steady zero i = record { locks = Locks-polling }
  await_program-Steady (suc rounds) i = Steady-bind _ _ is_action_done-Steady λ d.
      Steady-choose _ _ _ (Steady-give tt) (
        Steady-choose _ _ _ (Steady-raise _)
          (Steady-then _ _ Steady-nap (await_program-Steady rounds i)))

  auto_program-Frees : Frees (auto_program true)
  unfolding auto_program choose
  auto_program-Frees =
      Locks-bind _ _
        (Locks-guarded _
          (Steady-then _ _ (Steady-send _)
            (Steady-then _ _ (await_program-Steady roc.rounds 0) (Steady-get _))).locks)
        λ status. Locks-choose _ _ _ (Locks-give tt) (Locks-raise _)

  -- The actions that wait for their end, `readSPIFlashBlock` among them, begun with the lock free: when they have returned or
  -- thrown, for whatever reason, the lock is free again, and every command went out under the lock.
  pub waiting_actions-Frees :
      (read_data addresses data_words : List ℕ) (start n size index : ℕ)
      → Frees (read_flash_block read_data start n)
        × Frees (write_directory addresses true)
        × Frees (write_flash_block data_words start true)
        × Frees (erase_flash_block size start true)
        × Frees (program_by_index index true)
        × Frees (program_by_address start true)
        × Frees (auto_program true)
  unfolding write_directory write_flash_block erase_flash_block program_by_index program_by_address
      choose
  waiting_actions-Frees read_data addresses data_words start n size index = (
    read_flash_block-Frees read_data start n,
    Locks-choose _ _ _ (Locks-raise _) (checked_action-Frees _ _ _ _),
    Locks-choose _ _ _ (Locks-raise _) (checked_action-Frees _ _ _ _),
    Locks-guarded _ (Steady-then _ _ (Steady-send _) (await_cycle-Steady _ _ _)).locks,
    checked_action-Frees _ _ _ _,
    checked_action-Frees _ _ _ _,
    auto_program-Frees,
  )
