-- ===== src/Spi/Actions/Naps.antt =====
-- How long the flash actions wait: each ends after a bounded number of naps of 10 ms.
use otsdaq_mu2e.Base.{ℕ, zero, suc, ◌+◌, Bool, true, false, List, arith}
use otsdaq_mu2e.Spi.Exec.{Roc, Phase, Spi, ◌>>◌, send_command}
use otsdaq_mu2e.Spi.Poll.{
  done_status, report_done, action_done, is_action_done, report_timeout, await_done, await_cycle,
}
use otsdaq_mu2e.Spi.Actions.{
  launch_read, read_late, await_count, collect_words, collect_read, read_flash_block,
  checked_action, launch_action, write_directory, write_flash_block, erase_flash_block,
  program_by_index, program_by_address,
}
use otsdaq_mu2e.Spi.Exec.Naps.{
  EndsIn, at_once_rules, EndsIn-more, EndsIn-give, EndsIn-raise, EndsIn-choose, EndsIn-guarded,
  EndsIn-or_release, EndsIn-try_lock, EndsIn-bind, EndsIn-then, EndsIn-nap, EndsIn-get, EndsIn-send,
  EndsIn-fetch,
}

module _ ⦃roc : Roc⦄ where
  done_status-EndsIn : (w : Bool) → EndsIn 0 (done_status w)
  unfolding done_status
  done_status-EndsIn w = search at_once_rules depth 9

  is_action_done-EndsIn : EndsIn 0 is_action_done
  unfolding is_action_done action_done report_done
  is_action_done-EndsIn = search (at_once_rules, done_status-EndsIn) depth 12

  report_timeout-EndsIn : (r : Bool) (phase : Phase) → EndsIn 0 (report_timeout r phase)
  unfolding report_timeout
  report_timeout-EndsIn true phase = search at_once_rules depth 9
  report_timeout-EndsIn false phase = search at_once_rules depth 9

  read_late-EndsIn : EndsIn 0 read_late
  unfolding read_late
  read_late-EndsIn = search at_once_rules depth 9

  await_done-EndsIn :
      (want : Bool) (left : ℕ) (r : Bool) (phase : Phase)
      → EndsIn left (await_done want left r phase)
  unfolding await_done
  await_done-EndsIn want zero r phase =
      search (at_once_rules, is_action_done-EndsIn, report_timeout-EndsIn) depth 9
  await_done-EndsIn want (suc left) r phase =
      EndsIn-bind 0 (suc left) (suc left) _ _ (omega arith) is_action_done-EndsIn λ d.
        EndsIn-choose _ _ _ _ (EndsIn-give _ tt) (
          EndsIn-then 1 left (suc left) _ _ (omega arith) EndsIn-nap
            (await_done-EndsIn want left r phase))

  await_cycle-EndsIn : (x y : ℕ) (r : Bool) → EndsIn (x + y + 2) (await_cycle x y r)
  unfolding await_cycle
  await_cycle-EndsIn x y r =
      EndsIn-then (x + 1) (y + 1) (x + y + 2) _ _ (omega arith)
        (await_done-EndsIn false (x + 1) r _) (await_done-EndsIn true (y + 1) r _)

  send_cycle-EndsIn :
      {A : Type 0} (x y : ℕ) (r : Bool) (c : List ℕ) (k : Spi A)
      → EndsIn 0 k
      → EndsIn (x + y + 2) (send_command c >> (await_cycle x y r >> k))
  send_cycle-EndsIn x y r c k kk =
      EndsIn-then 0 (x + y + 2) (x + y + 2) _ _ (omega arith) (EndsIn-send c)
        (EndsIn-then (x + y + 2) 0 (x + y + 2) _ _ (omega arith) (await_cycle-EndsIn x y r) kk)

  checked_action-EndsIn :
      (x y : ℕ) (r : Bool) (c : List ℕ) → EndsIn (x + y + 2) (checked_action x y r c)
  unfolding checked_action
  checked_action-EndsIn x y r c =
      EndsIn-bind (x + y + 2) 0 (x + y + 2) _ _ (omega arith)
        (EndsIn-guarded _ _ (send_cycle-EndsIn x y r c _ (EndsIn-get _)))
        λ status. EndsIn-choose 0 _ _ _ (EndsIn-give 0 tt) (EndsIn-raise 0 _)

  launch_action-EndsIn : (n : ℕ) (c : List ℕ) → EndsIn n (launch_action c)
  unfolding launch_action
  launch_action-EndsIn n c = EndsIn-more 0 n _ (omega arith) (EndsIn-try_lock 0 _ (EndsIn-send c))

  await_count-EndsIn : (left expected : ℕ) → EndsIn left (await_count left expected)
  unfolding await_count
  await_count-EndsIn zero expected =
      search (at_once_rules, is_action_done-EndsIn, read_late-EndsIn) depth 9
  await_count-EndsIn (suc left) expected =
      EndsIn-bind 0 (suc left) (suc left) _ _ (omega arith) is_action_done-EndsIn λ d.
        EndsIn-bind 0 (suc left) (suc left) _ _ (omega arith) (EndsIn-get _) λ count.
          EndsIn-choose _ _ _ _ (EndsIn-give _ _) (
            EndsIn-then 1 left (suc left) _ _ (omega arith) EndsIn-nap
              (await_count-EndsIn left expected))

  collect_read-EndsIn : (read_data : List ℕ) (n : ℕ) → EndsIn 501 (collect_read read_data n)
  unfolding collect_read collect_words
  collect_read-EndsIn read_data n =
      EndsIn-bind 501 0 501 _ _ (omega arith)
        (EndsIn-or_release 501 _ (
          EndsIn-bind 501 0 501 _ _ (omega arith) (await_count-EndsIn 501 _)
            λ count. EndsIn-choose 0 _ _ _ (EndsIn-raise 0 _) (EndsIn-fetch _)))
        λ words. search at_once_rules depth 9

  launch_read-EndsIn : (start n : ℕ) → EndsIn 0 (launch_read start n)
  unfolding launch_read
  launch_read-EndsIn start n =
      EndsIn-choose 0 _ _ _ (EndsIn-raise 0 _)
        (EndsIn-try_lock 0 _ (EndsIn-or_release 0 _ (EndsIn-send _)))

  -- However the ROC answers, each flash action but `autoProgramFromSPI` ends, or waits for the
  -- lock: a read after at most 501 naps of 10 ms, a directory after 6002, a write of a block and a
  -- programming after 1002, and an erase after 18502.
  pub actions-EndIn :
      (read_data addresses data_words : List ℕ) (start size index : ℕ) (wait : Bool)
      → EndsIn 501 (read_flash_block read_data start size)
        × EndsIn 6002 (write_directory addresses wait)
        × EndsIn 1002 (write_flash_block data_words start wait)
        × EndsIn 18502 (erase_flash_block size start wait)
        × EndsIn 1002 (program_by_index index wait)
        × EndsIn 1002 (program_by_address start wait)
  unfolding read_flash_block write_directory write_flash_block erase_flash_block program_by_index
      program_by_address
  actions-EndIn read_data addresses data_words start size index wait = (
    EndsIn-then 0 501 501 _ _ (omega arith) (launch_read-EndsIn start size)
        (collect_read-EndsIn read_data size),
    EndsIn-choose _ _ _ _ (EndsIn-raise _ _)
        (EndsIn-choose _ wait _ _ (checked_action-EndsIn 3000 3000 _ _) (launch_action-EndsIn _ _)),
    EndsIn-choose _ _ _ _ (EndsIn-raise _ _)
        (EndsIn-choose _ wait _ _ (checked_action-EndsIn 500 500 _ _) (launch_action-EndsIn _ _)),
    EndsIn-choose _ wait _ _
        (EndsIn-guarded _ _ (
          EndsIn-then 0 18502 18502 _ _ (omega arith) (EndsIn-send _)
            (await_cycle-EndsIn 500 18000 _)))
        (launch_action-EndsIn _ _),
    EndsIn-choose _ wait _ _ (checked_action-EndsIn 500 500 _ _) (launch_action-EndsIn _ _),
    EndsIn-choose _ wait _ _ (checked_action-EndsIn 500 500 _ _) (launch_action-EndsIn _ _),
  )
