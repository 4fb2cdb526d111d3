-- ===== src/Spi/Tests.antt =====
-- Runs of the flash actions on a simulated ROC, and the theorems at them.
use otsdaq_mu2e.Base.{
  ℕ, suc, ◌≡◌, ◌≤◌, refl, true, false, [], ◌∷◌, ◌++◌, ◌==◌, if◌then◌else◌, length, replicate, arith,
  drop,
}
use otsdaq_mu2e.Flash.Exec.{value}
use otsdaq_mu2e.Spi.Exec.{
  got, sent, fetched, took, freed, napped, Trace, is_held, Roc, done, polling, give, raise, choose,
  carry_on, ◌>>=◌, ◌>>◌, outcome_of, release, guarded, release_thrown, or_release, with_try_lock,
  unlock, nap, get_register, send_command, fetch_words,
}
use otsdaq_mu2e.Spi.Exec.Naps.{EndsIn}
use otsdaq_mu2e.Spi.Command.{read_words, write_words, directory_words, erase_words, auto_words}
use otsdaq_mu2e.Spi.Command.Laws.{parameter, join_words, directory_words_lem, flash_parameters}
use otsdaq_mu2e.Spi.Poll.{
  done_status, report_done, action_done, is_action_done, await_done, await_cycle,
}
use otsdaq_mu2e.Spi.Actions.{
  launch_read, await_count, collect_words, collect_read, read_flash_block, checked_action,
  write_directory, write_flash_block, erase_flash_block, program_by_index, program_by_address,
  auto_program,
}
use otsdaq_mu2e.Spi.Actions.Lock.{Frees, waiting_actions-Frees}
use otsdaq_mu2e.Spi.Actions.Busy.{Backs, actions-Backs}
use otsdaq_mu2e.Spi.Actions.Naps.{actions-EndIn}
use otsdaq_mu2e.Spi.Actions.Cycle.{Cycled, write_flash_block-Cycled}
use otsdaq_mu2e.Spi.Actions.Auto.{polled, auto_program_stuck}

-- The reads of DONE since the last command.
abbrev polls : Trace → ℕ
polls [] = 2
polls (got a ∷ h) = if a == 128 then suc (polls h) else polls h
polls (sent c ∷ h) = 0
polls (fetched n ∷ h) = polls h
polls (took ∷ h) = polls h
polls (freed ∷ h) = polls h
polls (napped ∷ h) = polls h

-- DONE stays high for one poll, is low for one, and rises.
abbrev simulated : Roc
simulated = record {
  register_of = λ h a.
      value (if a == 128 then (if polls h == 1 then 0 else 0x8000) else if a == 129 then 12 else 0);
  sent_answer = λ h c. value tt;
  fetched_words = λ h n. value (replicate n 0xabcd);
  rounds = 4;
}

-- A ROC whose DONE stays low.
abbrev dead : Roc
dead = record {
  register_of = λ h a. value 0;
  sent_answer = λ h c. value tt;
  fetched_words = λ h n. value [];
  rounds = 1_000;
}

reads_16_bytes :
    (read_flash_block ⦃roc = simulated⦄ (7 ∷ []) 0x10000 16 []).0 ≡ done (7 ∷ replicate 8 0xabcd)
unfolding read_flash_block launch_read with_try_lock or_release send_command release_thrown
    outcome_of collect_read collect_words await_count is_action_done action_done report_done
    done_status get_register fetch_words unlock give raise choose carry_on nap ◌>>=◌ ◌>>◌
reads_16_bytes = refl

abbrev after_write : Trace
after_write = (write_flash_block ⦃roc = simulated⦄ (1 ∷ 2 ∷ []) 0x10400 true []).1

writes_two_words :
    write_flash_block ⦃roc = simulated⦄ (1 ∷ 2 ∷ []) 0x10400 true [] ≡ (done tt, after_write)
unfolding write_flash_block checked_action guarded release send_command outcome_of await_cycle
    await_done is_action_done action_done report_done done_status get_register give raise choose
    carry_on nap ◌>>=◌ ◌>>◌
writes_two_words = refl

write_flash_block-Cycled_example :
    (2 ≤ 512) × Cycled ⦃roc = simulated⦄ (write_words (1 ∷ 2 ∷ []) 0x10400) [] after_write
write_flash_block-Cycled_example =
    write_flash_block-Cycled ⦃roc = simulated⦄ (1 ∷ 2 ∷ []) 0x10400 [] tt after_write
      writes_two_words

waiting_actions-Frees_example :
    Frees (read_flash_block ⦃roc = simulated⦄ [] 0x10400 16)
    × Frees (write_directory ⦃roc = simulated⦄ (0x400 ∷ []) true)
    × Frees (write_flash_block ⦃roc = simulated⦄ (1 ∷ 2 ∷ []) 0x10400 true)
    × Frees (erase_flash_block ⦃roc = simulated⦄ 0x20000 0x10400 true)
    × Frees (program_by_index ⦃roc = simulated⦄ 1 true)
    × Frees (program_by_address ⦃roc = simulated⦄ 0x10400 true)
    × Frees (auto_program ⦃roc = simulated⦄ true)
waiting_actions-Frees_example =
    waiting_actions-Frees ⦃roc = simulated⦄ [] (0x400 ∷ []) (1 ∷ 2 ∷ []) 0x10400 16 0x20000 1

actions-Backs_example :
    Backs (read_flash_block ⦃roc = simulated⦄ [] 0x10400 16)
    × Backs (write_directory ⦃roc = simulated⦄ (0x400 ∷ []) false)
    × Backs (write_flash_block ⦃roc = simulated⦄ (1 ∷ 2 ∷ []) 0x10400 false)
    × Backs (erase_flash_block ⦃roc = simulated⦄ 16 0x10400 false)
    × Backs (program_by_index ⦃roc = simulated⦄ 1 false)
    × Backs (program_by_address ⦃roc = simulated⦄ 0x10400 false)
    × Backs (auto_program ⦃roc = simulated⦄ false)
actions-Backs_example =
    actions-Backs ⦃roc = simulated⦄ [] (0x400 ∷ []) (1 ∷ 2 ∷ []) 0x10400 16 1 false

actions-EndIn_example :
    EndsIn 501 (read_flash_block ⦃roc = dead⦄ [] 0x10400 16)
    × EndsIn 6002 (write_directory ⦃roc = dead⦄ (0x400 ∷ []) true)
    × EndsIn 1002 (write_flash_block ⦃roc = dead⦄ (1 ∷ 2 ∷ []) 0x10400 true)
    × EndsIn 18502 (erase_flash_block ⦃roc = dead⦄ 16 0x10400 true)
    × EndsIn 1002 (program_by_index ⦃roc = dead⦄ 1 true)
    × EndsIn 1002 (program_by_address ⦃roc = dead⦄ 0x10400 true)
actions-EndIn_example = actions-EndIn ⦃roc = dead⦄ [] (0x400 ∷ []) (1 ∷ 2 ∷ []) 0x10400 16 1 true

auto_program_stuck_example :
    (auto_program ⦃roc = dead⦄ true [] ≡ (polling, polled 1_000 (sent auto_words ∷ took ∷ [])))
    × (is_held (polled 1_000 (sent auto_words ∷ took ∷ [])) ≡ true)
auto_program_stuck_example = auto_program_stuck ⦃roc = dead⦄ [] refl (λ g. refl) (λ g. refl)

directory_words_lem_example :
    (length (directory_words (0x400 ∷ 0x10000 ∷ [])) ≡ 37)
    × (parameter 1 (directory_words (0x400 ∷ 0x10000 ∷ [])) ≡ 2)
    × (join_words (drop 5 (directory_words (0x400 ∷ 0x10000 ∷ [])))
        ≡ (0x400 ∷ 0x10000 ∷ []) ++ replicate 14 0)
directory_words_lem_example =
    directory_words_lem (0x400 ∷ 0x10000 ∷ []) (omega arith, (omega arith, tt)) (omega arith)

flash_parameters_example :
    (parameter 1 (read_words 0x10400 16) ≡ 0x10400)
    × (parameter 3 (read_words 0x10400 16) ≡ 16)
    × (parameter 1 (write_words (1 ∷ 2 ∷ []) 0x10400) ≡ 0x10400)
    × (parameter 3 (write_words (1 ∷ 2 ∷ []) 0x10400) ≡ 2)
    × (drop 5 (write_words (1 ∷ 2 ∷ []) 0x10400) ≡ 1 ∷ 2 ∷ [])
    × (parameter 1 (erase_words 0x20000 0x10400) ≡ 0x10400)
    × (parameter 3 (erase_words 0x20000 0x10400) ≡ 0x20000)
flash_parameters_example =
    flash_parameters 0x10400 16 0x20000 (1 ∷ 2 ∷ []) (omega arith) (omega arith) (omega arith)
      (omega arith)
