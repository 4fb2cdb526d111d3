-- ===== src/Spi/Actions/Busy.antt =====
-- The flash actions while another action holds the lock.
use otsdaq_mu2e.Base.{ℕ, ◌≡◌, ◌∙◌, refl, Bool, true, false, List, ⊤}
use otsdaq_mu2e.Spi.Exec.{
  Trace, is_held, Roc, SpiError, Ending, done, thrown, waiting, polling, Spi, raise, choose,
  carry_on, ◌>>=◌, ◌>>◌, guarded, with_try_lock,
}
use otsdaq_mu2e.Spi.Actions.{
  launch_read, read_flash_block, checked_action, launch_action, write_directory, write_flash_block,
  erase_flash_block, program_by_index, program_by_address, auto_program,
}

abbrev pub HasReturned : {A : Type 0} → Ending A → Type 0
HasReturned (done a) = Unit
HasReturned (thrown e) = ⊥
HasReturned waiting = ⊥
HasReturned polling = ⊥

-- While the lock is held, the action touches nothing, and does not return.
pub record Backs {A : Type 0} (m : Spi A) : Type 0 where
  pub untouched : (h : Trace) → is_held h ≡ true → (m h).1 ≡ h
  pub fails : (h : Trace) → is_held h ≡ true → ¬ HasReturned (m h).0

module _ {A : Type 0} where
  Backs-raise : (e : SpiError) → Backs (raise {A = A} e)
  unfolding raise
  Backs-raise e = record { untouched = λ h k. refl; fails = λ h k r. r }

  Backs-choose : (b : Bool) (m n : Spi A) → Backs m → Backs n → Backs (choose b m n)
  unfolding choose
  Backs-choose true m n km kn = km
  Backs-choose false m n km kn = kn

  Backs-guarded : (m : Spi A) → Backs (guarded m)
  unfolding guarded choose
  Backs-guarded m = record { untouched = λ h k. rw k refl; fails = λ h k. rw k (λ r. r) }

  Backs-try_lock : (m : Spi A) → Backs (with_try_lock m)
  unfolding with_try_lock choose raise
  Backs-try_lock m = record { untouched = λ h k. rw k refl; fails = λ h k. rw k (λ r. r) }

module _ {A B : Type 0} where
  carry_on-fails :
      (f : A → Spi B) (e : Ending A) (h : Trace)
      → ¬ HasReturned e
      → ((carry_on e f h).1 ≡ h) × (¬ HasReturned (carry_on e f h).0)
  unfolding carry_on raise
  carry_on-fails f (done a) h stays = absurd (stays tt)
  carry_on-fails f (thrown e) h stays = (refl, λ r. r)
  carry_on-fails f waiting h stays = (refl, λ r. r)
  carry_on-fails f polling h stays = (refl, λ r. r)

  Backs-bind : (m : Spi A) (f : A → Spi B) → Backs m → Backs (m >>= f)
  unfolding ◌>>=◌
  Backs-bind m f km = record {
    untouched = λ h k. (carry_on-fails f (m h).0 (m h).1 (km.fails h k)).0 ∙ km.untouched h k;
    fails = λ h k. (carry_on-fails f (m h).0 (m h).1 (km.fails h k)).1;
  }

module _ {B : Type 0} where
  Backs-then : (m : Spi ⊤) (k : Spi B) → Backs m → Backs (m >> k)
  unfolding ◌>>◌
  Backs-then m k km = Backs-bind m (λ _. k) km

ruleset backs_rules =
    (Backs-raise, Backs-choose, Backs-guarded, Backs-try_lock, Backs-bind, Backs-then)

module _ ⦃roc : Roc⦄ where
  checked_action-Backs : (x y : ℕ) (r : Bool) (c : List ℕ) → Backs (checked_action x y r c)
  unfolding checked_action
  checked_action-Backs x y r c = search backs_rules

  launch_action-Backs : (c : List ℕ) → Backs (launch_action c)
  unfolding launch_action
  launch_action-Backs c = search backs_rules

  launch_read-Backs : (start n : ℕ) → Backs (launch_read start n)
  unfolding launch_read
  launch_read-Backs start n = search backs_rules

  -- While another action holds the lock, no flash action, with or without the wait for its end,
  -- touches the ROC or the lock, and none returns.
  pub actions-Backs :
      (read_data addresses data_words : List ℕ) (start size index : ℕ) (wait : Bool)
      → Backs (read_flash_block read_data start size)
        × Backs (write_directory addresses wait)
        × Backs (write_flash_block data_words start wait)
        × Backs (erase_flash_block size start wait)
        × Backs (program_by_index index wait)
        × Backs (program_by_address start wait)
        × Backs (auto_program wait)
  unfolding read_flash_block write_directory write_flash_block erase_flash_block program_by_index
      program_by_address auto_program
  actions-Backs read_data addresses data_words start size index wait = (
    search (backs_rules, launch_read-Backs),
    search (backs_rules, checked_action-Backs, launch_action-Backs),
    search (backs_rules, checked_action-Backs, launch_action-Backs),
    search (backs_rules, launch_action-Backs),
    search (backs_rules, checked_action-Backs, launch_action-Backs),
    search (backs_rules, checked_action-Backs, launch_action-Backs),
    search (backs_rules, launch_action-Backs),
  )
