-- ===== src/Spi/Exec.antt =====
-- What a flash action does: it talks to the ROC and takes and frees the action lock, and returns,
-- throws or waits for ever. The ROC is not code of this repository: a `Roc` answers each access by
-- any function of all that went before.
pub mod Lock
pub mod Naps
pub mod Gives
use otsdaq_mu2e.Base.{ℕ, Bool, true, false, not, List, [], ◌∷◌, ⊤}
use otsdaq_mu2e.Flash.Exec.{Answer, value, throws}

-- `CaloTrkRegisters`
abbrev pub address_done : ℕ
address_done = 128

abbrev pub address_read_size : ℕ
address_read_size = 129

abbrev pub address_status : ℕ
address_status = 132

abbrev pub address_command : ℕ
address_command = 384

-- One access: `got` reads a register, `sent` writes a command block, `fetched` reads that many
-- words from the command address, `took` and `freed` are on `actionLock_`, and `napped` is a
-- `usleep` of 10 ms.
pub data SpiEvent : Type 0 where
  got : ℕ → SpiEvent
  sent : List ℕ → SpiEvent
  fetched : ℕ → SpiEvent
  took freed napped : SpiEvent

-- All accesses so far, the latest first.
abbrev pub Trace : Type 0
Trace = List SpiEvent

-- Whether `actionLock_` is held.
abbrev pub is_held : Trace → Bool
is_held [] = false
is_held (got a ∷ h) = is_held h
is_held (sent c ∷ h) = is_held h
is_held (fetched n ∷ h) = is_held h
is_held (took ∷ h) = true
is_held (freed ∷ h) = false
is_held (napped ∷ h) = is_held h

-- `readRegister`, `writeBlock` and `readBlock` at the command address; `rounds` bounds the one
-- loop of the source that has no bound.
pub record Roc : Type 0 where
  pub register_of : Trace → ℕ → Answer ℕ
  pub sent_answer : Trace → List ℕ → Answer ⊤
  pub fetched_words : Trace → ℕ → Answer (List ℕ)
  pub rounds : ℕ

-- The phases that a timeout names.
pub data Phase : Type 0 where
  accepted completed : Phase

-- Why an action throws; `io` is an exception of an access.
pub data SpiError : Type 0 where
  io : ℕ → SpiError
  lock_busy : SpiError
  too_many_bytes too_many_addresses too_many_words : ℕ → SpiError
  read_timeout : ℕ → ℕ → ℕ → SpiError
  bad_read_count : ℕ → SpiError
  phase_timeout : Phase → SpiError
  bad_status : ℕ → SpiError

-- `waiting`: the thread waits for the action lock; `polling`: the loop without a bound goes on.
pub data Ending (A : Type 0) : Type 0 where
  done : A → Ending A
  thrown : SpiError → Ending A
  waiting polling : Ending A

abbrev pub Spi : Type 0 → Type 0
Spi A = Trace → Ending A × Trace

module _ {A : Type 0} where
  unfoldable pub give : A → Spi A
  give a h = (done a, h)

  unfoldable pub raise : SpiError → Spi A
  raise e h = (thrown e, h)

  unfoldable pub keep_polling : Spi A
  keep_polling h = (polling, h)

  -- A test between two actions.
  unfoldable pub choose : Bool → Spi A → Spi A → Spi A
  choose true m n = m
  choose false m n = n

module _ {A B : Type 0} where
  unfoldable pub carry_on : Ending A → (A → Spi B) → Spi B
  carry_on (done a) f = f a
  carry_on (thrown e) f = raise e
  carry_on waiting f = λ h. (waiting, h)
  carry_on polling f = λ h. (polling, h)

infixl 5 ◌>>=◌ ◌>>◌
unfoldable pub ◌>>=◌ : {A B : Type 0} → Spi A → (A → Spi B) → Spi B
◌>>=◌ m f h = carry_on (m h).0 f (m h).1

unfoldable pub ◌>>◌ : {B : Type 0} → Spi ⊤ → Spi B → Spi B
m >> k = m >>= λ _. k

module _ {A : Type 0} where
  -- The value of an access, or its exception.
  unfoldable pub outcome_of : Answer A → Ending A
  outcome_of (value v) = done v
  outcome_of (throws n) = thrown (io n)

  -- What frees the lock behind an action, on each way out.
  unfoldable pub release : Ending A × Trace → Ending A × Trace
  release (done a, h) = (done a, freed ∷ h)
  release (thrown e, h) = (thrown e, freed ∷ h)
  release (waiting, h) = (waiting, h)
  release (polling, h) = (polling, h)

  -- `std::lock_guard<std::mutex> lock(actionLock_)` over a scope.
  unfoldable pub guarded : Spi A → Spi A
  guarded m h = choose (is_held h) (λ g. (waiting, g)) (λ g. release (m (took ∷ g))) h

  -- `try { m } catch(...) { actionLock_.unlock(); throw; }`, with `thrown` alone freeing the lock.
  unfoldable pub release_thrown : Ending A × Trace → Ending A × Trace
  release_thrown (done a, h) = (done a, h)
  release_thrown (thrown e, h) = (thrown e, freed ∷ h)
  release_thrown (waiting, h) = (waiting, h)
  release_thrown (polling, h) = (polling, h)

  unfoldable pub or_release : Spi A → Spi A
  or_release m h = release_thrown (m h)

  -- `if(actionLock_.try_lock()) m else throw`
  unfoldable pub with_try_lock : Spi A → Spi A
  with_try_lock m h = choose (is_held h) (raise lock_busy) (λ g. m (took ∷ g)) h

unfoldable pub unlock : Spi ⊤
unlock h = (done tt, freed ∷ h)

unfoldable pub nap : Spi ⊤
nap h = (done tt, napped ∷ h)

module _ ⦃roc : Roc⦄ where
  unfoldable pub get_register : ℕ → Spi ℕ
  get_register a h = (outcome_of (roc.register_of h a), got a ∷ h)

  unfoldable pub send_command : List ℕ → Spi ⊤
  send_command c h = (outcome_of (roc.sent_answer h c), sent c ∷ h)

  unfoldable pub fetch_words : ℕ → Spi (List ℕ)
  fetch_words n h = (outcome_of (roc.fetched_words h n), fetched n ∷ h)
