-- ===== src/Spi/Actions/Auto.antt =====
-- `autoProgramFromSPI` and its timeout.
use otsdaq_mu2e.Base.{ℕ, zero, suc, ◌≡◌, ◌≤◌, refl, true, false, ◌∷◌, ⊤, arith, ltb}
use otsdaq_mu2e.Flash.Exec.{value}
use otsdaq_mu2e.Spi.Exec.{
  got, sent, took, napped, Trace, is_held, Roc, polling, Spi, keep_polling, choose, carry_on, ◌>>=◌,
  ◌>>◌, outcome_of, release, guarded, nap, send_command,
}
use otsdaq_mu2e.Spi.Command.{auto_words}
use otsdaq_mu2e.Spi.Poll.{await_program}
use otsdaq_mu2e.Spi.Actions.{auto_program}
use otsdaq_mu2e.Spi.Actions.Cycle.{is_action_done-value}

-- An action that polls without end, and what it did until then.
abbrev Polls : {A : Type 0} → Spi A → Trace → Trace → Type 0
Polls m h g = m h ≡ (polling, g)

polling-bind :
    {A B : Type 0} (m : Spi A) (f : A → Spi B) (h g : Trace) → Polls m h g → Polls (m >>= f) h g
unfolding ◌>>=◌ carry_on
polling-bind m f h g e = rw e refl

polling-then : {B : Type 0} (m : Spi ⊤) (k : Spi B) (h g : Trace) → Polls m h g → Polls (m >> k) h g
unfolding ◌>>◌
polling-then m k h g e = polling-bind m (λ _. k) h g e

polling-guarded :
    {A : Type 0} (m : Spi A) (h g : Trace)
    → is_held h ≡ false
    → Polls m (took ∷ h) g
    → Polls (guarded m) h g
unfolding guarded choose release
polling-guarded m h g free e = rw free (rw e refl)

-- `rounds` polls of DONE, each with its nap, after `h`.
abbrev pub polled : ℕ → Trace → Trace
polled zero h = h
polled (suc rounds) h = polled rounds (napped ∷ got 128 ∷ h)

polled-is_held : (rounds : ℕ) (h : Trace) → is_held h ≡ true → is_held (polled rounds h) ≡ true
polled-is_held zero h e = e
polled-is_held (suc rounds) h e = polled-is_held rounds (napped ∷ got 128 ∷ h) e

module _ ⦃roc : Roc⦄ where
  await_program_low :
      (rounds i : ℕ) (h : Trace)
      → i ≤ 500
      → ((g : Trace) → roc.register_of g 128 ≡ value 0)
      → Polls (await_program rounds i) h (polled rounds h)
  unfolding await_program keep_polling ◌>>=◌ ◌>>◌ carry_on choose nap
  await_program_low zero i h early low = refl
  await_program_low (suc rounds) i h early low =
      let in_time : ltb 500 i ≡ false = ground arith in
      rw (is_action_done-value h 0 (low h))
        (rw in_time (await_program_low rounds i (napped ∷ got 128 ∷ h) early low))

  polling-send :
      {A : Type 0} (k : Spi A) (h g : Trace)
      → roc.sent_answer h auto_words ≡ value tt
      → Polls k (sent auto_words ∷ h) g
      → Polls (send_command auto_words >> k) h g
  unfolding ◌>>◌ ◌>>=◌ carry_on send_command outcome_of
  polling-send k h g e stuck = rw e stuck

  -- With the wait, on a ROC that takes the command but whose DONE stays low, and with the lock free,
  -- `autoProgramFromSPI` takes the lock, sends the command, and then reads DONE and sleeps for any
  -- number of rounds: it neither returns nor throws its timeout of 5 seconds, and holds the lock.
  pub auto_program_stuck :
      (h : Trace)
      → is_held h ≡ false
      → ((g : Trace) → roc.register_of g 128 ≡ value 0)
      → ((g : Trace) → roc.sent_answer g auto_words ≡ value tt)
      → (auto_program true h ≡ (polling, polled roc.rounds (sent auto_words ∷ took ∷ h)))
        × (is_held (polled roc.rounds (sent auto_words ∷ took ∷ h)) ≡ true)
  unfolding auto_program choose
  auto_program_stuck h free low taken =
      let end = polled roc.rounds (sent auto_words ∷ took ∷ h) in
      (
        polling-bind _ _ h end (
            polling-guarded _ h end free (
              polling-send _ (took ∷ h) end (taken (took ∷ h)) (
                polling-then _ _ (sent auto_words ∷ took ∷ h) end
                  (await_program_low roc.rounds 0 _ (omega arith) low)))),
        polled-is_held roc.rounds (sent auto_words ∷ took ∷ h) refl,
      )
