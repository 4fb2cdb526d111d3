-- ===== src/Spi/Actions/Cycle.antt =====
-- What the ROC has answered when an action that looks at the status returns.
use otsdaq_mu2e.Base.{
  ℕ, zero, suc, ◌+◌, ◌≡◌, refl, ap, sym, ◌∙◌, Bool, true, false, inl, inr, none, List, ◌∷◌, ⊤,
  arith, u16, bit15, ltb, ==_iff, length, ◌≤◌,
}
use otsdaq_mu2e.Flash.Exec.{value, throws}
use otsdaq_mu2e.Flash.Link.Sends.{Answer-cases}
use otsdaq_mu2e.Spi.Exec.{
  got, sent, took, freed, napped, done, thrown, io, carry_on, outcome_of, Trace, Roc, Phase,
  accepted, completed, give, raise, choose, ◌>>=◌, ◌>>◌, get_register, send_command, guarded,
}
use otsdaq_mu2e.Spi.Exec.Gives.{
  Gives, Extends, same, later, Extends-trans, raise-Gives, give-Gives, choose-Gives, guarded-Gives,
  bind-Gives, then-Gives, nap-Gives, get-Gives, send-Gives,
}
use otsdaq_mu2e.Spi.Command.{write_words}
use otsdaq_mu2e.Spi.Poll.{
  same_flag, done_status, report_done, action_done, is_action_done, report_timeout, await_done,
  await_cycle,
}
use otsdaq_mu2e.Spi.Actions.{checked_action, write_flash_block}

module _ ⦃roc : Roc⦄ where
  -- The last access of `h` is a read of DONE, and the ROC answered `d`.
  pub record ReadDone (d : Bool) (h : Trace) : Type 0 where
    pub before : Trace
    pub shape : h ≡ got 128 ∷ before
    pub register : ℕ
    pub answered : roc.register_of before 128 ≡ value register
    pub flag : bit15 (u16 register) ≡ d

  after_read : (x : Bool) (h : Trace) → report_done false false x h ≡ (done (x, none), h)
  unfolding report_done done_status choose give ◌>>=◌ carry_on
  after_read true h = refl
  after_read false h = refl

  pub is_action_done-value :
      (h : Trace) (v : ℕ)
      → roc.register_of h 128 ≡ value v
      → is_action_done h ≡ (done (bit15 (u16 v)), got 128 ∷ h)
  unfolding is_action_done action_done ◌>>=◌ carry_on get_register outcome_of give
  is_action_done-value h v e = rw e (rw (after_read (bit15 (u16 v)) (got 128 ∷ h)) refl)

  is_action_done-throws :
      (h : Trace) (n : ℕ)
      → roc.register_of h 128 ≡ throws n
      → is_action_done h ≡ (thrown (io n), got 128 ∷ h)
  unfolding is_action_done action_done ◌>>=◌ carry_on get_register outcome_of raise
  is_action_done-throws h n e = rw e refl

  is_action_done-Gives :
      (h : Trace) (d : Bool) (h' : Trace)
      → Gives is_action_done h d h'
      → ReadDone d h' × (h' ≡ got 128 ∷ h)
  is_action_done-Gives h d h' eq = elim (Answer-cases (roc.register_of h 128)) [
    | inl (v, e) ↦
        let known = sym (is_action_done-value h v e) ∙ eq in
        let shape : h' ≡ got 128 ∷ h = ap (λ x. x.1) (sym known) in
        (
          record {
            before = h;
            shape = shape;
            register = v;
            answered = e;
            flag = ground (arith, ap (λ x. x.0) known);
          },
          shape,
        )
    | inr (n, e) ↦ absurd (ground (arith, ap (λ x. x.0) (sym (is_action_done-throws h n e) ∙ eq)))
  ]

  report_timeout-Gives :
      (r : Bool) (phase : Phase) (h : Trace) (a : ⊤) (h' : Trace)
      → ¬ Gives (report_timeout r phase) h a h'
  unfolding report_timeout
  report_timeout-Gives true phase h a h' eq =
      let (v, g, e, rest) = bind-Gives _ _ h a h' eq in
      let (w, k, e', last) = bind-Gives _ _ g a h' rest in raise-Gives _ k a h' last
  report_timeout-Gives false phase h a h' eq = raise-Gives _ h a h' eq

  same_flag-eq : (x y : Bool) → same_flag x y ≡ true → x ≡ y
  same_flag-eq true true e = refl
  same_flag-eq true false e = ground arith
  same_flag-eq false true e = ground arith
  same_flag-eq false false e = refl

  -- The end of a wait: the last read of DONE, which has the value that was waited for.
  pub record Awaited (want : Bool) (h h' : Trace) : Type 0 where
    pub extends : Extends h h'
    pub found : ReadDone want h'

  polled :
      (want d : Bool) (h g : Trace)
      → ReadDone d g
      → g ≡ got 128 ∷ h
      → same_flag d want ≡ true
      → Awaited want h g
  polled want d h g read shape e =
      let wanted = same_flag-eq d want e in
      record { extends = rw shape (later _ same); found = rw (← wanted) read }

  one_poll : (h g k : Trace) → g ≡ got 128 ∷ h → k ≡ napped ∷ g → Extends h k
  one_poll h g k e f = rw f (rw e (later _ (later _ same)))

  await_done-Awaited :
      (want : Bool) (left : ℕ) (r : Bool) (phase : Phase) (h : Trace) (a : ⊤) (h' : Trace)
      → Gives (await_done want left r phase) h a h'
      → Awaited want h h'
  unfolding await_done
  await_done-Awaited want zero r phase h a h' eq =
      let (d, g, read, rest) = bind-Gives _ _ h a h' eq in
      let (found, shape) = is_action_done-Gives h d g read in
      elim (choose-Gives _ _ _ g a h' rest) [
        | inl (e, stop) ↦ rw ((give-Gives tt g a h' stop).1) (polled want d h g found shape e)
        | inr (e, late) ↦ absurd (report_timeout-Gives r phase g a h' late)
      ]
  await_done-Awaited want (suc left) r phase h a h' eq =
      let (d, g, read, rest) = bind-Gives _ _ h a h' eq in
      let (found, shape) = is_action_done-Gives h d g read in
      elim (choose-Gives _ _ _ g a h' rest) [
        | inl (e, stop) ↦ rw ((give-Gives tt g a h' stop).1) (polled want d h g found shape e)
        | inr (e, again) ↦
            let (k, slept, more) = then-Gives _ _ g a h' again in
            let next = await_done-Awaited want left r phase k a h' more in
            record {
              extends = Extends-trans (one_poll h g k shape (nap-Gives g tt k slept)) next.extends;
              found = next.found;
            }
      ]

  -- The command was sent under the lock, DONE was then read low and after that high, the status
  -- read behind it is 0, and the lock is freed.
  pub record Cycled (c : List ℕ) (start final : Trace) : Type 0 where
    pub low : Trace
    pub fell : Awaited false (sent c ∷ took ∷ start) low
    pub high : Trace
    pub rose : Awaited true low high
    pub status : ℕ
    pub answered : roc.register_of high 132 ≡ value status
    pub clean : u16 status ≡ 0
    pub shape : final ≡ freed ∷ got 132 ∷ high

  guarded-Cycled :
      (x y : ℕ) (r : Bool) (c : List ℕ) (h : Trace) (status : ℕ) (h' : Trace)
      → Gives (guarded (send_command c >> (await_cycle x y r >> get_register 132))) h status h'
      → u16 status ≡ 0
      → Cycled c h h'
  unfolding await_cycle
  guarded-Cycled x y r c h status h' eq clean =
      let (g, inside, freeing) = guarded-Gives _ h status h' eq in
      let (g1, sending, rest) = then-Gives _ _ (took ∷ h) status g inside in
      let (g3, cycle, reading) = then-Gives _ _ g1 status g rest in
      let (g2, first, second) = then-Gives _ _ g1 tt g3 cycle in
      let begun = send-Gives c (took ∷ h) tt g1 sending in
      let (answer, last) = get-Gives 132 g3 status g reading in
      record {
        low = g2;
        fell = rw (← begun) (await_done-Awaited false (x + 1) r accepted g1 tt g2 first);
        high = g3;
        rose = await_done-Awaited true (y + 1) r completed g2 tt g3 second;
        status = status;
        answered = answer;
        clean = clean;
        shape = freeing ∙ ap (λ z. freed ∷ z) last;
      }

  checked_action-Cycled :
      (x y : ℕ) (r : Bool) (c : List ℕ) (h : Trace) (a : ⊤) (h' : Trace)
      → Gives (checked_action x y r c) h a h'
      → Cycled c h h'
  unfolding checked_action
  checked_action-Cycled x y r c h a h' eq =
      let (status, g, inside, rest) = bind-Gives _ _ h a h' eq in
      elim (choose-Gives _ _ _ g a h' rest) [
        | inl (e, stop) ↦
            rw ((give-Gives tt g a h' stop).1)
              (guarded-Cycled x y r c h status g inside ((==_iff (u16 status) 0).0 e))
        | inr (e, bad) ↦ absurd (raise-Gives _ g a h' bad)
      ]

  -- When `writeSPIFlashBlock`, with the wait, returns: there were at most 512 words; the ROC has
  -- taken the command under the lock, has then shown DONE low and after that high, has given the
  -- status 0, and the lock is freed.
  pub write_flash_block-Cycled :
      (data_words : List ℕ) (start : ℕ) (h : Trace) (a : ⊤) (h' : Trace)
      → Gives (write_flash_block data_words start true) h a h'
      → (length data_words ≤ 512) × Cycled (write_words data_words start) h h'
  unfolding write_flash_block choose
  write_flash_block-Cycled data_words start h a h' eq =
      elim (choose-Gives (ltb 512 (length data_words)) _ _ h a h' eq) [
        | inl (e, bad) ↦ absurd (raise-Gives _ h a h' bad)
        | inr (e, act) ↦ (ground arith, checked_action-Cycled 500 500 true _ h a h' act)
      ]
