-- ===== src/Flash/Link/Sends.antt =====
-- `waitIdle` sends nothing; `sendWhenIdle` sends its command only straight after it has found the
-- MiV idle, under the lock.
use otsdaq_mu2e.Base.{
  ℕ, zero, suc, ◌≡◌, refl, ◌⊎◌, inl, inr, Bool, true, false, List, ◌∷◌, ◌++◌, [], u16,
  if◌then◌else◌,
}
use otsdaq_mu2e.Flash.Types.{Options, reg_done, reg_count, reg_command}
use otsdaq_mu2e.Flash.Exec.{
  branch◌then◌else◌, read, locked, History, Answer, value, throws, Platform, Session, Action,
  continue, pure, throw, ◌>>=◌, ◌>>◌,
}
use otsdaq_mu2e.Flash.Exec.Sends.{Condition, Sends, AllSent, Sends-stall}
use otsdaq_mu2e.Flash.Port.{answer, map_answer, record_event, read_register, write_block, held}
use otsdaq_mu2e.Flash.Port.Sends.{port_rules, read_register-Sends, ms_since-Sends}
use otsdaq_mu2e.Flash.Link.{
  low11, is_idle, read_count, drain, wait_idle_round, wait_idle_rounds, wait_idle, send_if_idle,
  send_round, send_rounds, send_when_idle, send_tagged,
}

pub Answer-cases :
    {A : Type 0} (a : Answer A) → ((v : A) × (a ≡ value v)) ⊎ ((n : ℕ) × (a ≡ throws n))
Answer-cases (value v) = inl (v, refl)
Answer-cases (throws n) = inr (n, refl)

module _ ⦃p : Platform⦄ where
  -- `h` ends with the lock, a read of DONE and a read of the reply count, which found the MiV idle.
  pub record AfterIdleCheck (r : ℕ) (h : History) : Type 0 where
    pub before : History
    pub shape : h ≡ read r reg_count ∷ read r reg_done ∷ locked ∷ before
    pub done : ℕ
    pub done_read : p.register_value (locked ∷ before) r reg_done ≡ value done
    pub count : ℕ
    pub count_read : p.register_value (read r reg_done ∷ locked ∷ before) r reg_count ≡ value count
    pub idle : is_idle (u16 done) (low11 (u16 count)) ≡ true

  -- The command may be sent to the ROC once it has been found idle.
  abbrev pub Permits : Condition → ℕ → List ℕ → Type 0
  Permits Q r c = (h : History) → AfterIdleCheck r h → Q r c h

  answer_read :
      (Q : Condition) {A : Type 0} (a : Answer ℕ) (f : ℕ → Action A) (s : Session)
      → AllSent Q s.history
      → ((v : ℕ) → a ≡ value v → AllSent Q (f (u16 v) s).1.history)
      → AllSent Q (continue (answer (map_answer u16 a)) f s).1.history
  unfolding throw
  answer_read Q (value v) f s h k = k v refl
  answer_read Q (throws n) f s h k = h

  -- After a read of a register the rest may use the value that the ROC gave.
  bind_read :
      (Q : Condition) {A : Type 0} (r a : ℕ) (f : ℕ → Action A) (s : Session)
      → AllSent Q s.history
      → ((v : ℕ)
          → p.register_value s.history r a ≡ value v
          → AllSent Q (f (u16 v) (record_event (read r a) s)).1.history)
      → AllSent Q ((read_register r a >>= f) s).1.history
  unfolding ◌>>=◌ read_register
  bind_read Q r a f s h k =
      answer_read Q (p.register_value s.history r a) f (record_event (read r a) s) (tt, h) k

  write_block-Sends_at :
      (Q : Condition) (r : ℕ) (c : List ℕ) (s : Session)
      → Q r c s.history
      → AllSent Q s.history
      → (b : Bool) → AllSent Q ((write_block r c reg_command >> pure b) s).1.history
  unfolding ◌>>◌ ◌>>=◌ write_block pure throw
  write_block-Sends_at Q r c s ok h b =
      elim (Answer-cases (p.write_answer s.history r reg_command c)) [
        | inl (v, e) ↦ rw e (ok, h)
        | inr (n, e) ↦ rw e (ok, h)
      ]

  write_checked :
      (Q : Condition) (r : ℕ) (c : List ℕ) (s : Session) (b : Bool)
      → (b ≡ true → Q r c s.history)
      → AllSent Q s.history
      → AllSent Q
          ((branch b then (write_block r c reg_command >> pure true) else pure false) s).1.history
  unfolding pure branch◌then◌else◌
  write_checked Q r c s true ok h = write_block-Sends_at Q r c s (ok refl) h true
  write_checked Q r c s false ok h = h

  module _ {Q : Condition} where
    pub read_count-Sends : (r : ℕ) → Sends Q (read_count r)
    unfolding read_count
    read_count-Sends r = search port_rules

    pub drain-Sends : (r : ℕ) → Sends Q (drain r)
    unfolding drain
    drain-Sends r = search (port_rules, read_count-Sends)

    wait_idle_round-Sends :
        (again : Action Bool) (o : Options) (r t0 timeout : ℕ)
        → Sends Q again
        → Sends Q (wait_idle_round again o r t0 timeout)
    unfolding wait_idle_round
    wait_idle_round-Sends again o r t0 timeout k =
        search (port_rules, read_count-Sends, drain-Sends) depth 12

    wait_idle_rounds-Sends :
        (fuel : ℕ) (o : Options) (r t0 timeout : ℕ) → Sends Q (wait_idle_rounds fuel o r t0 timeout)
    unfolding wait_idle_rounds
    wait_idle_rounds-Sends zero o r t0 timeout = Sends-stall
    wait_idle_rounds-Sends (suc fuel) o r t0 timeout =
        wait_idle_round-Sends _ o r t0 timeout (wait_idle_rounds-Sends fuel o r t0 timeout)

    pub wait_idle-Sends : (o : Options) (r timeout : ℕ) → Sends Q (wait_idle o r timeout)
    unfolding wait_idle
    wait_idle-Sends o r timeout = search (port_rules, wait_idle_rounds-Sends)

    send_if_idle-Sends : (r : ℕ) (c : List ℕ) → Permits Q r c → Sends Q (send_if_idle r c)
    unfolding send_if_idle held
    send_if_idle-Sends r c ok = record {
      at = λ s h. (
        tt,
        bind_read Q r reg_done _ (record_event locked s) (tt, h)
            λ d ed.
              bind_read Q r reg_count _ (record_event (read r reg_done) (record_event locked s))
                (tt, (tt, h))
                λ n en.
                  write_checked Q r c _ _
                    (λ idle. ok _ (record {
                      before = s.history;
                      shape = refl;
                      done = d;
                      done_read = ed;
                      count = n;
                      count_read = en;
                      idle = idle;
                    }))
                    (tt, (tt, (tt, h))),
      );
    }

    send_round-Sends :
        (again : Action Bool) (o : Options) (r : ℕ) (c : List ℕ) (t0 timeout : ℕ)
        → Permits Q r c
        → Sends Q again
        → Sends Q (send_round again o r c t0 timeout)
    unfolding send_round
    send_round-Sends again o r c t0 timeout ok k =
        search (port_rules, wait_idle-Sends, send_if_idle-Sends) depth 12

    send_rounds-Sends :
        (fuel : ℕ) (o : Options) (r : ℕ) (c : List ℕ) (t0 timeout : ℕ)
        → Permits Q r c
        → Sends Q (send_rounds fuel o r c t0 timeout)
    unfolding send_rounds
    send_rounds-Sends zero o r c t0 timeout ok = Sends-stall
    send_rounds-Sends (suc fuel) o r c t0 timeout ok =
        send_round-Sends _ o r c t0 timeout ok (send_rounds-Sends fuel o r c t0 timeout ok)

    pub send_when_idle-Sends :
        (o : Options) (r : ℕ) (c : List ℕ) (timeout : ℕ)
        → Permits Q r c
        → Sends Q (send_when_idle o r c timeout)
    unfolding send_when_idle
    send_when_idle-Sends o r c timeout ok =
        search (port_rules, λ (f t0 : ℕ). send_rounds-Sends f o r c t0 timeout ok)

    pub send_tagged-Sends :
        (o : Options) (r : ℕ) (c : List ℕ) (tag : ℕ)
        → Permits Q r (c ++ (tag ∷ []))
        → Sends Q (send_tagged o r c tag)
    unfolding send_tagged
    send_tagged-Sends o r c tag ok = send_when_idle-Sends o r _ _ ok

pub ruleset link_rules = (port_rules, read_count-Sends, wait_idle-Sends)
