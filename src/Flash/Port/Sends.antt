-- ===== src/Flash/Port/Sends.antt =====
-- The accesses and the small methods of `Port` send nothing, but for `write_block`.
use otsdaq_mu2e.Base.{ℕ}
use otsdaq_mu2e.Flash.Types.{RocState, RocResult, Reason, Note}
use otsdaq_mu2e.Flash.Exec.{Platform, Action, modify}
use otsdaq_mu2e.Flash.Exec.Sends.{
  Condition, Sends, Sends-modify, Sends-bind, Sends-then, sends_rules,
}
use otsdaq_mu2e.Flash.Port.{
  read_register, read_block, resync_link, clock_now, ms_since, held, sleep_ms, update_result, note,
  fail, set_state, next_tag,
}

module _ {Q : Condition} where
  module _ ⦃p : Platform⦄ where
    pub read_register-Sends : (r a : ℕ) → Sends Q (read_register r a)
    unfolding read_register
    read_register-Sends r a = record { at = λ s h. (tt, h) }

    pub read_block-Sends : (r a n : ℕ) → Sends Q (read_block r a n)
    unfolding read_block
    read_block-Sends r a n = record { at = λ s h. (tt, h) }

    pub resync_link-Sends : (r : ℕ) → Sends Q (resync_link r)
    unfolding resync_link
    resync_link-Sends r = record { at = λ s h. (tt, h) }

    pub clock_now-Sends : Sends Q clock_now
    unfolding clock_now
    clock_now-Sends = record { at = λ s h. (tt, h) }

    pub ms_since-Sends : (t : ℕ) → Sends Q (ms_since t)
    unfolding ms_since
    ms_since-Sends t = search (sends_rules, clock_now-Sends)

    pub held-Sends : {A : Type 0} (m : Action A) → Sends Q m → Sends Q (held m)
    unfolding held
    held-Sends m km = record { at = λ s h. (tt, km.at _ (tt, h)) }

  pub sleep_ms-Sends : (n : ℕ) → Sends Q (sleep_ms n)
  unfolding sleep_ms modify
  sleep_ms-Sends n = record { at = λ s h. (tt, h) }

  pub update_result-Sends : (r : ℕ) (f : RocResult → RocResult) → Sends Q (update_result r f)
  unfolding update_result modify
  update_result-Sends r f = record { at = λ s h. h }

  pub note-Sends : (r : ℕ) (n : Note) → Sends Q (note r n)
  unfolding note update_result modify
  note-Sends r n = record { at = λ s h. h }

  pub fail-Sends : (r : ℕ) (why : Reason) → Sends Q (fail r why)
  unfolding fail
  fail-Sends r why = search (sends_rules, update_result-Sends, note-Sends)

  pub set_state-Sends : (r : ℕ) (st : RocState) → Sends Q (set_state r st)
  unfolding set_state update_result modify
  set_state-Sends r st = record { at = λ s h. h }

  pub next_tag-Sends : Sends Q next_tag
  unfolding next_tag
  next_tag-Sends = search (sends_rules, Sends-modify)

pub ruleset port_rules = (
  sends_rules, read_register-Sends, read_block-Sends, resync_link-Sends, clock_now-Sends,
  ms_since-Sends, held-Sends, sleep_ms-Sends, update_result-Sends, note-Sends, fail-Sends,
  set_state-Sends, next_tag-Sends,
)
