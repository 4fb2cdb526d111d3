-- ===== src/Flash/Probe.antt =====
-- `probeAll` and `probeLegacyReadSize`: which MiV each ROC has.
pub mod Sends
use otsdaq_mu2e.Base.{
  ℕ, zero, suc, ◌+◌, ◌-◌, ◌/◌, Bool, true, false, not, ◌&&◌, ◌||◌, ◌⊎◌, inl, inr, Option, none,
  some, List, [], ◌∷◌, if◌then◌else◌, ◌==◌, ltb, length, get_or, ⊤,
}
use otsdaq_mu2e.Base.Assoc.{Map, has, insert}
use otsdaq_mu2e.Flash.Types.{
  Options, Job, Reason, during, probe_stage, busy, not_idle, spi_read_words, RocResult, miv_kind,
  cmd, act_crc, act_read, reg_done,
}
use otsdaq_mu2e.Flash.Exec.{
  branch◌then◌else◌, Platform, Session, Action, pure, stall, gets, attempt, fold_m, for_each, ◌>>=◌,
  ◌>>◌,
}
use otsdaq_mu2e.Flash.Port.{
  read_register, clock_now, ms_since, sleep_ms, next_tag, note, fail, update_result, is_alive,
  is_new_miv,
}
use otsdaq_mu2e.Flash.Link.{read_count, wait_idle, send_when_idle, send_tagged}
use otsdaq_mu2e.Flash.Reply.{Reply, payload, lost, read_reply}

unfoldable pub set_new_miv : ℕ → Bool → Action ⊤
set_new_miv r b = update_result r λ x. record x { new_miv = b }

-- `catch(const std::exception& e) { fail(r, "probe: " + e.what()); }`
unfoldable pub fail_on_throw : {A : Type 0} → ℕ → A → Reason ⊎ A → Action A
fail_on_throw r a (inl e) = fail r (during probe_stage e) >> pure a
fail_on_throw r a (inr b) = pure b

-- `readReply(r, 4, rp) && rp[0] == tag && rp[3] == 0`
unfoldable pub probe_reply : ℕ → Reply → Bool
probe_reply tag (lost why) = false
probe_reply tag (payload rp) = get_or rp 0 0 == tag && get_or rp 3 0 == 0

module _ ⦃p : Platform⦄ where
  -- The body of the `try` that sends the probe to one ROC: the tags after it.
  unfoldable pub probe_send : Options → Map ℕ → ℕ → Action (Map ℕ)
  probe_send o tags r = do
    idle ← wait_idle o r 3000
    branch idle
        then (do
          tag ← next_tag
          sent ← send_tagged o r (cmd act_crc o.start_address 2) tag
          branch sent
              then pure (insert r tag tags)
              else (fail r (during probe_stage not_idle) >> pure tags))
        else (do d ← read_register r reg_done; fail r (busy d); pure tags)

  unfoldable pub probe_start : Options → Map ℕ → ℕ → Action (Map ℕ)
  probe_start o tags r = do got ← attempt (probe_send o tags r); fail_on_throw r tags got

  -- The count that one visit reads; an exception is ignored.
  unfoldable pub probe_counted : Map Bool → ℕ → ℕ → Reason ⊎ ℕ → Action (Map Bool)
  probe_counted answered r tag (inl e) = pure answered
  probe_counted answered r tag (inr count) =
      branch count == 8
      then (do
        reply ← read_reply r 4
        set_new_miv r (probe_reply tag reply)
        pure (insert r true answered))
      else pure answered

  -- One visit of the polling loop: the ROCs that have answered.
  unfoldable pub probe_poll : Map Bool → ℕ × ℕ → Action (Map Bool)
  probe_poll answered (r, tag) =
      branch has r answered
      then pure answered
      else (do got ← attempt (read_count r); probe_counted answered r tag got)

  -- One round of the polling of `probeAll`.
  unfoldable pub probe_round : (Map Bool → Action ⊤) → Options → Map ℕ → ℕ → Map Bool → Action ⊤
  probe_round again o tags t0 answered = do
    t ← ms_since t0
    branch ltb t 1000 && ltb (length answered) (length tags)
        then (do answered' ← fold_m probe_poll answered tags; sleep_ms o.poll_ms; again answered')
        else pure tt

  unfoldable pub probe_rounds : ℕ → Options → Map ℕ → ℕ → Map Bool → Action ⊤
  probe_rounds zero o tags t0 answered = stall
  probe_rounds (suc fuel) o tags t0 answered =
      probe_round (probe_rounds fuel o tags t0) o tags t0 answered

  -- One round of the wait of `probeLegacyReadSize`.
  unfoldable pub size_round : (ℕ → Action ℕ) → Options → ℕ → ℕ → ℕ → Action ℕ
  size_round again o r t0 last = do
    t ← ms_since t0
    branch ltb t o.read_timeout_ms
        then (do
          count ← read_count r
          branch count == 512 || count == 258
              then (sleep_ms 5 >> read_count r)
              else (sleep_ms o.poll_ms >> again count))
        else pure last

  -- The wait: the last count read.
  unfoldable pub size_rounds : ℕ → Options → ℕ → ℕ → ℕ → Action ℕ
  size_rounds zero o r t0 last = stall
  size_rounds (suc fuel) o r t0 last = size_round (size_rounds fuel o r t0) o r t0 last

  -- `probeLegacyReadSize`
  unfoldable pub probe_legacy_read_size : Options → ℕ → Action ⊤
  probe_legacy_read_size o r = do
    _ ← wait_idle o r 2000
    sent ← send_when_idle o r (cmd act_read o.start_address 1016) 2000
    branch sent
        then (do
          t0 ← clock_now
          count ← size_rounds p.rounds o r t0 0
          branch count == 512
              then (update_result r (λ x. record x { read_bytes = 1016 })
                  >> (wait_idle o r 2000 >>= λ _. pure tt))
              else branch count == 258
              then (update_result r (λ x. record x { read_bytes = 508 })
                  >> (wait_idle o r 2000 >>= λ _. pure tt))
              else fail r (during probe_stage (spi_read_words count)))
        else fail r (during probe_stage not_idle)

  unfoldable pub probe_finish : Options → ℕ × ℕ → Action ⊤
  probe_finish o (r, tag) = do
    got ← attempt (do
      new ← gets (is_new_miv r)
      branch new then pure tt else probe_legacy_read_size o r
      alive ← gets (is_alive r)
      new' ← gets (is_new_miv r)
      branch alive then note r (miv_kind new') else pure tt)
    fail_on_throw r tt got

  -- `probeAll`
  unfoldable pub probe_all : Job → Action ⊤
  probe_all j = do
    tags ← fold_m (probe_start j.opt) [] j.rocs
    t0 ← clock_now
    probe_rounds p.rounds j.opt tags t0 []
    for_each (probe_finish j.opt) tags
