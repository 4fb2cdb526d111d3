-- ===== src/Flash/Activate.antt =====
-- `activate`: the IAP of the verified ROCs, and the wait until each has come back.
pub mod Sends
use otsdaq_mu2e.Base.{
  ℕ, zero, suc, ◌+◌, ◌-◌, ◌*◌, ◌/◌, Bool, true, false, not, ◌&&◌, ◌||◌, ◌⊎◌, inl, inr, Option, none,
  some, List, [], ◌∷◌, ◌++◌, if◌then◌else◌, ◌==◌, ltb, leb, filter, bit15, ⊤,
}
use otsdaq_mu2e.Base.Assoc.{Map, find_or, insert}
use otsdaq_mu2e.Flash.Types.{
  Options, Job, Reason, RocState, programmed, is_verified, during, iap_request_stage, not_idle,
  iap_refused, wrong_version, never_dropped, never_idle, not_answering, iap_requested,
  back_after_iap, link_reset, cmd, act_prog_addr, reg_done, reg_return, reg_fw_version,
}
use otsdaq_mu2e.Flash.Exec.{
  branch◌then◌else◌, Platform, Session, Action, pure, stall, gets, modify, attempt, fold_m, ◌>>=◌,
  ◌>>◌,
}
use otsdaq_mu2e.Flash.Port.{
  read_register, resync_link, clock_now, ms_since, sleep_ms, note, fail, set_state, result_of,
}
use otsdaq_mu2e.Flash.Link.{send_when_idle}

-- One poll of a ROC: DONE, PROG_RETURN and the firmware version, or `none` if a read threw.
abbrev pub Reading : Type 0
Reading = Option (ℕ × ℕ × ℕ)

-- Not answering: a read exception, or the all-ones value of a dead link.
unfoldable pub is_disconnected : Reading → Bool
is_disconnected none = true
is_disconnected (some (d, ret, ver)) = d == 0xffff

-- What the chain of tests on a reading decides.
pub data Verdict : Type 0 where
  down waiting : Verdict
  refused : Reason → Verdict
  back : ℕ → Verdict

-- The MiV is busy (DONE clear and not the value 0 of a fresh restart), or reports an error.
unfoldable pub is_not_back : ℕ → ℕ → Bool
is_not_back d ret = (not (d == 0) && not (bit15 d)) || not (ret == 0)

-- Evidence of a restart: the link was down, or the version changed to the expected one.
unfoldable pub has_evidence : Options → ℕ → Bool → ℕ → Bool
has_evidence o before went_down ver =
    went_down
    || (not (o.expected_fw_version == 0) && (ver == o.expected_fw_version && not (ver == before)))

unfoldable pub judge : Options → ℕ → Bool → ℕ → Reading → Verdict
judge o before went_down t none = down
judge o before went_down t (some (d, ret, ver)) =
    if d == 0xffff
    then down
    else if not went_down && (bit15 d && (not (ret == 0) && ltb 200 t))
    then refused (iap_refused ret)
    else if is_not_back d ret
    then waiting
    else if has_evidence o before went_down ver
    then (if not (o.expected_fw_version == 0) && not (ver == o.expected_fw_version)
        then (if ltb o.link_back_timeout_ms t
            then refused (wrong_version ver o.expected_fw_version)
            else waiting)
        else back ver)
    else waiting

-- The local variables of `activate`.
pub record Iap : Type 0 where
  pub went_down : Map Bool
  pub finished : Map Bool
  pub answering : Map Bool
  pub resyncs : Map ℕ

abbrev pub is_finished : Iap → ℕ → Bool
is_finished s r = find_or false r s.finished

abbrev pub is_down : Iap → ℕ → Bool
is_down s r = find_or false r s.went_down

abbrev pub is_answering : Iap → ℕ → Bool
is_answering s r = find_or false r s.answering

abbrev pub resync_count : Iap → ℕ → ℕ
resync_count s r = find_or 0 r s.resyncs

abbrev pub set_finished : ℕ → Iap → Iap
set_finished r s = record s { finished = insert r true s.finished }

-- `ok && done == 0x4000`
abbrev pub is_stuck : Reading → Bool
is_stuck none = false
is_stuck (some (d, ret, ver)) = d == 0x4000

unfoldable pub apply_verdict : ℕ → ℕ → Iap → Verdict → Action Iap
apply_verdict r t s down = pure (record s { went_down = insert r true s.went_down })
apply_verdict r t s waiting = pure s
apply_verdict r t s (refused why) = fail r why >> pure (set_finished r s)
apply_verdict r t s (back ver) =
    set_state r programmed
    >> (note r (back_after_iap t (resync_count s r) ver) >> pure (set_finished r s))

-- The link never dropped.
unfoldable pub drop_timeout : Options → ℕ → ℕ → Reading → Iap → Action Iap
drop_timeout o r t reading s =
    branch not (is_finished s r) && (not (is_down s r) && ltb o.auth_timeout_ms t)
    then fail r (never_dropped t (is_stuck reading)) >> pure (set_finished r s)
    else pure s

-- The message of the last timeout.
unfoldable pub back_timeout_reason : ℕ → ℕ → Bool → Reading → Reason
back_timeout_reason t resyncs true (some (d, ret, ver)) = never_idle t d ret ver
back_timeout_reason t resyncs true none = not_answering t resyncs
back_timeout_reason t resyncs false reading = not_answering t resyncs

unfoldable pub back_timeout : Options → ℕ → ℕ → Reading → Iap → Action Iap
back_timeout o r t reading s =
    branch not (is_finished s r) && (is_down s r && ltb o.link_back_timeout_ms t)
    then fail r (back_timeout_reason t (resync_count s r) (is_answering s r) reading)
      >> pure (set_finished r s)
    else pure s

-- What `resyncLink` gave: the exception's text, and whether the reset was done.
unfoldable pub resync_note : Reason ⊎ Bool → Option Reason × Bool
resync_note (inl e) = (some e, false)
resync_note (inr done) = (none, done)

-- When the link of a ROC that does not answer is reset (again).
unfoldable pub needs_resync : Options → ℕ → ℕ → Iap → Bool
needs_resync o r t s =
    not (is_finished s r)
    && (is_down s r
        && (not (is_answering s r)
            && (ltb (resync_count s r) o.link_resync_tries
                && ltb (o.link_resync_after_ms * (resync_count s r + 1)) t)))

unfoldable pub reading_of : Reason ⊎ (ℕ × ℕ × ℕ) → Reading
reading_of (inl e) = none
reading_of (inr v) = some v

-- The `catch` of the request.
unfoldable pub iap_requested_or_failed : ℕ → Map ℕ → Reason ⊎ Map ℕ → Action (Map ℕ)
iap_requested_or_failed r sent (inl e) = fail r (during iap_request_stage e) >> pure sent
iap_requested_or_failed r sent (inr sent') = pure sent'

module _ ⦃p : Platform⦄ where
  unfoldable pub resync : Options → ℕ → ℕ → Iap → Action Iap
  resync o r t s =
      branch needs_resync o r t s
      then (do
        let s' = record s { resyncs = insert r (resync_count s r + 1) s.resyncs }
        got ← attempt (resync_link r)
        note r (link_reset t (resync_count s' r) (resync_note got).0 (resync_note got).1)
        pure s')
      else pure s

  unfoldable pub read_iap : ℕ → Action (ℕ × ℕ × ℕ)
  read_iap r = do
    d ← read_register r reg_done
    ret ← read_register r reg_return
    ver ← read_register r reg_fw_version
    pure (d, ret, ver)

  -- One visit of a ROC that is not finished.
  unfoldable pub iap_visit : Options → Iap → ℕ → ℕ → Action Iap
  iap_visit o s r sent = do
    t ← ms_since sent
    got ← attempt (read_iap r)
    before ← gets λ x. find_or 0 r x.version_before
    let reading = reading_of got
    let s0 = record s { answering = insert r (not (is_disconnected reading)) s.answering }
    s1 ← apply_verdict r t s0 (judge o before (is_down s r) t reading)
    s2 ← drop_timeout o r t reading s1
    s3 ← resync o r t s2
    back_timeout o r t reading s3

  -- `finished[r]` is tested first; the flag is `pending`.
  unfoldable pub iap_poll : Options → Iap × Bool → ℕ × ℕ → Action (Iap × Bool)
  iap_poll o (s, pending) (r, sent) =
      branch is_finished s r
      then pure (s, pending)
      else (iap_visit o s r sent >>= λ s'. pure (s', true))

  unfoldable pub iap_round : (Iap → Action ⊤) → Options → Map ℕ → Iap → Action ⊤
  iap_round again o sent s = do
    polled ← fold_m (iap_poll o) (s, false) sent
    branch polled.1 then (sleep_ms 100 >> again polled.0) else pure tt

  unfoldable pub iap_rounds : ℕ → Options → Map ℕ → Iap → Action ⊤
  iap_rounds zero o sent s = stall
  iap_rounds (suc fuel) o sent s = iap_round (iap_rounds fuel o sent) o sent s

  -- The body of the `try` that requests the IAP of one ROC: when it was sent.
  unfoldable pub iap_request : Options → Map ℕ → ℕ → Action (Map ℕ)
  iap_request o sent r = do
    v ← read_register r reg_fw_version
    modify λ s. record s { version_before = insert r v s.version_before }
    done ← send_when_idle o r (cmd act_prog_addr o.start_address 0) 2000
    branch done
        then (do t ← clock_now; note r iap_requested; pure (insert r t sent))
        else (fail r not_idle >> pure sent)

  unfoldable pub iap_start : Options → Map ℕ → ℕ → Action (Map ℕ)
  iap_start o sent r = do got ← attempt (iap_request o sent r); iap_requested_or_failed r sent got

  -- `activate`
  unfoldable pub activate : Job → Action ⊤
  activate j = do
    go ← gets λ s. filter (λ r. is_verified (result_of r s).state) j.rocs
    sent ← fold_m (iap_start j.opt) [] go
    iap_rounds p.rounds j.opt sent
        (record { went_down = []; finished = []; answering = []; resyncs = [] })
