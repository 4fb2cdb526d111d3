-- ===== src/Flash/Tests.antt =====
-- A simulated ROC and a small job: runs of the whole session, and the theorems at that job.
use otsdaq_mu2e.Base.{
  pos, ℕ, arith, none, ◌↔◌, ◌+◌, ◌^◌, ◌*◌, ◌/◌, ◌%◌, ◌≡◌, refl, inr, Bool, true, false, List, [],
  ◌∷◌, if◌then◌else◌, ◌==◌, length, get_or, take, ⊤,
}
use otsdaq_mu2e.Flash.Types.{
  Options, Job, RocState, fresh_result, reg_done, reg_count, reg_fw_version, act_prog_addr,
  act_read, act_write, act_crc,
}
use otsdaq_mu2e.Flash.Exec.{
  wrote, block, History, value, Platform, Session, returned, ◌>>=◌, ◌>>◌, pure, throw, stall, gets,
  modify, attempt, branch◌then◌else◌, on_option, fold_m, for_each,
}
use otsdaq_mu2e.Flash.Exec.Sends.{AllSent}
use otsdaq_mu2e.Flash.Checksum.{crc32, sha256_hex}
use otsdaq_mu2e.Flash.Port.{
  read_register, write_block, read_block, resync_link, clock_now, ms_since, held, sleep_ms,
  result_of, update_result, note, fail, set_state, is_alive, is_new_miv, successor_tag, next_tag,
}
use otsdaq_mu2e.Flash.Link.{
  read_count, drain, wait_idle_round, wait_idle_rounds, wait_idle, send_if_idle, send_round,
  send_rounds, send_when_idle, send_tagged,
}
use otsdaq_mu2e.Flash.Reply.{
  payload, after_read, read_reply, no_reply_reason, await_round, await_reply, check_tag,
  check_result, collect_tagged, wait_tagged_result,
}
use otsdaq_mu2e.Flash.Verify.{
  piece_mismatch, crc_verdict, crc_sent, crc_collected, crc_send, crc_collect, crc_round,
  crc_rounds, parallel_crc,
}
use otsdaq_mu2e.Flash.Segment.Legacy.{legacy_round, legacy_rounds, wait_legacy_all}
use otsdaq_mu2e.Flash.Segment.Write.{
  erase_cmd, record_words, write_cmd, command_sent, command_done, timed_send, send_command,
  await_command, await_all, erase_segment, write_to, write_one_record, write_segment,
}
use otsdaq_mu2e.Flash.Segment.ReadBack.{
  record_errors, piece_size, read_back_piece, read_back_segment, crc_segment, verify_segment,
}
use otsdaq_mu2e.Flash.Probe.{
  set_new_miv, fail_on_throw, probe_reply, probe_send, probe_start, probe_counted, probe_poll,
  probe_round, probe_rounds, probe_finish, probe_all,
}
use otsdaq_mu2e.Flash.Upload.{
  when_alive, alive_rocs, count_retry, retry_or_fail, fail_on_crc, segment_attempt_round,
  segment_attempts, upload_segment, upload_segments, check_whole_image, upload,
}
use otsdaq_mu2e.Flash.Activate.{
  is_disconnected, is_not_back, has_evidence, judge, apply_verdict, drop_timeout, back_timeout,
  needs_resync, reading_of, resync, read_iap, iap_visit, iap_poll, iap_round, iap_rounds,
  iap_request, iap_requested_or_failed, iap_start, activate,
}
use otsdaq_mu2e.Flash.Verify.Laws.{piece_mismatch-record_words, crc_verdict-check_tag}
use otsdaq_mu2e.Flash.Preflight.{
  preflight, check_options, check_footprint, pad_image, footprint_end, same_text, to_lower,
}
use otsdaq_mu2e.Flash.Preflight.Laws.{padded_job}
use otsdaq_mu2e.Flash.Preflight.Accepted.{whole_words, IsAcceptable, preflight_lem}
use otsdaq_mu2e.Flash.Run.{new_session, fresh_results, all_reached, run_checked, run_after, run}
use otsdaq_mu2e.Flash.Run.Safety.{
  StaysInside, FoundIdle, LeavesFlash, KeepsRunning, RestartsVerified, run-StaysInside,
  run-FoundIdle, run-LeavesFlash, run-KeepsRunning, activate-RestartsVerified,
}

abbrev image : List ℕ
image = 1 ∷ 2 ∷ 3 ∷ []

abbrev padded_bytes : List ℕ
padded_bytes = 1 ∷ 2 ∷ 3 ∷ 255 ∷ []

-- The SHA-256 of `image`, as characters.
abbrev digest : List ℕ
digest =
    48 ∷ 51 ∷ 57 ∷ 48 ∷ 53 ∷ 56 ∷ 99 ∷ 54 ∷ 102 ∷ 50 ∷ 99 ∷ 48 ∷ 99 ∷ 98 ∷ 52 ∷ 57 ∷ 50 ∷ 99 ∷ 53
    ∷ 51 ∷ 51 ∷ 98 ∷ 48 ∷ 97 ∷ 52 ∷ 100 ∷ 49 ∷ 52 ∷ 101 ∷ 102 ∷ 55 ∷ 55 ∷ 99 ∷ 99 ∷ 48 ∷ 102 ∷ 55
    ∷ 56 ∷ 97 ∷ 98 ∷ 99 ∷ 99 ∷ 99 ∷ 101 ∷ 100 ∷ 53 ∷ 50 ∷ 56 ∷ 55 ∷ 100 ∷ 56 ∷ 52 ∷ 97 ∷ 49 ∷ 97
    ∷ 50 ∷ 48 ∷ 49 ∷ 49 ∷ 99 ∷ 102 ∷ 98 ∷ 56 ∷ 49 ∷ []

abbrev options : Options
options = record {
  start_address = 0x01010000;
  protected_below = 0x01010000;
  expected_sha256 = digest;
  write_image = true;
  program = true;
  final_image_crc = true;
  max_segment_attempts = pos 5;
  flash_bytes = 0;
  expected_fw_version = 0x0108;
  poll_ms = 1;
  write_timeout_ms = 3000;
  erase_timeout_ms = 15000;
  read_timeout_ms = 3000;
  crc_segment_timeout_ms = 10000;
  crc_image_timeout_ms = 600000;
  legacy_write_min_ms = 120;
  legacy_erase_min_ms = 3000;
  auth_timeout_ms = 180000;
  link_back_timeout_ms = 300000;
  link_resync_after_ms = 60000;
  link_resync_tries = 3;
}

abbrev job : Job
job = record { rocs = 4 ∷ 2 ∷ []; image = image; opt = options }

-- The command of a ROC that waits for its reply to be read, if any.
pending : History → ℕ → List ℕ
pending [] r = []
pending (wrote q a c ∷ h) r = if q == r then c else pending h r
pending (block q a n ∷ h) r = if q == r then [] else pending h r
pending (_ ∷ h) r = pending h r

-- Whether an IAP was requested.
restarted : History → ℕ → Bool
restarted [] r = false
restarted (wrote q a c ∷ h) r =
    if q == r
    then (if get_or c 0 0 == act_prog_addr then true else restarted h r)
    else restarted h r
restarted (_ ∷ h) r = restarted h r

reply_count : List ℕ → ℕ
reply_count [] = 0
reply_count (a ∷ c) =
    if a == act_crc
    then 8
    else if a == act_read
    then (get_or c 2 0 + get_or c 3 0 * 0x10000) / 2 + 4
    else if a == act_prog_addr
    then 0
    else 7

reply_words : List ℕ → List ℕ
reply_words [] = []
reply_words (a ∷ c) =
    if a == act_crc
    then (let crc = crc32 (take (get_or c 2 0) padded_bytes) in
        get_or c 4 0 ∷ crc % 0x10000 ∷ crc / 0x10000 ∷ 0 ∷ [])
    else if a == act_write
    then get_or c (4 + get_or c 2 0) 0 ∷ 0 ∷ 0 ∷ []
    else get_or c 4 0 ∷ 0 ∷ 0 ∷ []

-- A MiV with tags that completes each command at once; an access takes a millisecond.
instance abbrev simulated : Platform
simulated = record {
  register_value = λ h r a. value (
      if a == reg_count
      then reply_count (pending h r)
      else if a == reg_done
      then 0x8000
      else if a == reg_fw_version
      then (if restarted h r then 0x0108 else 0x0107)
      else 0);
  write_answer = λ h r a c. value tt;
  block_words = λ h r a n. value (reply_words (pending h r));
  resync_answer = λ h r. value true;
  now = λ h. length h * 1000000;
  rounds = 400;
}

-- What a run of the whole session computes with.
whole_session : ⊤
unfolding run run_after run_checked probe_all upload activate preflight check_options
    check_footprint pad_image footprint_end same_text to_lower sha256_hex crc32 fresh_results
    all_reached ◌>>=◌ ◌>>◌ pure throw stall gets modify attempt branch◌then◌else◌ on_option fold_m
    for_each read_register write_block read_block resync_link clock_now ms_since held sleep_ms
    result_of update_result note fail set_state is_alive is_new_miv successor_tag next_tag
    read_count drain wait_idle_round wait_idle_rounds wait_idle send_if_idle send_round send_rounds
    send_when_idle send_tagged after_read read_reply no_reply_reason await_round await_reply
    check_tag check_result collect_tagged wait_tagged_result crc_verdict crc_sent crc_collected
    crc_send crc_collect crc_round crc_rounds parallel_crc legacy_round legacy_rounds
    wait_legacy_all erase_cmd record_words write_cmd command_sent command_done timed_send
    send_command await_command await_all erase_segment write_to write_one_record write_segment
    record_errors piece_size crc_segment read_back_segment verify_segment read_back_piece
    set_new_miv fail_on_throw probe_reply probe_send probe_start probe_counted probe_poll
    probe_round probe_rounds probe_finish when_alive alive_rocs count_retry retry_or_fail
    fail_on_crc segment_attempt_round segment_attempts upload_segment upload_segments
    check_whole_image is_disconnected is_not_back has_evidence judge apply_verdict drop_timeout
    back_timeout needs_resync reading_of resync read_iap iap_visit iap_poll iap_round iap_rounds
    iap_request iap_requested_or_failed iap_start pending restarted reply_count reply_words
whole_session = tt

run-StaysInside_example : AllSent (StaysInside (padded_job job)) (run job new_session).1.history
run-StaysInside_example = run-StaysInside job

run-FoundIdle_example : AllSent FoundIdle (run job new_session).1.history
run-FoundIdle_example = run-FoundIdle job

abbrev verify_job : Job
verify_job = record job { opt = record options { write_image = false; program = false } }

run-LeavesFlash_example : AllSent LeavesFlash (run verify_job new_session).1.history
run-LeavesFlash_example = run-LeavesFlash verify_job refl

run-KeepsRunning_example : AllSent KeepsRunning (run verify_job new_session).1.history
run-KeepsRunning_example = run-KeepsRunning verify_job refl

-- A session in which ROC 2 is verified and ROC 4 has failed.
abbrev uploaded : Session
uploaded = record new_session {
  results =
      (2, record fresh_result { state = RocState.verified })
      ∷ (4, record fresh_result { state = RocState.failed })
      ∷ [];
}

activate-RestartsVerified_example :
    AllSent (RestartsVerified uploaded) (activate job uploaded).1.history
activate-RestartsVerified_example = activate-RestartsVerified job uploaded tt

piece_mismatch-record_words_example :
    (piece_mismatch padded_bytes 2 0x01010000 0 (513 ∷ 65283 ∷ 9 ∷ []) ≡ none)
    ↔ (513 ∷ 65283 ∷ [] ≡ record_words padded_bytes 2 0)
piece_mismatch-record_words_example =
    piece_mismatch-record_words padded_bytes 2 0x01010000 0 (513 ∷ 65283 ∷ 9 ∷ []) (omega arith)

abbrev request_tag : ℕ
request_tag = 7

abbrev no_error : ℕ
no_error = 0

crc_verdict-check_tag_example :
    (crc_verdict 0x10002 (check_tag request_tag 4 (payload (request_tag ∷ 2 ∷ 1 ∷ no_error ∷ [])))
      ≡ none)
    ↔ ((request_tag ≡ request_tag) × (no_error ≡ 0) × (1 * 2 ^ 16 + 2 ≡ 0x10002))
crc_verdict-check_tag_example =
    crc_verdict-check_tag 0x10002 request_tag request_tag 2 1 no_error (omega arith)

preflight_lem_example :
    (preflight job ≡ inr (whole_words job))
    ↔ (IsAcceptable job × (whole_words job ≡ whole_words job))
preflight_lem_example = preflight_lem job (whole_words job)

-- The whole session on two ROCs: both are programmed.
run_programs : (run job new_session).0 ≡ returned true
unfolding whole_session
run_programs = refl

-- The example of the SHA-256 standard: "abc".
sha256_hex_abc :
    sha256_hex (97 ∷ 98 ∷ 99 ∷ [])
    ≡ 98 ∷ 97 ∷ 55 ∷ 56 ∷ 49 ∷ 54 ∷ 98 ∷ 102 ∷ 56 ∷ 102 ∷ 48 ∷ 49 ∷ 99 ∷ 102 ∷ 101 ∷ 97 ∷ 52 ∷ 49
      ∷ 52 ∷ 49 ∷ 52 ∷ 48 ∷ 100 ∷ 101 ∷ 53 ∷ 100 ∷ 97 ∷ 101 ∷ 50 ∷ 50 ∷ 50 ∷ 51 ∷ 98 ∷ 48 ∷ 48 ∷ 51
      ∷ 54 ∷ 49 ∷ 97 ∷ 51 ∷ 57 ∷ 54 ∷ 49 ∷ 55 ∷ 55 ∷ 97 ∷ 57 ∷ 99 ∷ 98 ∷ 52 ∷ 49 ∷ 48 ∷ 102 ∷ 102
      ∷ 54 ∷ 49 ∷ 102 ∷ 50 ∷ 48 ∷ 48 ∷ 49 ∷ 53 ∷ 97 ∷ 100 ∷ []
unfolding sha256_hex
sha256_hex_abc = refl
