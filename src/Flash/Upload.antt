-- ===== src/Flash/Upload.antt =====
-- `upload`: the segments in turn, each erased, written and verified until it is right on every
-- ROC or the attempts are used up; then the check of the whole image.
pub mod Sends
use otsdaq_mu2e.Base.{
  equals_int, pos_part, ℕ, zero, suc, ◌+◌, ◌-◌, ◌*◌, ◌/◌, Bool, true, false, not, ◌&&◌, Option,
  none, some, List, [], ◌∷◌, ◌++◌, if◌then◌else◌, ◌==◌, length, filter, is_empty, offsets, min, u32,
  ⊤,
}
use otsdaq_mu2e.Base.Assoc.{Map, lookup, find_or}
use otsdaq_mu2e.Flash.Types.{
  Options, Job, Reason, RocState, uploading, verified, during, whole_image_stage, flash_differs,
  not_verified, segment_attempt, written_and_verified,
}
use otsdaq_mu2e.Flash.Checksum.{crc32}
use otsdaq_mu2e.Flash.Exec.{
  on_option, branch◌then◌else◌, Platform, Session, Action, pure, gets, fold_m, for_each, ◌>>=◌,
  ◌>>◌,
}
use otsdaq_mu2e.Flash.Port.{note, fail, set_state, update_result, is_alive, is_new_miv}
use otsdaq_mu2e.Flash.Verify.{parallel_crc}
use otsdaq_mu2e.Flash.Segment.Write.{erase_segment, write_segment}
use otsdaq_mu2e.Flash.Segment.ReadBack.{verify_segment}

-- 64 kB
abbrev pub segment_bytes : ℕ
segment_bytes = 0x10000

-- `if(alive(r)) m`
unfoldable pub when_alive : ℕ → Action ⊤ → Action ⊤
when_alive r m = do alive ← gets (is_alive r); branch alive then m else pure tt

unfoldable pub alive_rocs : List ℕ → Session → List ℕ
alive_rocs rs s = filter (λ r. is_alive r s) rs

-- Verify only: a ROC whose flash does not hold the file fails.
unfoldable pub fail_if_differs : Options → ℕ → Map Reason → ℕ → Action ⊤
fail_if_differs o off err r =
    on_option (lookup r err) (pure tt)
      (λ why. when_alive r (fail r (flash_differs (u32 (o.start_address + off)) why)))

-- A ROC whose segment is not verified after an attempt: tried again, or failed after the last.
unfoldable pub count_retry : Options → ℕ → ℕ → List ℕ → ℕ → Reason → Action (List ℕ)
count_retry o off attempt again r why = do
  update_result r (λ x. record x { segment_retries = x.segment_retries + 1 })
  note r (segment_attempt (u32 (o.start_address + off)) attempt why)
  branch equals_int attempt o.max_segment_attempts
      then (fail r (not_verified (u32 (o.start_address + off)) attempt why) >> pure again)
      else pure (again ++ (r ∷ []))

-- The loop over `todo` after an attempt: the ROCs of `again`.
unfoldable pub retry_or_fail : Options → ℕ → ℕ → Map Reason → List ℕ → ℕ → Action (List ℕ)
retry_or_fail o off attempt err again r = do
  alive ← gets (is_alive r)
  branch not alive
      then pure again
      else on_option (lookup r err) (pure again) (count_retry o off attempt again r)

unfoldable pub fail_on_crc : Map (Option Reason) → ℕ → Action ⊤
fail_on_crc chk r =
    on_option (find_or none r chk) (pure tt) (λ why. fail r (during whole_image_stage why))

module _ ⦃p : Platform⦄ where
  unfoldable pub verify_only : Job → ℕ → ℕ → List ℕ → Action ⊤
  verify_only j off len todo = do
    err ← verify_segment j todo off len []
    for_each (fail_if_differs j.opt off err) todo

  -- One attempt at a segment.
  unfoldable pub segment_attempt_round : (List ℕ → Action ⊤) → Job → ℕ → ℕ → ℕ → List ℕ → Action ⊤
  segment_attempt_round again j off len attempt todo = branch is_empty todo then pure tt else (do
    err ← erase_segment j.opt todo off []
    err' ← write_segment j todo off len err
    err'' ← verify_segment j todo off len err'
    rest ← fold_m (retry_or_fail j.opt off attempt err'') [] todo
    again rest)

  -- The attempts that are left for a segment; `attempt` is the number of the next one.
  unfoldable pub segment_attempts : ℕ → Job → ℕ → ℕ → ℕ → List ℕ → Action ⊤
  segment_attempts zero j off len attempt todo = pure tt
  segment_attempts (suc left) j off len attempt todo =
      segment_attempt_round (segment_attempts left j off len (attempt + 1)) j off len attempt todo

  -- One segment, at `off`; the loop ends early when no ROC is alive.
  unfoldable pub upload_segment : Action ⊤ → Job → ℕ → Action ⊤
  upload_segment again j off = do
    todo ← gets (alive_rocs j.rocs)
    branch is_empty todo then pure tt else (do
      let len = min segment_bytes (length j.image - off)
      branch j.opt.write_image
          then segment_attempts (pos_part j.opt.max_segment_attempts) j off len 1 todo
          else verify_only j off len todo
      again)

  unfoldable pub upload_segments : Job → List ℕ → Action ⊤
  upload_segments j [] = pure tt
  upload_segments j (off ∷ offs) = upload_segment (upload_segments j offs) j off

  unfoldable pub check_whole_image : Job → Action ⊤
  check_whole_image j = do
    rocs ← gets λ s. filter (λ r. is_alive r s && is_new_miv r s) j.rocs
    branch is_empty rocs then pure tt else (do
      chk ←
          parallel_crc j.opt rocs j.opt.start_address (u32 (length j.image)) (crc32 j.image)
            j.opt.crc_image_timeout_ms 2
      for_each (fail_on_crc chk) rocs)

  -- `upload`
  unfoldable pub upload : Job → Action ⊤
  upload j = do
    for_each (λ r. when_alive r (set_state r uploading)) j.rocs
    upload_segments j
        (offsets ((length j.image + segment_bytes - 1) / segment_bytes) 0 segment_bytes)
    branch j.opt.final_image_crc then check_whole_image j else pure tt
    for_each (λ r. when_alive r (set_state r verified >> note r written_and_verified)) j.rocs
