-- ===== src/Flash/Upload/Sends.antt =====
-- What `upload` sends: reads, and, only if the image is to be written, the erase and write
-- commands of the segments.
use otsdaq_mu2e.Base.{
  ℕ, zero, suc, ◌+◌, ◌-◌, ◌*◌, ◌/◌, ◌%◌, ◌≡◌, ◌<◌, ◌≤◌, true, Option, List, length, offsets, min,
  arith, ⊤,
}
use otsdaq_mu2e.Base.Assoc.{Map}
use otsdaq_mu2e.Flash.Types.{Options, Job, Reason}
use otsdaq_mu2e.Flash.Exec.{Platform, Action}
use otsdaq_mu2e.Flash.Exec.Sends.{Condition, Sends, Sends-pure}
use otsdaq_mu2e.Flash.Port.Sends.{port_rules}
use otsdaq_mu2e.Flash.Link.Sends.{link_rules}
use otsdaq_mu2e.Flash.Verify.Sends.{MayRead, parallel_crc-Sends}
use otsdaq_mu2e.Flash.Segment.Write.Sends.{MayWrite, erase_segment-Sends, write_segment-Sends}
use otsdaq_mu2e.Flash.Segment.ReadBack.Sends.{verify_segment-Sends}
use otsdaq_mu2e.Flash.Upload.{
  segment_bytes, when_alive, fail_if_differs, count_retry, retry_or_fail, fail_on_crc, verify_only,
  segment_attempt_round, segment_attempts, upload_segment, upload_segments, check_whole_image,
  upload,
}

module _ {Q : Condition} where
  when_alive-Sends : (r : ℕ) (m : Action ⊤) → Sends Q m → Sends Q (when_alive r m)
  unfolding when_alive
  when_alive-Sends r m k = search port_rules

  fail_if_differs-Sends :
      (o : Options) (off : ℕ) (err : Map Reason) (r : ℕ) → Sends Q (fail_if_differs o off err r)
  unfolding fail_if_differs
  fail_if_differs-Sends o off err r = search (port_rules, when_alive-Sends)

  count_retry-Sends :
      (o : Options) (off attempt : ℕ) (again : List ℕ) (r : ℕ) (why : Reason)
      → Sends Q (count_retry o off attempt again r why)
  unfolding count_retry
  count_retry-Sends o off attempt again r why = search port_rules depth 9

  retry_or_fail-Sends :
      (o : Options) (off attempt : ℕ) (err : Map Reason) (again : List ℕ) (r : ℕ)
      → Sends Q (retry_or_fail o off attempt err again r)
  unfolding retry_or_fail
  retry_or_fail-Sends o off attempt err again r = search (port_rules, count_retry-Sends)

  fail_on_crc-Sends : (chk : Map (Option Reason)) (r : ℕ) → Sends Q (fail_on_crc chk r)
  unfolding fail_on_crc
  fail_on_crc-Sends chk r = search port_rules

  module _ ⦃p : Platform⦄ where
    verify_only-Sends :
        (j : Job) (off len : ℕ) (todo : List ℕ) → MayRead Q → Sends Q (verify_only j off len todo)
    unfolding verify_only
    verify_only-Sends j off len todo may =
        search (link_rules, verify_segment-Sends, fail_if_differs-Sends)

    segment_attempt_round-Sends :
        (again : List ℕ → Action ⊤) (j : Job) (off len attempt : ℕ) (todo : List ℕ)
        → MayRead Q
        → MayWrite Q j
        → off < length j.image
        → off % segment_bytes ≡ 0
        → off + len ≤ length j.image
        → ((todo : List ℕ) → Sends Q (again todo))
        → Sends Q (segment_attempt_round again j off len attempt todo)
    unfolding segment_attempt_round
    segment_attempt_round-Sends again j off len attempt todo may may_write start whole inside k =
        search
          (
            link_rules, erase_segment-Sends, write_segment-Sends, verify_segment-Sends,
            retry_or_fail-Sends,
          )
          depth 12

    segment_attempts-Sends :
        (left : ℕ) (j : Job) (off len attempt : ℕ) (todo : List ℕ)
        → MayRead Q
        → MayWrite Q j
        → off < length j.image
        → off % segment_bytes ≡ 0
        → off + len ≤ length j.image
        → Sends Q (segment_attempts left j off len attempt todo)
    unfolding segment_attempts
    segment_attempts-Sends zero j off len attempt todo may may_write start whole inside =
        Sends-pure tt
    segment_attempts-Sends (suc left) j off len attempt todo may may_write start whole inside =
        segment_attempt_round-Sends _ j off len attempt todo may may_write start whole inside
          λ todo'.
            segment_attempts-Sends left j off len (attempt + 1) todo' may may_write start whole
              inside

    upload_segment-Sends :
        (again : Action ⊤) (j : Job) (off : ℕ)
        → MayRead Q
        → (j.opt.write_image ≡ true → MayWrite Q j)
        → off < length j.image
        → off % segment_bytes ≡ 0
        → Sends Q again
        → Sends Q (upload_segment again j off)
    unfolding upload_segment
    upload_segment-Sends again j off may may_write start whole k =
        let inside : off + min segment_bytes (length j.image - off) ≤ length j.image =
          omega arith in
        search (link_rules, segment_attempts-Sends, verify_only-Sends) depth 12

    upload_segments-Sends :
        (n off : ℕ) (j : Job)
        → MayRead Q
        → (j.opt.write_image ≡ true → MayWrite Q j)
        → off % segment_bytes ≡ 0
        → (0 < n → off + (n - 1) * segment_bytes < length j.image)
        → Sends Q (upload_segments j (offsets n off segment_bytes))
    unfolding upload_segments
    upload_segments-Sends zero off j may may_write whole below = Sends-pure tt
    upload_segments-Sends (suc n) off j may may_write whole below =
        upload_segment-Sends _ j off may may_write (omega arith) whole (
          upload_segments-Sends n (off + segment_bytes) j may may_write (omega arith) (omega arith))

    check_whole_image-Sends : (j : Job) → MayRead Q → Sends Q (check_whole_image j)
    unfolding check_whole_image
    check_whole_image-Sends j may =
        search (link_rules, parallel_crc-Sends, fail_on_crc-Sends) depth 9

    pub upload-Sends :
        (j : Job) → MayRead Q → (j.opt.write_image ≡ true → MayWrite Q j) → Sends Q (upload j)
    unfolding upload
    upload-Sends j may may_write =
        let n = (length j.image + segment_bytes - 1) / segment_bytes in
        let segments = upload_segments-Sends n 0 j may may_write (omega arith) (omega arith) in
        search (link_rules, when_alive-Sends, check_whole_image-Sends) depth 12
