-- ===== src/Flash/Segment/Write/Sends.antt =====
-- `eraseSegment` and `writeSegment` send the commands of their segment and no other.
use otsdaq_mu2e.Base.{
  ℕ, zero, suc, ◌+◌, ◌-◌, ◌*◌, ◌/◌, ◌%◌, ◌≤◌, ◌<◌, ◌≡◌, Bool, true, false, List, [], ◌∷◌, ◌++◌, min,
  offsets, arith, length,
}
use otsdaq_mu2e.Base.Assoc.{Map}
use otsdaq_mu2e.Flash.Types.{Options, Job, Stage, Reason}
use otsdaq_mu2e.Flash.Exec.{Platform, fold_m}
use otsdaq_mu2e.Flash.Exec.Sends.{Condition, Sends, Sends-bind, Sends-pure}
use otsdaq_mu2e.Flash.Link.Sends.{Permits, link_rules, send_when_idle-Sends}
use otsdaq_mu2e.Flash.Reply.Sends.{wait_tagged_result-Sends}
use otsdaq_mu2e.Flash.Segment.Legacy.Sends.{wait_legacy_all-Sends}
use otsdaq_mu2e.Flash.Segment.Write.{
  Sending, erase_cmd, write_cmd, timed_send, send_command, await_command, await_all, erase_segment,
  write_to, write_one_record, write_segment,
}

-- `Q` permits the erase commands and the records of the image of `j`.
pub record MayWrite ⦃p : Platform⦄ (Q : Condition) (j : Job) : Type 0 where
  pub erase :
      (r off : ℕ)
      → off < length j.image
      → off % 0x10000 ≡ 0
      → Permits Q r (erase_cmd j.opt off false)
  pub erase_tagged :
      (r off tag : ℕ)
      → off < length j.image
      → off % 0x10000 ≡ 0
      → Permits Q r (erase_cmd j.opt off true ++ (tag ∷ []))
  pub write :
      (r off rec n : ℕ) → off + rec + n ≤ length j.image → Permits Q r (write_cmd j off rec n)
  pub write_tagged :
      (r off rec n tag : ℕ)
      → off + rec + n ≤ length j.image
      → Permits Q r (write_cmd j off rec n ++ (tag ∷ []))

module _ ⦃p : Platform⦄ {Q : Condition} where
  timed_send-Sends : (o : Options) (r : ℕ) (c : List ℕ) → Permits Q r c → Sends Q (timed_send o r c)
  unfolding timed_send
  timed_send-Sends o r c ok = search (link_rules, send_when_idle-Sends)

  send_command-Sends :
      (o : Options) (idle_stage what : Stage) (c : Bool → List ℕ) (s : Sending) (r : ℕ)
      → Permits Q r (c false)
      → ((tag : ℕ) → Permits Q r (c true ++ (tag ∷ [])))
      → Sends Q (send_command o idle_stage what c s r)
  unfolding send_command
  send_command-Sends o idle_stage what c s r plain with_tag =
      search (link_rules, timed_send-Sends) depth 9

  await_command-Sends :
      (o : Options) (what : Stage) (timeout : ℕ) (tags : Map ℕ) (b : Map ℕ × Map Reason) (x : ℕ × ℕ)
      → Sends Q (await_command o what timeout tags b x)
  unfolding await_command
  await_command-Sends o what timeout tags (legacy, err) (r, t) =
      search (link_rules, wait_tagged_result-Sends) depth 9

  await_all-Sends :
      (o : Options) (what : Stage) (timeout min_ms : ℕ) (s : Sending)
      → Sends Q (await_all o what timeout min_ms s)
  unfolding await_all
  await_all-Sends o what timeout min_ms s =
      search (link_rules, await_command-Sends, wait_legacy_all-Sends)

  pub erase_segment-Sends :
      (j : Job) (rs : List ℕ) (off : ℕ) (err : Map Reason)
      → MayWrite Q j
      → off < length j.image
      → off % 0x10000 ≡ 0
      → Sends Q (erase_segment j.opt rs off err)
  unfolding erase_segment
  erase_segment-Sends j rs off err may inside whole =
      let plain = λ (r : ℕ). may.erase r off inside whole in
      let with_tag = λ (r tag : ℕ). may.erase_tagged r off tag inside whole in
      search (link_rules, send_command-Sends, await_all-Sends)

  write_to-Sends :
      (j : Job) (off rec n : ℕ) (s : Sending) (r : ℕ)
      → MayWrite Q j
      → off + rec + n ≤ length j.image
      → Sends Q (write_to j off rec n s r)
  unfolding write_to
  write_to-Sends j off rec n s r may inside =
      let plain = may.write r off rec n inside in
      let with_tag = λ (tag : ℕ). may.write_tagged r off rec n tag inside in
      search (link_rules, send_command-Sends)

  write_one_record-Sends :
      (j : Job) (rs : List ℕ) (off len : ℕ) (err : Map Reason) (rec : ℕ)
      → MayWrite Q j
      → rec ≤ len
      → off + len ≤ length j.image
      → Sends Q (write_one_record j rs off len err rec)
  unfolding write_one_record
  write_one_record-Sends j rs off len err rec may below inside =
      let fits : off + rec + min 1024 (len - rec) ≤ length j.image = omega arith in
      search (link_rules, write_to-Sends, await_all-Sends)

  -- The records of a segment start below its end.
  records-Sends :
      (k rec : ℕ) (j : Job) (rs : List ℕ) (off len : ℕ) (err : Map Reason)
      → MayWrite Q j
      → (0 < k → rec + (k - 1) * 1024 < len)
      → off + len ≤ length j.image
      → Sends Q (fold_m (write_one_record j rs off len) err (offsets k rec 1024))
  unfolding fold_m
  records-Sends zero rec j rs off len err may below inside = Sends-pure err
  records-Sends (suc k) rec j rs off len err may below inside =
      Sends-bind _ _ (write_one_record-Sends j rs off len err rec may (omega arith) inside)
        λ err'. records-Sends k (rec + 1024) j rs off len err' may (omega arith) inside

  pub write_segment-Sends :
      (j : Job) (rs : List ℕ) (off len : ℕ) (err : Map Reason)
      → MayWrite Q j
      → off + len ≤ length j.image
      → Sends Q (write_segment j rs off len err)
  unfolding write_segment
  write_segment-Sends j rs off len err may inside =
      records-Sends ((len + 1023) / 1024) 0 j rs off len err may (omega arith) inside
