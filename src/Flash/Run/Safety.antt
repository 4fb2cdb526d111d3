-- ===== src/Flash/Run/Safety.antt =====
-- What a session may never do to a ROC, whatever the ROCs, the link and the clock answer.
use otsdaq_mu2e.Base.{
  ℕ, ◌+◌, ◌*◌, ◌^◌, ◌≤◌, ◌<◌, ◌≡◌, ◌≢◌, refl, inl, inr, Bool, true, false, List, ◌++◌, length,
  get_or, arith, if◌then◌else◌, ◌==◌,
}
use otsdaq_mu2e.Flash.Types.{Job, Reason, is_verified, cmd, act_prog_addr, act_erase, act_write}
use otsdaq_mu2e.Flash.Exec.{Platform, Session, threw, throw, modify, ◌>>=◌, ◌>>◌}
use otsdaq_mu2e.Flash.Exec.Sends.{Condition, AllSent}
use otsdaq_mu2e.Flash.Port.{result_of}
use otsdaq_mu2e.Flash.Link.Sends.{AfterIdleCheck}
use otsdaq_mu2e.Flash.Verify.Sends.{MayRead}
use otsdaq_mu2e.Flash.Segment.Write.{erase_cmd, write_cmd}
use otsdaq_mu2e.Flash.Segment.Write.Sends.{MayWrite}
use otsdaq_mu2e.Flash.Activate.{activate}
use otsdaq_mu2e.Flash.Activate.Sends.{activate-AllSent}
use otsdaq_mu2e.Flash.Preflight.{preflight, footprint_end}
use otsdaq_mu2e.Flash.Preflight.Laws.{preflight_sound, HasSafeOptions, padded_job}
use otsdaq_mu2e.Flash.Run.{new_session, run_after, run}
use otsdaq_mu2e.Flash.Run.Sends.{MaySend, run-Sends}

-- The action and the address of a command.
abbrev pub action_of : List ℕ → ℕ
action_of c = get_or c 0 0

abbrev pub address_of : List ℕ → ℕ
address_of c = get_or c 1 0 + get_or c 2 0 * 0x10000

abbrev pub second_of : List ℕ → ℕ
second_of c = get_or c 3 0 + get_or c 4 0 * 0x10000

-- The end of what a command changes: an older MiV erases two blocks of 64 kB for the size 1, which
-- bounds both kinds; a write changes its words.
abbrev pub end_of : List ℕ → ℕ
end_of c =
    if action_of c == act_erase
    then address_of c + 0x20000
    else if action_of c == act_write
    then address_of c + second_of c * 2
    else address_of c

abbrev pub changes_flash : List ℕ → Bool
changes_flash c = if action_of c == act_erase then true else action_of c == act_write

-- A command that changes the flash stays between the protected area and the end of the footprint,
-- which lies in the 32-bit address space.
abbrev pub StaysInside : Job → Condition
StaysInside j r c h =
    changes_flash c ≡ true
    → (j.opt.protected_below ≤ address_of c)
      × (end_of c ≤ footprint_end j.opt (length j.image))
      × (end_of c ≤ 2 ^ 32)

cmd_address : (a p1 p2 : ℕ) (rest : List ℕ) → p1 < 2 ^ 32 → address_of (cmd a p1 p2 ++ rest) ≡ p1
cmd_address a p1 p2 rest h = omega arith

module _ ⦃p : Platform⦄ where
  MayRead-StaysInside : (j : Job) → MayRead (StaysInside j)
  MayRead-StaysInside j = record {
    crc = λ r addr len tag h idle e. cc e;
    flash = λ r addr n h idle e. cc e;
  }

  MayWrite-StaysInside :
      (j : Job) → HasSafeOptions j → MayWrite (StaysInside (padded_job j)) (padded_job j)
  unfolding erase_cmd write_cmd footprint_end
  MayWrite-StaysInside j ok = record {
    erase = λ r off start whole h idle _. omega arith;
    erase_tagged = λ r off tag start whole h idle _. omega arith;
    write = λ r off rec n fits h idle _. omega arith;
    write_tagged = λ r off rec n tag fits h idle _. omega arith;
  }

  MaySend-StaysInside :
      (j : Job) → HasSafeOptions j → MaySend (StaysInside (padded_job j)) (padded_job j)
  MaySend-StaysInside j ok = record {
    reads = MayRead-StaysInside (padded_job j);
    writes = λ _. MayWrite-StaysInside j ok;
    iap = λ _ r h idle e. cc e;
  }

  -- Whatever the ROCs, the link and the clock answer, every erase and write command of a session
  -- starts at or above `protected_below`, and ends at or below the end of the footprint of the
  -- padded image and within the 32-bit address space; an erase is counted as two blocks of 64 kB.
  pub run-StaysInside :
      (j : Job) → AllSent (StaysInside (padded_job j)) (run j new_session).1.history
  run-StaysInside j = (run-Sends j inside).at new_session tt
    where
      inside : (j' : Job) → preflight j ≡ inr j' → MaySend (StaysInside (padded_job j)) j'
      inside j' e =
          let (ok, same) = preflight_sound j e in rw same (MaySend-StaysInside j ok.options)

  abbrev pub FoundIdle : Condition
  FoundIdle r c h = AfterIdleCheck r h

  -- Every command of a session is sent straight after the lock was taken, DONE and then the reply
  -- count were read, and the values that the ROC gave show an idle MiV.
  pub run-FoundIdle : (j : Job) → AllSent FoundIdle (run j new_session).1.history
  run-FoundIdle j = (run-Sends j (λ j' _. always j')).at new_session tt
    where
      always : (j' : Job) → MaySend FoundIdle j'
      always j' = record {
        reads = record { crc = λ r addr len tag h idle. idle; flash = λ r addr n h idle. idle };
        writes = λ _. record {
          erase = λ r off start whole h idle. idle;
          erase_tagged = λ r off tag start whole h idle. idle;
          write = λ r off rec n fits h idle. idle;
          write_tagged = λ r off rec n tag fits h idle. idle;
        };
        iap = λ _ r h idle. idle;
      }

  abbrev pub LeavesFlash : Condition
  LeavesFlash r c h = changes_flash c ≡ false

  -- A session that is only to verify sends no erase and no write command.
  pub run-LeavesFlash :
      (j : Job) → j.opt.write_image ≡ false → AllSent LeavesFlash (run j new_session).1.history
  run-LeavesFlash j only = (run-Sends j reads).at new_session tt
    where
      never : {A : Type 0} {b : Bool} → b ≡ false → b ≡ true → A
      never e f = cc

      reads : (j' : Job) → preflight j ≡ inr j' → MaySend LeavesFlash j'
      reads j' e = rw (preflight_sound j e).1 (record {
        reads = record { crc = λ r addr len tag h idle. refl; flash = λ r addr n h idle. refl };
        writes = λ f. never only f;
        iap = λ _ r h idle. refl;
      })

  abbrev pub KeepsRunning : Condition
  KeepsRunning r c h = action_of c ≢ act_prog_addr

  -- A session that is not to program sends no request of the IAP.
  pub run-KeepsRunning :
      (j : Job) → j.opt.program ≡ false → AllSent KeepsRunning (run j new_session).1.history
  unfolding erase_cmd write_cmd
  run-KeepsRunning j only = (run-Sends j others).at new_session tt
    where
      never : {A : Type 0} {b : Bool} → b ≡ false → b ≡ true → A
      never e f = cc

      others : (j' : Job) → preflight j ≡ inr j' → MaySend KeepsRunning j'
      others j' e = rw (preflight_sound j e).1 (record {
        reads = record {
          crc = λ r addr len tag h idle. omega arith;
          flash = λ r addr n h idle. omega arith;
        };
        writes = λ _. record {
          erase = λ r off start whole h idle. omega arith;
          erase_tagged = λ r off tag start whole h idle. omega arith;
          write = λ r off rec n fits h idle. omega arith;
          write_tagged = λ r off rec n tag fits h idle. omega arith;
        };
        iap = λ f. never only f;
      })

  -- Commands after which a ROC restarts go only to the ROCs that are verified in `s`.
  abbrev pub RestartsVerified : Session → Condition
  RestartsVerified s r c h = action_of c ≡ act_prog_addr → is_verified (result_of r s).state ≡ true

  -- If all IAP requests before went to ROCs that are verified when `activate` begins, so do those
  -- of `activate`: it sends one to no other ROC.
  pub activate-RestartsVerified :
      (j : Job) (s : Session)
      → AllSent (RestartsVerified s) s.history
      → AllSent (RestartsVerified s) (activate j s).1.history
  activate-RestartsVerified j s h =
      activate-AllSent (RestartsVerified s) j s (λ r verified h' idle _. verified) h

  -- A session whose job `preflight` refuses throws that reason, and touches no ROC: the history
  -- stays as it was.
  run_refused :
      (j : Job) (s : Session) (why : Reason)
      → preflight j ≡ inl why
      → ((run j s).0 ≡ threw why) × ((run j s).1.history ≡ s.history)
  unfolding run run_after throw modify ◌>>=◌ ◌>>◌
  run_refused j s why e = rw e (refl, refl)
