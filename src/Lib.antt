-- ===== src/Lib.antt =====
-- Verification of parts of otsdaq-mu2e: the ROC flash programmer, the flash actions of a PolarFire
-- ROC, the merge and the handler of the detached readout, and the Shared Run Plan of the CFO.
--
-- The flash programmer. `otsdaq-mu2e/FEInterfaces/RocFlashProgrammer.h` writes a firmware image into
-- the SPI flash of a set of ROCs of one DTC, checks it, and restarts the ROCs with it.
-- `FlashSession::run` checks the job (`preflight`), finds out which MiV each ROC has (`probeAll`),
-- erases, writes and verifies the image segment by segment (`upload`), and requests the IAP of the
-- verified ROCs and waits until each is back (`activate`). All steps talk to the ROCs through
-- registers and a reply FIFO, by the idle check and the tagged commands, under the lock of the DCS.
--
-- The flash actions. `otsdaq-mu2e/FEInterfaces/ROCPolarFireCoreInterfaceImpl.cc` reads, writes,
-- erases and programs the flash of one ROC, one action at a time under `actionLock_`: a command
-- block, the wait for DONE to fall and to rise (`isActionDone`), and the status.
--
-- The merge. In the merge modes of the buffer test,
-- `otsdaq-mu2e/FEInterfaces/DTCFrontEndInterfaceImpl.cc` reads two DTCs, pairs the halves of an
-- event by their tags (`stageDetachedHalf`), joins each pair into one event
-- (`buildMergedDetachedEvent`), and throws when a half has waited too long or too many wait
-- (`mergeDetachedEvents`).
--
-- The handler. `handleMergedDetachedEvents`, in the same file, takes the subevents of merged events
-- one by one; `handleDetachedSubevent` checks that each carries the event window tag that is
-- expected, from each source once, takes up the tag it finds when it does not, counts subruns, link
-- errors, fragments and bytes, and saves the words to a file; `checkROCEmulatorBlock` compares a
-- block with the pattern that the ROC emulator sends.
--
-- The Shared Run Plan. `otsdaq-mu2e/FEInterfaces/CFOFrontEndInterfaceImpl.cc` writes the program
-- that the CFO runs for all subsystems: 100 events inside nested loops, each with an AND and an OR
-- on the mode bits. A subsystem joins with a ratio of M events on per N (`mnFixRatio`,
-- `getRatioOfOnPerEvents`, `generateSharedRunPlanWithPeriodicModeOn`) or leaves
-- (`generateSharedRunPlanWithPeriodicModeOff`) by a new plan made from the masks of the old one,
-- which `extractSharedRunPlanEventDuration` reads back with the duration of an event.
--
-- The files. `Flash/Types` has the registers, actions, `Options`, `RocState` and `RocResult`; a
-- message of the source is a constructor of `Reason` or `Note` with the values that the text prints.
-- `Flash/Exec` has what a method is: a function of the session that returns, throws or stalls, and
-- the history of all accesses to the ROCs, the lock and the clock, the latest first. `Flash/Port`
-- has the accesses and `note`, `fail`, `alive`, `nextTag`, `msSince`, `sleepMs`; `Flash/Link` has
-- `waitIdle`, `sendWhenIdle` and `sendTagged`; `Flash/Reply` has `readReply`, `collectTagged`,
-- `waitTaggedResult` and `tagged`; `Flash/Verify` has `parallelCrc` and `collectPieceMismatch`;
-- `Flash/Segment` has `waitLegacyDone`, `waitLegacyAll`, `eraseSegment`, `writeSegment` and
-- `verifySegment`; `Flash/Probe` has `probeAll` and `probeLegacyReadSize`; `Flash/Upload` has
-- `upload`, `Flash/Activate` has `activate`, `Flash/Preflight` has `preflight` and `Flash/Run` has
-- `run`. `Flash/Checksum` has `crc32` and `sha256hex`. `std::map` is an association list in the
-- order of its keys (`Base/Assoc`); the ROCs are numbers, in the order of their pointers.
--
-- `RunPlan/Types` has `standardNValues_`, the operations of a plan and the arguments of the
-- generators; `RunPlan/Double` has the double arithmetic of the ratios; `RunPlan/Ratio` has
-- `mnFixRatio`, `getRatioOfOnPerEvents` and `parseEventDurationForRunPlan`; `RunPlan/Plan` has the
-- two generators, a plan as the list of the lines written; `RunPlan/Extract` has
-- `extractSharedRunPlanEventDuration`, and `RunPlan/Macros` has `SharedRunPlanSubsystemJoin` and
-- `SharedRunPlanSubsystemLeave` on the memory of the CFO; `RunPlan/SingleShot` has the chunks of
-- `SharedRunPlanSubsystemSingleShotJoin` and its `configureSingleShotChunk`. The loop over the
-- chunks runs for as many rounds as there are events, since each chunk takes one event at least.
--
-- `Spi/Exec` has the accesses to a ROC and the lock, whose history is the state, and what an action
-- is: a function of the history that returns, throws, waits for the lock or polls without end;
-- `Spi/Command` has the words of the commands, `Spi/Poll` has `isActionDone` and the loops on it,
-- and `Spi/Actions` has `readSPIFlashBlock`, `writeSPIFlashDirectory`, `writeSPIFlashBlock`,
-- `eraseSPIFlashBlock`, the three ways to program and `forceClearActionLock`.
--
-- `Merge/Types` has the modes, the state of the merge and `resetDetachedMergeState`; `Merge/Build`
-- has `buildMergedDetachedEvent`; `Merge/Stage` has `stageDetachedHalf` and `Merge/Scan` has
-- `mergeDetachedEvents`. The caller's vector `mergedOut` and the number of clock readings are part
-- of the state; a throw is a value beside the state that it leaves.
--
-- `Track/Types` has what the handler reads of subevents and blocks, the counts and the settings;
-- `Track/Tag` the part of `handleDetachedSubevent` up to the next expected tag, the set of sources
-- as the list of its elements; `Track/Emulator` has `checkROCEmulatorBlock`, `Track/Fragments` the
-- loop over the data blocks, `Track/Handle` the rest of `handleDetachedSubevent`, and `Track/Merged`
-- `handleMergedDetachedEvents` and the part of a read of both DTCs in `detachedBufferTestThread`
-- that merges and handles. A count of a link from 6 on, which C++ leaves undefined, changes nothing.
--
-- What is not code of this repository. The implementation of a ROC port, the clock and the DCS lock
-- are the parameter `Platform`: a function of the history for each access, of which nothing is
-- assumed. The compiler of run plans and the comparison with the memory of the CFO are the parameter
-- `Cfo`; with the load into that memory, `strtoul`, the split of a text and `to_string` they are the
-- parameter `Host`, of which `HostLaws` says what the macros rely on. Register and block access to
-- one ROC is the parameter `Roc`. The event of the DTC library and the clock of the merge are the
-- parameter `EventLibrary`; what the joined bytes rely on is `LibraryLaws`.
--
-- Numbers. The widths of C++ are written out as remainders. A double is the natural number that is
-- its value times 2 ^ 200, rounded to 53 bits: enough for the ratios of 32-bit numbers, which lie
-- between 2 ^ -33 and 2 ^ 66.
--
-- Fuel. Each polling loop of the source ends when the clock says so. A loop of the model does at
-- most `Platform.rounds` rounds and then stalls, an outcome of its own that ends the session; the
-- number is free, and the history of a stalled run is that of a longer one cut off.
-- The other loops (segments, attempts, records, tries) run over lists or down counters, as far as
-- those of the source.
--
-- The loops of the flash actions count their naps of 10 ms, and the model counts the same numbers
-- down; the loop of `autoProgramFromSPI` tests a counter that it never changes, and runs here for
-- `Roc.rounds` rounds at most and then ends in an outcome of its own, beside the timeout and the
-- return.
--
-- Proofs. The modules named `Sends` carry one statement through the tree of calls: all commands that
-- an action sends satisfy a condition on the ROC, the words and the history before.
-- `Flash/Run/Safety` instantiates it. `Flash/Preflight/Laws` and `Accepted` have the checks before
-- the session, `Flash/Verify/Laws` the acceptance of what is read back; `Flash/Tests` has a
-- simulated ROC, runs on it, and each theorem at a concrete job. `Base/Bits` has the bits of the
-- mask operations; `RunPlan/Plan/Pattern` and `Events` have the events in which a bit is on,
-- `RunPlan/Plan/Operands`, `Join` and `Leave` the masks that a later reader finds, `Rejoin` a
-- subsystem that comes back, and `Shape` the operations without operands; `RunPlan/Ratio/Laws` and
-- `Duration` have the ratios and the texts of durations; `RunPlan/Extract/Laws` and `Blind` the
-- durations that are read back and those that are not; `RunPlan/Macros/Held` has what is read of the
-- memory, `Keeps` the bits that stay whatever joins and leaves, `Passes` the two plans of a join;
-- `RunPlan/SingleShot/Split` has the sum and the masks of the chunks; `RunPlan/Tests` and
-- `RunPlan/MacroTests` have the theorems at concrete plans. `Spi/Exec/Lock`, `Naps` and `Gives` have
-- the rules for who holds the lock, for how long an action takes, and for what it did when it has
-- returned, which `Spi/Actions/Lock`, `Naps` and `Cycle` apply; `Busy` has the actions on a taken
-- lock and `Auto` the loop without a bound; `Spi/Command/Laws` reads the words back.
-- `Merge/Stage/Step` has what one half can do as a relation, on which the invariant
-- (`Merge/Stage/Sound`) and the counts (`Merge/Scan/Counts`) rest, and `Merge/Stage/Refined` has it
-- without the maps; `Merge/Scan/Limits` has what may still wait, `Merge/Scan/Paired` streams that
-- match, and `Merge/Build/Laws` the bytes. `Track/Rounds` has the subevents of one tag,
-- `Track/Bounds` what any subevents keep in bounds, and `Track/Emulator/Pattern` and `Stream` the
-- blocks that pass the check. `Track/Handle/Totals`, `Ended`, `Header` and `Counted` have the counts
-- and the file after a subevent; `Track/Merged/Rounds` has merged events one after another, and
-- `Paired` the merge and the handler together. `Spi/Tests`, `Merge/Tests`, `Track/Tests` and
-- `Track/HandlerTests` have runs on a simulated ROC, a small event library, two sources and six
-- blocks.
--
-- Not modelled: the wording of messages, `summary`, `stateName`, the logger and the progress
-- callback, with the clock readings that only the logger prints; the indentation and the comments of
-- the lines of a plan, the opening of its files, and `sharedRunPlanSize_`; negative values of the
-- `int` options of the flash programmer other than the number of attempts; the macros to start and
-- stop the Shared Run Plan, to print its status, and in the one to join for a single shot the
-- arguments, the waits and the setting of the plans; the macros around the flash actions; the rest
-- of `detachedBufferTestThread`, `getDetachedMergeStatus`, and the status registers that a message
-- of the merge prints; the rest of the repository.
pub mod Base
pub mod Flash
pub mod Merge
pub mod RunPlan
pub mod Spi
pub mod Track
