-- ===== src/Flash/Port.antt =====
-- The accesses to a ROC, the lock and the clock, each recorded in the history, and the small
-- methods of `FlashSession` on the results: `note`, `fail`, `alive`, `nextTag`, `msSince`.
pub mod Sends
use otsdaq_mu2e.Base.{
  ℕ, ◌+◌, ◌-◌, ◌/◌, Bool, not, Option, some, List, [], ◌∷◌, ◌++◌, if◌then◌else◌, ◌==◌, u16, map, ⊤,
}
use otsdaq_mu2e.Base.Assoc.{Map, find_or, insert}
use otsdaq_mu2e.Flash.Types.{
  RocState, RocResult, fresh_result, Reason, link_error, Note, has_failed, is_failed, is_verified,
}
use otsdaq_mu2e.Flash.Exec.{
  Event, read, wrote, block, resynced, locked, unlocked, clocked, slept, Answer, value, throws,
  Platform, Session, Action, Outcome, returned, threw, pure, throw, gets, modify, ◌>>=◌, ◌>>◌,
}

abbrev pub record_event : Event → Session → Session
record_event e s = record s { history = e ∷ s.history }

abbrev pub answer : {A : Type 0} → Answer A → Outcome A
answer (value a) = returned a
answer (throws n) = threw (link_error n)

abbrev pub map_answer : {A B : Type 0} → (A → B) → Answer A → Answer B
map_answer f (value a) = value (f a)
map_answer f (throws n) = throws n

module _ ⦃p : Platform⦄ where
  -- `RocPort::readRegister`: a `uint16_t`
  unfoldable pub read_register : ℕ → ℕ → Action ℕ
  read_register r a s =
      (answer (map_answer u16 (p.register_value s.history r a)), record_event (read r a) s)

  -- `RocPort::writeBlock`
  unfoldable pub write_block : ℕ → List ℕ → ℕ → Action ⊤
  write_block r words a s =
      (answer (p.write_answer s.history r a words), record_event (wrote r a words) s)

  -- `RocPort::readBlock`: words of `uint16_t`
  unfoldable pub read_block : ℕ → ℕ → ℕ → Action (List ℕ)
  read_block r a n s =
      (answer (map_answer (map u16) (p.block_words s.history r a n)), record_event (block r a n) s)

  -- `RocPort::resyncLink`
  unfoldable pub resync_link : ℕ → Action Bool
  resync_link r s = (answer (p.resync_answer s.history r), record_event (resynced r) s)

  -- `clock::now()`, in nanoseconds
  unfoldable pub clock_now : Action ℕ
  clock_now s = (returned (p.now s.history), record_event clocked s)

  -- `msSince`
  unfoldable pub ms_since : ℕ → Action ℕ
  ms_since t0 = do t ← clock_now; pure ((t - t0) / 1000000)

  -- `struct Held`: the lock is released on every way out of `m`.
  unfoldable pub held : {A : Type 0} → Action A → Action A
  held m s = let (r, s') = m (record_event locked s) in (r, record_event unlocked s')

-- `sleepMs`
unfoldable pub sleep_ms : ℕ → Action ⊤
sleep_ms n = modify (record_event (slept n))

-- `res_[r]`
unfoldable pub result_of : ℕ → Session → RocResult
result_of r s = find_or fresh_result r s.results

unfoldable pub update_result : ℕ → (RocResult → RocResult) → Action ⊤
update_result r f = modify λ s. record s { results = insert r (f (result_of r s)) s.results }

-- `note(RocPort*, …)`
unfoldable pub note : ℕ → Note → Action ⊤
note r n = update_result r λ x. record x { log = x.log ++ (n ∷ []) }

-- `fail`
unfoldable pub fail : ℕ → Reason → Action ⊤
fail r why = do
  update_result r λ x. record x { state = RocState.failed; error = some why }
  note r (has_failed why)

unfoldable pub set_state : ℕ → RocState → Action ⊤
set_state r st = update_result r λ x. record x { state = st }

-- `alive`
unfoldable pub is_alive : ℕ → Session → Bool
is_alive r s = not (is_failed (result_of r s).state)

unfoldable pub is_new_miv : ℕ → Session → Bool
is_new_miv r s = (result_of r s).new_miv

-- `++tag_`, with the wrap of a `uint16_t` to 0 skipped
unfoldable pub successor_tag : ℕ → ℕ
successor_tag t = if u16 (t + 1) == 0 then 1 else u16 (t + 1)

-- `nextTag`
unfoldable pub next_tag : Action ℕ
next_tag = do modify λ s. record s { tag = successor_tag s.tag }; gets λ s. s.tag
