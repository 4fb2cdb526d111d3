-- ===== src/Flash/Types.antt =====
-- The data of RocFlashProgrammer.h: registers, actions, options, the result of each ROC, and the
-- messages. A message is a constructor with the values that the source prints into the text.
use otsdaq_mu2e.Base.{ℕ, Bool, true, false, Option, List, [], ◌∷◌, u16, shr, ℤ}

-- Registers (`enum : uint16_t`)
abbrev pub reg_done : ℕ
reg_done = 128

abbrev pub reg_count : ℕ
reg_count = 129

abbrev pub reg_return : ℕ
reg_return = 132

abbrev pub reg_command : ℕ
reg_command = 384

abbrev pub reg_fw_version : ℕ
reg_fw_version = 246

-- Actions of the MiV
abbrev pub act_erase : ℕ
act_erase = 3

abbrev pub act_prog_addr : ℕ
act_prog_addr = 5

abbrev pub act_read : ℕ
act_read = 7

abbrev pub act_write : ℕ
act_write = 8

abbrev pub act_crc : ℕ
act_crc = 10

-- `FlashSession::cmd`
abbrev pub cmd : ℕ → ℕ → ℕ → List ℕ
cmd action p1 p2 = action ∷ u16 p1 ∷ u16 (shr p1 16) ∷ u16 p2 ∷ u16 (shr p2 16) ∷ []

-- `struct Options`; texts are lists of character codes.
pub record Options : Type 0 where
  pub start_address : ℕ
  pub protected_below : ℕ
  pub expected_sha256 : List ℕ
  pub write_image : Bool
  pub program : Bool
  pub final_image_crc : Bool
  pub max_segment_attempts : ℤ
  pub flash_bytes : ℕ
  pub expected_fw_version : ℕ
  pub poll_ms : ℕ
  pub write_timeout_ms : ℕ
  pub erase_timeout_ms : ℕ
  pub read_timeout_ms : ℕ
  pub crc_segment_timeout_ms : ℕ
  pub crc_image_timeout_ms : ℕ
  pub legacy_write_min_ms : ℕ
  pub legacy_erase_min_ms : ℕ
  pub auth_timeout_ms : ℕ
  pub link_back_timeout_ms : ℕ
  pub link_resync_after_ms : ℕ
  pub link_resync_tries : ℕ

-- `enum class RocState`
pub data RocState : Type 0 where
  selected uploading verified programmed failed : RocState

-- The prefixes that the source puts before a message.
pub data Stage : Type 0 where
  crc_stage probe_stage erase_stage read_back_stage iap_request_stage whole_image_stage : Stage
  write_stage : Stage
  write_record : ℕ → Stage

-- The text of an exception or of an error of a ROC.
pub data Reason : Type 0 where
  -- `what()` of an exception thrown by the link
  link_error : ℕ → Reason
  during : Stage → Reason → Reason
  -- refusals of `preflight`
  sha_missing image_empty : Reason
  sha_differs : List ℕ → List ℕ → Reason
  not_aligned : ℕ → Reason
  in_protected_area : ℕ → ℕ → Reason
  no_attempts : ℤ → Reason
  past_address_space : ℕ → ℕ → Reason
  past_capacity : ℕ → ℕ → ℕ → Reason
  -- the command protocol
  not_idle : Reason
  busy : ℕ → Reason
  reply_size : ℕ → Reason
  no_reply : ℕ → ℕ → ℕ → Reason
  reply_lost : Reason
  reply_tag : ℕ → ℕ → Reason
  reply_vanished tag_mismatch : Reason
  miv_result : ℕ → ℕ → Reason
  done_not_seen : ℕ → ℕ → Reason
  crc_refused : ℕ → Reason
  crc_differs : ℕ → ℕ → Reason
  spi_read_words : ℕ → Reason
  read_back_timeout : ℕ → ℕ → Reason
  read_back_lost : ℕ → Reason
  read_back_mismatch : ℕ → Reason
  -- the upload
  flash_differs : ℕ → Reason → Reason
  not_verified : ℕ → ℕ → Reason → Reason
  -- the IAP
  iap_refused : ℕ → Reason
  wrong_version : ℕ → ℕ → Reason
  never_dropped : ℕ → Bool → Reason
  never_idle : ℕ → ℕ → ℕ → ℕ → Reason
  not_answering : ℕ → ℕ → Reason

-- The entries of `RocResult::log`.
pub data Note : Type 0 where
  drained : ℕ → Note
  reply_read_failed : Reason → Note
  miv_kind : Bool → Note
  segment_attempt : ℕ → ℕ → Reason → Note
  written_and_verified iap_requested : Note
  back_after_iap : ℕ → ℕ → ℕ → Note
  link_reset : ℕ → ℕ → Option Reason → Bool → Note
  has_failed : Reason → Note

-- `struct RocResult`; `error` is `none` where the source has the empty string.
pub record RocResult : Type 0 where
  pub state : RocState
  pub new_miv : Bool
  pub read_bytes : ℕ
  pub segment_retries : ℕ
  pub error : Option Reason
  pub log : List Note

abbrev pub fresh_result : RocResult
fresh_result = record {
  state = RocState.selected;
  new_miv = false;
  read_bytes = 1016;
  segment_retries = 0;
  error = Option.none;
  log = [];
}

abbrev pub is_verified : RocState → Bool
is_verified RocState.verified = true
is_verified RocState.selected = false
is_verified RocState.uploading = false
is_verified RocState.programmed = false
is_verified RocState.failed = false

abbrev pub is_programmed : RocState → Bool
is_programmed RocState.programmed = true
is_programmed RocState.selected = false
is_programmed RocState.uploading = false
is_programmed RocState.verified = false
is_programmed RocState.failed = false

abbrev pub is_failed : RocState → Bool
is_failed RocState.failed = true
is_failed RocState.selected = false
is_failed RocState.uploading = false
is_failed RocState.verified = false
is_failed RocState.programmed = false

-- The arguments of the constructor of `FlashSession` that it only reads: the ROCs, each by its
-- address, the bytes of the image, and the options.
pub record Job : Type 0 where
  pub rocs : List ℕ
  pub image : List ℕ
  pub opt : Options
