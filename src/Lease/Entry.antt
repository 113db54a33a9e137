-- ===== src/Lease/Entry.antt =====
-- The records of the lease registry: workloads, queue entries, the active grant and `state.json`.
use kilix_system_monitor.Prelude.{
  ℕ, ◌≡◌, refl, arith, String, Bool, true, false, Option, none, List, [],
}

-- WORKLOADS, in the order of the tuple.
pub data Workload : Type 0 where
  tts_utterance stt_job llm_turn : Workload

-- `a == b` on workload names.
abbrev pub same : Workload → Workload → Bool
same tts_utterance tts_utterance = true
same stt_job stt_job = true
same llm_turn llm_turn = true
same _ _ = false

pub same-eq : (a b : Workload) → same a b ≡ true → a ≡ b
same-eq tts_utterance b h = ground arith
same-eq stt_job b h = ground arith
same-eq llm_turn b h = ground arith

pub same_refl : (k : Workload) → same k k ≡ true
same_refl tts_utterance = refl
same_refl stt_job = refl
same_refl llm_turn = refl

abbrev pub version_name : String
version_name = "kilix.device-lease/v1"

abbrev pub max_queue : ℕ
max_queue = 24

abbrev pub max_workload_queue : ℕ
max_workload_queue = 8

-- (st_dev, st_ino)
abbrev pub Inode : Type 0
Inode = ℕ × ℕ

-- A queued request. A deadline is a reading of the monotonic clock.
pub record Entry : Type 0 where
  pub ticket : String
  pub job_id : String
  pub workload : Workload
  pub device : String
  pub sequence : ℕ
  pub deadline : ℕ
  pub inode : Inode

pub data Phase : Type 0 where
  held releasing : Phase

-- The granted request.
pub record Grant : Type 0 where
  pub ticket : String
  pub job_id : String
  pub workload : Workload
  pub device : String
  pub phase : Phase

-- The value of `state.json`; `next_sequence` is its field `next`.
pub record State : Type 0 where
  pub version : String
  pub next_sequence : ℕ
  pub last : Option Workload
  pub active : Option Grant
  pub queue : List Entry

-- `_fresh`
unfoldable pub fresh : State
fresh = record { version = version_name; next_sequence = 0; last = none; active = none; queue = [] }
