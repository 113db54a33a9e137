-- ===== src/Lease/Tests/Data.antt =====
-- Registry records, files and requests for the tests.
use kilix_system_monitor.Prelude.{
  ℕ, ◌+◌, ◌*◌, String, true, false, none, some, List, [], ◌∷◌, length,
}
use kilix_system_monitor.Lease.Entry.{
  Workload, tts_utterance, stt_job, llm_turn, version_name, Entry, held, Grant, State,
}
use kilix_system_monitor.Lease.Namespace.{TicketFile, Namespace, Env, created_stat}
use kilix_system_monitor.Lease.Acquire.{Request, Answers, Lease}
use kilix_system_monitor.Lease.Release.{Situation, same_file}

abbrev pub ticket_a : String
ticket_a = "0123456789abcdef0123456789abcdef"

abbrev pub ticket_b : String
ticket_b = "00000000000000000000000000000001"

abbrev pub ticket_c : String
ticket_c = "00000000000000000000000000000002"

abbrev pub ticket_d : String
ticket_d = "ffffffffffffffffffffffffffffffff"

abbrev pub entry_of : String → Workload → ℕ → Entry
entry_of ticket workload sequence = record {
  ticket = ticket;
  job_id = "job-1";
  workload = workload;
  device = "cuda:0";
  sequence = sequence;
  deadline = 900;
  inode = (8, 100 + sequence);
}

abbrev pub queue_abc : List Entry
queue_abc =
    entry_of ticket_a llm_turn 4
    ∷ entry_of ticket_b tts_utterance 5
    ∷ entry_of ticket_c llm_turn 3
    ∷ []

abbrev pub grant_d : Grant
grant_d = record {
  ticket = ticket_d;
  job_id = "job-0";
  workload = stt_job;
  device = "cuda:0";
  phase = held;
}

-- `ticket_d` is held and three requests wait.
abbrev pub busy_state : State
busy_state = record {
  version = version_name;
  next_sequence = 6;
  last = some stt_job;
  active = some grant_d;
  queue = queue_abc;
}

-- The same queue with nothing granted.
abbrev pub idle_state : State
idle_state = record busy_state { active = none }

abbrev pub env_at : ℕ → Env
env_at now = record {
  now = now;
  euid = 1000;
  new_name = "abcdefabcdefabcdefabcdefabcdef00";
  new_inode = (8, 200);
  record_size = λ s. 200 + 400 * length s.queue;
}

abbrev pub file_of : Entry → TicketFile
file_of e = record { name = e.ticket; stat = created_stat (env_at 0) e.inode; locked = true }

abbrev pub files_abc : List TicketFile
files_abc =
    file_of (entry_of ticket_a llm_turn 4)
    ∷ file_of (entry_of ticket_b tts_utterance 5)
    ∷ file_of (entry_of ticket_c llm_turn 3)
    ∷ []

abbrev pub space_of : State → ℕ → Namespace
space_of s guards = record {
  state = s;
  tickets = files_abc;
  stale = none;
  foreign = 0;
  anchored = true;
  guards = guards;
}

abbrev pub answers : Answers
answers = record { is_cancelled = false; is_disconnected = false; busy = false }

abbrev pub request : Request
request = record { job_id = "job-2"; workload = stt_job; device = "cuda:0"; deadline = 950 }

abbrev pub lease_d : Lease
lease_d = record {
  ticket = ticket_d;
  device = "cuda:0";
  workload = stt_job;
  deadline = 990;
  owner = 77;
  is_open = true;
}

abbrev pub situation : Situation
situation = record { pid = 77; fd = same_file; waited_out = false }
