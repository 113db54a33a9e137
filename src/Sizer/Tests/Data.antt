-- ===== src/Sizer/Tests/Data.antt =====
-- A catalog, a snapshot and a workload for the tests.
use kilix_system_monitor.Prelude.{ℕ, ◌*◌, ◌^◌, String, true, none, some, [], ◌∷◌}
use kilix_system_monitor.Sizer.Checked.{absent, number}
use kilix_system_monitor.Sizer.Resources.{Device, Snapshot, schema_name, gib, auto}
use kilix_system_monitor.Sizer.Geometry.{
  Workload, both_tasks, both_phases, q4, Sizing, Checkpoint, no_gate,
}
use kilix_system_monitor.Sizer.Catalog.{Candidate, Catalog}

abbrev pub digest : String
digest = "0123456789abcdef0123456789abcdef0123456789abcdef0123456789abcdef"

abbrev pub device : Device
device = record {
  index = number 0;
  total_bytes = number (16 * gib);
  available_bytes = number (15 * gib);
  backend = "cuda";
}

abbrev pub snapshot : Snapshot
snapshot = record {
  schema = schema_name;
  cuda_device_mapping = "unverified";
  ram_total_bytes = number (64 * gib);
  ram_available_bytes = number (48 * gib);
  disk_available_bytes = number (200 * gib);
  cgroup_status = "unlimited";
  gpus = some (device ∷ []);
  observed_at = some (1000 * 10 ^ 6);
}

-- Ten seconds after the observation, and an hour after it.
abbrev pub soon : ℕ
soon = 1010 * 10 ^ 6

abbrev pub late : ℕ
late = 4600 * 10 ^ 6

abbrev pub workload : Workload
workload = record {
  task = both_tasks;
  phase = both_phases;
  context = 512;
  batch = 1;
  lora_rank = 16;
  topics = 128;
  quant = q4;
  train_backend = auto;
  infer_backend = auto;
  gpu = none;
  co_resident = true;
  checkpointing = true;
  document_bytes = 1000;
}

abbrev pub sizing_of : ℕ → Sizing
sizing_of parameters = record {
  config_sha256 = digest;
  model_type = "qwen3";
  parameters = number parameters;
  hidden_size = number 64;
  intermediate_size = number 128;
  num_hidden_layers = number 2;
  num_attention_heads = number 4;
  num_key_value_heads = number 2;
  head_dim = number 16;
  vocab_size = number 1000;
  max_position_embeddings = number 4096;
  layer_types = "full_attention" ∷ "full_attention" ∷ [];
  linear_num_key_heads = absent;
  linear_num_value_heads = absent;
  linear_key_head_dim = absent;
  linear_value_head_dim = absent;
  linear_conv_kernel_dim = absent;
  attn_output_gate = no_gate;
}

abbrev pub checkpoint_of : ℕ → Checkpoint
checkpoint_of parameters = record {
  model_id = "kilix/tiny-1";
  revision = "0123456789abcdef0123456789abcdef01234567";
  config_sha256 = digest;
  checkpoint_files =
      record { path = "model-1.safetensors"; bytes = number 1000000; sha256 = digest }
      ∷ record { path = "model-2.safetensors"; bytes = number 500000; sha256 = digest }
      ∷ [];
  checkpoint_bytes = number 1500000;
  sizing = some (sizing_of parameters);
}

abbrev pub candidate_of : String → ℕ → Candidate
candidate_of id parameters = record {
  id = id;
  generation_checkpoint = checkpoint_of parameters;
  decision_checkpoint = checkpoint_of parameters;
}

-- One candidate that is too large, and two that fit.
abbrev pub catalog : Catalog
catalog = record {
  schema = "kilix.help-llm.candidates/v1";
  candidates =
      candidate_of "huge" (10 ^ 11)
      ∷ candidate_of "small" (2 * 10 ^ 6)
      ∷ candidate_of "tiny" (10 ^ 6)
      ∷ [];
}
