-- ===== src/Sizer/Estimate.antt =====
-- `estimate` and `assess` of estimate.py: the planning arithmetic. Python's integers are unbounded,
-- and every quantity is non-negative.
pub mod Peak
pub mod Quants
use kilix_system_monitor.Prelude.{
  ℕ, ◌+◌, ◌-◌, ◌*◌, ◌/◌, ◌^◌, String, Bool, true, false, ◌&&◌, Option, none, some, List, [], ◌∷◌,
  ◌++◌, ltb, leb, min, max, any, if◌then◌else◌,
}
use kilix_system_monitor.Sizer.Checked.{Checked, ok, err, context_too_long, ◌>>=◌, ◌>>◌, require}
use kilix_system_monitor.Sizer.Resources.{gib, Backend, cpu, cuda, auto}
use kilix_system_monitor.Sizer.Geometry.{
  Task, answer, rank, both_tasks, Phase, train, infer, both_phases, Quant, q4, q8, f16, f32,
  Workload, Checkpoint, Geometry, geometry, full_layers, recurrent_layers, Shapes, parameter_shapes,
}

abbrev is_rank : Task → Bool
is_rank rank = true
is_rank answer = false
is_rank both_tasks = false

abbrev pub is_answer : Task → Bool
is_answer answer = true
is_answer rank = false
is_answer both_tasks = false

abbrev is_cpu : Backend → Bool
is_cpu cpu = true
is_cpu cuda = false
is_cpu auto = false

abbrev pub is_cuda : Backend → Bool
is_cuda cuda = true
is_cuda cpu = false
is_cuda auto = false

abbrev pub is_train : Phase → Bool
is_train train = true
is_train infer = false
is_train both_phases = false

abbrev is_f32 : Quant → Bool
is_f32 f32 = true
is_f32 q4 = false
is_f32 q8 = false
is_f32 f16 = false

-- Bytes for `n` weights, rounded up.
abbrev pub quantized : Quant → ℕ → ℕ
quantized q4 n = (n * 3 + 4 - 1) / 4
quantized q8 n = (n * 9 + 8 - 1) / 8
quantized f16 n = (n * 2 + 1 - 1) / 1
quantized f32 n = (n * 4 + 1 - 1) / 1

-- The parts of an estimate, in the order in which they are entered.
abbrev pub Parts : Type 0
Parts = List (String × ℕ)

unfoldable pub total : Parts → ℕ
total [] = 0
total ((name, bytes) ∷ parts) = bytes + total parts

-- The scoring head of a ranker, with the adapter.
unfoldable pub trainable : Geometry → Task → Workload → ℕ
trainable g task w =
    (parameter_shapes g w.lora_rank).lora
    + (if is_rank task then (g.hidden_size + 1) * w.topics else 0)

abbrev pub width : Backend → ℕ
width backend = if is_cpu backend then 4 else 2

-- `parts` of the training phase.
unfoldable pub train_parts : Geometry → Task → Backend → Workload → Parts
train_parts g task backend w =
    let h = g.hidden_size in
    let inter = g.intermediate_size in
    let layers = g.num_hidden_layers in
    let seq = w.context in
    let live = if w.checkpointing then 1 else layers in
    ("frozen_weights", max (g.parameters * width backend) g.checkpoint_bytes)
    ∷ ("adapter_and_optimizer", trainable g task w * 16)
    ∷ ("saved_activations", w.batch * seq * h * layers * width backend)
    ∷ ("layer_workspace", w.batch * seq * (12 * h + 6 * inter) * width backend * live)
    ∷ (
      "attention_workspace",
      w.batch
          * g.num_attention_heads
          * (seq * seq)
          * 8
          * (if w.checkpointing then 1 else full_layers g),
    )
    ∷ (
      "recurrent_workspace",
      w.batch
          * seq
          * (parameter_shapes g w.lora_rank).state
          * 4
          * (if w.checkpointing then 1 else recurrent_layers g),
    )
    ∷ ("output_and_loss", w.batch * seq * (if is_answer task then g.vocab_size else w.topics) * 8)
    ∷ []

-- The weights that inference holds: an answering model is quantized except for its embeddings.
unfoldable pub infer_weights : Geometry → Task → Backend → Workload → ℕ
infer_weights g task backend w =
    let embeddings = min g.parameters (2 * g.hidden_size * g.vocab_size) in
    if is_answer task
    then embeddings * (if is_f32 w.quant then 4 else 2)
      + quantized w.quant (g.parameters - embeddings)
    else max (g.parameters * width backend) g.checkpoint_bytes

abbrev pub kv_width : Task → Backend → Workload → ℕ
kv_width task backend w =
    if is_answer task then (if is_f32 w.quant then 4 else 2) else width backend

-- `parts` of the inference phase.
unfoldable pub infer_parts : Geometry → Task → Backend → Workload → Parts
infer_parts g task backend w =
    let h = g.hidden_size in
    let seq = w.context in
    let chunk = if is_answer task then min seq 512 else seq in
    let shapes = parameter_shapes g w.lora_rank in
    ("weights", infer_weights g task backend w)
    ∷ ("adapter_and_head", trainable g task w * 4)
    ∷ (
      "kv_cache",
      2
          * full_layers g
          * w.batch
          * seq
          * g.num_key_value_heads
          * g.head_dim
          * kv_width task backend w,
    )
    ∷ (
      "recurrent_cache",
      recurrent_layers g * w.batch * (shapes.state * 4 + shapes.conv * width backend),
    )
    ∷ ("prefill_workspace", w.batch * chunk * (12 * h + 6 * g.intermediate_size) * width backend)
    ∷ ("attention_workspace", w.batch * g.num_attention_heads * (chunk * chunk) * 8)
    ∷ ("output", w.batch * chunk * (if is_answer task then g.vocab_size else w.topics) * 4)
    ∷ []

-- The allowance for the runtime and the margin, a quarter of the sum rounded up.
unfoldable pub with_margin : Parts → Parts
with_margin parts =
    let base = parts ++ ("runtime_allowance", gib / 2) ∷ [] in
    base ++ ("uncertainty_margin", (total base + 3) / 4) ∷ []

pub record Estimate : Type 0 where
  pub task : Task
  pub phase : Phase
  pub backend : Backend
  pub parameters : ℕ
  pub trainable_parameters : ℕ
  pub breakdown_bytes : Parts
  pub ram_peak_bytes : ℕ
  pub vram_peak_bytes : ℕ
  pub disk_bytes : ℕ

-- The estimate of accepted inputs.
unfoldable pub estimate_of : Geometry → Task → Phase → Backend → Workload → Estimate
estimate_of g task phase backend w =
    let parts =
      with_margin
        (if is_train phase then train_parts g task backend w else infer_parts g task backend w) in
    let peak = total parts in
    let staging = max g.checkpoint_bytes (g.parameters * 4) + gib in
    record {
      task = task;
      phase = phase;
      backend = backend;
      parameters = g.parameters;
      trainable_parameters = trainable g task w;
      breakdown_bytes = parts;
      ram_peak_bytes = if is_cuda backend then staging else peak + g.checkpoint_bytes;
      vram_peak_bytes = if is_cuda backend then peak else 0;
      disk_bytes = 3 * g.checkpoint_bytes + trainable g task w * 16 * 3;
    }

-- `estimate`
unfoldable pub estimate : Checkpoint → Task → Phase → Backend → Workload → Checked Estimate
estimate checkpoint task phase backend w = do
  g ← geometry checkpoint
  require (leb w.context g.max_position_embeddings) context_too_long
  ok (estimate_of g task phase backend w)
