-- ===== src/Sizer/Estimate/Quants.antt =====
-- The memory of an answering model by its quantization.
use native.Mathlib.Nat.{mul-le-mul_left}
use kilix_system_monitor.Prelude.{ℕ, ◌-◌, ◌*◌, ◌≤◌, arith, min, if◌then◌else◌}
use kilix_system_monitor.Sizer.Resources.{Backend}
use kilix_system_monitor.Sizer.Geometry.{
  answer, Workload, Geometry, Quant, q4, q8, f16, f32, full_layers,
}
use kilix_system_monitor.Sizer.Estimate.{
  total, with_margin, infer_parts, infer_weights, quantized, is_f32, trainable,
}
use kilix_system_monitor.Sizer.Estimate.Peak.{total-with_margin}

abbrev pub with_quant : Workload → Quant → Workload
with_quant w quant = record {
  task = w.task;
  phase = w.phase;
  context = w.context;
  batch = w.batch;
  lora_rank = w.lora_rank;
  topics = w.topics;
  quant = quant;
  train_backend = w.train_backend;
  infer_backend = w.infer_backend;
  gpu = w.gpu;
  co_resident = w.co_resident;
  checkpointing = w.checkpointing;
  document_bytes = w.document_bytes;
}

-- The order of the quantizations by their width.
abbrev pub bits : Quant → ℕ
bits q4 = 4
bits q8 = 8
bits f16 = 16
bits f32 = 32

quantized-le : (p q : Quant) (n : ℕ) → bits p ≤ bits q → quantized p n ≤ quantized q n
quantized-le q4 q4 n h = omega arith
quantized-le q4 q8 n h = omega arith
quantized-le q4 f16 n h = omega arith
quantized-le q4 f32 n h = omega arith
quantized-le q8 q4 n h = omega (arith, h)
quantized-le q8 q8 n h = omega arith
quantized-le q8 f16 n h = omega arith
quantized-le q8 f32 n h = omega arith
quantized-le f16 q4 n h = omega (arith, h)
quantized-le f16 q8 n h = omega (arith, h)
quantized-le f16 f16 n h = omega arith
quantized-le f16 f32 n h = omega arith
quantized-le f32 q4 n h = omega (arith, h)
quantized-le f32 q8 n h = omega (arith, h)
quantized-le f32 f16 n h = omega (arith, h)
quantized-le f32 f32 n h = omega arith

abbrev byte_width : Quant → ℕ
byte_width q = if is_f32 q then 4 else 2

byte_width-le : (p q : Quant) → bits p ≤ bits q → byte_width p ≤ byte_width q
byte_width-le p f32 h = ground arith
byte_width-le q4 q h = ground arith
byte_width-le q8 q h = ground arith
byte_width-le f16 q h = ground arith
byte_width-le f32 q4 h = omega (arith, h)
byte_width-le f32 q8 h = omega (arith, h)
byte_width-le f32 f16 h = omega (arith, h)

infer_weights-le :
    (g : Geometry) (backend : Backend) (w : Workload) (p q : Quant)
    → bits p ≤ bits q
    → infer_weights g answer backend (with_quant w p)
      ≤ infer_weights g answer backend (with_quant w q)
unfolding infer_weights
infer_weights-le g backend w p q h =
    let embeddings = min g.parameters (2 * g.hidden_size * g.vocab_size) in
    omega (
      arith,
      quantized-le p q (g.parameters - embeddings) h,
      mul-le-mul_left embeddings (byte_width-le p q h),
    )

-- A wider quantization never lowers the memory that an answering model is estimated to need.
pub infer_parts-quant :
    (g : Geometry) (backend : Backend) (w : Workload) (p q : Quant)
    → bits p ≤ bits q
    → total (with_margin (infer_parts g answer backend (with_quant w p)))
      ≤ total (with_margin (infer_parts g answer backend (with_quant w q)))
unfolding infer_parts total trainable
infer_parts-quant g backend w p q h =
    rw (total-with_margin (infer_parts g answer backend (with_quant w p))) (
      rw (total-with_margin (infer_parts g answer backend (with_quant w q))) (
        omega (
          arith,
          infer_weights-le g backend w p q h,
          mul-le-mul_left
              (2 * full_layers g * w.batch * w.context * g.num_key_value_heads * g.head_dim)
              (byte_width-le p q h),
        )))
