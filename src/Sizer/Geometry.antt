-- ===== src/Sizer/Geometry.antt =====
-- `Workload`, `geometry` and `parameter_shapes` of estimate.py: the inputs of an estimate.
pub mod Bounds
use Prim.Native.Char.{code}
use Prim.Native.String
use kilix_system_monitor.Prelude.{
  ℕ, suc, ◌+◌, ◌-◌, ◌*◌, ◌^◌, String, Bool, true, false, not, ◌&&◌, ◌||◌, Option, none, some, List,
  [], ◌∷◌, leb, ◌==◌, str_eq, any, all, length, if◌then◌else◌,
}
use kilix_system_monitor.Sizer.Checked.{
  Value, Error, missing_sizing, unbound_config, invalid_digest, unsupported_architecture,
  excess_heads, layer_mismatch, unsupported_layer, unsupported_recurrent, invalid_gate, Checked, ok,
  err, ◌>>=◌, ◌>>◌, require, integer,
}
use kilix_system_monitor.Sizer.Resources.{Backend}

pub data Task : Type 0 where
  answer rank both_tasks : Task

pub data Phase : Type 0 where
  train infer both_phases : Phase

pub data Quant : Type 0 where
  q4 q8 f16 f32 : Quant

-- The choices are enumerations, so only the numbers are left to check.
pub record Workload : Type 0 where
  pub task : Task
  pub phase : Phase
  pub context : ℕ
  pub batch : ℕ
  pub lora_rank : ℕ
  pub topics : ℕ
  pub quant : Quant
  pub train_backend : Backend
  pub infer_backend : Backend
  pub gpu : Option ℕ
  pub co_resident : Bool
  pub checkpointing : Bool
  pub document_bytes : ℕ

abbrev check_gpu : Option ℕ → Checked (Unit {0})
check_gpu none = ok tt
check_gpu (some g) = do _ ← integer (Value.number g) "gpu" 255 0; ok tt

-- `Workload.__post_init__`
unfoldable pub check_workload : Workload → Checked (Unit {0})
check_workload w = do
  _ ← integer (Value.number w.context) "context" 1048576 1
  _ ← integer (Value.number w.batch) "batch" 256 1
  _ ← integer (Value.number w.lora_rank) "lora_rank" 1024 1
  _ ← integer (Value.number w.topics) "topics" 65536 1
  _ ← integer (Value.number w.document_bytes) "document_bytes" (2 ^ 60) 0
  check_gpu w.gpu

-- The flag of the attention gate: missing counts as false.
pub data Gate : Type 0 where
  no_gate : Gate
  gate : Bool → Gate
  invalid : Gate

-- The `sizing` object of a checkpoint, as read.
pub record Sizing : Type 0 where
  pub config_sha256 : String
  pub model_type : String
  pub parameters : Value
  pub hidden_size : Value
  pub intermediate_size : Value
  pub num_hidden_layers : Value
  pub num_attention_heads : Value
  pub num_key_value_heads : Value
  pub head_dim : Value
  pub vocab_size : Value
  pub max_position_embeddings : Value
  pub layer_types : List String
  pub linear_num_key_heads : Value
  pub linear_num_value_heads : Value
  pub linear_key_head_dim : Value
  pub linear_value_head_dim : Value
  pub linear_conv_kernel_dim : Value
  pub attn_output_gate : Gate

pub record WeightFile : Type 0 where
  pub path : String
  pub bytes : Value
  pub sha256 : String

pub record Checkpoint : Type 0 where
  pub model_id : String
  pub revision : String
  pub config_sha256 : String
  pub checkpoint_files : List WeightFile
  pub checkpoint_bytes : Value
  pub sizing : Option Sizing

-- The five numbers of the recurrent layers; all 0 where no layer is recurrent.
pub record Linear : Type 0 where
  pub num_key_heads : ℕ
  pub num_value_heads : ℕ
  pub key_head_dim : ℕ
  pub value_head_dim : ℕ
  pub conv_kernel_dim : ℕ

abbrev no_linear : Linear
no_linear = record {
  num_key_heads = 0;
  num_value_heads = 0;
  key_head_dim = 0;
  value_head_dim = 0;
  conv_kernel_dim = 0;
}

-- What the estimate reads once the checks have passed.
pub record Geometry : Type 0 where
  pub parameters : ℕ
  pub hidden_size : ℕ
  pub intermediate_size : ℕ
  pub num_hidden_layers : ℕ
  pub num_attention_heads : ℕ
  pub num_key_value_heads : ℕ
  pub head_dim : ℕ
  pub vocab_size : ℕ
  pub max_position_embeddings : ℕ
  pub layer_types : List String
  pub linear : Linear
  pub attn_output_gate : Bool
  pub checkpoint_bytes : ℕ

abbrev pub codes : String → List ℕ
codes String.[] = []
codes (String.◌∷◌ c s) = code c ∷ codes s

-- [0-9a-f]{n}
unfoldable pub is_hex_digest : ℕ → String → Bool
is_hex_digest n s =
    length (codes s) == n
    && all (λ c. (leb b'0' c && leb c b'9') || (leb b'a' c && leb c b'f')) (codes s)

abbrev is_architecture : String → Bool
is_architecture name =
    any (λ known. str_eq name known) ("qwen3" ∷ "qwen3_5_text" ∷ "llama" ∷ "smollm3" ∷ [])

abbrev pub is_layer : String → Bool
is_layer name = str_eq name "full_attention" || str_eq name "linear_attention"

abbrev pub is_recurrent : List String → Bool
is_recurrent = any (λ layer. str_eq layer "linear_attention")

-- The numbers that only a recurrent architecture has.
abbrev pub linear_part : Sizing → Checked Linear
linear_part g =
    if is_recurrent g.layer_types
    then (do
      require (str_eq g.model_type "qwen3_5_text") unsupported_recurrent
      kh ← integer g.linear_num_key_heads "linear_num_key_heads" 4096 1
      vh ← integer g.linear_num_value_heads "linear_num_value_heads" 4096 1
      kd ← integer g.linear_key_head_dim "linear_key_head_dim" 4096 1
      vd ← integer g.linear_value_head_dim "linear_value_head_dim" 4096 1
      cd ← integer g.linear_conv_kernel_dim "linear_conv_kernel_dim" 4096 1
      ok (record {
        num_key_heads = kh;
        num_value_heads = vh;
        key_head_dim = kd;
        value_head_dim = vd;
        conv_kernel_dim = cd;
      }))
    else ok no_linear

abbrev gate_part : Gate → Checked Bool
gate_part no_gate = ok false
gate_part (gate b) = ok b
gate_part invalid = err invalid_gate

abbrev pub sizing_part : Option Sizing → Checked Sizing
sizing_part none = err missing_sizing
sizing_part (some g) = ok g

-- `geometry`
unfoldable pub geometry : Checkpoint → Checked Geometry
geometry checkpoint = do
  g ← sizing_part checkpoint.sizing
  require (str_eq g.config_sha256 checkpoint.config_sha256) unbound_config
  require (is_hex_digest 64 g.config_sha256) invalid_digest
  require (is_architecture g.model_type) unsupported_architecture
  parameters ← integer g.parameters "parameters" (10 ^ 12) 1
  hidden_size ← integer g.hidden_size "hidden_size" 65536 1
  intermediate_size ← integer g.intermediate_size "intermediate_size" 262144 1
  layers ← integer g.num_hidden_layers "num_hidden_layers" 256 1
  heads ← integer g.num_attention_heads "num_attention_heads" 1024 1
  kv_heads ← integer g.num_key_value_heads "num_key_value_heads" 1024 1
  head_dim ← integer g.head_dim "head_dim" 4096 1
  vocab_size ← integer g.vocab_size "vocab_size" 1048576 1
  positions ← integer g.max_position_embeddings "max_position_embeddings" 1048576 1
  require (leb kv_heads heads) excess_heads
  require (length g.layer_types == layers) layer_mismatch
  require (all is_layer g.layer_types) unsupported_layer
  linear ← linear_part g
  gated ← gate_part g.attn_output_gate
  bytes ← integer checkpoint.checkpoint_bytes "checkpoint_bytes" (2 ^ 50) 1
  ok (record {
    parameters = parameters;
    hidden_size = hidden_size;
    intermediate_size = intermediate_size;
    num_hidden_layers = layers;
    num_attention_heads = heads;
    num_key_value_heads = kv_heads;
    head_dim = head_dim;
    vocab_size = vocab_size;
    max_position_embeddings = positions;
    layer_types = g.layer_types;
    linear = linear;
    attn_output_gate = gated;
    checkpoint_bytes = bytes;
  })

-- `layer_types.count("full_attention")`
abbrev pub count_full : List String → ℕ
count_full [] = 0
count_full (layer ∷ layers) =
    if str_eq layer "full_attention" then suc (count_full layers) else count_full layers

-- The layers with full attention, and the others.
abbrev pub full_layers : Geometry → ℕ
full_layers g = count_full g.layer_types

abbrev pub recurrent_layers : Geometry → ℕ
recurrent_layers g = g.num_hidden_layers - full_layers g

-- LoRA parameters, recurrent state and convolution cache elements.
pub record Shapes : Type 0 where
  pub lora : ℕ
  pub state : ℕ
  pub conv : ℕ

-- `parameter_shapes`
unfoldable pub parameter_shapes : Geometry → ℕ → Shapes
parameter_shapes g lora_rank =
    let h = g.hidden_size in
    let full = full_layers g in
    let recurrent = recurrent_layers g in
    let q = g.num_attention_heads * g.head_dim in
    let kv = g.num_key_value_heads * g.head_dim in
    let dense =
      full * (4 * h + (if g.attn_output_gate then 3 else 2) * q + 2 * kv)
      + g.num_hidden_layers * 3 * (h + g.intermediate_size) in
    let keys = g.linear.num_key_heads * g.linear.key_head_dim in
    let values = g.linear.num_value_heads * g.linear.value_head_dim in
    if recurrent == 0 then record { lora = dense * lora_rank; state = 0; conv = 0 } else record {
      lora =
          (dense + recurrent * (5 * h + 2 * keys + 3 * values + 2 * g.linear.num_value_heads))
          * lora_rank;
      state = g.linear.num_value_heads * g.linear.key_head_dim * g.linear.value_head_dim;
      conv = (2 * keys + values) * g.linear.conv_kernel_dim;
    }
