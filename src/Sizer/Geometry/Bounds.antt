-- ===== src/Sizer/Geometry/Bounds.antt =====
-- What an accepted geometry satisfies.
use kilix_system_monitor.Prelude.{
  ℕ, ◌≤◌, ◌≡◌, refl, String, true, false, Option, none, some, List, [], ◌∷◌, arith, leb, ◌==◌, all,
  length, Bool-cases, inl, inr, ◌⊎◌, ◌^◌, ==_iff, leb→le, ap, ◌∙◌, ◌+◌,
}
use kilix_system_monitor.Sizer.Checked.{Value, Checked, ok, ◌>>=◌, integer, integer_ok}
use kilix_system_monitor.Sizer.Geometry.{
  Checkpoint, Sizing, Linear, linear_part, sizing_part, Geometry, geometry, count_full, full_layers,
  recurrent_layers, is_layer, is_recurrent,
}

count_full-le : (layers : List String) → count_full layers ≤ length layers
count_full-le [] = omega arith
count_full-le (layer ∷ layers) = ground (arith, count_full-le layers)

-- Without a recurrent layer every known layer is one of full attention.
all-full :
    (layers : List String)
    → all is_layer layers ≡ true
    → is_recurrent layers ≡ false
    → count_full layers ≡ length layers
all-full [] h k = refl
all-full (layer ∷ layers) h k = ground (arith, all-full layers)

-- A positive number up to a limit.
abbrev pub InRange : ℕ → ℕ → Type 0
InRange n maximum = (1 ≤ n) × (n ≤ maximum)

-- The checks that the numbers of an accepted geometry passed.
module _ (checkpoint : Checkpoint) (z : Sizing) (g : Geometry)
    (e : sizing_part checkpoint.sizing ≡ ok z) (h : geometry checkpoint ≡ ok g) where
  checked-linear : linear_part z ≡ ok g.linear
  unfolding geometry
  checked-linear = ground arith

  checked-layer_types : z.layer_types ≡ g.layer_types
  unfolding geometry
  checked-layer_types = ground arith

  checked-parameters : integer z.parameters "parameters" (10 ^ 12) 1 ≡ ok g.parameters
  unfolding geometry
  checked-parameters = ground arith

  checked-bytes :
      integer checkpoint.checkpoint_bytes "checkpoint_bytes" (2 ^ 50) 1 ≡ ok g.checkpoint_bytes
  unfolding geometry
  checked-bytes = ground arith

  checked-hidden_size : integer z.hidden_size "hidden_size" 65536 1 ≡ ok g.hidden_size
  unfolding geometry
  checked-hidden_size = ground arith

  checked-intermediate_size :
      integer z.intermediate_size "intermediate_size" 262144 1 ≡ ok g.intermediate_size
  unfolding geometry
  checked-intermediate_size = ground arith

  checked-num_hidden_layers :
      integer z.num_hidden_layers "num_hidden_layers" 256 1 ≡ ok g.num_hidden_layers
  unfolding geometry
  checked-num_hidden_layers = ground arith

  checked-num_attention_heads :
      integer z.num_attention_heads "num_attention_heads" 1024 1 ≡ ok g.num_attention_heads
  unfolding geometry
  checked-num_attention_heads = ground arith

  checked-num_key_value_heads :
      integer z.num_key_value_heads "num_key_value_heads" 1024 1 ≡ ok g.num_key_value_heads
  unfolding geometry
  checked-num_key_value_heads = ground arith

  checked-head_dim : integer z.head_dim "head_dim" 4096 1 ≡ ok g.head_dim
  unfolding geometry
  checked-head_dim = ground arith

  checked-vocab_size : integer z.vocab_size "vocab_size" 1048576 1 ≡ ok g.vocab_size
  unfolding geometry
  checked-vocab_size = ground arith

  checked-max_position_embeddings :
      integer z.max_position_embeddings "max_position_embeddings" 1048576 1
      ≡ ok g.max_position_embeddings
  unfolding geometry
  checked-max_position_embeddings = ground arith

  checked-heads : leb g.num_key_value_heads g.num_attention_heads ≡ true
  unfolding geometry
  checked-heads = ground arith

  checked-count : (length g.layer_types == g.num_hidden_layers) ≡ true
  unfolding geometry
  checked-count = ground arith

  checked-layers : all is_layer g.layer_types ≡ true
  unfolding geometry
  checked-layers = ground arith

in_range :
    (v : Value) (name : String) (maximum n : ℕ)
    → integer v name maximum 1 ≡ ok n
    → InRange n maximum
in_range v name maximum n h = let (_, low, high) = integer_ok v name maximum 1 n h in (low, high)

linear-HasLinear :
    (z : Sizing) (l : Linear)
    → linear_part z ≡ ok l
    → is_recurrent z.layer_types ≡ true
    → InRange l.num_key_heads 4096
      × InRange l.num_value_heads 4096
      × InRange l.key_head_dim 4096
      × InRange l.value_head_dim 4096
      × InRange l.conv_kernel_dim 4096
linear-HasLinear z l h k =
    let c0 : integer z.linear_num_key_heads "linear_num_key_heads" 4096 1 ≡ ok l.num_key_heads =
      ground arith in
    let c1 : integer z.linear_num_value_heads "linear_num_value_heads" 4096 1
        ≡ ok l.num_value_heads =
      ground arith in
    let c2 : integer z.linear_key_head_dim "linear_key_head_dim" 4096 1 ≡ ok l.key_head_dim =
      ground arith in
    let c3 : integer z.linear_value_head_dim "linear_value_head_dim" 4096 1 ≡ ok l.value_head_dim =
      ground arith in
    let c4 : integer z.linear_conv_kernel_dim "linear_conv_kernel_dim" 4096 1
        ≡ ok l.conv_kernel_dim =
      ground arith in
    (
      in_range _ _ _ _ c0,
      in_range _ _ _ _ c1,
      in_range _ _ _ _ c2,
      in_range _ _ _ _ c3,
      in_range _ _ _ _ c4,
    )

-- What the arithmetic of an estimate relies on.
abbrev pub IsProper : Geometry → Type 0
IsProper g =
    InRange g.parameters (10 ^ 12)
    × InRange g.checkpoint_bytes (2 ^ 50)
    × InRange g.hidden_size 65536
    × InRange g.intermediate_size 262144
    × InRange g.num_hidden_layers 256
    × InRange g.num_attention_heads 1024
    × InRange g.num_key_value_heads 1024
    × InRange g.head_dim 4096
    × InRange g.vocab_size 1048576
    × InRange g.max_position_embeddings 1048576
    × (g.num_key_value_heads ≤ g.num_attention_heads)
    × (full_layers g + recurrent_layers g ≡ g.num_hidden_layers)

abbrev pub HasLinear : Linear → Type 0
HasLinear l =
    InRange l.num_key_heads 4096
    × InRange l.num_value_heads 4096
    × InRange l.key_head_dim 4096
    × InRange l.value_head_dim 4096
    × InRange l.conv_kernel_dim 4096

has_sizing :
    (o : Option Sizing) (f : Sizing → Checked Geometry) (g : Geometry)
    → (sizing_part o >>= f) ≡ ok g
    → (z : Sizing) × (sizing_part o ≡ ok z)
has_sizing none f g h = cc
has_sizing (some z) f g h = (z, refl)

geometry-sizing :
    (checkpoint : Checkpoint) (g : Geometry)
    → geometry checkpoint ≡ ok g
    → (z : Sizing) × (sizing_part checkpoint.sizing ≡ ok z)
unfolding geometry
geometry-sizing checkpoint g h = has_sizing checkpoint.sizing _ g h

-- In an accepted geometry the layers divide into full and recurrent ones, every size is positive
-- and within its own limit, and where a layer is recurrent so are all five numbers of the recurrent
-- layers.
pub geometry-IsProper :
    (checkpoint : Checkpoint) (g : Geometry)
    → geometry checkpoint ≡ ok g
    → IsProper g × ((recurrent_layers g ≡ 0) ⊎ HasLinear g.linear)
geometry-IsProper checkpoint g h =
    let (z, e) = geometry-sizing checkpoint g h in
    let linear = checked-linear checkpoint z g e h in
    let layers = checked-layer_types checkpoint z g e h in
    let parameters = checked-parameters checkpoint z g e h in
    let bytes = checked-bytes checkpoint z g e h in
    let heads = checked-heads checkpoint z g e h in
    let count = checked-count checkpoint z g e h in
    let known = checked-layers checkpoint z g e h in
    let same = (==_iff _ _).0 count in
    (
      (
        in_range _ _ _ _ parameters,
        in_range _ _ _ _ bytes,
        in_range _ _ _ _ (checked-hidden_size checkpoint z g e h),
        in_range _ _ _ _ (checked-intermediate_size checkpoint z g e h),
        in_range _ _ _ _ (checked-num_hidden_layers checkpoint z g e h),
        in_range _ _ _ _ (checked-num_attention_heads checkpoint z g e h),
        in_range _ _ _ _ (checked-num_key_value_heads checkpoint z g e h),
        in_range _ _ _ _ (checked-head_dim checkpoint z g e h),
        in_range _ _ _ _ (checked-vocab_size checkpoint z g e h),
        in_range _ _ _ _ (checked-max_position_embeddings checkpoint z g e h),
        leb→le _ _ heads,
        omega (arith, same, count_full-le g.layer_types),
      ),
      elim (Bool-cases (is_recurrent g.layer_types)) [
        | inl r ↦ inr (linear-HasLinear z g.linear linear (ap is_recurrent layers ∙ r))
        | inr r ↦ inl (omega (arith, same, all-full g.layer_types known r))
      ],
    )
