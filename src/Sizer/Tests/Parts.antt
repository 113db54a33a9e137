-- ===== src/Sizer/Tests/Parts.antt =====
-- Estimates, budgets and checks at concrete inputs.
use kilix_system_monitor.Prelude.{
  ℕ, ◌*◌, ◌≤◌, ◌≡◌, refl, ◌⊎◌, ◌↔◌, true, false, none, some, [], ◌∷◌, All, arith, str_eq,
}
use kilix_system_monitor.Sizer.Checked.{Checked, ok, err, integer, number}
use kilix_system_monitor.Sizer.Resources.{
  validate, check_devices, budgets, largest, Budget, default_reserves, is_fresh, auto, cuda, cpu,
  gib,
}
use kilix_system_monitor.Sizer.Resources.Headroom.{LeavesOf, budgets-ram}
use kilix_system_monitor.Sizer.Resources.Devices.{IsSound, HasUniqueIndex, check_devices-IsSound}
use kilix_system_monitor.Sizer.Geometry.{
  geometry, is_hex_digest, Geometry, recurrent_layers, answer, train, q4, f16,
}
use kilix_system_monitor.Sizer.Geometry.Bounds.{geometry-IsProper, IsProper, HasLinear}
use kilix_system_monitor.Sizer.Estimate.{
  Estimate, estimate, estimate_of, infer_parts, total, with_margin,
}
use kilix_system_monitor.Sizer.Estimate.Peak.{estimate-IsPeak, IsPeak, ChargesPeak, phase_parts}
use kilix_system_monitor.Sizer.Estimate.Quants.{infer_parts-quant, with_quant}
use kilix_system_monitor.Sizer.Catalog.{
  validate_catalog, check_candidates, check_identity, check_files, Candidate,
}
use kilix_system_monitor.Sizer.Catalog.Accepted.{
  validate_catalog-IsIdentified, HasUniqueName, IsIdentifiedPair,
}
use kilix_system_monitor.Sizer.Recommend.{assess, ram, disk, estimated_fit, Requirements}
use kilix_system_monitor.Sizer.Recommend.Verdicts.{assess-Fits, Fits}
use kilix_system_monitor.Sizer.Tests.Data.{catalog, snapshot, workload, soon, device, checkpoint_of}

abbrev budget_in : Checked Budget → Budget
budget_in (ok b) = b
budget_in (err e) = record {
  backend = cpu;
  gpu_index = none;
  fresh = false;
  ram_bytes = none;
  vram_bytes = none;
  disk_bytes = none;
}

abbrev budget_soon : Budget
budget_soon = budget_in (budgets snapshot auto none soon default_reserves)

budget_soon_ok : budgets snapshot auto none soon default_reserves ≡ ok budget_soon
unfolding budgets validate check_devices largest
budget_soon_ok = refl

budget_soon_ram : budget_soon.ram_bytes ≡ some (46 * gib)
unfolding budgets validate check_devices largest
budget_soon_ram = refl

budgets-ram_example :
    (is_fresh snapshot.observed_at soon ≡ true)
    × (str_eq snapshot.cgroup_status "unknown" ≡ false)
    × LeavesOf snapshot.ram_available_bytes default_reserves.ram (46 * gib)
    × ((t : ℕ) × (snapshot.ram_total_bytes ≡ number t) × (46 * gib ≤ t))
budgets-ram_example =
    budgets-ram snapshot auto none soon default_reserves budget_soon (46 * gib) budget_soon_ok
      budget_soon_ram

devices_ok : check_devices (device ∷ []) [] ≡ ok tt
unfolding check_devices
devices_ok = refl

check_devices-IsSound_example : All IsSound (device ∷ []) × HasUniqueIndex (device ∷ [])
check_devices-IsSound_example = check_devices-IsSound (device ∷ []) devices_ok

catalog_ok : validate_catalog catalog ≡ ok tt
unfolding validate_catalog check_candidates check_identity is_hex_digest check_files integer
catalog_ok = refl

validate_catalog-IsIdentified_example :
    HasUniqueName (λ c. Candidate.id c) [] catalog.candidates
    × All IsIdentifiedPair catalog.candidates
validate_catalog-IsIdentified_example = validate_catalog-IsIdentified catalog catalog_ok

abbrev geometry_in : Checked Geometry → Geometry
geometry_in (ok g) = g
geometry_in (err e) = record {
  parameters = 0;
  hidden_size = 0;
  intermediate_size = 0;
  num_hidden_layers = 0;
  num_attention_heads = 0;
  num_key_value_heads = 0;
  head_dim = 0;
  vocab_size = 0;
  max_position_embeddings = 0;
  layer_types = [];
  linear = record {
    num_key_heads = 0;
    num_value_heads = 0;
    key_head_dim = 0;
    value_head_dim = 0;
    conv_kernel_dim = 0;
  };
  attn_output_gate = false;
  checkpoint_bytes = 0;
}

abbrev tiny_geometry : Geometry
tiny_geometry = geometry_in (geometry (checkpoint_of 1000000))

tiny_geometry_ok : geometry (checkpoint_of 1000000) ≡ ok tiny_geometry
unfolding geometry integer is_hex_digest
tiny_geometry_ok = refl

geometry-IsProper_example :
    IsProper tiny_geometry × ((recurrent_layers tiny_geometry ≡ 0) ⊎ HasLinear tiny_geometry.linear)
geometry-IsProper_example = geometry-IsProper (checkpoint_of 1000000) tiny_geometry tiny_geometry_ok

abbrev tiny_estimate : Estimate
tiny_estimate = estimate_of tiny_geometry answer train cuda workload

tiny_estimate_ok : estimate (checkpoint_of 1000000) answer train cuda workload ≡ ok tiny_estimate
unfolding estimate geometry integer is_hex_digest
tiny_estimate_ok = refl

estimate-IsPeak_example :
    (g : Geometry) × (geometry (checkpoint_of 1000000) ≡ ok g)
    × (workload.context ≤ g.max_position_embeddings)
    × ((peak : ℕ) × (total tiny_estimate.breakdown_bytes ≡ peak)
        × IsPeak (phase_parts g answer train cuda workload) peak
        × ChargesPeak g cuda tiny_estimate peak)
estimate-IsPeak_example =
    estimate-IsPeak (checkpoint_of 1000000) answer train cuda workload tiny_estimate
      tiny_estimate_ok

infer_parts-quant_example :
    total (with_margin (infer_parts tiny_geometry answer cuda (with_quant workload q4)))
    ≤ total (with_margin (infer_parts tiny_geometry answer cuda (with_quant workload f16)))
infer_parts-quant_example = infer_parts-quant tiny_geometry cuda workload q4 f16 (omega arith)

abbrev needs : Requirements
needs = (ram, 40 * gib) ∷ (disk, 100 * gib) ∷ []

assess-Fits_example :
    ((assess needs budget_soon).verdict ≡ estimated_fit) ↔ All (Fits budget_soon) needs
assess-Fits_example = assess-Fits needs budget_soon
