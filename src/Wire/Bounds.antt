-- ===== src/Wire/Bounds.antt =====
-- Whatever `from_dict` reads is within the bounds of the wire format.
mod Parts
mod Records
use kilix_system_monitor.Prelude.{
  ℕ, ◌≤◌, ◌≡◌, refl, sym, ◌∙◌, ap, subst, min, max, Bool, true, false, Option, none, some, List, [],
  ◌∷◌, All, length, arith, ◌==◌, ==_iff, Bool-cases, inl, inr,
}
use kilix_system_monitor.Prelude.Int.{ℤ, pos, negsuc}
use kilix_system_monitor.Json.{
  Json, str, arr, obj, Items, nil, cons, Fields, Float, real, Outcome, ok, raised, ◌>>=◌, ◌>>◌,
  >>=-eq-ok, >>=-elim, Conversions, get, get_or, type_error, value_error,
}
use kilix_system_monitor.Json.Text.{text_length-take_text}
use kilix_system_monitor.Wire.{
  ThermalSensor, FanSensor, ProcessMetrics, SystemMetrics, PaneMetrics, Snapshot,
}
use kilix_system_monitor.Wire.Proper.{
  IsThermal, IsFan, IsProcess, IsSystem, IsProper, IsNonnegative,
}
use kilix_system_monitor.Wire.Read.{
  zero_float, finite_float, nonnegative, positive, optional_float, optional_number, percent,
  read_pressure, read_counters, optional_floats, at_least, at_most, fields_of, items_of,
  schema_version,
}
use kilix_system_monitor.Wire.Read.Records.{
  read_process, read_fan, read_pane, read_thermal, read_system, read_records, read_record,
  from_dict, or_raise, demand,
}
use kilix_system_monitor.Wire.Bounds.Parts
use kilix_system_monitor.Wire.Bounds.Records.{
  IsThermal-bounds, IsFan-bounds, IsProcess-bounds, system-bounds, pane-bounds,
}

module _ (c : Conversions) where
  record-All :
      {A : Type 0} (P : A → Type 0) (read : Fields → Outcome A) (value : Json)
      (rest : Outcome (List A)) (xs : List A)
      → ((fields : Fields) (a : A) → read fields ≡ ok a → P a)
      → ((others : List A) → rest ≡ ok others → All P others)
      → read_record c read value rest ≡ ok xs
      → All P xs
  record-All P read (obj fields) rest xs sound before h =
      let (a, at, h1) = >>=-eq-ok (read fields) _ xs h in
      let (others, at_rest, h2) = >>=-eq-ok rest _ xs h1 in
      subst (All P) (Parts.ok-injective _ _ h2) (sound fields a at, before others at_rest)
  record-All P read value rest xs sound before h = before xs h

  records-All :
      {A : Type 0} (P : A → Type 0) (read : Fields → Outcome A) (items : Items) (xs : List A)
      → ((fields : Fields) (a : A) → read fields ≡ ok a → P a)
      → read_records c read items ≡ ok xs
      → All P xs
  records-All P read nil xs sound h = subst (All P) (Parts.ok-injective _ _ h) tt
  records-All P read (cons value items) xs sound h =
      record-All P read value (read_records c read items) xs sound
        (λ others at. records-All P read items others sound at) h

  schema-checked :
      (n : ℕ) (u : Unit {0}) → demand c (n == schema_version) value_error ≡ ok u → n ≡ 1
  schema-checked n u h = elim (Bool-cases (n == 1)) [
    | inl e ↦ (==_iff n 1).0 e
    | inr e ↦ absurd (ground arith)
  ]

  -- Whatever dictionary `from_dict` accepts, the snapshot that it reads is within the bounds of the
  -- wire format.
  pub from_dict-IsProper : (value : Fields) (s : Snapshot) → from_dict c value ≡ ok s → IsProper s
  unfolding from_dict
  from_dict-IsProper value s h = >>=-elim (nonnegative c (get "schema" value)) _ s h λ schema _ h1.
      >>=-elim (demand c (schema == schema_version) value_error) _ s h1 λ u checked h2.
        >>=-elim (or_raise c (fields_of (get "system" value))) _ s h2 λ raw_system _ h3.
          >>=-elim (or_raise c (items_of (get_or "thermal" (arr nil) value))) _ s h3
            λ raw_thermal _ h4.
              >>=-elim (or_raise c (items_of (get_or "processes" (arr nil) value))) _ s h4
                λ raw_processes _ h5.
                  >>=-elim (or_raise c (items_of (get_or "fans" (arr nil) value))) _ s h5
                    λ raw_fans _ h6.
                      >>=-elim (or_raise c (items_of (get_or "panes" (arr nil) value))) _ s h6
                        λ raw_panes _ h7.
                          >>=-elim (read_records c (read_process c) raw_processes) _ s h7
                            λ processes at_processes h8.
                              >>=-elim (nonnegative c (get "sequence" value)) _ s h8
                                λ sequence _ h9.
                                  >>=-elim (nonnegative c (get "wall_time_ns" value)) _ s h9
                                    λ wall_time_ns _ h10.
                                      >>=-elim (nonnegative c (get "monotonic_ns" value)) _ s h10
                                        λ monotonic_ns _ h11.
                                          >>=-elim (nonnegative c (get "interval_ns" value)) _ s h11
                                            λ interval_ns _ h12.
                                              >>=-elim (read_system c raw_system) _ s h12
                                                λ system at_system h13.
                                                  >>=-elim
                                                    (read_records c (read_thermal c) raw_thermal) _
                                                    s h13
                                                    λ thermal at_thermal h14.
                                                      >>=-elim
                                                        (read_records c (read_fan c) raw_fans) _ s
                                                        h14
                                                        λ fans at_fans h15.
                                                          >>=-elim
                                                            (read_records c (read_pane c) raw_panes)
                                                            _ s h15
                                                            λ panes at_panes h16.
                                                            >>=-elim
                                                            (nonnegative c
                                                            (get "processes_total" value))
                                                            _ s h16
                                                            λ total _ h17.
                                                            subst IsProper
                                                            (Parts.ok-injective _ _ h17)
                                                            (record {
                                                            schema =
                                                            schema-checked schema u checked;
                                                            boot_id = text_length-take_text 128 _;
                                                            system =
                                                            (system-bounds c) raw_system system
                                                            at_system;
                                                            thermal =
                                                            records-All IsThermal (read_thermal c)
                                                            raw_thermal thermal (IsThermal-bounds c)
                                                            at_thermal;
                                                            processes =
                                                            records-All IsProcess (read_process c)
                                                            raw_processes processes
                                                            (IsProcess-bounds c) at_processes;
                                                            fans =
                                                            records-All IsFan (read_fan c) raw_fans
                                                            fans (IsFan-bounds c) at_fans;
                                                            panes =
                                                            records-All _ (read_pane c) raw_panes
                                                            panes (pane-bounds c) at_panes;
                                                            total = omega arith;
                                                            })
