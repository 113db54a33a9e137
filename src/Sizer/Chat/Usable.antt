-- ===== src/Sizer/Chat/Usable.antt =====
-- What the shortlist of chat models promises.
use kilix_system_monitor.Prelude.{
  ℕ, suc, ◌+◌, ◌*◌, ◌^◌, ◌≡◌, sym, ap, ◌∙◌, String, ◌≤◌, refl, subst, str_eq, Bool, true, false,
  ◌&&◌, Option, none, some, List, [], ◌∷◌, map, keep, All, All-imp, get_elem?, Bool-cases, inl, inr,
  arith,
}
use kilix_system_monitor.Sizer.Checked.{
  Value, absent, number, other, as_int, >>=-eq-ok, Checked, ok, ◌>>=◌, require, invalid_schema,
}
use kilix_system_monitor.Sizer.Resources.{
  Snapshot, Budget, cpu, default_reserves, validate, budgets,
}
use kilix_system_monitor.Sizer.Recommend.{is_fit, status_of}
use kilix_system_monitor.Sizer.Chat.{
  request_schema, models_of, check_models, report_of, ChatModel, ChatRequest, ChatRow, ChatReport,
  best_id, id_text, check_model, in_range, is_yes, half, chat_row, is_usable, comes_first,
  insert_row, by_size, usable_of, recommend_chat,
}

insert_row-All {ℓ} :
    (P : ChatRow → Type ℓ) (r : ChatRow) (qs : List ChatRow)
    → P r
    → All P qs
    → All P (insert_row r qs)
insert_row-All P r [] h k = (h, tt)
insert_row-All P r (q ∷ qs) h k = elim (Bool-cases (comes_first r q)) [
  | inl e ↦ rw e (h, k)
  | inr e ↦ rw e (k.0, insert_row-All P r qs h k.1)
]

by_size-All {ℓ} : (P : ChatRow → Type ℓ) (rs : List ChatRow) → All P rs → All P (by_size rs)
by_size-All P [] h = tt
by_size-All P (r ∷ rs) h = insert_row-All P r (by_size rs) h.0 (by_size-All P rs h.1)

-- No row before another has fewer parameters.
abbrev NoSmaller : ChatRow → ChatRow → Type 0
NoSmaller r q = q.parameters ≤ r.parameters

abbrev pub IsDescending : List ChatRow → Type 0
IsDescending [] = Unit
IsDescending (r ∷ rs) = All (NoSmaller r) rs × IsDescending rs

first-le : (r q : ChatRow) → comes_first r q ≡ true → q.parameters ≤ r.parameters
first-le r q h = ground arith

behind-le : (r q : ChatRow) → comes_first r q ≡ false → r.parameters ≤ q.parameters
behind-le r q h = ground arith

insert_row-IsDescending :
    (r : ChatRow) (qs : List ChatRow) → IsDescending qs → IsDescending (insert_row r qs)
insert_row-IsDescending r [] h = (tt, tt)
insert_row-IsDescending r (q ∷ qs) (h, inc) = elim (Bool-cases (comes_first r q)) [
  | inl e ↦ rw e (
    (
      first-le r q e,
      All-imp (NoSmaller q) (NoSmaller r) qs (λ p k. omega (arith, first-le r q e, k)) h,
    ),
    (h, inc),
  )
  | inr e ↦
      rw e (insert_row-All (NoSmaller q) r qs (behind-le r q e) h, insert_row-IsDescending r qs inc)
]

by_size-IsDescending : (rs : List ChatRow) → IsDescending (by_size rs)
by_size-IsDescending [] = tt
by_size-IsDescending (r ∷ rs) = insert_row-IsDescending r (by_size rs) (by_size-IsDescending rs)

status_of-half :
    (required : ℕ) (available : Option ℕ)
    → is_fit (status_of required (half available)) ≡ true
    → (usable : ℕ) × (available ≡ some usable) × (2 * required ≤ usable)
status_of-half required none h = cc
status_of-half required (some usable) h = (usable, refl, ground arith)

-- The row of an installed model with a supported runtime: twice its bytes and 512 MiB more fit
-- twice into what is usable.
abbrev pub IsUsable : Option ℕ → List ChatModel → ChatRow → Type 0
IsUsable available models row =
    (j : ℕ) × (m : ChatModel) × (n : ℕ) × (usable : ℕ) × (get_elem? models j ≡ some m)
    × (m.id ≡ some row.id)
    × (m.parameters ≡ number row.parameters)
    × (m.model_bytes ≡ number n)
    × (m.installed ≡ some true)
    × (m.runtime_supported ≡ some true)
    × (available ≡ some usable)
    × (2 * (2 * n + 2 ^ 29) ≤ usable)

IsUsable-suc :
    (available : Option ℕ) (m : ChatModel) (models : List ChatModel) (row : ChatRow)
    → IsUsable available models row
    → IsUsable available (m ∷ models) row
IsUsable-suc available m models row (j, n, bytes, usable, at, rest, e1, e2, e3, e4, e5, e6) =
    (suc j, n, bytes, usable, at, rest, e1, e2, e3, e4, e5, e6)

ok-eq : {A : Type 0} (a b : A) → ◌≡◌ {A = Checked A} (ok a) (ok b) → a ≡ b
ok-eq a b h = cc

and3 : (a b c : Bool) → (a && b && c) ≡ true → (a ≡ true) × (b ≡ true) × (c ≡ true)
and3 true true true h = (refl, refl, refl)
and3 true true false h = cc
and3 true false c h = cc
and3 false b c h = cc

-- What the checks leave of a model.
record IsProper (m : ChatModel) : Type 0 where
  id : m.id ≡ some (id_text m.id)
  parameters : m.parameters ≡ number (as_int m.parameters)
  model_bytes : m.model_bytes ≡ number (as_int m.model_bytes)

in_range-number : (v : Value) (maximum : ℕ) → in_range v maximum ≡ true → v ≡ number (as_int v)
in_range-number (number n) maximum h = refl
in_range-number absent maximum h = cc
in_range-number other maximum h = cc

is_yes-true : (o : Option Bool) → is_yes o ≡ true → o ≡ some true
is_yes-true none h = cc
is_yes-true (some b) h = ap (λ x. some x) h

check_model-IsProper :
    (m : ChatModel) (seen : List String) (o : Option String) (id : String)
    → m.id ≡ o
    → check_model m seen o ≡ ok id
    → IsProper m
check_model-IsProper m seen none id e h = cc
check_model-IsProper m seen (some name) id e h = record {
  id = e ∙ ap (λ o. some (id_text o)) (sym e);
  parameters = in_range-number m.parameters (10 ^ 12) (ground arith);
  model_bytes = in_range-number m.model_bytes (2 ^ 50) (ground arith);
}

-- The models are the entries, in their order, and each is proper.
check_models-IsProper :
    (entries : List (Option ChatModel)) (seen : List String) (models : List ChatModel)
    → check_models entries seen ≡ ok models
    → (entries ≡ map (λ m. some m) models) × All IsProper models
check_models-IsProper [] seen models h =
    subst (λ l. ([] ≡ map (λ m. some m) l) × All IsProper l) (ok-eq [] models h) (refl, tt)
check_models-IsProper (none ∷ entries) seen models h = cc
check_models-IsProper (some m ∷ entries) seen models h =
    let (id, named, h1) =
      >>=-eq-ok (check_model m seen m.id)
        (λ id. check_models entries (id ∷ seen) >>= λ rest. ok (m ∷ rest)) models h in
    let (rest, found, h2) =
      >>=-eq-ok (check_models entries (id ∷ seen)) (λ rest. ok (m ∷ rest)) models h1 in
    let (same, all) = check_models-IsProper entries (id ∷ seen) rest found in
    subst (λ l. (some m ∷ entries ≡ map (λ n. some n) l) × All IsProper l)
      (ok-eq (m ∷ rest) models h2)
      (ap (λ l. some m ∷ l) same, (check_model-IsProper m seen m.id id refl named, all))

models_of-some :
    (o : Option (List (Option ChatModel))) (entries : List (Option ChatModel))
    → models_of o ≡ ok entries
    → o ≡ some entries
models_of-some none entries h = cc
models_of-some (some models) entries h = ground arith

chat_row-IsUsable :
    (available : Option ℕ) (m : ChatModel) (models : List ChatModel)
    → IsProper m
    → is_usable (chat_row available m) ≡ true
    → IsUsable available (m ∷ models) (chat_row available m)
chat_row-IsUsable available m models p h =
    let row = chat_row available m in
    let (installed, supported, fit) =
      and3 row.installed row.runtime_supported (is_fit row.verdict) h in
    let (usable, known, fits) = status_of-half row.required_ram_bytes available fit in
    (
      0,
      m,
      as_int m.model_bytes,
      usable,
      refl,
      p.id,
      p.parameters,
      p.model_bytes,
      is_yes-true m.installed installed,
      is_yes-true m.runtime_supported supported,
      known,
      fits,
    )

keep-IsUsable :
    (available : Option ℕ) (models : List ChatModel)
    → All IsProper models
    → All (IsUsable available models) (keep is_usable (map (chat_row available) models))
keep-IsUsable available [] h = tt
keep-IsUsable available (m ∷ models) (p, h) =
    let rest =
      All-imp (IsUsable available models) (IsUsable available (m ∷ models))
        (keep is_usable (map (chat_row available) models))
        (λ row u. IsUsable-suc available m models row u) (keep-IsUsable available models h) in
    elim (Bool-cases (is_usable (chat_row available m))) [
      | inl e ↦ rw e (chat_row-IsUsable available m models p e, rest)
      | inr e ↦ rw e rest
    ]

-- The rows are those of the models, and the shortlist names the usable ones from the most
-- parameters down.
abbrev pub IsReport : List ChatModel → ChatReport → Type 0
IsReport models r =
    (r.candidates ≡ map (chat_row r.usable_ram_bytes) models)
    × (r.shortlist ≡ map (λ row. ChatRow.id row) (usable_of r.candidates))
    × (r.provisional_candidate ≡ best_id (usable_of r.candidates))
    × All (IsUsable r.usable_ram_bytes models) (usable_of r.candidates)
    × IsDescending (usable_of r.candidates)

report_of-IsReport :
    (available : Option ℕ) (models : List ChatModel)
    → All IsProper models
    → IsReport models (report_of available models)
report_of-IsReport available models h =
    let usable = keep is_usable (map (chat_row available) models) in
    (
      refl,
      refl,
      refl,
      by_size-All (IsUsable available models) usable (keep-IsUsable available models h),
      by_size-IsDescending usable,
    )

-- The report has a row for each model of the request, in its order, and the RAM of the budget that
-- the snapshot leaves. The shortlist names, from the most parameters down, rows of models of the
-- request that are installed, have a supported runtime, and need at most half of that RAM: twice
-- their bytes and 512 MiB more. The provisional candidate is its first.
pub recommend_chat-IsUsable :
    (request : ChatRequest) (s : Snapshot) (now : ℕ) (r : ChatReport)
    → recommend_chat request s now ≡ ok r
    → (models : List ChatModel) × (budget : Budget) × (request.models
        ≡ some (map (λ m. some m) models))
      × (budgets s cpu none now default_reserves ≡ ok budget)
      × (r.usable_ram_bytes ≡ budget.ram_bytes)
      × IsReport models r
unfolding recommend_chat
recommend_chat-IsUsable request s now r h =
    let (_, _, h1) = >>=-eq-ok (validate s) _ r h in
    let (_, _, h2) =
      >>=-eq-ok (require (str_eq request.schema request_schema) invalid_schema) _ r h1 in
    let (entries, listed, h3) = >>=-eq-ok (models_of request.models) _ r h2 in
    let (models, checked, h4) = >>=-eq-ok (check_models entries []) _ r h3 in
    let (budget, made, h5) =
      >>=-eq-ok (budgets s cpu none now default_reserves) (λ b. ok (report_of b.ram_bytes models)) r
        h4 in
    let same = ok-eq (report_of budget.ram_bytes models) r h5 in
    let (entries_are, proper) = check_models-IsProper entries [] models checked in
    (
      models,
      budget,
      models_of-some request.models entries listed ∙ ap (λ l. some l) entries_are,
      made,
      ap (λ x. ChatReport.usable_ram_bytes x) (sym same),
      subst (IsReport models) same (report_of-IsReport budget.ram_bytes models proper),
    )
