-- ===== src/Sizer/Tests/Chats.antt =====
-- A request for chat models: two are usable, one is too large and one is not installed.
use kilix_system_monitor.Prelude.{
  none, ℕ, ◌*◌, ◌≡◌, refl, String, Bool, true, false, Option, some, List, [], ◌∷◌, map,
}
use kilix_system_monitor.Sizer.Checked.{number, ok, err, invalid_id}
use kilix_system_monitor.Sizer.Resources.{
  Budget, cpu, default_reserves, gib, validate, budgets, check_devices, largest,
}
use kilix_system_monitor.Sizer.Chat.{ChatModel, ChatRequest, report_of, recommend_chat}
use kilix_system_monitor.Sizer.Chat.Usable.{IsReport, recommend_chat-IsUsable}
use kilix_system_monitor.Sizer.Tests.Data.{snapshot, soon}

abbrev model : String → ℕ → ℕ → Bool → ChatModel
model id bytes parameters installed = record {
  id = some id;
  model_bytes = number bytes;
  parameters = number parameters;
  installed = some installed;
  runtime_supported = some true;
}

abbrev models : List ChatModel
models =
    model "org/a" (4 * gib) 4000 true
    ∷ model "org/b" (8 * gib) 8000 true
    ∷ model "org/c" (40 * gib) 40000 true
    ∷ model "org/d" gib 9000 false
    ∷ []

abbrev request : ChatRequest
request = record {
  schema = "kilix.avatar-chat.sizing-request/v1";
  models = some (map (λ m. some m) models);
}

abbrev twice : ChatRequest
twice = record request { models = some (map (λ m. some m) (model "org/a" gib 1 true ∷ models)) }

-- 48 GiB less the reserve of 2 GiB.
abbrev usable_ram : Option ℕ
usable_ram = some (46 * gib)

recommend_chat_run : recommend_chat request snapshot soon ≡ ok (report_of usable_ram models)
unfolding recommend_chat validate budgets check_devices largest
recommend_chat_run = refl

shortlist_run : (report_of usable_ram models).shortlist ≡ "org/b" ∷ "org/a" ∷ []
shortlist_run = refl

repeated_id : recommend_chat twice snapshot soon ≡ err invalid_id
unfolding recommend_chat validate budgets check_devices largest
repeated_id = refl

recommend_chat-IsUsable_example :
    (found : List ChatModel) × (budget : Budget) × (request.models ≡ some (map (λ m. some m) found))
    × (budgets snapshot cpu none soon default_reserves ≡ ok budget)
    × ((report_of usable_ram models).usable_ram_bytes ≡ budget.ram_bytes)
    × IsReport found (report_of usable_ram models)
recommend_chat-IsUsable_example =
    recommend_chat-IsUsable request snapshot soon (report_of usable_ram models) recommend_chat_run
