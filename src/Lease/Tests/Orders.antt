-- ===== src/Lease/Tests/Orders.antt =====
-- Runs of `order` and its laws at a queue of three.
use kilix_system_monitor.Prelude.{String, ◌≡◌, refl, List, [], ◌∷◌, map}
use kilix_system_monitor.Lease.Entry.{llm_turn, Entry}
use kilix_system_monitor.Lease.Order.{order, of_kind, sort_sequence, rounds, following}
use kilix_system_monitor.Lease.Order.Turns.{Serves}
use kilix_system_monitor.Lease.Order.Complete.{order-of_kind}
use kilix_system_monitor.Lease.Order.Wait.{order-Serves}
use kilix_system_monitor.Lease.Schema.{is_valid, is_token, is_label, is_entry, is_grant}
use kilix_system_monitor.Lease.Tests.Data.{
  ticket_a, ticket_b, ticket_c, entry_of, queue_abc, busy_state,
}

abbrev tickets_of : List Entry → List String
tickets_of = map (λ e. e.ticket)

-- After an stt job comes an llm turn, then a tts utterance.
order_run : tickets_of (order busy_state) ≡ ticket_c ∷ ticket_b ∷ ticket_a ∷ []
unfolding order rounds following sort_sequence
order_run = refl

order-of_kind_example :
    of_kind llm_turn (order busy_state) ≡ sort_sequence (of_kind llm_turn queue_abc)
order-of_kind_example = order-of_kind busy_state llm_turn

order-Serves_example : Serves (order busy_state) 5 (entry_of ticket_a llm_turn 4)
unfolding is_valid is_token is_label is_entry is_grant
order-Serves_example = order-Serves busy_state 0 (entry_of ticket_a llm_turn 4) refl refl
