-- ===== src/Assistant/Examples.antt =====
-- Concrete turns of the assistant.
use kdt_smaty.Prelude.{ℕ, zero, suc, refl, String, ◌⊎◌, inr, none, some, List, [], ◌∷◌, ◌++◌, arith}
use kdt_smaty.Assistant.Tooling.{ToolSpec, ToolCall, ToolOutput, success, new_registry}
use kdt_smaty.Assistant.Tooling.Routes.{numbered, Built, new_registry-Built}
use kdt_smaty.Assistant.Service.{
  HistoryItem, user_item, model_item, ResponseStep, Reply, return_to_wake_word,
  conversation_complete, new_service, old_history, turn_of, reply_to,
}
use kdt_smaty.Assistant.Service.Turns.{Ended}
use kdt_smaty.Assistant.Service.Session.{Answered, turn_of-Ended, reply_to-Answered}

-- Two providers with three tools.
abbrev providers : List (List ToolSpec)
providers =
    (record { name = "turn_on_wled"; arguments_model = 0 }
      ∷ record { name = "set_wled_color"; arguments_model = 2 }
      ∷ [])
    ∷ (record { name = "get_time"; arguments_model = 0 } ∷ [])
    ∷ []

new_registry-Built_example : Built (numbered 0 providers) (new_registry providers)
new_registry-Built_example = new_registry-Built providers

-- A model that turns the light on before it answers.
abbrev done : Reply
done = record {
  spoken_text = "켰어요.";
  next_action = return_to_wake_word;
  decision_reason = conversation_complete;
}

abbrev model : ℕ → List HistoryItem → String ⊎ ResponseStep
model zero pending = inr (record {
  reply = none;
  output_items = model_item (some "function_call") "turn_on_wled" ∷ [];
  request_id = some "r0";
  input_tokens = some 100;
  output_tokens = some 9;
  tool_calls = record { call_id = "c0"; name = "turn_on_wled"; arguments_json = "{}" } ∷ [];
})
model (suc n) pending = inr (record {
  reply = some done;
  output_items = model_item (some "message") "켰어요." ∷ [];
  request_id = some "r1";
  input_tokens = some 120;
  output_tokens = none;
  tool_calls = [];
})

abbrev tools : ℕ → ToolCall → String ⊎ ToolOutput
tools n call = inr (success "on")

abbrev as_is : String → String
as_is text = text

abbrev dump : ToolOutput → String
dump output = "output"

turn_of-Ended_example :
    Ended 3
      (old_history 5 new_service ++ user_item "불 켜 줘" ∷ [])
      (turn_of as_is dump model tools 5 3 "불 켜 줘" new_service)
turn_of-Ended_example = turn_of-Ended as_is dump model tools 5 3 "불 켜 줘" new_service

reply_to-Answered_example :
    Answered 5 3 "불 켜 줘" new_service
      (turn_of as_is dump model tools 5 3 "불 켜 줘" new_service)
      (reply_to as_is dump model tools 5 3 "불 켜 줘" new_service)
reply_to-Answered_example =
    reply_to-Answered as_is dump model tools 5 3 "불 켜 줘" new_service (omega arith)
      (record { counted = refl; limited = omega arith })
