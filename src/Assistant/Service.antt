-- ===== src/Assistant/Service.antt =====
-- src/smart_desk/modules/assistant/service.py: one turn of the conversation. The remote model and the
-- tools answer by their requests and calls in a turn, which are counted; `unicodedata` and pydantic's
-- dump of an output are parameters. The lock makes a turn one step of the service.
pub mod Turns
pub mod Session
use kdt_smaty.Prelude.{
  ℕ, zero, suc, ◌+◌, String, str_eq, Bool, true, false, leb, ◌⊎◌, inl, inr, Option, none, some,
  List, [], ◌∷◌, ◌++◌, map, length, if◌then◌else◌,
}
use kdt_smaty.Assistant.Tooling.{ToolCall, ToolOutput, ToolSpec}

pub data NextAction : Type 0 where
  wait_for_followup return_to_wake_word : NextAction

pub data DecisionReason : Type 0 where
  assistant_requested_input more_user_information_required : DecisionReason
  user_requested_end conversation_complete : DecisionReason

pub record Reply : Type 0 where
  pub spoken_text : String
  pub next_action : NextAction
  pub decision_reason : DecisionReason

-- The dictionaries of a history: the text of the user, an item of the model with its `type`, if it has
-- one, and the output of a tool.
pub data HistoryItem : Type 0 where
  user_item : String → HistoryItem
  model_item : Option String → String → HistoryItem
  function_call_output : String → String → HistoryItem

-- `OpenAiResponseStep`
pub record ResponseStep : Type 0 where
  pub reply : Option Reply
  pub output_items : List HistoryItem
  pub request_id : Option String
  pub input_tokens : Option ℕ
  pub output_tokens : Option ℕ
  pub tool_calls : List ToolCall

pub record DebugTurn : Type 0 where
  pub user_text : String
  pub reply : Reply
  pub request_id : Option String
  pub input_tokens : Option ℕ
  pub output_tokens : Option ℕ
  pub output_item_types : List String
  pub request_ids : List String
  pub tool_names : List String
  pub tool_call_count : ℕ

-- `AssistantService`: the session and the turns shown for debugging.
pub record Service : Type 0 where
  pub history : List HistoryItem
  pub completed_turns : ℕ
  pub debug_turns : List DebugTurn

-- `__init__`
abbrev pub new_service : Service
new_service = record { history = []; completed_turns = 0; debug_turns = [] }

pub data ReplyError : Type 0 where
  empty_user_text : ReplyError
  turn_error : String → ReplyError
  tool_raised : String → ReplyError

-- The local variables of `reply`, and the number of requests made.
pub record Turn : Type 0 where
  pub pending : List HistoryItem
  pub turn_output_items : List HistoryItem
  pub tool_names : List String
  pub request_ids : List String
  pub input_usages : List ℕ
  pub output_usages : List ℕ
  pub requests : ℕ

abbrev pub new_turn : List HistoryItem → String → Turn
new_turn old text = record {
  pending = old ++ user_item text ∷ [];
  turn_output_items = [];
  tool_names = [];
  request_ids = [];
  input_usages = [];
  output_usages = [];
  requests = 0;
}

-- What a turn comes to; `unfinished` stands for a loop that has used up its fuel.
pub data TurnEnd : Type 0 where
  raises : ReplyError → TurnEnd
  replies : Reply → Turn → TurnEnd
  unfinished : TurnEnd

abbrev pub add_some : {A : Type 0} → Option A → List A → List A
add_some none items = items
add_some (some item) items = items ++ item ∷ []

-- What a step adds before its tool calls.
unfoldable pub extend : ResponseStep → Turn → Turn
extend step turn = record turn {
  pending = turn.pending ++ step.output_items;
  turn_output_items = turn.turn_output_items ++ step.output_items;
  request_ids = add_some step.request_id turn.request_ids;
  input_usages = add_some step.input_tokens turn.input_usages;
  output_usages = add_some step.output_tokens turn.output_usages;
  requests = suc turn.requests;
}

-- `str(item.get("type", "unknown"))`
unfoldable pub item_type : HistoryItem → String
item_type (user_item text) = "unknown"
item_type (model_item none body) = "unknown"
item_type (model_item (some kind) body) = kind
item_type (function_call_output call_id output) = "function_call_output"

unfoldable pub sum : List ℕ → ℕ
sum [] = 0
sum (n ∷ rest) = n + sum rest

-- `sum(usages) if usages else None`
abbrev pub total : List ℕ → Option ℕ
total [] = none
total usages = some (sum usages)

-- `request_ids[-1] if request_ids else None`
abbrev pub last : List String → Option String
last [] = none
last (id ∷ []) = some id
last (id ∷ next ∷ rest) = last (next ∷ rest)

unfoldable pub record_output : (ToolOutput → String) → ToolCall → ToolOutput → Turn → Turn
record_output dump call output turn =
    let item = function_call_output call.call_id (dump output) in
    record turn {
      pending = turn.pending ++ item ∷ [];
      turn_output_items = turn.turn_output_items ++ item ∷ [];
      tool_names = turn.tool_names ++ call.name ∷ [];
    }

module _ (dump : ToolOutput → String) (execute : ℕ → ToolCall → String ⊎ ToolOutput)
    (max_calls : ℕ) where
  -- The loop over the calls of a step.
  unfoldable pub run_calls : List ToolCall → Turn → ReplyError ⊎ Turn
  unfolding record_output
  run_calls [] turn = inr turn
  run_calls (call ∷ rest) turn =
      if leb max_calls (length turn.tool_names)
      then inl (turn_error "tool_call_limit_exceeded")
      else elim (execute (length turn.tool_names) call) [
        | inl error ↦ inl (tool_raised error)
        | inr output ↦ run_calls rest (record_output dump call output turn)
      ]

module _ (dump : ToolOutput → String) (create_step : ℕ → List HistoryItem → String ⊎ ResponseStep)
    (execute : ℕ → ToolCall → String ⊎ ToolOutput) (max_calls : ℕ) where
  -- The loop of `reply`, one round for each request to the model.
  unfoldable pub run_turn : ℕ → Turn → TurnEnd
  unfolding extend run_calls
  run_turn zero turn = unfinished
  run_turn (suc fuel) turn = elim (create_step turn.requests turn.pending) [
    | inl code ↦ raises (turn_error code)
    | inr step ↦ elim step.tool_calls [
      | [] ↦ elim step.reply [
        | none ↦ raises (turn_error "structured_reply_invalid")
        | some reply ↦ replies reply (extend step turn)
      ]
      | call ∷ calls ↦ elim (run_calls dump execute max_calls (call ∷ calls) (extend step turn)) [
        | inl error ↦ raises error
        | inr next ↦ run_turn fuel next
      ]
    ]
  ]

abbrev pub debug_turn : String → Reply → Turn → DebugTurn
debug_turn text reply turn = record {
  user_text = text;
  reply = reply;
  request_id = last turn.request_ids;
  input_tokens = total turn.input_usages;
  output_tokens = total turn.output_usages;
  output_item_types = map item_type turn.turn_output_items;
  request_ids = turn.request_ids;
  tool_names = turn.tool_names;
  tool_call_count = length turn.tool_names;
}

module _ (session_max_turns : ℕ) where
  -- Whether the session is begun anew.
  abbrev pub resets : Service → Bool
  resets service = leb session_max_turns service.completed_turns

  abbrev pub old_history : Service → List HistoryItem
  old_history service = if resets service then [] else service.history

  -- What a turn that has come to its reply makes of the service.
  unfoldable pub commit : String → Reply → Turn → Service → Service
  unfolding item_type sum
  commit text reply turn service = record {
    history = turn.pending;
    completed_turns = if resets service then 1 else suc service.completed_turns;
    debug_turns =
        (if resets service then [] else service.debug_turns) ++ debug_turn text reply turn ∷ [];
  }

  -- `reply` on the normalized text
  unfoldable pub finish_turn : String → Service → TurnEnd → (ReplyError ⊎ Reply) × Service
  unfolding commit
  finish_turn text service (raises error) = (inl error, service)
  finish_turn text service (replies reply turn) = (inr reply, commit text reply turn service)
  finish_turn text service unfinished = (inl (turn_error "unfinished"), service)

module _ (normalize_text : String → String) (dump : ToolOutput → String)
    (create_step : ℕ → List HistoryItem → String ⊎ ResponseStep)
    (execute : ℕ → ToolCall → String ⊎ ToolOutput) (session_max_turns max_calls : ℕ) where
  -- A round more than the calls allowed is enough: see Service/Turns.
  abbrev pub turn_of : String → Service → TurnEnd
  turn_of text service =
      run_turn dump create_step execute max_calls (suc max_calls)
        (new_turn (old_history session_max_turns service) text)

  -- `reply`
  unfoldable pub reply_to : String → Service → (ReplyError ⊎ Reply) × Service
  unfolding run_turn finish_turn
  reply_to user_text service =
      let text = normalize_text user_text in
      if str_eq text ""
      then (inl empty_user_text, service)
      else finish_turn session_max_turns text service (turn_of text service)
