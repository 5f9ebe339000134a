-- ===== src/Assistant/Service/Turns.antt =====
-- One turn: it ends, and how often it asks the model and the tools.
use kdt_smaty.Prelude.{
  ℕ, zero, suc, ◌+◌, ◌≤◌, ◌<◌, ◌≡◌, refl, ap, ◌∙◌, subst, String, leb, ◌⊎◌, inl, inr, List, [], ◌∷◌,
  ◌++◌, length, length-snoc, append_assoc, Bool-cases, arith, Sum-cases, List-cases, Option-cases,
}
use kdt_smaty.Assistant.Tooling.{ToolCall, ToolOutput}
use kdt_smaty.Assistant.Service.{
  HistoryItem, ResponseStep, ReplyError, Turn, TurnEnd, raises, replies, unfinished, extend,
  record_output, run_calls, run_turn,
}

-- What a turn has added stands behind what it began with.
abbrev pub IsBehind : List HistoryItem → Turn → Type 0
IsBehind start turn = turn.pending ≡ start ++ turn.turn_output_items

append-behind :
    (start pending items more : List HistoryItem)
    → pending ≡ start ++ items
    → pending ++ more ≡ start ++ (items ++ more)
append-behind start pending items more behind =
    ap (λ l. l ++ more) behind ∙ append_assoc start items more

module _ (max_calls : ℕ) (start : List HistoryItem) where
  -- Between two rounds: a tool call for each request so far, and no more calls than allowed.
  pub record IsGoing (turn : Turn) : Type 0 where
    pub called : turn.requests ≤ length turn.tool_names
    pub allowed : length turn.tool_names ≤ max_calls
    pub behind : IsBehind start turn

  -- While the calls of a step are worked off, one of which may still be due to the request.
  abbrev Calling : ℕ → ℕ → ReplyError ⊎ Turn → Type 0
  Calling requests calls (inl error) = Unit
  Calling requests calls (inr turn) =
      (turn.requests ≡ requests)
      × (length turn.tool_names ≡ calls)
      × (calls ≤ max_calls)
      × IsBehind start turn

  -- How a turn ends.
  abbrev pub Ended : TurnEnd → Type 0
  Ended (raises error) = Unit
  Ended (replies reply turn) =
      (turn.requests ≤ suc (length turn.tool_names))
      × (length turn.tool_names ≤ max_calls)
      × IsBehind start turn
  Ended unfinished = ⊥

module _ (dump : ToolOutput → String) (execute : ℕ → ToolCall → String ⊎ ToolOutput) (max_calls : ℕ)
    (start : List HistoryItem) where
  run_calls-Calling :
      (calls : List ToolCall) (turn : Turn)
      → length turn.tool_names ≤ max_calls
      → IsBehind start turn
      → Calling max_calls start turn.requests
          (length turn.tool_names + length calls)
          (run_calls dump execute max_calls calls turn)
  unfolding run_calls record_output
  run_calls-Calling [] turn allowed behind = (refl, ground arith, ground arith, behind)
  run_calls-Calling (call ∷ rest) turn allowed behind =
      elim (Bool-cases (leb max_calls (length turn.tool_names))) [
        | inl full ↦ rw full tt
        | inr room ↦ elim (Sum-cases (execute (length turn.tool_names) call)) [
          | inl (error, raised) ↦ rw (room, raised) tt
          | inr (output, works) ↦
              rw (room, works)
                (let grown = length-snoc turn.tool_names call.name in
                  subst
                    (λ n.
                      Calling max_calls start turn.requests n (
                        run_calls dump execute max_calls rest
                          (record_output dump call output turn)))
                    (omega arith)
                    (run_calls-Calling rest (record_output dump call output turn) (ground arith)
                      (append-behind start turn.pending turn.turn_output_items _ behind)))
        ]
      ]

module _ (dump : ToolOutput → String) (create_step : ℕ → List HistoryItem → String ⊎ ResponseStep)
    (execute : ℕ → ToolCall → String ⊎ ToolOutput) (max_calls : ℕ) (start : List HistoryItem) where
  pub run_turn-Ended :
      (fuel : ℕ) (turn : Turn)
      → max_calls < fuel + length turn.tool_names
      → IsGoing max_calls start turn
      → Ended max_calls start (run_turn dump create_step execute max_calls fuel turn)
  unfolding run_turn extend
  run_turn-Ended zero turn enough going = absurd (omega arith)
  run_turn-Ended (suc fuel) turn enough going =
      elim (Sum-cases (create_step turn.requests turn.pending)) [
        | inl (code, fails) ↦ rw (fails, run_turn) tt
        | inr (step, answers) ↦ elim (List-cases step.tool_calls) [
          | inl quiet ↦ elim (Option-cases step.reply) [
            | inl silent ↦ rw (answers, quiet, silent, run_turn) tt
            | inr (reply, speaks) ↦
                rw (answers, quiet, speaks, run_turn)
                  (
                    ground arith,
                    going.allowed,
                    append-behind start turn.pending turn.turn_output_items step.output_items
                        going.behind,
                  )
          ]
          | inr (call, calls, some_calls) ↦
              let ran =
                run_calls-Calling dump execute max_calls start (call ∷ calls) (extend step turn)
                  going.allowed
                  (append-behind start turn.pending turn.turn_output_items step.output_items
                    going.behind) in
              elim (Sum-cases
                (run_calls dump execute max_calls (call ∷ calls) (extend step turn))) [
                  | inl (error, refused) ↦ rw (answers, some_calls, refused, run_turn) tt
                  | inr (next, worked) ↦
                      let (asked, called, allowed, behind) =
                        subst
                          (Calling max_calls start (suc turn.requests)
                            (length turn.tool_names + suc (length calls)))
                          worked ran in
                      rw (answers, some_calls, worked, run_turn)
                        (run_turn-Ended fuel next (ground arith) (record {
                          called = ground arith;
                          allowed = ground arith;
                          behind = behind;
                        }))
                ]
        ]
      ]
