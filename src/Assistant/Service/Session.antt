-- ===== src/Assistant/Service/Session.antt =====
-- The service over its turns: a turn is committed as a whole or not at all.
use kdt_smaty.Prelude.{
  ℕ, suc, ◌≤◌, ◌<◌, ◌≡◌, refl, sym, ap, ◌∙◌, subst, String, str_eq, ◌⊎◌, inl, inr, List, [], ◌∷◌,
  ◌++◌, length, length-snoc, append-nil, Bool-cases, arith, if_false,
}
use kdt_smaty.Assistant.Tooling.{ToolCall, ToolOutput}
use kdt_smaty.Assistant.Service.{
  HistoryItem, user_item, ResponseStep, ReplyError, Reply, Turn, new_turn, TurnEnd, raises, replies,
  unfinished, Service, debug_turn, resets, old_history, commit, turn_of, finish_turn, reply_to,
}
use kdt_smaty.Assistant.Service.Turns.{Ended, run_turn-Ended}

module _ (session_max_turns max_calls : ℕ) where
  -- The debug view shows the turns of the session, which are no more than allowed.
  pub record IsKept (service : Service) : Type 0 where
    pub counted : length service.debug_turns ≡ service.completed_turns
    pub limited : service.completed_turns ≤ session_max_turns

  -- A turn that was answered in a full session stands alone; in any other it stands behind what the
  -- session had.
  abbrev pub Committed : String → Service → Reply → Turn → Service → Type 0
  Committed text service reply turn after =
      ((session_max_turns ≤ service.completed_turns)
        × (after.history ≡ user_item text ∷ turn.turn_output_items)
        × (after.debug_turns ≡ debug_turn text reply turn ∷ [])
        × (after.completed_turns ≡ 1))
      ⊎ ((service.completed_turns < session_max_turns)
          × (after.history ≡ (service.history ++ user_item text ∷ []) ++ turn.turn_output_items)
          × (after.debug_turns ≡ service.debug_turns ++ debug_turn text reply turn ∷ [])
          × (after.completed_turns ≡ suc service.completed_turns))

  -- What one call of `reply` with this text makes of a service, if its loop comes to this end.
  abbrev pub Answered : String → Service → TurnEnd → (ReplyError ⊎ Reply) × Service → Type 0
  Answered text service result (inl error, after) = after ≡ service
  Answered text service result (inr reply, after) =
      IsKept after
      × ((turn : Turn) × (result ≡ replies reply turn)
          × (length turn.tool_names ≤ max_calls)
          × Committed text service reply turn after)

  finish_turn-Answered :
      (text : String) (service : Service) (result : TurnEnd)
      → 1 ≤ session_max_turns
      → IsKept service
      → Ended max_calls (old_history session_max_turns service ++ user_item text ∷ []) result
      → Answered text service result (finish_turn session_max_turns text service result)
  unfolding finish_turn commit
  finish_turn-Answered text service (raises error) some_turns kept ended = refl
  finish_turn-Answered text service unfinished some_turns kept ended = absurd ended
  finish_turn-Answered text service (replies reply turn) some_turns kept ended =
      let (_, few, behind) = ended in
      elim (Bool-cases (resets session_max_turns service)) [
        | inl anew ↦ (
          rw anew (record { counted = refl; limited = some_turns }),
          (
            turn,
            refl,
            few,
            inl (ground arith, behind ∙ (rw anew refl), rw anew refl, rw anew refl),
          ),
        )
        | inr on ↦ (
          rw on (record {
            counted =
                length-snoc service.debug_turns (debug_turn text reply turn) ∙ ap suc kept.counted;
            limited = ground arith;
          }),
          (turn, refl, few, inr (ground arith, behind ∙ (rw on refl), rw on refl, rw on refl)),
        )
      ]

module _ (normalize_text : String → String) (dump : ToolOutput → String)
    (create_step : ℕ → List HistoryItem → String ⊎ ResponseStep)
    (execute : ℕ → ToolCall → String ⊎ ToolOutput) (session_max_turns max_calls : ℕ) where
  -- The loop of a turn always ends, whatever the model and the tools answer: with an error, or with a
  -- reply after at most the allowed number of tool calls and one request more than calls, behind
  -- which the history is the old one, the text of the user and the items of this turn in their order.
  pub turn_of-Ended :
      (text : String) (service : Service)
      → Ended max_calls
          (old_history session_max_turns service ++ user_item text ∷ [])
          (turn_of normalize_text dump create_step execute session_max_turns max_calls text service)
  turn_of-Ended text service =
      run_turn-Ended dump create_step execute max_calls _ (suc max_calls)
        (new_turn (old_history session_max_turns service) text) (omega arith)
        (record {
          called = omega arith;
          allowed = omega arith;
          behind = sym (append-nil (old_history session_max_turns service ++ user_item text ∷ []));
        })

  -- A call of `reply` that raises leaves the service as it was. One that returns gives the reply that
  -- the loop of the turn came to, after at most the allowed number of tool calls, and keeps the whole
  -- turn: in a session that already had its number of turns, the history becomes the text and the items
  -- of this turn alone, the debug view this turn alone, and one turn is counted; in any other they stand
  -- behind the old history and the old debug view, and one turn more is counted. No session exceeds its
  -- number of turns. Conditions: a session may have a turn, and the service counted its turns rightly.
  pub reply_to-Answered :
      (user_text : String) (service : Service)
      → 1 ≤ session_max_turns
      → IsKept session_max_turns max_calls service
      → Answered session_max_turns max_calls
          (normalize_text user_text)
          service
          (turn_of normalize_text dump create_step execute session_max_turns max_calls
            (normalize_text user_text)
            service)
          (reply_to normalize_text dump create_step execute session_max_turns max_calls user_text
            service)
  unfolding reply_to
  reply_to-Answered user_text service some_turns kept =
      elim (Bool-cases (str_eq (normalize_text user_text) "")) [
        | inl blank ↦ rw blank refl
        | inr spoken ↦
            subst (Answered session_max_turns max_calls (normalize_text user_text) service _)
              (sym (if_false _ _ _ spoken))
              (finish_turn-Answered session_max_turns max_calls _ service _ some_turns kept
                (turn_of-Ended (normalize_text user_text) service))
      ]
