-- ===== src/Wled/Client/Operations/Settled.antt =====
-- What an operation leaves as the state of the lamp, by rules for the ways to build an operation.
use kdt_smaty.Prelude.{
  ℕ, ◌≡◌, ◌≢◌, refl, ap, subst, ◌∙◌, String, Bool, true, false, ◌⊎◌, inl, inr, Option, none, some,
  List, Bool-cases,
}
use kdt_smaty.Wled.Json.{Json, boolean, Fields, get}
use kdt_smaty.Wled.Color.{Color, rgb}
use kdt_smaty.Wled.State.{WledStatus, valid_segments, Snapshot, ErrorKind, key_error, WledError}
use kdt_smaty.Wled.Reading.{Wanted}
use kdt_smaty.Wled.Reading.Facts.{IsFaithful, snapshot_from_state-IsFaithful}
use kdt_smaty.Wled.Client.{
  Request, Response, Client, Action, ◌>>=◌, then_do, end_attempt, return, lift, write,
  record_failure, is_wled_error, attempt,
}
use kdt_smaty.Wled.Client.Operations.{
  send, now, take_state, take_if, refresh_state, turn_off, turn_on, set_byte, power_on, keys,
  solid_of, find_segments, apply, set_normalized,
}

-- A step that leaves the snapshot alone.
pub record IsQuiet {A : Type 0} (m : Action A) : Type 0 where
  pub quiet : (client : Client) → (m client).1.snapshot ≡ client.snapshot

-- A step that stores the online snapshot that it returns, or leaves the old one alone.
abbrev pub Given : Client → (WledError ⊎ Snapshot) × Client → Type 0
Given before (inl error, after) = after.snapshot ≡ before.snapshot
Given before (inr s, after) = (after.snapshot ≡ s) × (s.status ≡ WledStatus.online)

pub record Gives (m : Action Snapshot) : Type 0 where
  pub given : (client : Client) → Given client (m client)

lift-IsQuiet : {A : Type 0} (result : WledError ⊎ A) → IsQuiet (lift result)
lift-IsQuiet result = record { quiet = λ client. refl }

pub return-IsQuiet : {A : Type 0} (a : A) → IsQuiet (return a)
return-IsQuiet a = record { quiet = λ client. refl }

then_do-quiet :
    {A B : Type 0} (f : A → Action B) (before : Client) (result : (WledError ⊎ A) × Client)
    → result.1.snapshot ≡ before.snapshot
    → ((a : A) → IsQuiet (f a))
    → (then_do f result).1.snapshot ≡ before.snapshot
then_do-quiet f before (inl error, after) same next = same
then_do-quiet f before (inr a, after) same next = (next a).quiet after ∙ same

pub bind-IsQuiet :
    {A B : Type 0} (m : Action A) (f : A → Action B)
    → IsQuiet m
    → ((a : A) → IsQuiet (f a))
    → IsQuiet (m >>= f)
unfolding ◌>>=◌
bind-IsQuiet m f first next = record {
  quiet = λ client. then_do-quiet f client (m client) (first.quiet client) next;
}

Given-quiet :
    (before middle : Client) (result : (WledError ⊎ Snapshot) × Client)
    → middle.snapshot ≡ before.snapshot
    → Given middle result
    → Given before result
Given-quiet before middle (inl error, after) same given = given ∙ same
Given-quiet before middle (inr s, after) same given = given

then_do-Given :
    {A : Type 0} (f : A → Action Snapshot) (before : Client) (result : (WledError ⊎ A) × Client)
    → result.1.snapshot ≡ before.snapshot
    → ((a : A) → Gives (f a))
    → Given before (then_do f result)
then_do-Given f before (inl error, after) same gives = same
then_do-Given f before (inr a, after) same gives =
    Given-quiet before after (f a after) same ((gives a).given after)

pub bind-Gives :
    {A : Type 0} (m : Action A) (f : A → Action Snapshot)
    → IsQuiet m
    → ((a : A) → Gives (f a))
    → Gives (m >>= f)
unfolding ◌>>=◌
bind-Gives m f first next = record {
  given = λ client. then_do-Given f client (m client) (first.quiet client) next;
}

-- What an attempt makes of it: a `WledError` is noted, any other exception leaves the snapshot alone.
abbrev pub Settled : Client → (WledError ⊎ Snapshot) × Client → Type 0
Settled before (inl error, after) =
    ((error.kind ≡ key_error) × (after.snapshot ≡ before.snapshot))
    ⊎ ((error.kind ≢ key_error)
        × (after.snapshot ≡ record before.snapshot {
          status = WledStatus.error;
          last_error = some error.message;
        }))
Settled before (inr s, after) = (after.snapshot ≡ s) × (s.status ≡ WledStatus.online)

key_error-only : (kind : ErrorKind) → is_wled_error kind ≡ false → kind ≡ key_error
key_error-only key_error h = refl
key_error-only _ h = cc

end_attempt-Settled :
    (before : Client) (result : (WledError ⊎ Snapshot) × Client)
    → Given before result
    → Settled before (end_attempt result)
unfolding end_attempt record_failure
end_attempt-Settled before (inr s, after) given = given
end_attempt-Settled before (inl error, after) given = elim (Bool-cases (is_wled_error error.kind)) [
  | inl noted ↦ inr (
    λ same. (let h = subst (λ kind. is_wled_error kind ≡ true) same noted in cc),
    rw noted (
        ap {A = Snapshot}
          (λ s. record s { status = WledStatus.error; last_error = some error.message }) given),
  )
  | inr other ↦ inl (key_error-only error.kind other, rw other given)
]

stored :
    (response : Fields) (client : Client) (result : WledError ⊎ Snapshot)
    → IsFaithful response result
    → Given client
        (then_do (λ s. write (λ c. record c { snapshot = s }) >>= (λ u. return s)) (result, client))
unfolding ◌>>=◌
stored response client (inl error) faithful = refl
stored response client (inr s) (on, brightness, _, _, reading) = (refl, reading.online)

module _ (strip_upper : Color → Color) (http : List Request → Request → Response)
    (clock : ℕ → ℕ) where
  pub send-IsQuiet : (request : Request) → IsQuiet (send strip_upper http clock request)
  unfolding send
  send-IsQuiet request = record {
    quiet = λ client. elim (Bool-cases client.is_started) [
      | inl runs ↦ rw runs refl
      | inr rests ↦ rw rests refl
    ];
  }

  take_state-Gives : (response : Fields) → Gives (take_state strip_upper http clock response)
  unfolding take_state ◌>>=◌
  take_state-Gives response = record {
    given = λ client. stored response client _ (
        snapshot_from_state-IsFaithful client.capabilities (now strip_upper http clock client)
          response);
  }

  take_if-Gives :
      (b : Bool) (message : String) (response : Fields)
      → Gives (take_if strip_upper http clock b message response)
  unfolding take_if
  take_if-Gives true message response = take_state-Gives response
  take_if-Gives false message response = record { given = λ client. refl }

  power_on-IsQuiet : (on : Option Json) → IsQuiet (power_on strip_upper http clock on)
  unfolding power_on
  power_on-IsQuiet none = record { quiet = λ client. refl }
  power_on-IsQuiet (some (boolean false)) =
      bind-IsQuiet _ _ (send-IsQuiet _) (λ response. return-IsQuiet tt)
  power_on-IsQuiet (some (boolean true)) = record { quiet = λ client. refl }
  power_on-IsQuiet (some Json.null) = record { quiet = λ client. refl }
  power_on-IsQuiet (some (Json.integer n)) = record { quiet = λ client. refl }
  power_on-IsQuiet (some (Json.float x)) = record { quiet = λ client. refl }
  power_on-IsQuiet (some (Json.text t)) = record { quiet = λ client. refl }
  power_on-IsQuiet (some (Json.array items)) = record { quiet = λ client. refl }
  power_on-IsQuiet (some (Json.object _)) = record { quiet = λ client. refl }

  pub find_segments-IsQuiet : IsQuiet (find_segments strip_upper http clock)
  unfolding find_segments
  find_segments-IsQuiet = bind-IsQuiet _ _ (send-IsQuiet _) (λ state.
      bind-IsQuiet (lift (valid_segments state)) _ (lift-IsQuiet (valid_segments state))
        (λ segments.
          bind-IsQuiet (power_on strip_upper http clock (get "on" state)) _
            (power_on-IsQuiet (get "on" state)) (λ u. return-IsQuiet (keys segments))))

  pub apply-Gives :
      (command : ℕ → Fields) (wanted : Wanted) (ids : List ℕ)
      → Gives (apply strip_upper http clock command wanted ids)
  unfolding apply
  apply-Gives command wanted ids =
      bind-Gives _ _ (send-IsQuiet _)
        (λ response. bind-Gives _ _ (lift-IsQuiet _) (λ u. take_state-Gives response))

  pub settle :
      {m : Action Snapshot} → Gives m → (client : Client) → Settled client (attempt m client)
  settle gives client = end_attempt-Settled client _ (gives.given client)

  pub turn_off-Settled : (client : Client) → Settled client (turn_off strip_upper http clock client)
  unfolding turn_off
  turn_off-Settled =
      settle (bind-Gives _ _ (send-IsQuiet _) (λ response. take_if-Gives _ _ response))

  pub turn_on-Settled : (client : Client) → Settled client (turn_on strip_upper http clock client)
  unfolding turn_on
  turn_on-Settled =
      settle (bind-Gives _ _ (send-IsQuiet _) (λ response. take_if-Gives _ _ response))

  pub refresh_state-Settled :
      (client : Client) → Settled client (refresh_state strip_upper http clock client)
  unfolding refresh_state
  refresh_state-Settled = settle (bind-Gives _ _ (send-IsQuiet _) (λ state. take_state-Gives state))

  pub set_byte-Settled :
      (brightness : ℕ) (client : Client)
      → Settled client (set_byte strip_upper http clock (some brightness) client)
  unfolding set_byte
  set_byte-Settled brightness =
      settle (bind-Gives _ _ (send-IsQuiet _) (λ response. take_if-Gives _ _ response))

  pub set_normalized-Settled :
      (color : Color) (client : Client)
      → Settled client (set_normalized strip_upper http clock (some color) client)
  unfolding set_normalized
  set_normalized-Settled color =
      settle
        (bind-Gives _ _ find_segments-IsQuiet (λ ids. apply-Gives _ (solid_of (rgb color)) ids))
