-- ===== src/Wled/Client/Operations/Confirmed.antt =====
-- What the snapshot that an operation returns says of what was asked for.
use kdt_smaty.Prelude.{
  not-true, ℕ, ◌≡◌, refl, ap, ◌∙◌, subst, String, Bool, true, false, ◌⊎◌, inl, inr, Option, none,
  some, List, arith,
}
use kdt_smaty.Wled.Json.{
  Json, null, boolean, integer, float, text, array, object, Fields, field, get, nat, below, as_int,
  as_bool, as_byte, equals_int, whole_eq,
}
use kdt_smaty.Wled.Color.{Color}
use kdt_smaty.Wled.State.{Snapshot, WledError}
use kdt_smaty.Wled.Reading.Facts.{IsFaithful, snapshot_from_state-IsFaithful}
use kdt_smaty.Wled.Client.{
  Request, post_state, Response, Client, Action, ◌>>=◌, then_do, end_attempt, return, write,
  attempt,
}
use kdt_smaty.Wled.Client.Operations.{
  send, now, says, take_state, take_if, turn_off, turn_on, set_byte, verbose, number,
}

-- A result that is returned has this property.
abbrev pub Holding : {A : Type 0} → (A → Type 0) → (WledError ⊎ A) × Client → Type 0
Holding P (inl error, after) = Unit
Holding P (inr a, after) = P a

pub record Returns {A : Type 0} (P : A → Type 0) (m : Action A) : Type 0 where
  pub holding : (client : Client) → Holding P (m client)

then_do-Holding :
    {A B : Type 0} (P : B → Type 0) (f : A → Action B) (result : (WledError ⊎ A) × Client)
    → ((a : A) → Returns P (f a))
    → Holding P (then_do f result)
then_do-Holding P f (inl error, after) next = tt
then_do-Holding P f (inr a, after) next = (next a).holding after

bind-Returns :
    {A B : Type 0} {P : B → Type 0} (m : Action A) (f : A → Action B)
    → ((a : A) → Returns P (f a))
    → Returns P (m >>= f)
unfolding ◌>>=◌
bind-Returns m f next = record { holding = λ client. then_do-Holding _ f (m client) next }

end_attempt-Holding :
    {A : Type 0} (P : A → Type 0) (result : (WledError ⊎ A) × Client)
    → Holding P result
    → Holding P (end_attempt result)
unfolding end_attempt
end_attempt-Holding P (inl error, after) h = tt
end_attempt-Holding P (inr a, after) h = h

attempt-Returns : {A : Type 0} {P : A → Type 0} (m : Action A) → Returns P m → Returns P (attempt m)
attempt-Returns m returns = record {
  holding = λ client. end_attempt-Holding _ (m client) (returns.holding client);
}

-- A number that equals the one asked for, and was read as a byte, is that one.
same_byte :
    (n b : ℕ) (value : Option Json)
    → equals_int (nat n) value ≡ true
    → as_byte (as_int value) ≡ some b
    → b ≡ n
unfolding equals_int as_byte as_int whole_eq
same_byte n b none e h = ground arith
same_byte n b (some null) e h = ground arith
same_byte n b (some (boolean true)) e h = ground arith
same_byte n b (some (boolean false)) e h = ground arith
same_byte n b (some (integer (nat m))) e h = ground arith
same_byte n b (some (integer (below m))) e h = ground arith
same_byte n b (some (float x)) e h = ground arith
same_byte n b (some (text x)) e h = ground arith
same_byte n b (some (array x)) e h = ground arith
same_byte n b (some (object x)) e h = ground arith

weaken-Holding :
    {P Q : Snapshot → Type 0}
    → ((s : Snapshot) → P s → Q s)
    → (result : (WledError ⊎ Snapshot) × Client) → Holding P result
    → Holding Q result
weaken-Holding f (inl error, after) h = tt
weaken-Holding f (inr s, after) h = f s h

weaken :
    {P Q : Snapshot → Type 0} (m : Action Snapshot)
    → ((s : Snapshot) → P s → Q s)
    → Returns P m
    → Returns Q m
weaken m f returns = record {
  holding = λ client. weaken-Holding f (m client) (returns.holding client);
}

module _ (strip_upper : Color → Color) (http : List Request → Request → Response)
    (clock : ℕ → ℕ) where
  stored :
      (response : Fields) (client : Client) (result : WledError ⊎ Snapshot)
      → IsFaithful response result
      → Holding
          (λ s. IsFaithful response (inr s))
          (then_do
            (λ s. write (λ c. record c { snapshot = s }) >>= (λ u. return s))
            (result, client))
  unfolding ◌>>=◌
  stored response client (inl error) faithful = tt
  stored response client (inr s) faithful = faithful

  take_state-Returns :
      (response : Fields)
      → Returns (λ s. IsFaithful response (inr s)) (take_state strip_upper http clock response)
  unfolding take_state ◌>>=◌
  take_state-Returns response = record {
    holding = λ client. stored response client _ (
        snapshot_from_state-IsFaithful client.capabilities (now strip_upper http clock client)
          response);
  }

  take_if-Returns :
      (b : Bool) (message : String) (response : Fields)
      → Returns
          (λ s. (b ≡ true) × IsFaithful response (inr s))
          (take_if strip_upper http clock b message response)
  unfolding take_if
  take_if-Returns true message response =
      weaken _ (λ s faithful. (refl, faithful)) (take_state-Returns response)
  take_if-Returns false message response = record { holding = λ client. tt }

  brightness_of :
      (n : ℕ) (response : Fields) (s : Snapshot)
      → (equals_int (nat n) (get "bri" response) ≡ true) × IsFaithful response (inr s)
      → s.brightness ≡ some n
  brightness_of n response s (equal, (on, brightness, power, level, reading)) =
      reading.level ∙ ap some (same_byte n brightness (get "bri" response) equal level)

  power_of :
      (on : Bool) (response : Fields) (s : Snapshot)
      → (says strip_upper http clock on (as_bool (get "on" response)) ≡ true)
        × IsFaithful response (inr s)
      → s.on ≡ some on
  power_of true response s (said, (on, brightness, power, level, reading)) =
      reading.power ∙ ap some (subst (λ o. says strip_upper http clock true o ≡ true) power said)
  power_of false response s (said, (on, brightness, power, level, reading)) =
      reading.power
      ∙ ap some (not-true on (subst (λ o. says strip_upper http clock false o ≡ true) power said))

  -- A request whose answer becomes the state if it passes a test.
  asks :
      {P : Snapshot → Type 0} (request : Request) (test : Fields → Bool) (message : String)
      → ((response : Fields) (s : Snapshot)
          → (test response ≡ true) × IsFaithful response (inr s)
          → P s)
      → Returns P (
          attempt (
            send strip_upper http clock request
            >>= (λ response. take_if strip_upper http clock (test response) message response)))
  asks request test message f =
      attempt-Returns
        (send strip_upper http clock request
          >>= (λ response. take_if strip_upper http clock (test response) message response))
        (bind-Returns (send strip_upper http clock request)
          (λ response. take_if strip_upper http clock (test response) message response)
          (λ response.
            weaken (take_if strip_upper http clock (test response) message response) (f response)
              (take_if-Returns (test response) message response)))

  pub confirmed :
      (n : ℕ)
      → Returns (λ s. s.on ≡ some true) (turn_on strip_upper http clock)
        × Returns (λ s. s.on ≡ some false) (turn_off strip_upper http clock)
        × Returns (λ s. s.brightness ≡ some n) (set_byte strip_upper http clock (some n))
  unfolding turn_on turn_off set_byte
  confirmed n = (
    asks (post_state (field "on" (boolean true) verbose))
        (λ response. says strip_upper http clock true (as_bool (get "on" response)))
        "WLED가 전원 켜기를 확인하지 못했습니다." (power_of true),
    asks (post_state (field "on" (boolean false) verbose))
        (λ response. says strip_upper http clock false (as_bool (get "on" response)))
        "WLED가 전원 끄기를 확인하지 못했습니다." (power_of false),
    asks (post_state (field "bri" (number n) verbose))
        (λ response. equals_int (nat n) (get "bri" response)) "WLED가 요청한 밝기를 확인하지 못했습니다."
        (brightness_of n),
  )
