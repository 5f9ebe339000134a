-- ===== src/Wled/Client.antt =====
-- `WledClient` of src/smart_desk/modules/wled/client.py. What the lamp answers is a function of the
-- requests so far and the new one, and the times are those of a clock. The lock makes an operation one
-- step. An operation is a function on the client that raises or returns.
pub mod Operations
pub mod Effect
pub mod Session
use kdt_smaty.Prelude.{
  ℕ, suc, String, str_eq, strip, Bool, true, false, not, ◌&&◌, ◌||◌, ◌⊎◌, inl, inr, Option, none,
  some, List, [], ◌∷◌, ◌++◌, leb, ltb, ◌==◌, length, if◌then◌else◌,
}
use kdt_smaty.Wled.Json.{Json, object, Fields}
use kdt_smaty.Wled.State.{
  WledStatus, CatalogItem, Capabilities, Snapshot, ErrorKind, not_started, unavailable, protocol,
  unsupported_value, key_error, WledError, protocol_error,
}

-- A request: a GET of a path, or a POST of a state.
pub data Request : Type 0 where
  get_path : String → Request
  post_state : Fields → Request

-- What `httpx` gives for a request: an error, or a status code with the parsed body, if it is JSON.
pub data Response : Type 0 where
  http_error : Response
  answers : ℕ → Option Json → Response

-- `WledClient`, with the requests made so far.
pub record Client : Type 0 where
  pub is_started : Bool
  pub snapshot : Snapshot
  pub capabilities : Option Capabilities
  pub requests : List Request

abbrev pub Action : Type 0 → Type 0
Action A = Client → (WledError ⊎ A) × Client

abbrev pub then_do :
    {A B : Type 0} → (A → Action B) → (WledError ⊎ A) × Client → (WledError ⊎ B) × Client
then_do f (inl error, client) = (inl error, client)
then_do f (inr a, client) = f a client

infixl 5 ◌>>=◌ ◌>>◌
unfoldable pub ◌>>=◌ : {A B : Type 0} → Action A → (A → Action B) → Action B
(m >>= f) client = then_do f (m client)

abbrev pub ◌>>◌ : {A B : Type 0} → Action A → Action B → Action B
m >> n = m >>= λ a. n

abbrev pub return : {A : Type 0} → A → Action A
return a client = (inr a, client)

abbrev pub raise : {A : Type 0} → ErrorKind → String → Action A
raise kind message client = (inl (record { kind = kind; message = message }), client)

abbrev pub lift : {A : Type 0} → WledError ⊎ A → Action A
lift result client = (result, client)

abbrev pub read : {A : Type 0} → (Client → A) → Action A
read f client = (inr (f client), client)

abbrev pub write : (Client → Client) → Action (Unit {0})
write f client = (inr tt, f client)

-- `start`
unfoldable pub start : Action (Unit {0})
start = write (λ client. record client { is_started = true })

-- `stop`
unfoldable pub stop : Action (Unit {0})
stop = write (λ client. record client { is_started = false })

-- `_response_object` on a response that has come.
unfoldable pub object_of : Option Json → WledError ⊎ Fields
object_of none = protocol_error "WLED 응답이 JSON이 아닙니다."
object_of (some (object fields)) = inr fields
object_of (some _) = protocol_error "WLED 응답 형식이 올바르지 않습니다."

unfoldable pub response_object : Response → WledError ⊎ Fields
unfolding object_of
response_object http_error = inl (record { kind = unavailable; message = "WLED 장치에 연결할 수 없습니다." })
response_object (answers status body) =
    if leb 500 status
    then inl (record { kind = unavailable; message = "WLED 장치를 현재 사용할 수 없습니다." })
    else if leb 200 status && ltb status 300
    then object_of body
    else protocol_error "WLED가 올바르지 않은 응답을 반환했습니다."

-- `_record_failure`
unfoldable pub record_failure : WledError → Client → Client
record_failure error client = record client {
  snapshot = record client.snapshot { status = WledStatus.error; last_error = some error.message };
}

abbrev pub is_wled_error : ErrorKind → Bool
is_wled_error key_error = false
is_wled_error _ = true

-- `except WledError as error: self._record_failure(error); raise`
unfoldable pub end_attempt : {A : Type 0} → (WledError ⊎ A) × Client → (WledError ⊎ A) × Client
unfolding record_failure
end_attempt (inr a, client) = (inr a, client)
end_attempt (inl error, client) =
    (inl error, if is_wled_error error.kind then record_failure error client else client)

abbrev pub attempt : {A : Type 0} → Action A → Action A
attempt m client = end_attempt (m client)
