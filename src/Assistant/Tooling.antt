-- ===== src/Assistant/Tooling.antt =====
-- src/smart_desk/modules/assistant/tooling.py: the registry of function tools. The schema of a tool is
-- a number; what pydantic makes of the text of the arguments, and what a provider does, are parameters.
pub mod Routes
use kdt_smaty.Prelude.{
  ℕ, suc, String, str_eq, Bool, true, false, not, ◌&&◌, ◌⊎◌, inl, inr, Option, none, some, List, [],
  ◌∷◌, ◌++◌, is_some, if◌then◌else◌,
}

-- `AssistantToolSpec`, without the description.
pub record ToolSpec : Type 0 where
  pub name : String
  pub arguments_model : ℕ

-- `AssistantToolCall`
pub record ToolCall : Type 0 where
  pub call_id : String
  pub name : String
  pub arguments_json : String

pub record ErrorPayload : Type 0 where
  pub code : String
  pub message : String

-- `AssistantToolOutput`; the result is its JSON text.
pub record ToolOutput : Type 0 where
  pub ok : Bool
  pub result : Option String
  pub error : Option ErrorPayload

-- `validate_envelope`
unfoldable pub validate_envelope : ToolOutput → Bool
validate_envelope output =
    if output.ok
    then is_some output.result && not (is_some output.error)
    else not (is_some output.result) && is_some output.error

-- `success` and `failure`
abbrev pub success : String → ToolOutput
success result = record { ok = true; result = some result; error = none }

abbrev pub failure : String → String → ToolOutput
failure code message = record {
  ok = false;
  result = none;
  error = some (record { code = code; message = message });
}

-- A provider is named by its place in the tuple.
abbrev pub Route : Type 0
Route = ℕ × ToolSpec

-- `AssistantToolRegistry`
pub record Registry : Type 0 where
  pub specs : List ToolSpec
  pub routes : List (String × Route)

pub data RegistryError : Type 0 where
  empty_name : RegistryError
  duplicate_name : String → RegistryError

-- `self._routes.get(name)`
unfoldable pub find_route : String → List (String × Route) → Option Route
find_route name [] = none
find_route name ((other, route) ∷ rest) =
    let later = find_route name rest in if str_eq other name then some route else later

-- One turn of the inner loop of `__init__`.
unfoldable pub add_spec : ℕ → ToolSpec → Registry → RegistryError ⊎ Registry
unfolding find_route
add_spec provider spec registry =
    if str_eq spec.name ""
    then inl empty_name
    else if is_some (find_route spec.name registry.routes)
    then inl (duplicate_name spec.name)
    else inr (record {
      specs = registry.specs ++ spec ∷ [];
      routes = registry.routes ++ (spec.name, (provider, spec)) ∷ [];
    })

infixl 5 ◌>>=◌
abbrev pub ◌>>=◌ : {A : Type 0} → RegistryError ⊎ A → (A → RegistryError ⊎ A) → RegistryError ⊎ A
inr a >>= f = f a
inl e >>= f = inl e

unfoldable pub add_specs : ℕ → List ToolSpec → Registry → RegistryError ⊎ Registry
unfolding add_spec
add_specs provider [] registry = inr registry
add_specs provider (spec ∷ rest) registry = do
  more ← add_spec provider spec registry
  add_specs provider rest more

-- The outer loop, on the specs of the providers.
unfoldable pub add_providers : ℕ → List (List ToolSpec) → Registry → RegistryError ⊎ Registry
unfolding add_specs
add_providers provider [] registry = inr registry
add_providers provider (specs ∷ rest) registry = do
  more ← add_specs provider specs registry
  add_providers (suc provider) rest more

-- `__init__`
unfoldable pub new_registry : List (List ToolSpec) → RegistryError ⊎ Registry
unfolding add_providers
new_registry providers = add_providers 0 providers (record { specs = []; routes = [] })

-- What a provider raises, or its output.
module _ {Arguments : Type 0} (validate_json : ℕ → String → Option Arguments)
    (run : ℕ → String → Arguments → String ⊎ ToolOutput) where
  -- `execute`
  unfoldable pub execute : Registry → ToolCall → String ⊎ ToolOutput
  unfolding find_route
  execute registry call = elim (find_route call.name registry.routes) [
    | none ↦ inr (failure "unknown_tool" "요청한 기능을 사용할 수 없습니다.")
    | some (provider, spec) ↦ elim (validate_json spec.arguments_model call.arguments_json) [
      | none ↦ inr (failure "invalid_arguments" "기능 실행에 필요한 값이 올바르지 않습니다.")
      | some arguments ↦ run provider call.name arguments
    ]
  ]
