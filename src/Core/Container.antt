-- ===== src/Core/Container.antt =====
-- src/smart_desk/core/container.py: the registration of the shared resources.
use kdt_smaty.Prelude.{
  ℕ, String, str_eq, Bool, false, ◌||◌, Option, none, some, List, [], ◌∷◌, ◌++◌, if◌then◌else◌,
}

-- `ResourceRegistration`; the resource itself is what its calls come to.
pub record ResourceRegistration : Type 0 where
  pub name : String
  pub startup_order : ℕ
  pub shutdown_order : ℕ

-- `any(item.name == name for item in resources)`
unfoldable pub is_registered : String → List ResourceRegistration → Bool
is_registered name [] = false
is_registered name (item ∷ rest) = str_eq item.name name || is_registered name rest

-- `AppContainer.register`; `none` is its ValueError.
unfoldable pub register :
    ResourceRegistration → List ResourceRegistration → Option (List ResourceRegistration)
register registration resources =
    if is_registered registration.name resources
    then none
    else some (resources ++ registration ∷ [])
