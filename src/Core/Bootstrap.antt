-- ===== src/Core/Bootstrap.antt =====
-- src/smart_desk/bootstrap.py: which resources the container registers, by the settings. Whether the
-- objects of the voice assistant could be built is an input: its libraries are optional.
pub mod Sequence
pub mod Session
use kdt_smaty.Prelude.{ℕ, String, Bool, true, false, ◌&&◌, Option, none, some, List, [], ◌∷◌}
use kdt_smaty.Core.Container.{ResourceRegistration, register}

-- The settings that the assembly asks for.
pub record Assembly : Type 0 where
  pub publish_user : Bool
  pub publish_posture : Bool
  pub publish_workspace : Bool
  pub receive_user : Bool
  pub receive_posture : Bool
  pub receive_workspace : Bool
  pub wled_enabled : Bool
  pub voice_enabled : Bool
  pub voice_builds : Bool
  pub voice_debug_enabled : Bool

-- The assembly numbers the start and the stop of a resource alike.
abbrev pub resource : String → ℕ → ResourceRegistration
resource name order = record { name = name; startup_order = order; shutdown_order = order }

-- The registrations in the order of the function, each with its condition.
abbrev pub catalogue : Assembly → List (Bool × ResourceRegistration)
catalogue settings =
    let voice = settings.voice_enabled && settings.voice_builds in
    (true, resource "sqlite" 5)
    ∷ (true, resource "mqtt" 10)
    ∷ (true, resource "desk-height-monitor" 20)
    ∷ (true, resource "desk-controller" 30)
    ∷ (settings.publish_user, resource "camera-publisher-user" 40)
    ∷ (settings.publish_posture, resource "camera-publisher-posture" 41)
    ∷ (settings.publish_workspace, resource "camera-publisher-workspace" 42)
    ∷ (settings.receive_user, resource "rtsp-frame-source-user" 50)
    ∷ (settings.receive_posture, resource "rtsp-frame-source-posture" 51)
    ∷ (settings.receive_workspace, resource "rtsp-frame-source-workspace" 52)
    ∷ (settings.wled_enabled, resource "wled" 60)
    ∷ (voice, resource "voice" 70)
    ∷ (voice && settings.voice_debug_enabled, resource "voice-debug-http" 80)
    ∷ []

infixl 5 ◌>>=◌
abbrev ◌>>=◌ : {A B : Type 0} → Option A → (A → Option B) → Option B
some a >>= f = f a
none >>= f = none

-- One call of `container.register` behind another, each under its `if`; `none` is the ValueError of
-- a name that is taken.
unfoldable pub register_all :
    List (Bool × ResourceRegistration)
    → List ResourceRegistration
    → Option (List ResourceRegistration)
register_all [] resources = some resources
register_all ((false, registration) ∷ rest) resources = register_all rest resources
register_all ((true, registration) ∷ rest) resources = do
  more ← register registration resources
  register_all rest more

-- `build_container`: the resources of the new container.
unfoldable pub build_container : Assembly → Option (List ResourceRegistration)
unfolding register_all
build_container settings = register_all (catalogue settings) []
