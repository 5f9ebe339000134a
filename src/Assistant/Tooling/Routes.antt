-- ===== src/Assistant/Tooling/Routes.antt =====
-- Where the calls of a built registry go.
use kdt_smaty.Prelude.{
  All-snoc, ℕ, suc, ◌≡◌, refl, sym, ap, ◌∙◌, subst, String, str_eq, ◌⊎◌, inl, inr, none, some, List,
  [], ◌∷◌, ◌++◌, map, All, append_assoc, append-nil, Bool-cases, Option-cases, Sum-cases, arith,
  if_true, if_false,
}
use text.Mathlib.TextEquality.{eq_iff}
use kdt_smaty.Assistant.Tooling.{
  ToolSpec, Route, Registry, RegistryError, find_route, add_spec, add_specs, add_providers,
  new_registry,
}

-- The tools of the providers, each with the number of its own provider.
unfoldable pub tools_of : ℕ → List ToolSpec → List Route
tools_of provider [] = []
tools_of provider (spec ∷ rest) = (provider, spec) ∷ tools_of provider rest

unfoldable pub numbered : ℕ → List (List ToolSpec) → List Route
unfolding tools_of
numbered provider [] = []
numbered provider (specs ∷ rest) = tools_of provider specs ++ numbered (suc provider) rest

abbrev pub GoesTo : List (String × Route) → Route → Type 0
GoesTo routes route = find_route route.1.name routes ≡ some route

-- A registry that has just these tools, in this order, and leads to each of them.
pub record Serves (tools : List Route) (registry : Registry) : Type 0 where
  specs : registry.specs ≡ map (λ route. route.1) tools
  routed : All (GoesTo registry.routes) tools

find_route-append :
    (name : String) (routes more : List (String × Route)) (route : Route)
    → find_route name routes ≡ some route
    → find_route name (routes ++ more) ≡ some route
unfolding find_route
find_route-append name [] more route h = ground arith
find_route-append name ((other, r) ∷ routes) more route h = elim (Bool-cases (str_eq other name)) [
  | inl same ↦ rw same (sym (if_true _ _ _ same) ∙ h)
  | inr differs ↦
      rw differs (find_route-append name routes more route (sym (if_false _ _ _ differs) ∙ h))
]

find_route-last :
    (name : String) (routes : List (String × Route)) (route : Route)
    → find_route name routes ≡ none
    → find_route name (routes ++ (name, route) ∷ []) ≡ some route
unfolding find_route
find_route-last name [] route h = if_true _ _ _ ((eq_iff name name).1 refl)
find_route-last name ((other, r) ∷ routes) route h = elim (Bool-cases (str_eq other name)) [
  | inl same ↦ absurd (ground arith)
  | inr differs ↦ rw differs (find_route-last name routes route (sym (if_false _ _ _ differs) ∙ h))
]

All-GoesTo :
    (routes more : List (String × Route)) (tools : List Route)
    → All (GoesTo routes) tools
    → All (GoesTo (routes ++ more)) tools
All-GoesTo routes more [] h = tt
All-GoesTo routes more (tool ∷ tools) h =
    (find_route-append tool.1.name routes more tool h.0, All-GoesTo routes more tools h.1)

map-snoc :
    (tools : List Route) (tool : Route)
    → map (λ route. route.1) (tools ++ tool ∷ []) ≡ map (λ route. route.1) tools ++ tool.1 ∷ []
map-snoc [] tool = refl
map-snoc (other ∷ tools) tool = ap (λ l. other.1 ∷ l) (map-snoc tools tool)

-- An error, or a registry that serves these tools.
abbrev pub Built : List Route → RegistryError ⊎ Registry → Type 0
Built tools (inl error) = Unit
Built tools (inr registry) = Serves tools registry

add_spec-Built :
    (provider : ℕ) (spec : ToolSpec) (tools : List Route) (registry : Registry)
    → Serves tools registry
    → Built (tools ++ (provider, spec) ∷ []) (add_spec provider spec registry)
unfolding add_spec
add_spec-Built provider spec tools registry h = elim (Bool-cases (str_eq spec.name "")) [
  | inl blank ↦ rw blank tt
  | inr named ↦ elim (Option-cases (find_route spec.name registry.routes)) [
    | inr (route, taken) ↦ rw (named, taken) tt
    | inl free ↦
        rw (named, free)
          (record {
            specs = ap (λ l. l ++ spec ∷ []) h.specs ∙ sym (map-snoc tools (provider, spec));
            routed =
                All-snoc _ tools (provider, spec)
                  (All-GoesTo registry.routes ((spec.name, (provider, spec)) ∷ []) tools h.routed)
                  (find_route-last spec.name registry.routes (provider, spec) free);
          })
  ]
]

add_specs-Built :
    (provider : ℕ) (specs : List ToolSpec) (tools : List Route) (registry : Registry)
    → Serves tools registry
    → Built (tools ++ tools_of provider specs) (add_specs provider specs registry)
unfolding add_specs tools_of
add_specs-Built provider [] tools registry h = rw (append-nil tools) h
add_specs-Built provider (spec ∷ rest) tools registry h =
    let added = add_spec-Built provider spec tools registry h in
    elim (Sum-cases (add_spec provider spec registry)) [
      | inl (error, refused) ↦ rw refused tt
      | inr (more, works) ↦ rw works (
          subst (λ l. Built l (add_specs provider rest more))
            (append_assoc tools ((provider, spec) ∷ []) (tools_of provider rest))
            (add_specs-Built provider rest (tools ++ (provider, spec) ∷ []) more
              (subst (Built (tools ++ (provider, spec) ∷ [])) works added)))
    ]

add_providers-Built :
    (provider : ℕ) (providers : List (List ToolSpec)) (tools : List Route) (registry : Registry)
    → Serves tools registry
    → Built (tools ++ numbered provider providers) (add_providers provider providers registry)
unfolding add_providers numbered
add_providers-Built provider [] tools registry h = rw (append-nil tools) h
add_providers-Built provider (specs ∷ rest) tools registry h =
    let added = add_specs-Built provider specs tools registry h in
    elim (Sum-cases (add_specs provider specs registry)) [
      | inl (error, refused) ↦ rw refused tt
      | inr (more, works) ↦ rw works (
          subst (λ l. Built l (add_providers (suc provider) rest more))
            (append_assoc tools (tools_of provider specs) (numbered (suc provider) rest))
            (add_providers-Built (suc provider) rest (tools ++ tools_of provider specs) more
              (subst (Built (tools ++ tools_of provider specs)) works added)))
    ]

-- A registry that could be built offers the tools of all providers in their order, and leads each of
-- their names to the provider that offers it and to its own schema.
pub new_registry-Built :
    (providers : List (List ToolSpec)) → Built (numbered 0 providers) (new_registry providers)
unfolding new_registry
new_registry-Built providers =
    add_providers-Built 0 providers [] _ (record { specs = refl; routed = tt })
