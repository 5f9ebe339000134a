-- ===== src/Core/Bootstrap/Sequence.antt =====
-- What the registrations of the assembly come to when the application starts and stops.
use kdt_smaty.Prelude.{
  both, neither, All-snoc, ltb, ◌≡◌, refl, ap, ◌∙◌, String, str_eq, Bool, true, false, not, ◌&&◌,
  some, List, [], ◌∷◌, ◌++◌, map, append_assoc, append-nil, sort_by, insert_by, if_true, All,
  Ordered, ◌<◌, if◌then◌else◌, arith,
}
use kdt_smaty.Core.Container.{ResourceRegistration, is_registered, register}
use kdt_smaty.Core.Lifecycle.{starts_before, stops_before, startup_sequence, shutdown_sequence}
use kdt_smaty.Core.Bootstrap.{Assembly, catalogue, register_all, build_container}

-- The resources whose conditions hold.
unfoldable pub chosen : List (Bool × ResourceRegistration) → List ResourceRegistration
chosen [] = []
chosen ((b, registration) ∷ rest) = if b then registration ∷ chosen rest else chosen rest

unfoldable pub backwards : List ResourceRegistration → List ResourceRegistration
backwards [] = []
backwards (registration ∷ rest) = backwards rest ++ registration ∷ []

-- One resource stands before another: smaller numbers and another name.
abbrev apart : ResourceRegistration → ResourceRegistration → Bool
apart a b =
    ltb a.startup_order b.startup_order
    && (ltb a.shutdown_order b.shutdown_order && not (str_eq a.name b.name))

unfoldable before_all : ResourceRegistration → List ResourceRegistration → Bool
before_all a [] = true
before_all a (b ∷ rest) = apart a b && before_all a rest

unfoldable ascends : List ResourceRegistration → Bool
unfolding before_all
ascends [] = true
ascends (a ∷ rest) = before_all a rest && ascends rest

abbrev Apart : ResourceRegistration → ResourceRegistration → Type 0
Apart a b =
    (a.startup_order < b.startup_order)
    × (a.shutdown_order < b.shutdown_order)
    × (str_eq a.name b.name ≡ false)

apart-Apart : (a b : ResourceRegistration) → apart a b ≡ true → Apart a b
apart-Apart a b h =
    let (x, rest) = both (ltb a.startup_order b.startup_order) _ h in
    let (y, z) = both (ltb a.shutdown_order b.shutdown_order) _ rest in
    (ground arith, ground arith, ground arith)

before_all-All :
    (a : ResourceRegistration) (rest : List ResourceRegistration)
    → before_all a rest ≡ true
    → All (Apart a) rest
unfolding before_all
before_all-All a [] h = tt
before_all-All a (b ∷ rest) h =
    let (x, y) = both (apart a b) _ h in (apart-Apart a b x, before_all-All a rest y)

ascends-Ordered : (l : List ResourceRegistration) → ascends l ≡ true → Ordered Apart l
unfolding ascends
ascends-Ordered [] h = tt
ascends-Ordered (a ∷ rest) h =
    let (x, y) = both (before_all a rest) _ h in (before_all-All a rest x, ascends-Ordered rest y)

All-chosen :
    (P : ResourceRegistration → Type 0) (l : List (Bool × ResourceRegistration))
    → All P (map (λ p. p.1) l)
    → All P (chosen l)
unfolding chosen
All-chosen P [] h = tt
All-chosen P ((true, b) ∷ l) h = (h.0, All-chosen P l h.1)
All-chosen P ((false, b) ∷ l) h = All-chosen P l h.1

chosen-Ordered :
    (l : List (Bool × ResourceRegistration))
    → Ordered Apart (map (λ p. p.1) l)
    → Ordered Apart (chosen l)
unfolding chosen
chosen-Ordered [] h = tt
chosen-Ordered ((true, b) ∷ l) h = (All-chosen (Apart b) l h.0, chosen-Ordered l h.1)
chosen-Ordered ((false, b) ∷ l) h = chosen-Ordered l h.1

-- Sorting leaves what ascends, and turns it around for the stops.
startup_insert :
    (a : ResourceRegistration) (rest : List ResourceRegistration)
    → All (Apart a) rest
    → insert_by starts_before a rest ≡ a ∷ rest
unfolding insert_by
startup_insert a [] h = refl
startup_insert a (b ∷ rest) h = let (x, _, _) = h.0 in ground arith

Ordered-startup_sequence :
    (l : List ResourceRegistration) → Ordered Apart l → startup_sequence l ≡ l
unfolding startup_sequence sort_by
Ordered-startup_sequence [] h = refl
Ordered-startup_sequence (a ∷ rest) h =
    ap (insert_by starts_before a) (Ordered-startup_sequence rest h.1) ∙ startup_insert a rest h.0

shutdown_insert :
    (a : ResourceRegistration) (rest : List ResourceRegistration)
    → All (Apart a) rest
    → insert_by stops_before a rest ≡ rest ++ a ∷ []
unfolding insert_by
shutdown_insert a [] h = refl
shutdown_insert a (b ∷ rest) h =
    let (_, x, _) = h.0 in
    if_true (stops_before b a) _ _ (ground arith) ∙ ap (λ l. b ∷ l) (shutdown_insert a rest h.1)

All-backwards :
    (P : ResourceRegistration → Type 0) (l : List ResourceRegistration)
    → All P l
    → All P (backwards l)
unfolding backwards
All-backwards P [] h = tt
All-backwards P (a ∷ rest) h = All-snoc P (backwards rest) a (All-backwards P rest h.1) h.0

Ordered-shutdown_sequence :
    (l : List ResourceRegistration) → Ordered Apart l → shutdown_sequence l ≡ backwards l
unfolding shutdown_sequence sort_by backwards
Ordered-shutdown_sequence [] h = refl
Ordered-shutdown_sequence (a ∷ rest) h =
    ap (insert_by stops_before a) (Ordered-shutdown_sequence rest h.1)
    ∙ shutdown_insert a (backwards rest) (All-backwards (Apart a) rest h.0)

is_registered-snoc :
    (name : String) (a : ResourceRegistration) (existing : List ResourceRegistration)
    → is_registered name existing ≡ false
    → str_eq a.name name ≡ false
    → is_registered name (existing ++ a ∷ []) ≡ false
unfolding is_registered
is_registered-snoc name a [] h differs = rw differs refl
is_registered-snoc name a (b ∷ existing) h differs =
    let (other, rest) = neither (str_eq b.name name) _ h in
    rw (other, is_registered-snoc name a existing rest differs) refl

abbrev IsNew : List ResourceRegistration → ResourceRegistration → Type 0
IsNew existing a = is_registered a.name existing ≡ false

register-IsNew :
    (a : ResourceRegistration) (existing : List ResourceRegistration)
    → IsNew existing a
    → register a existing ≡ some (existing ++ a ∷ [])
unfolding register
register-IsNew a existing new = rw new refl

All-IsNew :
    (a : ResourceRegistration) (existing rest : List ResourceRegistration)
    → All (IsNew existing) rest
    → All (Apart a) rest
    → All (IsNew (existing ++ a ∷ [])) rest
All-IsNew a existing [] new after = tt
All-IsNew a existing (b ∷ rest) new after =
    let (_, _, differs) = after.0 in
    (is_registered-snoc b.name a existing new.0 differs, All-IsNew a existing rest new.1 after.1)

-- No name is taken, so each registration is kept.
register_all-chosen :
    (l : List (Bool × ResourceRegistration)) (existing : List ResourceRegistration)
    → All (IsNew existing) (chosen l)
    → Ordered Apart (chosen l)
    → register_all l existing ≡ some (existing ++ chosen l)
unfolding register_all chosen
register_all-chosen [] existing new after = rw (append-nil existing) refl
register_all-chosen ((false, a) ∷ l) existing new after = register_all-chosen l existing new after
register_all-chosen ((true, a) ∷ l) existing new after = rw (register-IsNew a existing new.0) (
    register_all-chosen l (existing ++ a ∷ []) (All-IsNew a existing (chosen l) new.1 after.0)
      after.1
    ∙ ap some (append_assoc existing (a ∷ []) (chosen l)))

All-IsNew-nil : (l : List ResourceRegistration) → All (IsNew []) l
unfolding is_registered
All-IsNew-nil [] = tt
All-IsNew-nil (a ∷ rest) = (refl, All-IsNew-nil rest)

catalogue-Apart : (settings : Assembly) → Ordered Apart (chosen (catalogue settings))
unfolding ascends before_all
catalogue-Apart settings =
    chosen-Ordered (catalogue settings) (ascends-Ordered (map (λ p. p.1) (catalogue settings)) refl)

-- The assembly never registers a name twice: its container holds exactly the resources whose settings
-- ask for them. They start in the order of their registration, and stop in exactly the opposite one.
pub build_container_lem :
    (settings : Assembly)
    → let resources = chosen (catalogue settings) in
      (build_container settings ≡ some resources)
      × (startup_sequence resources ≡ resources)
      × (shutdown_sequence resources ≡ backwards resources)
unfolding build_container
build_container_lem settings =
    let after = catalogue-Apart settings in
    (
      register_all-chosen (catalogue settings) [] (All-IsNew-nil _) after,
      Ordered-startup_sequence _ after,
      Ordered-shutdown_sequence _ after,
    )
