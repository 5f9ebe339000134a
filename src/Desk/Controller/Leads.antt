-- ===== src/Desk/Controller/Leads.antt =====
-- Coroutines that lead from one predicate to a weaker one, one rule for each way to build them.
use kdt_smaty.Prelude.{ℕ, Bool, true, false, ◌≡◌, Option, none, some, refl, if◌then◌else◌}
use kdt_smaty.Desk.Controller.State.{Reason}
use kdt_smaty.Desk.Controller.Task.{
  Error, Outcome, returned, failed, pending, Result, ok, raised, World, Task, fail, lift,
  resume_with, with_world, match_option, ◌>>=◌, catch_rejected,
}
use kdt_smaty.Desk.Controller.Wake.{if_generation}
use kdt_smaty.Desk.Controller.Rules.{Holds, Holds-pure, Holds-fail, handle}

-- `m` leads from `A` to `B`, however it ends.
pub record Leads (A B : World → Type 0) {T : Type 0} (m : Task T) : Type 0 where
  pub from : (w : World) → A w → B (m w).1

module _ {A B : World → Type 0} (weaken : (w : World) → A w → B w) where
  pub Leads-Holds : {T : Type 0} (m : Task T) → Holds B m → Leads A B m
  Leads-Holds m h = record { from = λ w a. h.at w (weaken w a) }

  continue :
      {S T : Type 0} (o : Outcome S) (f : S → Task T) (w : World)
      → A w
      → ((x : S) → o ≡ returned x → Leads A B (f x))
      → B (resume_with o f w).1
  continue (returned x) f w a k = (k x refl).from w a
  continue (failed e) f w a k = weaken w a
  continue pending f w a k = weaken w a

  pub Leads-bind :
      {S T : Type 0} (m : Task S) (f : S → Task T)
      → Holds A m
      → ((x : S) → Leads A B (f x))
      → Leads A B (m >>= f)
  unfolding ◌>>=◌
  Leads-bind m f hm hf = record {
    from = λ w a. continue (m w).0 f (m w).1 (hm.at w a) (λ x e. hf x);
  }

  -- After a check the rest may use that it was passed.
  pub Leads-checked :
      {S T : Type 0} (r : Result S) (f : S → Task T)
      → ((x : S) → r ≡ ok x → Leads A B (f x))
      → Leads A B (lift r >>= f)
  unfolding ◌>>=◌
  Leads-checked (ok x) f k = k x refl
  Leads-checked (raised e) f k = record { from = weaken }

  pub Leads-option :
      {S T : Type 0} (o : Option S) (e : Error) (f : S → Task T)
      → ((x : S) → Leads A B (f x))
      → Leads A B (match_option o (fail e) f)
  Leads-option none e f k = Leads-Holds (fail e) (Holds-fail e)
  Leads-option (some x) e f k = k x

pub Leads-if :
    {A B : World → Type 0} {T : Type 0} (b : Bool) (m n : Task T)
    → Leads A B m
    → Leads A B n
    → Leads A B (if b then m else n)
Leads-if true m n hm hn = hm
Leads-if false m n hm hn = hn

pub Leads-world :
    {A B : World → Type 0} {T : Type 0} (f : World → Task T)
    → ((w : World) → A w → B (f w w).1)
    → Leads A B (with_world f)
unfolding with_world
Leads-world f k = record { from = k }

pub Leads-catch :
    {A B : World → Type 0} {T : Type 0} (m : Task T) (f : Reason → Task T)
    → Leads A B m
    → ((r : Reason) → Holds B (f r))
    → Leads A B (catch_rejected m f)
unfolding catch_rejected
Leads-catch m f hm hf = record { from = λ w a. handle (m w).0 f hf (m w).1 (hm.from w a) }

pub Leads-if_generation :
    {A B : World → Type 0} (weaken : (w : World) → A w → B w) (g : ℕ) (m : Task (Unit {0}))
    → Leads A B m
    → Leads A B (if_generation g m)
unfolding if_generation
Leads-if_generation weaken g m hm =
    Leads-world _ λ w a. (Leads-if _ _ _ hm (Leads-Holds weaken _ (Holds-pure tt))).from w a
