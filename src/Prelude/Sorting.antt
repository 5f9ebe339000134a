-- ===== src/Prelude/Sorting.antt =====
-- `sorted(items, key=key)` of Python and the same with `reverse=True`: both keep the order of items
-- with equal keys.
use mathlib.Core.Path.{◌≡◌}
use mathlib.Core.Logic.{inl, inr}
use mathlib.Core.Bool.{Bool, true, false}
use mathlib.Core.List.{List, [], ◌∷◌, Perm}
use mathlib.Core.List.Perm
use kdt_smaty.Prelude.Tests.{Bool-cases, if◌then◌else◌}
use kdt_smaty.Prelude.Lists.{All}

module _ {A : Type 0} (before : A → A → Bool) where
  -- In front of the first item that does not come before it.
  unfoldable pub insert_by : A → List A → List A
  insert_by x [] = x ∷ []
  insert_by x (y ∷ rest) = if before y x then y ∷ insert_by x rest else x ∷ y ∷ rest

  -- Items that are already in order keep their places, so the list is worked off from its end.
  unfoldable pub sort_by : List A → List A
  unfolding insert_by
  sort_by [] = []
  sort_by (x ∷ rest) = insert_by x (sort_by rest)

  pub insert_by-perm : (x : A) (ys : List A) → Perm (insert_by x ys) (x ∷ ys)
  unfolding insert_by
  insert_by-perm x [] = Perm.refl (x ∷ [])
  insert_by-perm x (y ∷ rest) = elim (Bool-cases (before y x)) [
    | inl earlier ↦
        rw earlier (Perm.trans (Perm.cons y (insert_by-perm x rest)) (Perm.swap x y rest))
    | inr later ↦ rw later (Perm.refl (x ∷ y ∷ rest))
  ]

  pub sort_by-perm : (xs : List A) → Perm (sort_by xs) xs
  unfolding sort_by
  sort_by-perm [] = Perm.refl []
  sort_by-perm (x ∷ rest) =
      Perm.trans (insert_by-perm x (sort_by rest)) (Perm.cons x (sort_by-perm rest))

-- Each item is in this relation to all items behind it.
abbrev pub Ordered : {A : Type 0} → (A → A → Type 0) → List A → Type 0
Ordered R [] = Unit
Ordered R (x ∷ rest) = All (R x) rest × Ordered R rest

module _ {A : Type 0} (before : A → A → Bool) (R : A → A → Type 0)
    (ahead : (x y : A) → before x y ≡ true → R x y)
    (behind : (x y : A) → before x y ≡ false → R y x)
    (through : (x y z : A) → R x y → R y z → R x z) where
  All-insert_by : (x y : A) (ys : List A) → R x y → All (R x) ys → All (R x) (insert_by before y ys)
  unfolding insert_by
  All-insert_by x y [] h hs = (h, tt)
  All-insert_by x y (z ∷ zs) h hs = elim (Bool-cases (before z y)) [
    | inl earlier ↦ rw earlier (hs.0, All-insert_by x y zs h hs.1)
    | inr later ↦ rw later (h, hs)
  ]

  All-through : (x y : A) (ys : List A) → R x y → All (R y) ys → All (R x) ys
  All-through x y [] h hs = tt
  All-through x y (z ∷ zs) h hs = (through x y z h hs.0, All-through x y zs h hs.1)

  insert_by-Ordered : (x : A) (ys : List A) → Ordered R ys → Ordered R (insert_by before x ys)
  unfolding insert_by
  insert_by-Ordered x [] h = (tt, tt)
  insert_by-Ordered x (y ∷ ys) h = elim (Bool-cases (before y x)) [
    | inl earlier ↦
        rw earlier (All-insert_by y x ys (ahead y x earlier) h.0, insert_by-Ordered x ys h.1)
    | inr later ↦
        let first = behind y x later in rw later ((first, All-through x y ys first h.0), h)
  ]

  pub sort_by-Ordered : (xs : List A) → Ordered R (sort_by before xs)
  unfolding sort_by
  sort_by-Ordered [] = tt
  sort_by-Ordered (x ∷ rest) = insert_by-Ordered x (sort_by before rest) (sort_by-Ordered rest)
