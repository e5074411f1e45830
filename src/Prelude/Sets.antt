-- ===== src/Prelude/Sets.antt =====
-- Python's `set` as a list, read through membership, and `sorted(set(...))`.
use mathlib.Core.Path.{◌≡◌, refl, ap}
use mathlib.Core.Logic.{inl, inr}
use mathlib.Core.Bool.{Bool, true, false, ◌&&◌, ◌||◌}
use mathlib.Core.List.{List, [], ◌∷◌, ◌++◌}
use native.Mathlib.Omega.{arith}
use Prim.Native.String.{String}
use code_rag.Prelude.Tests.{if◌then◌else◌, Bool-cases}
use code_rag.Prelude.Classes.{HasEq, ◌==◌, ==_refl, string_eq}
use code_rag.Prelude.Lists.{keep_if}
use code_rag.Prelude.Predicates.{All}
use code_rag.Prelude.Sort.{insert_sorted, sort_by, IsSorted, sort_by-IsSorted}
use code_rag.Prelude.Text.{text_leb, text_leb-IsTotal}

module _ {ℓ} {A : Type ℓ} ⦃e : HasEq A⦄ where
  -- a in xs
  unfoldable pub contains : A → List A → Bool
  contains a [] = false
  contains a (x ∷ xs) = x == a || contains a xs

  -- The items of set(xs), each once.
  unfoldable pub distinct : List A → List A
  unfolding contains
  distinct [] = []
  distinct (x ∷ xs) = let rest = distinct xs in if contains x rest then rest else x ∷ rest

  pub contains-distinct : (a : A) (xs : List A) → contains a (distinct xs) ≡ contains a xs
  unfolding distinct contains
  contains-distinct a [] = refl
  contains-distinct a (x ∷ xs) =
      ground (arith, contains-distinct a xs, contains-distinct x xs, e.same_iff x a)

  contains-insert_sorted :
      (before : A → A → Bool) (a x : A) (xs : List A)
      → contains a (insert_sorted before x xs) ≡ (x == a || contains a xs)
  unfolding insert_sorted contains
  contains-insert_sorted before a x [] = refl
  contains-insert_sorted before a x (y ∷ ys) = ground (arith, contains-insert_sorted before a x ys)

  pub contains-sort_by :
      (before : A → A → Bool) (a : A) (xs : List A) → contains a (sort_by before xs) ≡ contains a xs
  unfolding sort_by contains
  contains-sort_by before a [] = refl
  contains-sort_by before a (x ∷ xs) =
      ground
        (arith, contains-insert_sorted before a x (sort_by before xs), contains-sort_by before a xs)

  pub contains-keep_if :
      (p : A → Bool) (a : A) (xs : List A) → contains a (keep_if p xs) ≡ (p a && contains a xs)
  unfolding contains
  contains-keep_if p a [] = ground arith
  contains-keep_if p a (x ∷ xs) = elim (Bool-cases (x == a)) [
    | inl same ↦ ground (arith, ap p ((e.same_iff x a).0 same), contains-keep_if p a xs)
    | inr other ↦ ground (arith, contains-keep_if p a xs)
  ]

  pub contains-append :
      (a : A) (xs ys : List A) → contains a (xs ++ ys) ≡ (contains a xs || contains a ys)
  unfolding contains
  contains-append a [] ys = refl
  contains-append a (x ∷ xs) ys = ground (arith, contains-append a xs ys)

  pub All-contains :
      (P : A → Type ℓ) (xs : List A) → ((a : A) → contains a xs ≡ true → P a) → All P xs
  unfolding contains
  All-contains P [] f = tt
  All-contains P (x ∷ xs) f =
      (f x (ground (arith, ==_refl x)), All-contains P xs (λ a h. f a (ground arith)))

-- sorted(set(xs))
unfoldable pub sorted_set : List String → List String
sorted_set xs = sort_by text_leb (distinct xs)

pub contains-sorted_set :
    (a : String) (xs : List String) → contains a (sorted_set xs) ≡ contains a xs
unfolding sorted_set
contains-sorted_set a xs =
    ground (arith, contains-sort_by text_leb a (distinct xs), contains-distinct a xs)

pub sorted_set-IsSorted : (xs : List String) → IsSorted text_leb (sorted_set xs)
unfolding sorted_set
sorted_set-IsSorted xs = sort_by-IsSorted text_leb text_leb-IsTotal (distinct xs)
