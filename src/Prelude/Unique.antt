-- ===== src/Prelude/Unique.antt =====
-- Lists and dictionaries without a repeated key, and `dict.setdefault`.
use mathlib.Core.Path.{◌≡◌, refl, ◌∙◌}
use mathlib.Core.Logic.{inl, inr}
use mathlib.Core.Bool.{Bool, false, ◌||◌}
use mathlib.Core.List.{List, [], ◌∷◌, map}
use native.Mathlib.Omega.{arith}
use code_rag.Prelude.Tests.{if◌then◌else◌, Bool-cases}
use code_rag.Prelude.Classes.{HasEq, ◌==◌}
use code_rag.Prelude.Predicates.{All}
use code_rag.Prelude.Dict.{Dict, keys}
use code_rag.Prelude.Sets.{contains}
use code_rag.Prelude.Sort.{insert_sorted, sort_by}

module _ {ℓ} {A : Type ℓ} ⦃e : HasEq A⦄ where
  abbrev pub IsUnique : List A → Type 0
  IsUnique [] = Unit
  IsUnique (x ∷ xs) = (contains x xs ≡ false) × IsUnique xs

module _ {ℓ κ} {K : Type ℓ} {V : Type κ} ⦃e : HasEq K⦄ where
  -- d.setdefault(k, v)
  unfoldable pub set_default : K → V → Dict K V → Dict K V
  set_default k v [] = (k, v) ∷ []
  set_default k v ((j, w) ∷ d) = if j == k then (j, w) ∷ d else (j, w) ∷ set_default k v d

  pub contains-set_default :
      (k j : K) (v : V) (d : Dict K V)
      → contains j (keys (set_default k v d)) ≡ (k == j || contains j (keys d))
  unfolding set_default contains
  contains-set_default k j v [] = refl
  contains-set_default k j v ((i, w) ∷ d) =
      ground (arith, e.same_iff i k, e.same_iff i j, e.same_iff k j, contains-set_default k j v d)

  pub set_default-IsUnique :
      (k : K) (v : V) (d : Dict K V) → IsUnique (keys d) → IsUnique (keys (set_default k v d))
  unfolding set_default contains
  set_default-IsUnique k v [] u = (refl, tt)
  set_default-IsUnique k v ((j, w) ∷ d) u = elim (Bool-cases (j == k)) [
    | inl same ↦ rw same u
    | inr other ↦ rw other (
      ground (arith, contains-set_default k j v d, e.same_iff j k, e.same_iff k j),
      set_default-IsUnique k v d u.1,
    )
  ]

  pub set_default-All {μ} :
      (P : K × V → Type μ) (k : K) (v : V) (d : Dict K V)
      → P (k, v)
      → All P d
      → All P (set_default k v d)
  unfolding set_default
  set_default-All P k v [] p h = (p, tt)
  set_default-All P k v ((j, w) ∷ d) p h = elim (Bool-cases (j == k)) [
    | inl same ↦ rw same h
    | inr other ↦ rw other (h.0, set_default-All P k v d p h.1)
  ]

module _ {ℓ κ} {A : Type ℓ} {B : Type κ} ⦃e : HasEq B⦄ (f : A → B) (before : A → A → Bool) where
  contains-map-insert_sorted :
      (b : B) (x : A) (xs : List A)
      → contains b (map f (insert_sorted before x xs)) ≡ (f x == b || contains b (map f xs))
  unfolding insert_sorted contains
  contains-map-insert_sorted b x [] = refl
  contains-map-insert_sorted b x (y ∷ ys) = ground (arith, contains-map-insert_sorted b x ys)

  pub contains-map-sort_by :
      (b : B) (xs : List A) → contains b (map f (sort_by before xs)) ≡ contains b (map f xs)
  unfolding sort_by contains
  contains-map-sort_by b [] = refl
  contains-map-sort_by b (x ∷ xs) =
      ground (arith, contains-map-insert_sorted b x (sort_by before xs), contains-map-sort_by b xs)

  insert_sorted-IsUnique :
      (x : A) (xs : List A)
      → contains (f x) (map f xs) ≡ false
      → IsUnique (map f xs)
      → IsUnique (map f (insert_sorted before x xs))
  unfolding insert_sorted contains
  insert_sorted-IsUnique x [] fresh u = (refl, tt)
  insert_sorted-IsUnique x (y ∷ ys) fresh u = elim (Bool-cases (before x y)) [
    | inl first ↦ rw first (fresh, u)
    | inr later ↦ rw later (
      ground (
        arith,
        contains-map-insert_sorted (f y) x ys,
        e.same_iff (f x) (f y),
        e.same_iff (f y) (f x),
      ),
      insert_sorted-IsUnique x ys (ground arith) u.1,
    )
  ]

  pub sort_by-IsUnique : (xs : List A) → IsUnique (map f xs) → IsUnique (map f (sort_by before xs))
  unfolding sort_by
  sort_by-IsUnique [] u = tt
  sort_by-IsUnique (x ∷ xs) u =
      insert_sorted-IsUnique x (sort_by before xs) (contains-map-sort_by (f x) xs ∙ u.0)
        (sort_by-IsUnique xs u.1)
