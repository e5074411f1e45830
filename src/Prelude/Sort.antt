-- ===== src/Prelude/Sort.antt =====
-- Python's `sorted`: a stable sort. `before x y` is the test `key(x) <= key(y)`, or
-- `key(y) <= key(x)` under `reverse=True`; equal items keep their order.
use Prim.Native.Nat.{suc}
use mathlib.Core.Path.{◌≡◌, refl}
use mathlib.Core.Logic.{inl, inr}
use mathlib.Core.Bool.{Bool, true, false}
use mathlib.Core.List.{List, [], ◌∷◌, Perm}
use mathlib.Core.List.Perm
use native.Mathlib.Omega.{arith}
use code_rag.Prelude.Tests.{if◌then◌else◌, Bool-cases}
use code_rag.Prelude.Lists.{length}
use code_rag.Prelude.Predicates.{All, All-map}

module _ {ℓ} {A : Type ℓ} (before : A → A → Bool) where
  unfoldable pub insert_sorted : A → List A → List A
  insert_sorted x [] = x ∷ []
  insert_sorted x (y ∷ ys) = if before x y then x ∷ y ∷ ys else y ∷ insert_sorted x ys

  unfoldable pub sort_by : List A → List A
  unfolding insert_sorted
  sort_by [] = []
  sort_by (x ∷ xs) = insert_sorted x (sort_by xs)

  abbrev pub IsSorted : List A → Type ℓ
  IsSorted [] = Unit
  IsSorted (x ∷ xs) = All (λ y. before x y ≡ true) xs × IsSorted xs

  insert_sorted-perm : (x : A) (ys : List A) → Perm (insert_sorted x ys) (x ∷ ys)
  unfolding insert_sorted
  insert_sorted-perm x [] = Perm.refl (x ∷ [])
  insert_sorted-perm x (y ∷ ys) = elim (Bool-cases (before x y)) [
    | inl e ↦ rw e (Perm.refl (x ∷ y ∷ ys))
    | inr e ↦ rw e (Perm.trans (Perm.cons y (insert_sorted-perm x ys)) (Perm.swap x y ys))
  ]

  pub sort_by-perm : (xs : List A) → Perm (sort_by xs) xs
  unfolding sort_by
  sort_by-perm [] = Perm.refl []
  sort_by-perm (x ∷ xs) =
      Perm.trans (insert_sorted-perm x (sort_by xs)) (Perm.cons x (sort_by-perm xs))

  insert_sorted-All {κ} :
      (P : A → Type κ) (x : A) (ys : List A) → P x → All P ys → All P (insert_sorted x ys)
  unfolding insert_sorted
  insert_sorted-All P x [] p h = (p, tt)
  insert_sorted-All P x (y ∷ ys) p h = elim (Bool-cases (before x y)) [
    | inl e ↦ rw e (p, h)
    | inr e ↦ rw e (h.0, insert_sorted-All P x ys p h.1)
  ]

  pub sort_by-All {κ} : (P : A → Type κ) (xs : List A) → All P xs → All P (sort_by xs)
  unfolding sort_by
  sort_by-All P [] h = tt
  sort_by-All P (x ∷ xs) h = insert_sorted-All P x (sort_by xs) h.0 (sort_by-All P xs h.1)

  insert_back {κ} :
      (P : A → Type κ) (x y : A) (ys : List A) (b : Bool)
      → (All P (insert_sorted x ys) → P x × All P ys)
      → All P (if b then x ∷ y ∷ ys else y ∷ insert_sorted x ys)
      → P x × All P (y ∷ ys)
  insert_back P x y ys true later h = h
  insert_back P x y ys false later h = ((later h.1).0, (h.0, (later h.1).1))

  insert_sorted-All_back {κ} :
      (P : A → Type κ) (x : A) (ys : List A) → All P (insert_sorted x ys) → P x × All P ys
  unfolding insert_sorted
  insert_sorted-All_back P x [] h = (h.0, tt)
  insert_sorted-All_back P x (y ∷ ys) h =
      insert_back P x y ys (before x y) (λ k. insert_sorted-All_back P x ys k) h

  -- What holds of the sorted list holds of the list.
  pub sort_by-All_back {κ} : (P : A → Type κ) (xs : List A) → All P (sort_by xs) → All P xs
  unfolding sort_by
  sort_by-All_back P [] h = tt
  sort_by-All_back P (x ∷ xs) h =
      let rest = insert_sorted-All_back P x (sort_by xs) h in (rest.0, sort_by-All_back P xs rest.1)

  length-insert_sorted : (x : A) (ys : List A) → length (insert_sorted x ys) ≡ suc (length ys)
  unfolding insert_sorted
  length-insert_sorted x [] = refl
  length-insert_sorted x (y ∷ ys) = ground (arith, length-insert_sorted x ys)

  pub length-sort_by : (xs : List A) → length (sort_by xs) ≡ length xs
  unfolding sort_by
  length-sort_by [] = refl
  length-sort_by (x ∷ xs) = omega (arith, length-insert_sorted x (sort_by xs), length-sort_by xs)

-- A total preorder is what `sorted` relies on.
pub record IsTotal {ℓ} {A : Type ℓ} (before : A → A → Bool) : Type ℓ where
  pub total : (x y : A) → before x y ≡ false → before y x ≡ true
  pub trans : (x y z : A) → before x y ≡ true → before y z ≡ true → before x z ≡ true

module _ {ℓ} {A : Type ℓ} (before : A → A → Bool) (o : IsTotal before) where
  insert_sorted-IsSorted :
      (x : A) (ys : List A) → IsSorted before ys → IsSorted before (insert_sorted before x ys)
  unfolding insert_sorted
  insert_sorted-IsSorted x [] h = (tt, tt)
  insert_sorted-IsSorted x (y ∷ ys) h = elim (Bool-cases (before x y)) [
    | inl e ↦ rw e ((e, All-map _ (λ z p. o.trans x y z e p) ys h.0), h)
    | inr e ↦ rw e (
      insert_sorted-All before (λ z. before y z ≡ true) x ys (o.total x y e) h.0,
      insert_sorted-IsSorted x ys h.1,
    )
  ]

  pub sort_by-IsSorted : (xs : List A) → IsSorted before (sort_by before xs)
  unfolding sort_by
  sort_by-IsSorted [] = tt
  sort_by-IsSorted (x ∷ xs) = insert_sorted-IsSorted x (sort_by before xs) (sort_by-IsSorted xs)
