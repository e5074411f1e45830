-- ===== src/Documents/Memory.antt =====
-- An index kept in a dictionary, which meets the laws of `DocumentIndex`.
use code_rag.Prelude.{
  ℕ, ◌+◌, ◌<◌, String, ◌≡◌, inl, inr, Bool, true, false, Option, none, some, List, [], ◌∷◌, arith,
  leb, if◌then◌else◌, Bool-cases, Option-cases, ◌==◌, nat_eq, string_eq, list_eq, pair_eq,
  option_eq, take, All, All-take,
}
use code_rag.Prelude.Dict
use code_rag.Prelude.Dict.{Dict, keys, get-put}
use code_rag.Prelude.Sort.{sort_by, sort_by-All}
use code_rag.Documents.Index.{DocumentIndex}

module _ (D : Type 0) where
  abbrev pub Docs : Type 0
  Docs = Dict String (D × ℕ)

  abbrev pub next : String → Docs → ℕ
  next i s = elim (Dict.get i s) [ none ↦ 0 | some (d, n) ↦ n + 1 ]

  unfoldable pub write : String → D → Docs → Docs
  write i d s = Dict.put i (d, next i s) s

  unfoldable pub create : String → D → Docs → Option Docs
  unfolding write
  create i d s = elim (Dict.get i s) [ none ↦ some (write i d s) | some e ↦ none ]

  unfoldable pub update : String → (D → D) → Docs → Option Docs
  unfolding write
  update i f s = elim (Dict.get i s) [
    | none ↦ none
    | some (d, n) ↦ some (Dict.put i (f d, n + 1) s)
  ]

  unfoldable pub update_if : String → ℕ → (D → D) → Docs → Option Docs
  unfolding write
  update_if i n f s = elim (Dict.get i s) [
    | none ↦ none
    | some (d, m) ↦ if m == n then some (Dict.put i (f d, m + 1) s) else none
  ]

  unfoldable pub matches : (D → Bool) → Docs → List String → List (String × (D × ℕ))
  matches p s [] = []
  matches p s (i ∷ ids) =
      let rest = matches p s ids in
      elim (Dict.get i s) [ none ↦ rest | some (d, n) ↦ if p d then (i, (d, n)) ∷ rest else rest ]

  unfoldable pub search : (D → Bool) → (D → ℕ) → ℕ → Docs → List (String × (D × ℕ))
  unfolding matches
  search p key size s =
      take size (sort_by (λ x y. leb (key x.1.0) (key y.1.0)) (matches p s (keys s)))

  abbrev pub IsHit : (D → Bool) → Docs → String × (D × ℕ) → Type 0
  IsHit p s hit =
      (p hit.1.0 ≡ true) × ((d : D) → Dict.get hit.0 s ≡ some (d, hit.1.1) → d ≡ hit.1.0)

  matches-IsHit : (p : D → Bool) (s : Docs) (ids : List String) → All (IsHit p s) (matches p s ids)
  unfolding matches
  matches-IsHit p s [] = tt
  matches-IsHit p s (i ∷ ids) = elim (Option-cases (Dict.get i s)) [
    | inl absent ↦ rw (absent, matches) (matches-IsHit p s ids)
    | inr ((d, n), found) ↦ elim (Bool-cases (p d)) [
      | inl yes_p ↦
          rw (found, matches) (rw yes_p ((yes_p, λ e h. ground arith), matches-IsHit p s ids))
      | inr no_p ↦ rw (found, matches) (rw no_p (matches-IsHit p s ids))
    ]
  ]

  pub search_sound :
      (p : D → Bool) (key : D → ℕ) (size : ℕ) (s : Docs) → All (IsHit p s) (search p key size s)
  unfolding search
  search_sound p key size s =
      All-take (IsHit p s) size _ (sort_by-All _ (IsHit p s) _ (matches-IsHit p s (keys s)))

  pub write-get :
      (i j : String) (d : D) (s : Docs)
      → (n : ℕ) × (Dict.get j (write i d s) ≡ (if i == j then some (d, n) else Dict.get j s))
  unfolding write
  write-get i j d s = (next i s, get-put i j (d, next i s) s)

  pub create-absent :
      (i : String) (d : D) (s : Docs)
      → Dict.get i s ≡ none
      → (s' : Docs) × (n : ℕ) × (create i d s ≡ some s')
        × ((j : String) → Dict.get j s' ≡ (if i == j then some (d, n) else Dict.get j s))
  unfolding create
  create-absent i d s h = (write i d s, next i s, ground arith, λ j. get-put i j (d, next i s) s)

  pub create-present :
      (i : String) (d : D) (s : Docs) (e : D × ℕ) → Dict.get i s ≡ some e → create i d s ≡ none
  unfolding create
  create-present i d s e h = ground arith

  pub update-present :
      (i : String) (f : D → D) (s : Docs) (d : D) (n : ℕ)
      → Dict.get i s ≡ some (d, n)
      → (s' : Docs) × (m : ℕ) × (update i f s ≡ some s')
        × (n < m)
        × ((j : String) → Dict.get j s' ≡ (if i == j then some (f d, m) else Dict.get j s))
  unfolding update
  update-present i f s d n h =
      (Dict.put i (f d, n + 1) s, n + 1, ground arith, omega arith, λ j. get-put i j (f d, n + 1) s)

  pub update-absent :
      (i : String) (f : D → D) (s : Docs) → Dict.get i s ≡ none → update i f s ≡ none
  unfolding update
  update-absent i f s h = ground arith

  pub update_if-current :
      (i : String) (f : D → D) (s : Docs) (d : D) (n : ℕ)
      → Dict.get i s ≡ some (d, n)
      → (s' : Docs) × (m : ℕ) × (update_if i n f s ≡ some s')
        × (n < m)
        × ((j : String) → Dict.get j s' ≡ (if i == j then some (f d, m) else Dict.get j s))
  unfolding update_if
  update_if-current i f s d n h =
      (Dict.put i (f d, n + 1) s, n + 1, ground arith, omega arith, λ j. get-put i j (f d, n + 1) s)

  pub update_if-changed :
      (i : String) (f : D → D) (s : Docs) (d : D) (n m : ℕ)
      → Dict.get i s ≡ some (d, m)
      → (m == n) ≡ false
      → update_if i n f s ≡ none
  unfolding update_if
  update_if-changed i f s d n m h k = ground arith

  pub update_if-absent :
      (i : String) (n : ℕ) (f : D → D) (s : Docs) → Dict.get i s ≡ none → update_if i n f s ≡ none
  unfolding update_if
  update_if-absent i n f s h = ground arith

  abbrev pub memory : DocumentIndex D
  memory = record {
    State = Docs;
    get = λ i s. Dict.get i s;
    index = write;
    create = create;
    update = update;
    update_if = update_if;
    search = search;
    get-index = write-get;
    create-absent = create-absent;
    create-present = create-present;
    update-present = update-present;
    update-absent = update-absent;
    update_if-current = update_if-current;
    update_if-changed = update_if-changed;
    update_if-absent = update_if-absent;
    search_sound = search_sound;
  }
