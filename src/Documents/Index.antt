-- ===== src/Documents/Index.antt =====
-- One Elasticsearch index as its client sees it: documents by id, each with a sequence number that
-- every write of the document raises. The operations and their laws are the documented behaviour of
-- the `index`, `create`, `update` and `search` calls that the adapters make.
use code_rag.Prelude.{
  ℕ, ◌<◌, String, ◌≡◌, Bool, true, false, Option, none, some, List, if◌then◌else◌, ◌==◌, nat_eq,
  string_eq, list_eq, pair_eq, option_eq, All,
}

pub record DocumentIndex (D : Type 0) : Type 1 where
  pub State : Type 0
  -- the source and the sequence number
  pub get : String → State → Option (D × ℕ)
  pub index : String → D → State → State
  -- op_type="create": `none` is a conflict
  pub create : String → D → State → Option State
  -- `none` is NotFoundError
  pub update : String → (D → D) → State → Option State
  -- with if_seq_no: `none` is a conflict
  pub update_if : String → ℕ → (D → D) → State → Option State
  -- the matching documents in ascending order of a key, at most so many
  pub search : (D → Bool) → (D → ℕ) → ℕ → State → List (String × (D × ℕ))
  pub get-index :
      (i j : String) (d : D) (s : State)
      → (n : ℕ) × (get j (index i d s) ≡ (if i == j then some (d, n) else get j s))
  pub create-absent :
      (i : String) (d : D) (s : State)
      → get i s ≡ none
      → (s' : State) × (n : ℕ) × (create i d s ≡ some s')
        × ((j : String) → get j s' ≡ (if i == j then some (d, n) else get j s))
  pub create-present :
      (i : String) (d : D) (s : State) (e : D × ℕ) → get i s ≡ some e → create i d s ≡ none
  pub update-present :
      (i : String) (f : D → D) (s : State) (d : D) (n : ℕ)
      → get i s ≡ some (d, n)
      → (s' : State) × (m : ℕ) × (update i f s ≡ some s')
        × (n < m)
        × ((j : String) → get j s' ≡ (if i == j then some (f d, m) else get j s))
  pub update-absent : (i : String) (f : D → D) (s : State) → get i s ≡ none → update i f s ≡ none
  pub update_if-current :
      (i : String) (f : D → D) (s : State) (d : D) (n : ℕ)
      → get i s ≡ some (d, n)
      → (s' : State) × (m : ℕ) × (update_if i n f s ≡ some s')
        × (n < m)
        × ((j : String) → get j s' ≡ (if i == j then some (f d, m) else get j s))
  pub update_if-changed :
      (i : String) (f : D → D) (s : State) (d : D) (n m : ℕ)
      → get i s ≡ some (d, m)
      → (m == n) ≡ false
      → update_if i n f s ≡ none
  pub update_if-absent :
      (i : String) (n : ℕ) (f : D → D) (s : State) → get i s ≡ none → update_if i n f s ≡ none
  -- A hit matched the query, and as long as the sequence number stands, so does its source.
  pub search_sound :
      (p : D → Bool) (key : D → ℕ) (size : ℕ) (s : State)
      → All
          (λ hit. (p hit.1.0 ≡ true) × ((d : D) → get hit.0 s ≡ some (d, hit.1.1) → d ≡ hit.1.0))
          (search p key size s)
