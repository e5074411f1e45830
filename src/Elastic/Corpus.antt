-- ===== src/Elastic/Corpus.antt =====
-- One Elasticsearch index as the adapter's reads and writes of code see it. The operations and their
-- laws are the documented behaviour of the `index`, `get`, `delete_by_query` and `search` calls. A
-- search or a deletion sees the documents that a refresh has made visible, a get sees all of them.
use code_rag.Prelude.{
  ℕ, ◌≤◌, ◌<◌, String, ◌≡◌, Bool, true, false, Option, none, some, List, [], ◌∷◌, if◌then◌else◌,
  ◌==◌, nat_eq, string_eq, list_eq, pair_eq, option_eq, length, All, In,
}

-- The part of a query that scores: by analysed text, by exact values, by nearest vectors. Several
-- stand under `should`, of which one at least has to match.
pub data Relevance (Score : Type 0) : Type 0 where
  multi_match : String → List String → Relevance Score
  terms : String → List String → Relevance Score
  knn : List Score → ℕ → Relevance Score
  everything : Relevance Score

-- One item of response["hits"]["hits"]
pub record Item (Score D : Type 0) : Type 0 where
  pub id : String
  pub source : D
  pub item_score : Score

pub record Corpus (Score D : Type 0) : Type 1 where
  pub State : Type 0
  -- the document under an id
  pub get : String → State → Option D
  -- a search would find the document under the id
  pub is_visible : String → State → Bool
  pub index : String → D → State → State
  -- with conflicts="proceed": the documents that pass the clauses go; how many did
  pub delete_by_query : (D → Bool) → State → State × ℕ
  pub refresh : State → State
  -- the filter clauses, the scored part, and how many
  pub search : (D → Bool) → List (Relevance Score) → ℕ → State → List (Item Score D)
  -- helpers.scan
  pub scan : (D → Bool) → State → List D
  -- every document that a read may still return passes the test
  pub Holds : (D → Bool) → State → Type 0
  pub get-index :
      (i j : String) (d : D) (s : State)
      → get j (index i d s) ≡ (if i == j then some d else get j s)
  pub get-delete_by_query :
      (q : D → Bool) (i : String) (d : D) (s : State)
      → get i s ≡ some d
      → is_visible i s ≡ true
      → get i (delete_by_query q s).0 ≡ (if q d then none else some d)
  pub get-delete_by_query_kept :
      (q : D → Bool) (i : String) (d : D) (s : State)
      → get i s ≡ some d
      → q d ≡ false
      → get i (delete_by_query q s).0 ≡ some d
  pub get-delete_by_query_absent :
      (q : D → Bool) (i : String) (s : State)
      → get i s ≡ none
      → get i (delete_by_query q s).0 ≡ none
  pub get-delete_by_query_only :
      (q : D → Bool) (i : String) (d : D) (s : State)
      → get i (delete_by_query q s).0 ≡ some d
      → get i s ≡ some d
  pub visible-delete_by_query :
      (q : D → Bool) (i : String) (s : State)
      → is_visible i s ≡ true
      → is_visible i (delete_by_query q s).0 ≡ true
  pub get-refresh : (i : String) (s : State) → get i (refresh s) ≡ get i s
  pub refresh_shows : (i : String) (s : State) → is_visible i (refresh s) ≡ true
  pub search_filtered :
      (q : D → Bool) (relevance : List (Relevance Score)) (size : ℕ) (s : State)
      → All (λ item. q item.source ≡ true) (search q relevance size s)
  pub search_finds :
      (q : D → Bool) (size : ℕ) (i : String) (d : D) (s : State)
      → get i s ≡ some d
      → is_visible i s ≡ true
      → q d ≡ true
      → 0 < size
      → (item : Item Score D) × (items : List (Item Score D)) × (search q [] size s ≡ item ∷ items)
  pub scan_filtered : (q : D → Bool) (s : State) → All (λ d. q d ≡ true) (scan q s)
  pub scan_finds :
      (q : D → Bool) (i : String) (d : D) (s : State)
      → get i s ≡ some d
      → is_visible i s ≡ true
      → q d ≡ true
      → In d (scan q s)
  pub length-search :
      (q : D → Bool) (relevance : List (Relevance Score)) (size : ℕ) (s : State)
      → length (search q relevance size s) ≤ size
  pub search_holds :
      (p q : D → Bool) (relevance : List (Relevance Score)) (size : ℕ) (s : State)
      → Holds p s
      → All (λ item. p item.source ≡ true) (search q relevance size s)
  pub index-Holds :
      (p : D → Bool) (i : String) (d : D) (s : State)
      → p d ≡ true
      → Holds p s
      → Holds p (index i d s)
  pub delete_by_query-Holds :
      (p q : D → Bool) (s : State) → Holds p s → Holds p (delete_by_query q s).0
  pub refresh-Holds : (p : D → Bool) (s : State) → Holds p s → Holds p (refresh s)
