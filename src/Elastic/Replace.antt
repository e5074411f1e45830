-- ===== src/Elastic/Replace.antt =====
-- What the indices hold after a file is replaced or deleted.
use code_rag.Prelude.{
  String, ◌≡◌, refl, sym, ap, ◌∙◌, inl, inr, Bool, true, Option, none, some, List, [], ◌∷◌,
  if◌then◌else◌, Bool-cases, Option-cases, ◌==◌, nat_eq, string_eq, list_eq, pair_eq, option_eq,
}
use code_rag.Elastic.Corpus.{Corpus}
use code_rag.Elastic.Store.{Client, Indices, in_file, defined_in, touches, delete_file, index_all}

-- What a deletion leaves of a document.
abbrev pub left_of : {D : Type 0} → (D → Bool) → Option D → Option D
left_of q none = none
left_of q (some d) = if q d then none else some d

-- The last of the documents with the id, or the one before them.
abbrev pub latest : {D : Type 0} → (D → String) → String → List D → Option D → Option D
latest id_of i [] before = before
latest id_of i (d ∷ ds) before = latest id_of i ds (if id_of d == i then some d else before)

module _ {Score D : Type 0} (corpus : Corpus Score D) where
  -- A deletion by the test finds every document that is there.
  abbrev pub Finds : (D → Bool) → corpus.State → Type 0
  Finds q s =
      (i : String) (d : D) → corpus.get i s ≡ some d → q d ≡ true → corpus.is_visible i s ≡ true

  pub get-left_of :
      (q : D → Bool) (i : String) (s : corpus.State)
      → Finds q s
      → corpus.get i (corpus.delete_by_query q s).0 ≡ left_of q (corpus.get i s)
  get-left_of q i s finds = elim (Option-cases (corpus.get i s)) [
    | inl absent ↦ corpus.get-delete_by_query_absent q i s absent ∙ ap (left_of q) (sym absent)
    | inr (d, found) ↦ elim (Bool-cases (q d)) [
      | inl goes ↦
          corpus.get-delete_by_query q i d s found (finds i d found goes)
          ∙ ap (left_of q) (sym found)
      | inr stays ↦
          corpus.get-delete_by_query_kept q i d s found stays
          ∙ ap (λ b. if b then none else some d) (sym stays)
          ∙ ap (left_of q) (sym found)
    ]
  ]

module _ {Score RepoDocument : Type 0} (client : Client Score RepoDocument) where
  pub get-index_all :
      {D : Type 0} (corpus : Corpus Score D) (id_of : D → String) (i : String) (ds : List D)
      (s : corpus.State)
      → corpus.get i (index_all client corpus id_of ds s) ≡ latest id_of i ds (corpus.get i s)
  get-index_all corpus id_of i [] s = refl
  get-index_all corpus id_of i (d ∷ ds) s =
      get-index_all corpus id_of i ds (corpus.index (id_of d) d s)
      ∙ ap (latest id_of i ds) (corpus.get-index (id_of d) i d s)

  -- Every document of a file can be found by a search.
  abbrev pub IsRefreshed : String → String → String → String → Indices client → Type 0
  IsRefreshed tenant project branch path s =
      Finds client.chunks (in_file client tenant project branch path) s.chunks_index
      × Finds client.symbols (defined_in client tenant project branch path) s.symbols_index
      × Finds client.edges (touches client tenant project branch path) s.edges_index

  pub delete_file_lem :
      (tenant project branch path : String) (s : Indices client) (i : String)
      → IsRefreshed tenant project branch path s
      → let t = (delete_file client tenant project branch path s).0 in
        (client.chunks.get i t.chunks_index
          ≡ left_of
              (in_file client tenant project branch path)
              (client.chunks.get i s.chunks_index))
        × (client.symbols.get i t.symbols_index
            ≡ left_of
                (defined_in client tenant project branch path)
                (client.symbols.get i s.symbols_index))
        × (client.edges.get i t.edges_index
            ≡ left_of
                (touches client tenant project branch path)
                (client.edges.get i s.edges_index))
  unfolding delete_file
  delete_file_lem tenant project branch path s i (c, x, e) = (
    get-left_of client.chunks _ i s.chunks_index c,
    get-left_of client.symbols _ i s.symbols_index x,
    get-left_of client.edges _ i s.edges_index e,
  )
