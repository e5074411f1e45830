-- ===== src/Retrieval/CacheBounds.antt =====
-- The query cache never shows and stays small, also when requests overlap.
use code_rag.Prelude.{
  ℕ, suc, ◌+◌, ◌≤◌, ◌<◌, String, ◌≡◌, refl, sym, ap, ◌∙◌, inl, inr, ◌&&◌, Option, none, some, List,
  [], ◌∷◌, arith, ltb, Bool-cases, Option-cases, ◌==◌, nat_eq, string_eq, list_eq, pair_eq,
  option_eq, length, length-append, All, All-append,
}
use code_rag.Prelude.Dict.{get, remove}
use code_rag.Retrieval.QueryCache.{
  QueryCache, to_end, drop_oldest, look_up, keep, computed, cached_query_embedding,
}

-- The locked sections of overlapping requests: a look-up, and the storing of what the provider
-- answered for the query.
pub data Section : Type 0 where
  looks : ℕ → String → Section
  keeps : ℕ → String → Section

module _ {Embedding : Type 0} (embed_query : String → Option Embedding) (max_entries ttl : ℕ) where
  abbrev keep_answer : ℕ → String → Option Embedding → QueryCache Embedding → QueryCache Embedding
  keep_answer now query answer cache = (computed max_entries ttl now query answer cache).1

  abbrev section : Section → QueryCache Embedding → QueryCache Embedding
  section (looks now query) cache = (look_up now query cache).1
  section (keeps now query) cache = keep_answer now query (embed_query query) cache

  abbrev pub run_sections : List Section → QueryCache Embedding → QueryCache Embedding
  run_sections [] cache = cache
  run_sections (s ∷ sections) cache = run_sections sections (section s cache)

  abbrev IsRight : QueryCache Embedding → Type 0
  IsRight cache = All (λ item. embed_query item.0 ≡ some item.1.1) cache

  remove-IsRight :
      (query : String) (cache : QueryCache Embedding) → IsRight cache → IsRight (remove query cache)
  unfolding remove
  remove-IsRight query [] h = tt
  remove-IsRight query (item ∷ cache) h = elim (Bool-cases (item.0 == query)) [
    | inl same ↦ rw same (remove-IsRight query cache h.1)
    | inr other ↦ rw other (h.0, remove-IsRight query cache h.1)
  ]

  drop_oldest-IsRight :
      (cache : QueryCache Embedding) → IsRight cache → IsRight (drop_oldest max_entries cache)
  unfolding drop_oldest
  drop_oldest-IsRight [] h = tt
  drop_oldest-IsRight (item ∷ cache) h = elim (Bool-cases (ltb max_entries (suc (length cache)))) [
    | inl large ↦ rw large (drop_oldest-IsRight cache h.1)
    | inr small ↦ rw small h
  ]

  get-IsRight :
      (query : String) (entry : ℕ × Embedding) (cache : QueryCache Embedding)
      → IsRight cache
      → get query cache ≡ some entry
      → embed_query query ≡ some entry.1
  unfolding get
  get-IsRight query entry [] h e = ground arith
  get-IsRight query entry ((j, w) ∷ cache) h e = elim (Bool-cases (j == query)) [
    | inl same ↦ ground (arith, h.0, ap embed_query ((string_eq.same_iff j query).0 same))
    | inr other ↦ get-IsRight query entry cache h.1 (ground arith)
  ]

  length-drop_oldest :
      (cache : QueryCache Embedding) → length (drop_oldest max_entries cache) ≤ max_entries
  unfolding drop_oldest
  length-drop_oldest [] = omega arith
  length-drop_oldest (item ∷ cache) = ground (arith, length-drop_oldest cache)

  length-remove :
      (query : String) (cache : QueryCache Embedding) → length (remove query cache) ≤ length cache
  unfolding remove
  length-remove query [] = omega arith
  length-remove query ((j, w) ∷ cache) = ground (arith, length-remove query cache)

  length-remove_present :
      (query : String) (entry : ℕ × Embedding) (cache : QueryCache Embedding)
      → get query cache ≡ some entry
      → length (remove query cache) < length cache
  unfolding remove get
  length-remove_present query entry [] e = ground arith
  length-remove_present query entry ((j, w) ∷ cache) e =
      ground (arith, length-remove query cache, length-remove_present query entry cache)

  look_up-IsRight :
      (now : ℕ) (query : String) (cache : QueryCache Embedding)
      → IsRight cache
      → IsRight (look_up now query cache).1
        × ((result : Embedding)
            → (look_up now query cache).0 ≡ some result
            → embed_query query ≡ some result)
  unfolding look_up to_end
  look_up-IsRight now query cache h = elim (Option-cases (get query cache)) [
    | inl missing ↦ rw (look_up, missing) (h, λ result e. ground arith)
    | inr (entry, e) ↦
        let right = get-IsRight query entry cache h e in
        let others = remove-IsRight query cache h in
        elim (Bool-cases (ltb now entry.0)) [
          | inl live ↦
              rw (look_up, e, live)
                (
                  All-append _ (remove query cache) _ others (right, tt),
                  λ result same. ground (arith, right, same),
                )
          | inr stale ↦ rw (look_up, e, stale) (others, λ result same. ground arith)
        ]
  ]

  keep_answer-IsRight :
      (now : ℕ) (query : String) (cache : QueryCache Embedding)
      → IsRight cache
      → IsRight (keep_answer now query (embed_query query) cache)
  unfolding keep to_end
  keep_answer-IsRight now query cache h = elim (Option-cases (embed_query query)) [
    | inl failed ↦ rw failed h
    | inr (result, e) ↦ rw e (
        drop_oldest-IsRight (to_end query (now + ttl, result) cache)
          (All-append _ (remove query cache) _ (remove-IsRight query cache h) (e, tt)))
  ]

  computed-answer :
      (now : ℕ) (query : String) (answer : Option Embedding) (cache : QueryCache Embedding)
      → (computed max_entries ttl now query answer cache).0 ≡ answer
  computed-answer now query none cache = refl
  computed-answer now query (some result) cache = refl

  run_sections-IsRight :
      (sections : List Section) (cache : QueryCache Embedding)
      → IsRight cache
      → IsRight (run_sections sections cache)
  run_sections-IsRight [] cache h = h
  run_sections-IsRight (looks now query ∷ sections) cache h =
      run_sections-IsRight sections _ (look_up-IsRight now query cache h).0
  run_sections-IsRight (keeps now query ∷ sections) cache h =
      run_sections-IsRight sections _ (keep_answer-IsRight now query cache h)

  -- However the locked sections of requests interleave, a request gets the embedding that the
  -- provider gives for its query, where the provider always answers a query alike.
  pub cached_query_embedding-run_sections :
      (sections : List Section) (now : ℕ) (query : String)
      → (cached_query_embedding embed_query max_entries ttl now query (run_sections sections [])).0
        ≡ embed_query query
  unfolding cached_query_embedding
  cached_query_embedding-run_sections sections now query =
      let cache = run_sections sections [] in
      let right = (look_up-IsRight now query cache (run_sections-IsRight sections [] tt)).1 in
      elim (Bool-cases (ltb 0 ttl && ltb 0 max_entries)) [
        | inr off ↦ rw off refl
        | inl on ↦ elim (Option-cases (look_up now query cache).0) [
          | inl missing ↦
              rw (on, missing)
                (computed-answer now query (embed_query query) (look_up now query cache).1)
          | inr (result, e) ↦ rw (on, e) (e ∙ sym (right result e))
        ]
      ]

  length-look_up :
      (now : ℕ) (query : String) (cache : QueryCache Embedding)
      → length (look_up now query cache).1 ≤ length cache
  unfolding look_up to_end
  length-look_up now query cache = elim (Option-cases (get query cache)) [
    | inl missing ↦ rw (look_up, missing) (omega arith)
    | inr (entry, e) ↦
        let fewer = length-remove_present query entry cache e in
        elim (Bool-cases (ltb now entry.0)) [
          | inl live ↦
              rw (look_up, e, live)
                (omega (arith, fewer, length-append (remove query cache) ((query, entry) ∷ [])))
          | inr stale ↦ rw (look_up, e, stale) (omega (arith, fewer))
        ]
  ]

  length-keep_answer :
      (now : ℕ) (query : String) (answer : Option Embedding) (cache : QueryCache Embedding)
      → length cache ≤ max_entries
      → length (keep_answer now query answer cache) ≤ max_entries
  unfolding keep
  length-keep_answer now query none cache h = h
  length-keep_answer now query (some result) cache h =
      length-drop_oldest (to_end query (now + ttl, result) cache)

  length-run_sections_from :
      (sections : List Section) (cache : QueryCache Embedding)
      → length cache ≤ max_entries
      → length (run_sections sections cache) ≤ max_entries
  length-run_sections_from [] cache h = h
  length-run_sections_from (looks now query ∷ sections) cache h =
      length-run_sections_from sections _ (omega (arith, length-look_up now query cache))
  length-run_sections_from (keeps now query ∷ sections) cache h =
      length-run_sections_from sections _ (length-keep_answer now query (embed_query query) cache h)

  -- However the locked sections of requests interleave, the cache never holds more entries than
  -- its maximum after any of them.
  pub length-run_sections :
      (sections : List Section) → length (run_sections sections []) ≤ max_entries
  length-run_sections sections = length-run_sections_from sections [] (omega arith)
