-- ===== src/Retrieval/QueryCache.antt =====
-- The bounded cache of query embeddings: `RetrievalService._cached_query_embedding`,
-- src/code_rag/apps/retrieval/retrieval_service.py. An `OrderedDict` is the list of its items, the
-- oldest first. The embedding provider is a parameter: `none` is an exception.
use code_rag.Prelude.{
  ℕ, suc, ◌+◌, String, ◌&&◌, Option, none, some, [], ◌∷◌, ◌++◌, ltb, if◌then◌else◌, nat_eq,
  string_eq, list_eq, pair_eq, option_eq, length,
}
use code_rag.Prelude.Dict.{Dict, get, remove}

-- self._query_embedding_cache: the expiry and the embedding by the query.
abbrev pub QueryCache : Type 0 → Type 0
QueryCache Embedding = Dict String (ℕ × Embedding)

module _ {Embedding : Type 0} where
  -- cache[query] = entry, then cache.move_to_end(query)
  unfoldable pub to_end : String → ℕ × Embedding → QueryCache Embedding → QueryCache Embedding
  to_end query entry cache = remove query cache ++ ((query, entry) ∷ [])

  -- while len(cache) > max_entries: cache.popitem(last=False)
  unfoldable pub drop_oldest : ℕ → QueryCache Embedding → QueryCache Embedding
  drop_oldest max_entries [] = []
  drop_oldest max_entries (item ∷ cache) =
      let rest = drop_oldest max_entries cache in
      if ltb max_entries (suc (length cache)) then rest else item ∷ cache

  -- The first locked section: a hit moves to the end, and an expired entry is dropped.
  unfoldable pub look_up :
      ℕ → String → QueryCache Embedding → Option Embedding × QueryCache Embedding
  unfolding to_end
  look_up now query cache = elim (get query cache) [
    | none ↦ (none, cache)
    | some entry ↦
        if ltb now entry.0
        then (some entry.1, to_end query entry cache)
        else (none, remove query cache)
  ]

  -- The second locked section.
  unfoldable pub keep : ℕ → ℕ → ℕ → String → Embedding → QueryCache Embedding → QueryCache Embedding
  unfolding to_end drop_oldest
  keep max_entries ttl now query result cache =
      drop_oldest max_entries (to_end query (now + ttl, result) cache)

  abbrev pub computed :
      ℕ
      → ℕ
      → ℕ
      → String
      → Option Embedding
      → QueryCache Embedding
      → Option Embedding × QueryCache Embedding
  computed max_entries ttl now query none cache = (none, cache)
  computed max_entries ttl now query (some result) cache =
      (some result, keep max_entries ttl now query result cache)

  unfoldable pub cached_query_embedding :
      (String → Option Embedding)
      → ℕ
      → ℕ
      → ℕ
      → String
      → QueryCache Embedding
      → Option Embedding × QueryCache Embedding
  unfolding look_up keep
  cached_query_embedding embed_query max_entries ttl now query cache =
      let found = look_up now query cache in
      let fresh = computed max_entries ttl now query (embed_query query) found.1 in
      if ltb 0 ttl && ltb 0 max_entries
      then elim found.0 [ some result ↦ found | none ↦ fresh ]
      else (embed_query query, cache)
