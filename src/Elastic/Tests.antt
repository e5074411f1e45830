-- ===== src/Elastic/Tests.antt =====
-- Runs of the adapter's model, and its theorems at concrete indices.
use code_rag.Prelude.{
  ℕ, ◌≤◌, String, ◌≡◌, refl, false, ◌&&◌, none, some, [], ◌∷◌, map, arith, if◌then◌else◌, ◌==◌,
  nat_eq, string_eq, list_eq, pair_eq, option_eq, length, All,
}
use Prim.Native.String.{◌++◌ as ◌++ˢ◌}
use code_rag.Prelude.Dict.{get}
use code_rag.Prelude.Sets.{contains, distinct}
use code_rag.Retrieval.Expansion.{calls}
use code_rag.Retrieval.Inside.{IsFiltered}
use code_rag.Elastic.Memory
use code_rag.Elastic.Store.{from_project, source_ids, Indices, replace_file, prune_orphaned_edges}
use code_rag.Elastic.Queries.{filters_pass, hit_of, joined, last_name}
use code_rag.Elastic.Legs.{
  lexical_search, vector_search, symbol_search, edge_search, neighbor_chunks, community_search,
  search_port,
}
use code_rag.Elastic.Scope.{InScope, IsCommunityInScope}
use code_rag.Elastic.Aliases.{PointsAtCurrent, reindex_one}
use code_rag.Elastic.SmallCluster.{Administration, small_cluster}
use code_rag.Elastic.Samples.{a_chunk, an_edge, a_file, client, indices, filters, project_of}
use code_rag.Elastic.Prune.{edge_after, prune_orphaned_edges_lem}
use code_rag.Elastic.Refines.{search_port-InScope, search_port-IsFiltered, IsOwned}
use code_rag.Elastic.Reindexed.{reindex_one_lem}

-- A search in project p finds the chunks of the two files, and not that of project q.
lexical_ids :
    map (λ hit. hit.chunk_id) (lexical_search client indices "x" filters 10) ≡ ("1" ∷ "2" ∷ [])
unfolding lexical_search Memory.matching filters_pass hit_of contains
lexical_ids = refl

last_name-dotted : last_name "a.b.c" ≡ "c"
unfolding last_name
last_name-dotted = refl

joined-two : joined ("a" ∷ "b" ∷ []) ≡ "a b"
unfolding joined
joined-two = refl

pruned_count : (prune_orphaned_edges client "t" "p" "main" indices).1 ≡ 1
unfolding prune_orphaned_edges get contains distinct
pruned_count = refl

two_sources :
    length (
      distinct (
        source_ids client
          (client.edges.scan (from_project client "t" "p" "main") indices.edges_index)))
    ≤ 50000
unfolding distinct contains
two_sources = omega arith

prune_orphaned_edges_lem_example :
    client.edges.get "o" (prune_orphaned_edges client "t" "p" "main" indices).0.edges_index
    ≡ edge_after client (client.chunks.get "9" indices.chunks_index) (an_edge "o" "9")
unfolding get
prune_orphaned_edges_lem_example =
    prune_orphaned_edges_lem client "t" "p" "main" indices "o" "9" (an_edge "o" "9") refl refl refl
      refl refl two_sources

search_port-InScope_example :
    All
      (InScope client.chunks indices.chunks_index filters)
      (lexical_search client indices "x" filters 10)
    × All
        (InScope client.chunks indices.chunks_index filters)
        (vector_search client indices (1 ∷ []) filters 10)
    × All
        (InScope client.chunks indices.chunks_index filters)
        (symbol_search client indices ("f" ∷ []) filters 10)
    × All
        (InScope client.chunks indices.chunks_index filters)
        (edge_search client indices ("f" ∷ []) filters 10)
    × All
        (InScope client.chunks indices.chunks_index filters)
        (neighbor_chunks client indices ("f" ∷ []) (calls ∷ []) filters 10)
    × All
        (IsCommunityInScope client.communities indices.communities_index filters)
        (community_search client indices "x" (1 ∷ []) filters 10)
search_port-InScope_example =
    search_port-InScope client indices filters "x" (1 ∷ []) ("f" ∷ []) (calls ∷ []) 10

indices-IsOwned : IsOwned client project_of indices
indices-IsOwned = ((refl, (refl, (refl, tt))), tt)

search_port-IsFiltered_example : IsFiltered project_of (search_port client indices)
search_port-IsFiltered_example = search_port-IsFiltered client project_of indices indices-IsOwned

abbrev after_replace : Indices client
after_replace =
    (replace_file client (a_file "a.py") (a_chunk "1" "p" "a.py" 0 ∷ []) [] [] indices).0

-- Version 2 of an index whose alias stands for version 1.
abbrev version_one : Administration ℕ
version_one = record {
  is_index = λ i. i == "chunks_v1";
  names = λ alias. if alias == "chunks" then "chunks_v1" ∷ [] else [];
  documents = λ i id. if i == "chunks_v1" && id == "1" then some 7 else none;
}

abbrev version_two : String → String
version_two alias = alias ++ˢ "_v2"

reindex_one_lem_example :
    PointsAtCurrent
      (small_cluster ℕ ℕ)
      version_two
      "chunks"
      (reindex_one (small_cluster ℕ ℕ) version_two "chunks" 0 version_one).0
    × ((reindex_one
          (small_cluster ℕ ℕ)
          version_two
          "chunks"
          0
          (reindex_one (small_cluster ℕ ℕ) version_two "chunks" 0 version_one).0).1
        ≡ 0)
    × ((old id : String) (d : ℕ)
        → (small_cluster ℕ ℕ).backings "chunks" version_one ≡ (old ∷ [])
        → (old == version_two "chunks") ≡ false
        → (small_cluster ℕ ℕ).document old id version_one ≡ some d
        → (small_cluster ℕ ℕ).document
            (version_two "chunks")
            id
            (reindex_one (small_cluster ℕ ℕ) version_two "chunks" 0 version_one).0
          ≡ some d)
reindex_one_lem_example = reindex_one_lem (small_cluster ℕ ℕ) version_two "chunks" 0 version_one
