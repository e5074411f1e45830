-- ===== src/Retrieval/Neighbors.antt =====
-- What graph expansion adds: new chunks only, each once, and no more than allowed.
use code_rag.Prelude.{
  ℕ, zero, suc, ◌≤◌, ◌<◌, max, String, ◌≡◌, refl, sym, subst, inl, inr, true, false, ◌||◌, Option,
  none, some, List, [], ◌∷◌, ◌++◌, map, arith, leb, eqb, Bool-cases, ◌==◌, nat_eq, string_eq,
  list_eq, pair_eq, option_eq, length, length-append, All, All-append,
}
use code_rag.Prelude.Dict.{get, get-put_self}
use code_rag.Prelude.Sets.{contains}
use code_rag.Prelude.Unique.{IsUnique}
use code_rag.Retrieval.Hits.{SearchHit}
use code_rag.Retrieval.Expansion.{
  QueryType, EdgeType, edge_types, Expansion, seed_fqns, mark_expanded, take_hit, collect, hop,
  expand,
}

module _ {Score Value : Type 0} (true_value : Value) where
  abbrev pub hit_ids : List (SearchHit Score Value) → List String
  hit_ids hits = map (λ hit. hit.chunk_id) hits

  abbrev pub IsMarked : SearchHit Score Value → Type 0
  IsMarked hit = get "graph_expanded" hit.metadata ≡ some true_value

  -- The state between two steps of the loops, for a fixed list of fused hits.
  abbrev IsSound : ℕ → List (SearchHit Score Value) → Expansion Score Value → Type 0
  IsSound max_neighbors hits e =
      (length e.collected ≤ max_neighbors)
      × IsUnique (hit_ids e.collected)
      × All IsMarked e.collected
      × ((c : String)
          → contains c e.seen ≡ (contains c (hit_ids e.collected) || contains c (hit_ids hits)))
      × ((c : String) → contains c (hit_ids hits) ≡ true → contains c (hit_ids e.collected) ≡ false)

  contains-hit_ids :
      (c : String) (hits : List (SearchHit Score Value)) (hit : SearchHit Score Value)
      → contains c (hit_ids (hits ++ (hit ∷ []))) ≡ (contains c (hit_ids hits) || hit.chunk_id == c)
  unfolding contains
  contains-hit_ids c [] hit = ground arith
  contains-hit_ids c (h ∷ hits) hit = ground (arith, contains-hit_ids c hits hit)

  append-IsUnique :
      (hits : List (SearchHit Score Value)) (hit : SearchHit Score Value)
      → IsUnique (hit_ids hits)
      → contains hit.chunk_id (hit_ids hits) ≡ false
      → IsUnique (hit_ids (hits ++ (hit ∷ [])))
  unfolding contains
  append-IsUnique [] hit u fresh = (refl, tt)
  append-IsUnique (h ∷ hits) hit u fresh = (
    ground (
      arith,
      contains-hit_ids h.chunk_id hits hit,
      u.0,
      string_eq.same_iff h.chunk_id hit.chunk_id,
      string_eq.same_iff hit.chunk_id h.chunk_id,
    ),
    append-IsUnique hits hit u.1 (ground arith),
  )

  not_old :
      (c : String) (hit : SearchHit Score Value) (hits : List (SearchHit Score Value))
      → contains c (hit_ids hits) ≡ true
      → contains hit.chunk_id (hit_ids hits) ≡ false
      → (hit.chunk_id == c) ≡ false
  not_old c hit hits known fresh = elim (Bool-cases (hit.chunk_id == c)) [
    | inl same ↦
        let moved =
          subst (λ d. contains d (hit_ids hits) ≡ true)
            (sym ((string_eq.same_iff hit.chunk_id c).0 same)) known in
        ground (arith, moved, fresh)
    | inr other ↦ other
  ]

  take_hit-IsSound :
      (max_neighbors : ℕ) (hits : List (SearchHit Score Value)) (hit : SearchHit Score Value)
      (e : Expansion Score Value)
      → contains hit.chunk_id e.seen ≡ false
      → length e.collected < max_neighbors
      → IsSound max_neighbors hits e
      → IsSound max_neighbors hits (take_hit true_value hit e)
  unfolding take_hit contains
  take_hit-IsSound max_neighbors hits hit e fresh room (_, unique, marked, seen, apart) = (
    omega (arith, length-append e.collected (mark_expanded true_value hit ∷ [])),
    append-IsUnique e.collected (mark_expanded true_value hit) unique
        (ground (arith, seen hit.chunk_id)),
    All-append IsMarked e.collected _ marked
        (get-put_self "graph_expanded" true_value hit.metadata, tt),
    λ c. ground (arith, seen c, contains-hit_ids c e.collected (mark_expanded true_value hit)),
    λ c known. ground (
      arith,
      known,
      apart c known,
      contains-hit_ids c e.collected (mark_expanded true_value hit),
      not_old c hit hits known (ground (arith, seen hit.chunk_id)),
    ),
  )

  collect-IsSound :
      (max_neighbors : ℕ) (hits results : List (SearchHit Score Value)) (e : Expansion Score Value)
      → length e.collected < max_neighbors
      → IsSound max_neighbors hits e
      → IsSound max_neighbors hits (collect true_value max_neighbors results e)
  unfolding collect
  collect-IsSound max_neighbors hits [] e room s = s
  collect-IsSound max_neighbors hits (hit ∷ results) e room s =
      elim (Bool-cases (contains hit.chunk_id e.seen)) [
        | inl old ↦ rw old (collect-IsSound max_neighbors hits results e room s)
        | inr fresh ↦
            rw fresh
              (elim (Bool-cases
                (leb max_neighbors (length (take_hit true_value hit e).collected))) [
                  | inl full ↦ rw full (take_hit-IsSound max_neighbors hits hit e fresh room s)
                  | inr room_left ↦ rw room_left (
                      collect-IsSound max_neighbors hits results (take_hit true_value hit e)
                        (ground arith) (take_hit-IsSound max_neighbors hits hit e fresh room s))
                ])
      ]

  hop-IsSound :
      (neighbor_chunks : List String → List EdgeType → ℕ → List (SearchHit Score Value))
      (edges : List EdgeType) (max_neighbors : ℕ) (hits : List (SearchHit Score Value)) (hops : ℕ)
      (e : Expansion Score Value)
      → IsSound max_neighbors hits e
      → IsSound max_neighbors hits (hop true_value neighbor_chunks edges max_neighbors hops e)
  unfolding hop
  hop-IsSound neighbor_chunks edges max_neighbors hits zero e s = s
  hop-IsSound neighbor_chunks edges max_neighbors hits (suc hops) e s =
      elim (Bool-cases (e.frontier == [] || leb max_neighbors (length e.collected))) [
        | inl done ↦ rw done s
        | inr more ↦ rw more (
            hop-IsSound neighbor_chunks edges max_neighbors hits hops _
              (collect-IsSound max_neighbors hits _ (record e { frontier = [] }) (ground arith) s))
      ]

  -- Graph expansion returns at most `max_neighbors` hits, of different chunks, none of them among
  -- the hits that it started from, each marked as graph-expanded, whatever the index answers.
  pub expand_lem :
      (neighbor_chunks : Option (List String → List EdgeType → ℕ → List (SearchHit Score Value)))
      (max_neighbors hops seed_hits : ℕ) (hits : List (SearchHit Score Value))
      (query_type : QueryType)
      → let found =
          expand true_value neighbor_chunks max_neighbors hops seed_hits hits query_type in
        (length found ≤ max_neighbors)
        × IsUnique (hit_ids found)
        × All IsMarked found
        × ((c : String) → contains c (hit_ids hits) ≡ true → contains c (hit_ids found) ≡ false)
  unfolding expand contains
  expand_lem none max_neighbors hops seed_hits hits query_type =
      (omega arith, tt, tt, λ c known. refl)
  expand_lem (some neighbor_chunks) max_neighbors hops seed_hits hits query_type =
      let start : Expansion Score Value = record {
        seen = hit_ids hits;
        collected = [];
        frontier = seed_fqns true_value seed_hits hits;
      } in
      let s =
        hop-IsSound neighbor_chunks (edge_types query_type) max_neighbors hits (max 1 hops) start
          (omega arith, tt, tt, λ c. refl, λ c known. refl) in
      elim (Bool-cases (eqb max_neighbors 0)) [
        | inl off ↦ rw off (omega arith, tt, tt, λ c known. refl)
        | inr on ↦ rw on (s.0, s.1, s.2, s.4)
      ]
