-- ===== src/Retrieval/Passing.antt =====
-- A test of chunks that holds of the hits that come in, through expansion and in lists of hits.
use code_rag.Prelude.{
  ℕ, zero, suc, max, String, ◌≡◌, refl, subst, inl, inr, Bool, true, false, ◌||◌, Option, none,
  some, List, [], ◌∷◌, map, arith, leb, eqb, Bool-cases, ◌==◌, ==_refl, nat_eq, string_eq, list_eq,
  pair_eq, option_eq, length, take, any, All, All-append,
}
use code_rag.Prelude.Sets.{contains}
use code_rag.Prelude.Unique.{IsUnique}
use code_rag.Retrieval.Hits.{SearchHit}
use code_rag.Retrieval.Expansion.{
  QueryType, EdgeType, edge_types, Expansion, take_hit, collect, hop, expand,
}

-- Every hit is of a chunk that passes the test.
abbrev pub Pass : {Score Value : Type 0} → (String → Bool) → List (SearchHit Score Value) → Type 0
Pass ok_chunk hits = All (λ hit. ok_chunk hit.chunk_id ≡ true) hits

module _ {Score Value : Type 0} (true_value : Value) (ok_chunk : String → Bool) where
  collect-Pass :
      (max_neighbors : ℕ) (results : List (SearchHit Score Value)) (e : Expansion Score Value)
      → Pass ok_chunk results
      → Pass ok_chunk e.collected
      → Pass ok_chunk (collect true_value max_neighbors results e).collected
  unfolding collect take_hit
  collect-Pass max_neighbors [] e right before = before
  collect-Pass max_neighbors (hit ∷ results) e right before =
      elim (Bool-cases (contains hit.chunk_id e.seen)) [
        | inl old ↦ rw old (collect-Pass max_neighbors results e right.1 before)
        | inr fresh ↦
            let after = All-append _ e.collected _ before (right.0, tt) in
            elim (Bool-cases (leb max_neighbors (length (take_hit true_value hit e).collected))) [
              | inl full ↦ rw (fresh, full) after
              | inr room ↦
                  rw (fresh, room)
                    (collect-Pass max_neighbors results (take_hit true_value hit e) right.1 after)
            ]
      ]

  hop-Pass :
      (neighbor_chunks : List String → List EdgeType → ℕ → List (SearchHit Score Value))
      (edges : List EdgeType) (max_neighbors hops : ℕ) (e : Expansion Score Value)
      → ((fqns : List String) (size : ℕ) → Pass ok_chunk (neighbor_chunks fqns edges size))
      → Pass ok_chunk e.collected
      → Pass ok_chunk (hop true_value neighbor_chunks edges max_neighbors hops e).collected
  unfolding hop
  hop-Pass neighbor_chunks edges max_neighbors zero e right before = before
  hop-Pass neighbor_chunks edges max_neighbors (suc hops) e right before =
      elim (Bool-cases (e.frontier == [] || leb max_neighbors (length e.collected))) [
        | inl done ↦ rw done before
        | inr more ↦ rw more (
            hop-Pass neighbor_chunks edges max_neighbors hops _ right
              (collect-Pass max_neighbors _ (record e { frontier = [] }) (right _ _) before))
      ]

  pub expand-Pass :
      (neighbor_chunks : Option (List String → List EdgeType → ℕ → List (SearchHit Score Value)))
      (max_neighbors hops seed_hits : ℕ) (hits : List (SearchHit Score Value))
      (query_type : QueryType)
      → ((f : List String → List EdgeType → ℕ → List (SearchHit Score Value))
          → neighbor_chunks ≡ some f
          → (fqns : List String) (edges : List EdgeType) (size : ℕ)
          → Pass ok_chunk (f fqns edges size))
      → Pass ok_chunk
          (expand true_value neighbor_chunks max_neighbors hops seed_hits hits query_type)
  unfolding expand
  expand-Pass none max_neighbors hops seed_hits hits query_type right = tt
  expand-Pass (some f) max_neighbors hops seed_hits hits query_type right =
      elim (Bool-cases (eqb max_neighbors 0)) [
        | inl off ↦ rw off tt
        | inr on ↦ rw on (
            hop-Pass f (edge_types query_type) max_neighbors (max 1 hops) _
              (λ fqns size. right f refl fqns (edge_types query_type) size) tt)
      ]

module _ {Score Value : Type 0} (ok_chunk : String → Bool) where
  Pass-contains :
      (c : String) (hits : List (SearchHit Score Value))
      → Pass ok_chunk hits
      → contains c (map (λ hit. hit.chunk_id) hits) ≡ true
      → ok_chunk c ≡ true
  unfolding contains
  Pass-contains c [] right here = absurd (ground arith)
  Pass-contains c (hit ∷ hits) right here = elim (Bool-cases (hit.chunk_id == c)) [
    | inl same ↦ subst (λ d. ok_chunk d ≡ true) ((string_eq.same_iff hit.chunk_id c).0 same) right.0
    | inr other ↦ Pass-contains c hits right.1 (ground arith)
  ]

  pub Pass-any :
      (c : String) (sets : List (List (SearchHit Score Value)))
      → All (Pass ok_chunk) sets
      → any (λ set. contains c (map (λ hit. hit.chunk_id) set)) sets ≡ true
      → ok_chunk c ≡ true
  Pass-any c [] right here = absurd (ground arith)
  Pass-any c (set ∷ sets) right here =
      elim (Bool-cases (contains c (map (λ hit. hit.chunk_id) set))) [
        | inl first ↦ Pass-contains c set right.0 first
        | inr later ↦ Pass-any c sets right.1 (ground arith)
      ]

  pub Pass-of :
      (hits : List (SearchHit Score Value))
      → ((c : String) → contains c (map (λ hit. hit.chunk_id) hits) ≡ true → ok_chunk c ≡ true)
      → Pass ok_chunk hits
  unfolding contains
  Pass-of [] right = tt
  Pass-of (hit ∷ hits) right = (
    right hit.chunk_id (ground (arith, ==_refl hit.chunk_id)),
    Pass-of hits (λ c here. right c (ground arith)),
  )

contains-map-take :
    {A : Type 0} (c : String) (f : A → String) (n : ℕ) (xs : List A)
    → contains c (map f xs) ≡ false
    → contains c (map f (take n xs)) ≡ false
unfolding contains
contains-map-take c f zero xs h = refl
contains-map-take c f (suc n) [] h = refl
contains-map-take c f (suc n) (x ∷ xs) h = ground (arith, contains-map-take c f n xs)

pub take-IsUnique :
    {A : Type 0} (f : A → String) (n : ℕ) (xs : List A)
    → IsUnique (map f xs)
    → IsUnique (map f (take n xs))
take-IsUnique f zero xs u = tt
take-IsUnique f (suc n) [] u = tt
take-IsUnique f (suc n) (x ∷ xs) u = (contains-map-take (f x) f n xs u.0, take-IsUnique f n xs u.1)
