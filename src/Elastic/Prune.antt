-- ===== src/Elastic/Prune.antt =====
-- What pruning leaves of the edges.
use code_rag.Prelude.{
  ℕ, zero, suc, ◌≤◌, String, ◌≡◌, refl, ap, ◌∙◌, inl, inr, true, false, ◌&&◌, Option, none, some,
  List, [], ◌∷◌, arith, if◌then◌else◌, Bool-cases, Option-cases, ◌==◌, ==_refl, nat_eq, string_eq,
  list_eq, pair_eq, option_eq, length, take, keep_if, In,
}
use code_rag.Prelude.Sets.{contains, distinct, contains-distinct, contains-keep_if}
use code_rag.Elastic.Records.{CodeChunk, CodeEdge}
use code_rag.Elastic.Store.{
  Client, Indices, from_project, source_ids, is_missing, starts_at, prune_orphaned_edges,
}

take_all {ℓ} : {A : Type ℓ} (n : ℕ) (xs : List A) → length xs ≤ n → take n xs ≡ xs
take_all zero [] h = refl
take_all zero (x ∷ xs) h = absurd (omega arith)
take_all (suc n) [] h = refl
take_all (suc n) (x ∷ xs) h = ap (λ t. x ∷ t) (take_all n xs (omega arith))

-- if not orphaned
occupied : (id : String) (ids : List String) → contains id ids ≡ true → (ids == []) ≡ false
unfolding contains
occupied id [] h = absurd (ground arith)
occupied id (x ∷ ids) h = refl

module _ {Score RepoDocument : Type 0} (client : Client Score RepoDocument) where
  contains-source_ids :
      (e : CodeEdge Score) (id : String) (edges : List (CodeEdge Score))
      → In e edges
      → e.source_symbol_id ≡ some id
      → (id == "") ≡ false
      → contains id (source_ids client edges) ≡ true
  unfolding contains
  contains-source_ids e id [] m source real = elim m [ ]
  contains-source_ids e id (first ∷ edges) (inl same) source real =
      let here : first.source_symbol_id ≡ some id = ap (λ x. x.source_symbol_id) same ∙ source in
      rw (here, source_ids) (rw real (ground (arith, ==_refl id)))
  contains-source_ids e id (first ∷ edges) (inr later) source real =
      let ih = contains-source_ids e id edges later source real in
      elim (Option-cases first.source_symbol_id) [
        | inl none_there ↦ rw (none_there, source_ids) ih
        | inr (other, there) ↦ elim (Bool-cases (other == "")) [
          | inl empty ↦ rw (there, source_ids) (rw empty ih)
          | inr full ↦ rw (there, source_ids) (rw full (ground (arith, ih)))
        ]
      ]

  is_missing-true :
      (s : Indices client) (id : String)
      → client.chunks.get id s.chunks_index ≡ none
      → is_missing client s id ≡ true
  is_missing-true s id absent = rw (absent, is_missing) refl

  is_missing-false :
      (s : Indices client) (id : String) (c : CodeChunk Score)
      → client.chunks.get id s.chunks_index ≡ some c
      → is_missing client s id ≡ false
  is_missing-false s id c found = rw (found, is_missing) refl

  starts_at-false :
      (tenant branch : String) (ids : List String) (id : String) (e : CodeEdge Score)
      → e.source_symbol_id ≡ some id
      → contains id ids ≡ false
      → starts_at client tenant branch ids e ≡ false
  starts_at-false tenant branch ids id e source out = rw source (ground (arith, out))

  starts_at-true :
      (tenant project branch : String) (ids : List String) (id : String) (e : CodeEdge Score)
      → e.source_symbol_id ≡ some id
      → contains id ids ≡ true
      → from_project client tenant project branch e ≡ true
      → starts_at client tenant branch ids e ≡ true
  starts_at-true tenant project branch ids id e source in_ids ours =
      rw source (ground (arith, in_ids, ours))

  -- Whatever project the edge is of.
  prune_orphaned_edges-kept :
      (tenant project branch : String) (s : Indices client) (i id : String) (e : CodeEdge Score)
      (c : CodeChunk Score)
      → client.edges.get i s.edges_index ≡ some e
      → e.source_symbol_id ≡ some id
      → client.chunks.get id s.chunks_index ≡ some c
      → client.edges.get i (prune_orphaned_edges client tenant project branch s).0.edges_index
        ≡ some e
  unfolding prune_orphaned_edges
  prune_orphaned_edges-kept tenant project branch s i id e c there source found =
      let ids = take 50000 (
        distinct (
          source_ids client
            (client.edges.scan (from_project client tenant project branch) s.edges_index))) in
      let orphaned = keep_if (is_missing client s) ids in
      let out : contains id orphaned ≡ false =
        ground
          (arith, contains-keep_if (is_missing client s) id ids, is_missing-false s id c found) in
      elim (Bool-cases (orphaned == [])) [
        | inl clean ↦ rw clean there
        | inr some_gone ↦ rw some_gone (
            client.edges.get-delete_by_query_kept _ i e s.edges_index there
              (starts_at-false tenant branch orphaned id e source out))
      ]

  prune_orphaned_edges-gone :
      (tenant project branch : String) (s : Indices client) (i id : String) (e : CodeEdge Score)
      → client.edges.get i s.edges_index ≡ some e
      → client.edges.is_visible i s.edges_index ≡ true
      → from_project client tenant project branch e ≡ true
      → e.source_symbol_id ≡ some id
      → (id == "") ≡ false
      → client.chunks.get id s.chunks_index ≡ none
      → length (
          distinct (
            source_ids client
              (client.edges.scan (from_project client tenant project branch) s.edges_index)))
        ≤ 50000
      → client.edges.get i (prune_orphaned_edges client tenant project branch s).0.edges_index
        ≡ none
  unfolding prune_orphaned_edges contains
  prune_orphaned_edges-gone tenant project branch s i id e there visible ours source real absent
        fits =
      let scanned = client.edges.scan (from_project client tenant project branch) s.edges_index in
      let all_ids = distinct (source_ids client scanned) in
      let orphaned = keep_if (is_missing client s) (take 50000 all_ids) in
      let listed : contains id all_ids ≡ true =
        contains-distinct id (source_ids client scanned)
        ∙ contains-source_ids e id scanned
            (client.edges.scan_finds _ i e s.edges_index there visible ours) source real in
      let in_orphaned : contains id orphaned ≡ true =
        contains-keep_if (is_missing client s) id (take 50000 all_ids)
        ∙ ap (λ ids. is_missing client s id && contains id ids) (take_all 50000 all_ids fits)
        ∙ ground (arith, is_missing-true s id absent, listed) in
      elim (Bool-cases (orphaned == [])) [
        | inl clean ↦ absurd (ground (arith, clean, occupied id orphaned in_orphaned))
        | inr some_gone ↦ rw some_gone (
            client.edges.get-delete_by_query _ i e s.edges_index there visible
            ∙ ap (λ b. if b then none else some e)
                (starts_at-true tenant project branch orphaned id e source in_orphaned ours))
      ]

  -- What is left of an edge, by the chunk that its source is.
  abbrev pub edge_after : Option (CodeChunk Score) → CodeEdge Score → Option (CodeEdge Score)
  edge_after none e = none
  edge_after (some c) e = some e

  -- Pruning deletes an edge of the project, which a search finds and whose source is an id that is not
  -- empty, exactly when no chunk of the index has that id, where the edges of the project have at most
  -- 50,000 different sources; else the edge stays as it is.
  pub prune_orphaned_edges_lem :
      (tenant project branch : String) (s : Indices client) (i id : String) (e : CodeEdge Score)
      → client.edges.get i s.edges_index ≡ some e
      → client.edges.is_visible i s.edges_index ≡ true
      → from_project client tenant project branch e ≡ true
      → e.source_symbol_id ≡ some id
      → (id == "") ≡ false
      → length (
          distinct (
            source_ids client
              (client.edges.scan (from_project client tenant project branch) s.edges_index)))
        ≤ 50000
      → client.edges.get i (prune_orphaned_edges client tenant project branch s).0.edges_index
        ≡ edge_after (client.chunks.get id s.chunks_index) e
  prune_orphaned_edges_lem tenant project branch s i id e there visible ours source real fits =
      elim (Option-cases (client.chunks.get id s.chunks_index)) [
        | inl absent ↦ rw absent (
            prune_orphaned_edges-gone tenant project branch s i id e there visible ours source real
              absent fits)
        | inr (c, found) ↦
            rw found (prune_orphaned_edges-kept tenant project branch s i id e c there source found)
      ]

  pub prune_orphaned_edges-others :
      (tenant project branch : String) (s : Indices client)
      → let t = (prune_orphaned_edges client tenant project branch s).0 in
        (t.chunks_index ≡ s.chunks_index) × (t.communities_index ≡ s.communities_index)
  unfolding prune_orphaned_edges
  prune_orphaned_edges-others tenant project branch s =
      let found = take 50000 (
        distinct (
          source_ids client
            (client.edges.scan (from_project client tenant project branch) s.edges_index))) in
      elim (Bool-cases (keep_if (is_missing client s) found == [])) [
        | inl clean ↦ rw clean (refl, refl)
        | inr some_gone ↦ rw some_gone (refl, refl)
      ]
