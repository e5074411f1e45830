-- ===== src/Retrieval/Ranking.antt =====
-- What fusion returns: every hit of the result sets once, scored by all its ranks, best first.
use code_rag.Prelude.{
  ℕ, suc, ◌+◌, String, ◌≡◌, refl, sym, ap, ◌∙◌, subst, inl, inr, Bool, ◌||◌, List, [], ◌∷◌, map,
  arith, if◌then◌else◌, Bool-cases, ◌==◌, ==_refl, nat_eq, string_eq, list_eq, pair_eq, option_eq,
  any, All, All-map,
}
use code_rag.Prelude.Dict.{Dict, keys, values, get, put, get-put}
use code_rag.Prelude.Sets.{contains}
use code_rag.Prelude.Sort.{IsSorted, sort_by-IsSorted, sort_by-All, IsTotal}
use code_rag.Prelude.Unique.{
  IsUnique, contains-set_default, set_default-IsUnique, set_default-All, contains-map-sort_by,
  sort_by-IsUnique,
}
use code_rag.Retrieval.Hits.{SearchHit, Scores}
use code_rag.Retrieval.Fusion.{
  some_or, get_or, Fused, count_hit, count_set, count_sets, with_score, best_first, rrf,
}

get_or-put :
    {V : Type 0} (n : V) (j c : String) (v : V) (d : Dict String V)
    → get_or n c (put j v d) ≡ (if j == c then v else get_or n c d)
get_or-put n j c v d = elim (Bool-cases (j == c)) [
  | inl same ↦ ap (some_or n) (get-put j c v d) ∙ rw same refl
  | inr other ↦ ap (some_or n) (get-put j c v d) ∙ rw other refl
]

or_nothing : (c : String) (b : Bool) → (b || contains c []) ≡ b
unfolding contains
or_nothing c b = ground arith

module _ {Score Value : Type 0} (numbers : Scores Score) (k : ℕ) where
  abbrev pub ids : List (SearchHit Score Value) → List String
  ids hits = map (λ hit. hit.chunk_id) hits

  -- The reference: the shares of all ranks at which the chunk stands, added up in order.
  abbrev pub tally : String → ℕ → List (SearchHit Score Value) → Score → Score
  tally c rank [] s = s
  tally c rank (hit ∷ hits) s =
      tally c (suc rank) hits
        (if hit.chunk_id == c then numbers.plus s (numbers.reciprocal (k + rank)) else s)

  abbrev pub total : String → List (List (SearchHit Score Value)) → Score → Score
  total c [] s = s
  total c (set ∷ sets) s = total c sets (tally c 1 set s)

  abbrev pub named : String → List (List (SearchHit Score Value)) → Bool
  named c sets = any (λ set. contains c (ids set)) sets

  count_hit-share :
      (c : String) (rank : ℕ) (hit : SearchHit Score Value) (fused : Fused Score Value)
      → get_or numbers.nothing c (count_hit numbers k rank hit fused).scores ≡ (
          if hit.chunk_id == c
          then numbers.plus (get_or numbers.nothing c fused.scores) (numbers.reciprocal (k + rank))
          else get_or numbers.nothing c fused.scores)
  unfolding count_hit
  count_hit-share c rank hit fused = elim (Bool-cases (hit.chunk_id == c)) [
    | inl same ↦ rw (get_or-put, (string_eq.same_iff hit.chunk_id c).0 same, ==_refl c) refl
    | inr other ↦ rw (get_or-put, other) refl
  ]

  count_set-tally :
      (c : String) (rank : ℕ) (set : List (SearchHit Score Value)) (fused : Fused Score Value)
      → get_or numbers.nothing c (count_set numbers k rank set fused).scores
        ≡ tally c rank set (get_or numbers.nothing c fused.scores)
  unfolding count_set
  count_set-tally c rank [] fused = refl
  count_set-tally c rank (hit ∷ set) fused =
      count_set-tally c (suc rank) set (count_hit numbers k rank hit fused)
      ∙ ap (tally c (suc rank) set) (count_hit-share c rank hit fused)

  count_sets-total :
      (c : String) (sets : List (List (SearchHit Score Value))) (fused : Fused Score Value)
      → get_or numbers.nothing c (count_sets numbers k sets fused).scores
        ≡ total c sets (get_or numbers.nothing c fused.scores)
  unfolding count_sets
  count_sets-total c [] fused = refl
  count_sets-total c (set ∷ sets) fused =
      count_sets-total c sets (count_set numbers k 1 set fused)
      ∙ ap (total c sets) (count_set-tally c 1 set fused)

  count_set-keys :
      (c : String) (rank : ℕ) (set : List (SearchHit Score Value)) (fused : Fused Score Value)
      → contains c (keys (count_set numbers k rank set fused).hits)
        ≡ (contains c (ids set) || contains c (keys fused.hits))
  unfolding count_set count_hit contains
  count_set-keys c rank [] fused = refl
  count_set-keys c rank (hit ∷ set) fused = ground (
    arith,
    count_set-keys c (suc rank) set (count_hit numbers k rank hit fused),
    contains-set_default hit.chunk_id c hit fused.hits,
  )

  count_sets-keys :
      (c : String) (sets : List (List (SearchHit Score Value))) (fused : Fused Score Value)
      → contains c (keys (count_sets numbers k sets fused).hits)
        ≡ (named c sets || contains c (keys fused.hits))
  unfolding count_sets
  count_sets-keys c [] fused = refl
  count_sets-keys c (set ∷ sets) fused = ground (
    arith,
    count_sets-keys c sets (count_set numbers k 1 set fused),
    count_set-keys c 1 set fused,
  )

  -- The hits stand under their own ids, each once.
  abbrev IsFiled : Fused Score Value → Type 0
  IsFiled fused = IsUnique (keys fused.hits) × All (λ entry. entry.1.chunk_id ≡ entry.0) fused.hits

  count_set-IsFiled :
      (rank : ℕ) (set : List (SearchHit Score Value)) (fused : Fused Score Value)
      → IsFiled fused
      → IsFiled (count_set numbers k rank set fused)
  unfolding count_set count_hit
  count_set-IsFiled rank [] fused filed = filed
  count_set-IsFiled rank (hit ∷ set) fused filed =
      count_set-IsFiled (suc rank) set (count_hit numbers k rank hit fused) (
        set_default-IsUnique hit.chunk_id hit fused.hits filed.0,
        set_default-All _ hit.chunk_id hit fused.hits refl filed.1,
      )

  count_sets-IsFiled :
      (sets : List (List (SearchHit Score Value))) (fused : Fused Score Value)
      → IsFiled fused
      → IsFiled (count_sets numbers k sets fused)
  unfolding count_sets
  count_sets-IsFiled [] fused filed = filed
  count_sets-IsFiled (set ∷ sets) fused filed =
      count_sets-IsFiled sets (count_set numbers k 1 set fused)
        (count_set-IsFiled 1 set fused filed)

  ids-with_score :
      (scores : Dict String Score) (d : Dict String (SearchHit Score Value))
      → All (λ entry. entry.1.chunk_id ≡ entry.0) d
      → ids (map (with_score numbers scores) (values d)) ≡ keys d
  unfolding with_score
  ids-with_score scores [] h = refl
  ids-with_score scores ((c, hit) ∷ d) h = rw (h.0, ids-with_score scores d h.1) refl

  scores_right :
      (scores : Dict String Score) (hits : List (SearchHit Score Value))
      → All
          (λ hit. hit.score ≡ get_or numbers.nothing hit.chunk_id scores)
          (map (with_score numbers scores) hits)
  unfolding with_score
  scores_right scores [] = tt
  scores_right scores (hit ∷ hits) = (refl, scores_right scores hits)

  pub best_first-IsTotal : IsTotal (best_first {Value = Value} numbers)
  best_first-IsTotal = record {
    total = λ x y. numbers.at_most-IsTotal.total y.score x.score;
    trans =
        λ x y z first second. numbers.at_most-IsTotal.trans z.score y.score x.score second first;
  }

  -- The result of fusing lists of hits holds exactly the chunks that stand in some list, each once,
  -- with the sum of 1 / (k + rank) over all its ranks in all the lists as its score, best first.
  pub rrf_lem :
      (sets : List (List (SearchHit Score Value)))
      → ((c : String) → contains c (ids (rrf numbers k sets)) ≡ named c sets)
        × IsUnique (ids (rrf numbers k sets))
        × All (λ hit. hit.score ≡ total hit.chunk_id sets numbers.nothing) (rrf numbers k sets)
        × IsSorted (best_first numbers) (rrf numbers k sets)
  unfolding rrf get
  rrf_lem sets =
      let start : Fused Score Value = record { scores = []; hits = [] } in
      let fused = count_sets numbers k sets start in
      let filed = count_sets-IsFiled sets start (tt, tt) in
      let scored = map (with_score numbers fused.scores) (values fused.hits) in
      let same = ids-with_score fused.scores fused.hits filed.1 in
      let no_more : (c : String) → (named c sets || contains c []) ≡ named c sets =
        λ c. or_nothing c (named c sets) in
      (
        λ c.
            contains-map-sort_by (λ hit. hit.chunk_id) (best_first numbers) c scored
            ∙ ap (contains c) same
            ∙ (count_sets-keys c sets start ∙ no_more c),
        sort_by-IsUnique (λ hit. hit.chunk_id) (best_first numbers) scored
            (subst IsUnique (sym same) filed.0),
        sort_by-All (best_first numbers) _ scored (
            All-map _ (λ hit right. right ∙ count_sets-total hit.chunk_id sets start) scored
              (scores_right fused.scores (values fused.hits))),
        sort_by-IsSorted (best_first numbers) best_first-IsTotal scored,
      )
