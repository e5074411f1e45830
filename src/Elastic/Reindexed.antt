-- ===== src/Elastic/Reindexed.antt =====
-- What `reindex` leaves of an alias.
use code_rag.Prelude.{
  ℕ, String, ◌≡◌, refl, ap, ◌∙◌, inl, inr, true, false, not, some, List, [], ◌∷◌, arith,
  if◌then◌else◌, Bool-cases, ◌==◌, ==_refl, nat_eq, string_eq, list_eq, pair_eq, option_eq,
}
use code_rag.Prelude.Sets.{contains}
use code_rag.Elastic.Aliases.{
  Cluster, exists_alias, swap_alias, created, swap_all, reindex_one, PointsAtCurrent,
  swap_all-points, exactly, some_other,
}

flip_differs : (a b : String) → (a == b) ≡ false → (b == a) ≡ false
flip_differs a b differs = elim (Bool-cases (b == a)) [
  | inr other ↦ other
  | inl same ↦
      absurd
        (ground (arith, differs, ap (λ x. a == x) ((string_eq.same_iff b a).0 same), ==_refl a))
]

module _ {Mapping : Type 0} (cluster : Cluster Mapping) (backing : String → String) where
  created-backings :
      (alias index : String) (mapping : Mapping) (s : cluster.State)
      → cluster.backings alias (created cluster backing index mapping s) ≡ cluster.backings alias s
  created-backings alias index mapping s = elim (Bool-cases (cluster.exists_index index s)) [
    | inl there ↦ rw there refl
    | inr new ↦ rw new (cluster.backings-create alias index mapping s)
  ]

  is_empty : (xs : List String) → (xs == []) ≡ true → xs ≡ []
  is_empty xs e = (list_eq.same_iff xs []).0 e

  -- Where an alias ends after it is looked at in the state that has the current index.
  abbrev pub moved : String → cluster.State → cluster.State × ℕ
  moved alias t =
      let new = backing alias in
      if not (exists_alias cluster backing alias t)
      then (cluster.put_alias new alias t, 0)
      else if cluster.backings alias t == (new ∷ [])
      then (t, 0)
      else let copied = cluster.reindex alias new t in
        (swap_all cluster backing alias new (cluster.backings alias t) copied.0, copied.1)

  moved-points :
      (alias : String) (t : cluster.State) → PointsAtCurrent cluster backing alias (moved alias t).0
  unfolding contains
  moved-points alias t b = elim (Bool-cases (cluster.backings alias t == [])) [
    | inl nothing ↦ rw nothing (
        cluster.backings-put_alias (backing alias) b alias alias t
        ∙ ground (arith, ==_refl alias, ap (contains b) (is_empty _ nothing)))
    | inr some_there ↦
        rw some_there (elim (Bool-cases (cluster.backings alias t == (backing alias ∷ []))) [
          | inl current ↦ rw current (
              ap (contains b)
                ((list_eq.same_iff (cluster.backings alias t) (backing alias ∷ [])).0 current)
              ∙ ground arith)
          | inr other ↦ rw other (
              swap_all-points cluster backing alias (cluster.backings alias t)
                (cluster.reindex alias (backing alias) t).0 b
              ∙ ground (
                arith,
                some_other cluster backing (backing alias) (cluster.backings alias t)
                    (cluster.backings-IsUnique alias t) some_there other,
                ap (contains b) (cluster.backings-reindex alias alias (backing alias) t),
              ))
        ])
  ]

  moved_nothing :
      (alias : String) (t : cluster.State)
      → cluster.backings alias t ≡ (backing alias ∷ [])
      → (moved alias t).1 ≡ 0
  moved_nothing alias t e = rw e (rw (==_refl (backing alias)) refl)

  swap_all-document :
      (alias new i id : String) (olds : List String) (s : cluster.State)
      → cluster.document i id (swap_all cluster backing alias new olds s) ≡ cluster.document i id s
  unfolding swap_all swap_alias
  swap_all-document alias new i id [] s = refl
  swap_all-document alias new i id (old ∷ olds) s = elim (Bool-cases (old == new)) [
    | inl same ↦ rw same (swap_all-document alias new i id olds s)
    | inr differs ↦ rw differs (
        swap_all-document alias new i id olds _
        ∙ cluster.document-update_aliases old new alias i id s)
  ]

  created-document :
      (index old id : String) (mapping : Mapping) (s : cluster.State)
      → (index == old) ≡ false
      → cluster.document old id (created cluster backing index mapping s)
        ≡ cluster.document old id s
  created-document index old id mapping s differs =
      elim (Bool-cases (cluster.exists_index index s)) [
        | inl there ↦ rw there refl
        | inr new ↦ rw new (cluster.document-create index old id mapping s new differs)
      ]

  moved-document :
      (alias old id : String) (d : cluster.Document) (t : cluster.State)
      → cluster.backings alias t ≡ (old ∷ [])
      → (old == backing alias) ≡ false
      → cluster.document old id t ≡ some d
      → cluster.document (backing alias) id (moved alias t).0 ≡ some d
  moved-document alias old id d t one differs there = rw one (
      rw differs (
        swap_all-document alias (backing alias) (backing alias) id (old ∷ [])
          (cluster.reindex alias (backing alias) t).0
        ∙ cluster.document-reindex alias (backing alias) old id d t one there))

  -- After the reindexing of an alias the alias stands for exactly the index of the current version;
  -- running it again copies nothing; and each document of the one other index that the alias stood
  -- for before is in the current index.
  pub reindex_one_lem :
      (alias : String) (mapping : Mapping) (s : cluster.State)
      → let t = (reindex_one cluster backing alias mapping s).0 in
        PointsAtCurrent cluster backing alias t
        × ((reindex_one cluster backing alias mapping t).1 ≡ 0)
        × ((old id : String) (d : cluster.Document)
            → cluster.backings alias s ≡ (old ∷ [])
            → (old == backing alias) ≡ false
            → cluster.document old id s ≡ some d
            → cluster.document (backing alias) id t ≡ some d)
  unfolding reindex_one
  reindex_one_lem alias mapping s =
      let new = backing alias in
      let t = created cluster backing new mapping s in
      let points = moved-points alias t in
      (
        points,
        moved_nothing alias (created cluster backing new mapping (moved alias t).0) (
            created-backings alias new mapping (moved alias t).0
            ∙ exactly cluster backing new _ (cluster.backings-IsUnique alias (moved alias t).0)
                points),
        λ old id d one differs there.
            moved-document alias old id d t (created-backings alias new mapping s ∙ one) differs
              (created-document new old id mapping s (flip_differs old new differs) ∙ there),
      )
