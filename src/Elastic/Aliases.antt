-- ===== src/Elastic/Aliases.antt =====
-- Versioned indices behind aliases: `_backing`, `_ensure`, `ensure_indices`, `_reindex_one`,
-- `reindex` and `swap_alias` of src/code_rag/adapters/elasticsearch/_base.py. The cluster's index
-- administration is a parameter, whose laws are the documented behaviour of its calls.
use code_rag.Prelude.{
  ℕ, String, ◌≡◌, sym, ap, ◌∙◌, inl, inr, Bool, true, false, not, ◌&&◌, ◌||◌, Option, none, some,
  List, [], ◌∷◌, arith, if◌then◌else◌, Bool-cases, ◌==◌, ==_refl, nat_eq, string_eq, list_eq,
  pair_eq, option_eq, any,
}
use code_rag.Prelude.Sets.{contains}
use code_rag.Prelude.Unique.{IsUnique}

pub record Cluster (Mapping : Type 0) : Type 1 where
  pub State : Type 0
  -- indices.exists
  pub exists_index : String → State → Bool
  pub create : String → Mapping → State → State
  -- the keys of indices.get_alias: the indices behind an alias
  pub backings : String → State → List String
  -- indices.put_alias, of an index and an alias
  pub put_alias : String → String → State → State
  -- indices.update_aliases, which removes one index of an alias and adds another
  pub update_aliases : String → String → String → State → State
  -- from an alias into an index: how many documents
  pub reindex : String → String → State → State × ℕ
  -- the document with an id in an index
  pub Document : Type 0
  pub document : String → String → State → Option Document
  pub backings-IsUnique : (alias : String) (s : State) → IsUnique (backings alias s)
  pub exists-create :
      (i j : String) (m : Mapping) (s : State)
      → exists_index j (create i m s) ≡ (i == j || exists_index j s)
  pub backings-create :
      (alias i : String) (m : Mapping) (s : State)
      → backings alias (create i m s) ≡ backings alias s
  pub document-create :
      (i j id : String) (m : Mapping) (s : State)
      → exists_index i s ≡ false
      → (i == j) ≡ false
      → document j id (create i m s) ≡ document j id s
  pub backings-put_alias :
      (i b alias other : String) (s : State)
      → contains b (backings other (put_alias i alias s))
        ≡ ((alias == other && i == b) || contains b (backings other s))
  pub backings-update_aliases :
      (old new b alias other : String) (s : State)
      → contains b (backings other (update_aliases alias old new s)) ≡ (
          if alias == other
          then (new == b || (not (old == b) && contains b (backings other s)))
          else contains b (backings other s))
  pub document-update_aliases :
      (old new alias i id : String) (s : State)
      → document i id (update_aliases alias old new s) ≡ document i id s
  pub backings-reindex :
      (alias other new : String) (s : State)
      → backings other (reindex alias new s).0 ≡ backings other s
  -- A document of an index behind the alias is in the new index afterwards.
  pub document-reindex :
      (alias new old id : String) (d : Document) (s : State)
      → backings alias s ≡ (old ∷ [])
      → document old id s ≡ some d
      → document new id (reindex alias new s).0 ≡ some d

module _ {Mapping : Type 0} (cluster : Cluster Mapping) (backing : String → String) where
  -- indices.exists_alias
  abbrev pub exists_alias : String → cluster.State → Bool
  exists_alias alias s = not (cluster.backings alias s == [])

  unfoldable pub swap_alias : String → String → String → cluster.State → cluster.State
  swap_alias alias old new s = cluster.update_aliases alias old new s

  abbrev pub created : String → Mapping → cluster.State → cluster.State
  created index mapping s =
      if cluster.exists_index index s then s else cluster.create index mapping s

  unfoldable pub ensure : String → Mapping → cluster.State → cluster.State
  ensure alias mapping s =
      let t = created (backing alias) mapping s in
      if exists_alias alias t then t else cluster.put_alias (backing alias) alias t

  unfoldable pub ensure_indices : List (String × Mapping) → cluster.State → cluster.State
  unfolding ensure
  ensure_indices [] s = s
  ensure_indices ((alias, mapping) ∷ specs) s = ensure_indices specs (ensure alias mapping s)

  unfoldable pub swap_all : String → String → List String → cluster.State → cluster.State
  unfolding swap_alias
  swap_all alias new [] s = s
  swap_all alias new (old ∷ olds) s =
      swap_all alias new olds (if old == new then s else swap_alias alias old new s)

  unfoldable pub reindex_one : String → Mapping → cluster.State → cluster.State × ℕ
  unfolding swap_all
  reindex_one alias mapping s =
      let new = backing alias in
      let t = created new mapping s in
      if not (exists_alias alias t)
      then (cluster.put_alias new alias t, 0)
      else if cluster.backings alias t == (new ∷ [])
      then (t, 0)
      else let copied = cluster.reindex alias new t in
        (swap_all alias new (cluster.backings alias t) copied.0, copied.1)

  -- if only and alias != only: continue
  abbrev pub is_left_out : Option String → String → Bool
  is_left_out none alias = false
  is_left_out (some only) alias = not (only == "") && not (alias == only)

  unfoldable pub reindex :
      Option String → List (String × Mapping) → cluster.State → cluster.State × List (String × ℕ)
  unfolding reindex_one
  reindex only [] s = (s, [])
  reindex only ((alias, mapping) ∷ specs) s =
      if is_left_out only alias
      then reindex only specs s
      else let one = reindex_one alias mapping s in
        let rest = reindex only specs one.0 in (rest.0, (alias, one.1) ∷ rest.1)

  -- The alias stands for exactly the current index.
  abbrev pub PointsAtCurrent : String → cluster.State → Type 0
  PointsAtCurrent alias s =
      (b : String) → contains b (cluster.backings alias s) ≡ (backing alias == b)

  -- What is left to swap.
  pub swap_all-points :
      (alias : String) (olds : List String) (s : cluster.State) (b : String)
      → contains b (cluster.backings alias (swap_all alias (backing alias) olds s)) ≡ (
          (backing alias == b
            && (any (λ old. not (old == backing alias)) olds
                || contains b (cluster.backings alias s)))
          || (not (contains b olds) && contains b (cluster.backings alias s)))
  unfolding swap_all swap_alias contains
  swap_all-points alias [] s b = ground arith
  swap_all-points alias (old ∷ olds) s b = elim (Bool-cases (old == backing alias)) [
    | inl same ↦ rw same (
        swap_all-points alias olds s b
        ∙ ground (arith, ap (λ x. x == b) ((string_eq.same_iff old (backing alias)).0 same)))
    | inr differs ↦ rw differs (
        swap_all-points alias olds (swap_alias alias old (backing alias) s) b
        ∙ ground (
          arith,
          cluster.backings-update_aliases old (backing alias) b alias alias s,
          ==_refl alias,
        ))
  ]

  pub exactly :
      (new : String) (xs : List String)
      → IsUnique xs
      → ((b : String) → contains b xs ≡ (new == b))
      → xs ≡ (new ∷ [])
  unfolding contains
  exactly new [] unique points = absurd (ground (arith, points new, ==_refl new))
  exactly new (x ∷ []) unique points =
      let same = (string_eq.same_iff new x).0 (sym (points x) ∙ ground (arith, ==_refl x)) in
      ap (λ y. y ∷ []) (sym same)
  exactly new (x ∷ y ∷ xs) unique points =
      let first = (string_eq.same_iff new x).0 (sym (points x) ∙ ground (arith, ==_refl x)) in
      let second = (string_eq.same_iff new y).0 (sym (points y) ∙ ground (arith, ==_refl y)) in
      absurd (ground (arith, unique.0, sym first ∙ second, ==_refl y))

  -- An alias that has an index and does not stand for exactly the current one has another.
  pub some_other :
      (new : String) (xs : List String)
      → IsUnique xs
      → (xs == []) ≡ false
      → (xs == (new ∷ [])) ≡ false
      → any (λ old. not (old == new)) xs ≡ true
  unfolding contains
  some_other new [] unique some_there other = absurd (ground (arith, some_there))
  some_other new (x ∷ []) unique some_there other = ground (arith, other)
  some_other new (x ∷ y ∷ xs) unique some_there other = elim (Bool-cases (x == new)) [
    | inr differs ↦ ground (arith, differs)
    | inl same ↦ elim (Bool-cases (y == new)) [
      | inr differs ↦ ground (arith, differs)
      | inl also ↦ absurd (
          ground (
            arith,
            unique.0,
            (string_eq.same_iff x new).0 same ∙ sym ((string_eq.same_iff y new).0 also),
            ==_refl y,
          ))
    ]
  ]
