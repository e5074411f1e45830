-- ===== src/Elastic/SmallCluster.antt =====
-- Index administration kept in functions, which meets the laws of `Cluster`.
use code_rag.Prelude.{
  String, ◌≡◌, refl, ap, ◌∙◌, inl, inr, Bool, not, ◌&&◌, ◌||◌, Option, none, some, List, [], ◌∷◌,
  arith, if◌then◌else◌, Bool-cases, ◌==◌, ==_refl, nat_eq, string_eq, list_eq, pair_eq, option_eq,
  keep_if,
}
use code_rag.Prelude.Sets.{contains, distinct, contains-distinct, contains-keep_if}
use code_rag.Prelude.Unique.{IsUnique}
use code_rag.Elastic.Aliases.{Cluster}

pub record Administration (D : Type 0) : Type 0 where
  pub is_index : String → Bool
  pub names : String → List String
  pub documents : String → String → Option D

pub distinct-IsUnique : (xs : List String) → IsUnique (distinct xs)
unfolding distinct
distinct-IsUnique [] = tt
distinct-IsUnique (x ∷ xs) = elim (Bool-cases (contains x (distinct xs))) [
  | inl there ↦ rw there (distinct-IsUnique xs)
  | inr new ↦ rw new (new, distinct-IsUnique xs)
]

module _ (Mapping D : Type 0) where
  -- The first document under the id in one of the indices.
  abbrev pub first_found : (String → String → Option D) → List String → String → Option D
  first_found documents [] id = none
  first_found documents (index ∷ indices) id = elim (documents index id) [
    | none ↦ first_found documents indices id
    | some d ↦ some d
  ]

  pub first_found-one :
      (documents : String → String → Option D) (index id : String) (d : D)
      → documents index id ≡ some d
      → first_found documents (index ∷ []) id ≡ some d
  first_found-one documents index id d e = rw (e, first_found) refl

  pub put_small :
      (i b alias other : String) (s : Administration D)
      → contains b (distinct (if alias == other then i ∷ s.names other else s.names other))
        ≡ ((alias == other && i == b) || contains b (distinct (s.names other)))
  unfolding contains
  put_small i b alias other s = elim (Bool-cases (alias == other)) [
    | inl same ↦ rw same (
        contains-distinct b (i ∷ s.names other)
        ∙ ground (arith, contains-distinct b (s.names other)))
    | inr differs ↦ rw differs refl
  ]

  pub update_small :
      (old new b alias other : String) (s : Administration D)
      → contains b (
          distinct (
            if alias == other
            then new ∷ keep_if (λ x. not (old == x)) (s.names other)
            else s.names other))
        ≡ (if alias == other
            then (new == b || (not (old == b) && contains b (distinct (s.names other))))
            else contains b (distinct (s.names other)))
  unfolding contains
  update_small old new b alias other s = elim (Bool-cases (alias == other)) [
    | inl same ↦ rw same (
        contains-distinct b (new ∷ keep_if (λ x. not (old == x)) (s.names other))
        ∙ ground (
          arith,
          contains-distinct b (s.names other),
          contains-keep_if (λ x. not (old == x)) b (s.names other),
        ))
    | inr differs ↦ rw differs refl
  ]

  pub copied_small :
      (alias new old id : String) (d : D) (s : Administration D)
      → distinct (s.names alias) ≡ (old ∷ [])
      → s.documents old id ≡ some d
      → (if new == new
          then first_found s.documents (distinct (s.names alias)) id
          else s.documents new id)
        ≡ some d
  copied_small alias new old id d s one there =
      rw (==_refl new)
        (ap (λ xs. first_found s.documents xs id) one ∙ first_found-one s.documents old id d there)

  abbrev pub small_cluster : Cluster Mapping
  small_cluster = record {
    State = Administration D;
    exists_index = λ i s. s.is_index i;
    create = λ i m s. record s {
      is_index = λ j. i == j || s.is_index j;
      documents = λ j id. if i == j then none else s.documents j id;
    };
    backings = λ alias s. distinct (s.names alias);
    put_alias = λ i alias s. record s {
      names = λ other. if alias == other then i ∷ s.names other else s.names other;
    };
    update_aliases = λ alias old new s. record s {
      names = λ other.
          if alias == other
          then new ∷ keep_if (λ b. not (old == b)) (s.names other)
          else s.names other;
    };
    reindex = λ alias new s. (
      record s {
        documents = λ j id.
            if new == j
            then first_found s.documents (distinct (s.names alias)) id
            else s.documents j id;
      },
      0,
    );
    Document = D;
    document = λ i id s. s.documents i id;
    backings-IsUnique = λ alias s. distinct-IsUnique (s.names alias);
    exists-create = λ i j m s. refl;
    backings-create = λ alias i m s. refl;
    document-create = λ i j id m s absent differs. rw differs refl;
    backings-put_alias = λ i b alias other s. put_small i b alias other s;
    backings-update_aliases = λ old new b alias other s. update_small old new b alias other s;
    document-update_aliases = λ old new alias i id s. refl;
    backings-reindex = λ alias other new s. refl;
    document-reindex =
        λ alias new old id d s one there. copied_small alias new old id d s one there;
  }
