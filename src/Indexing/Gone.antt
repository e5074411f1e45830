-- ===== src/Indexing/Gone.antt =====
-- No document of an index that passes a test is left, and what keeps it so.
use code_rag.Prelude.{
  String, ◌≡◌, sym, ap, ◌∙◌, inl, inr, Bool, false, Option, none, some, arith, if◌then◌else◌,
  Bool-cases, ◌==◌, nat_eq, string_eq, list_eq, pair_eq, option_eq,
}
use code_rag.Elastic.Corpus.{Corpus}
use code_rag.Elastic.Replace.{Finds, left_of, get-left_of}

module _ {Score D : Type 0} (corpus : Corpus Score D) (q : D → Bool) where
  -- No document that passes the test is left.
  abbrev pub Gone : corpus.State → Type 0
  Gone s = (i : String) (d : D) → corpus.get i s ≡ some d → q d ≡ false

  pub delete-Gone : (s : corpus.State) → Finds corpus q s → Gone (corpus.delete_by_query q s).0
  delete-Gone s finds i d left =
      left_fails (corpus.get i s) (sym (get-left_of corpus q i s finds) ∙ left)
    where
      left_fails : (o : Option D) → left_of q o ≡ some d → q d ≡ false
      left_fails none e = absurd (ground arith)
      left_fails (some x) e = elim (Bool-cases (q x)) [
        | inl goes ↦ absurd (ground (arith, e, goes))
        | inr stays ↦
            let same : some x ≡ some d = sym (ap (λ b. if b then none else some x) stays) ∙ e in
            ground (arith, same, stays)
      ]

  pub other-Gone :
      (other : D → Bool) (s : corpus.State) → Gone s → Gone (corpus.delete_by_query other s).0
  other-Gone other s gone i d left = gone i d (corpus.get-delete_by_query_only other i d s left)

  pub other-Finds :
      (other : D → Bool) (s : corpus.State)
      → Finds corpus q s
      → Finds corpus q (corpus.delete_by_query other s).0
  other-Finds other s finds i d left passes =
      corpus.visible-delete_by_query other i s
        (finds i d (corpus.get-delete_by_query_only other i d s left) passes)

  pub refresh-Gone : (s : corpus.State) → Gone s → Gone (corpus.refresh s)
  refresh-Gone s gone i d left = gone i d (sym (corpus.get-refresh i s) ∙ left)

  pub index-Gone :
      (id : String) (new : D) (s : corpus.State)
      → q new ≡ false
      → Gone s
      → Gone (corpus.index id new s)
  index-Gone id new s other gone i d left = elim (Bool-cases (id == i)) [
    | inl same ↦
        let here : some new ≡ some d =
          sym (corpus.get-index id i new s ∙ ap (λ b. if b then some new else corpus.get i s) same)
          ∙ left in
        ground (arith, here, other)
    | inr differs ↦ gone i d (
        sym (corpus.get-index id i new s ∙ ap (λ b. if b then some new else corpus.get i s) differs)
        ∙ left)
  ]
