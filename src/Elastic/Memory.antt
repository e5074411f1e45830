-- ===== src/Elastic/Memory.antt =====
-- An index kept in a dictionary, all of it visible, which meets the laws of `Corpus`.
use code_rag.Prelude.{
  ℕ, zero, suc, ◌-◌, ◌≤◌, ◌<◌, String, ◌≡◌, refl, sym, ap, ◌∙◌, inl, inr, Bool, true, false, not,
  Option, none, some, List, [], ◌∷◌, arith, if◌then◌else◌, Bool-cases, ◌==◌, nat_eq, string_eq,
  list_eq, pair_eq, option_eq, length, take, keep_if, length-take, All, In, All-take, All-keep_if,
}
use code_rag.Prelude.Dict
use code_rag.Prelude.Dict.{Dict, get-put, get-keep_if}
use code_rag.Elastic.Corpus.{Relevance, Item, Corpus}

module _ (Score D : Type 0) (nothing : Score) where
  abbrev pub Docs : Type 0
  Docs = Dict String D

  abbrev pub survives : (D → Bool) → Option D → Bool
  survives q none = true
  survives q (some d) = not (q d)

  abbrev pub delete_by_query : (D → Bool) → Docs → Docs × ℕ
  delete_by_query q s =
      let kept = keep_if (λ entry. survives q (Dict.get entry.0 s)) s in
      (kept, length s - length kept)

  abbrev pub item_of : String × D → Item Score D
  item_of entry = record { id = entry.0; source = entry.1; item_score = nothing }

  unfoldable pub matching : (D → Bool) → Docs → List (Item Score D)
  matching q [] = []
  matching q (entry ∷ s) =
      let rest = matching q s in if q entry.1 then item_of entry ∷ rest else rest

  abbrev pub search : (D → Bool) → List (Relevance Score) → ℕ → Docs → List (Item Score D)
  search q relevance size s = take size (matching q s)

  abbrev pub scan : (D → Bool) → Docs → List D
  scan q s = keep_if q (Dict.values s)

  abbrev pub Holds : (D → Bool) → Docs → Type 0
  Holds p s = All (λ entry. p entry.1 ≡ true) s

  pub matching_filtered :
      (q : D → Bool) (s : Docs) → All (λ item. q item.source ≡ true) (matching q s)
  unfolding matching
  matching_filtered q [] = tt
  matching_filtered q (entry ∷ s) = elim (Bool-cases (q entry.1)) [
    | inl fits ↦ rw fits (fits, matching_filtered q s)
    | inr differs ↦ rw differs (matching_filtered q s)
  ]

  pub matching-Holds :
      (p q : D → Bool) (s : Docs) → Holds p s → All (λ item. p item.source ≡ true) (matching q s)
  unfolding matching
  matching-Holds p q [] h = tt
  matching-Holds p q (entry ∷ s) h = elim (Bool-cases (q entry.1)) [
    | inl fits ↦ rw fits (h.0, matching-Holds p q s h.1)
    | inr differs ↦ rw differs (matching-Holds p q s h.1)
  ]

  pub matching_finds :
      (q : D → Bool) (size : ℕ) (i : String) (d : D) (s : Docs)
      → Dict.get i s ≡ some d
      → q d ≡ true
      → 0 < size
      → (item : Item Score D) × (items : List (Item Score D)) × (take size (matching q s)
          ≡ item ∷ items)
  unfolding matching Dict.get
  matching_finds q zero i d s e fits room = absurd (omega arith)
  matching_finds q (suc size) i d [] e fits room = absurd (ground arith)
  matching_finds q (suc size) i d ((j, w) ∷ s) e fits room = elim (Bool-cases (q w)) [
    | inl here ↦ rw here (_, _, refl)
    | inr other ↦
        rw other (matching_finds q (suc size) i d s (ground (arith, e, fits, other)) fits room)
  ]

  pub put-Holds :
      (p : D → Bool) (i : String) (d : D) (s : Docs)
      → p d ≡ true
      → Holds p s
      → Holds p (Dict.put i d s)
  unfolding Dict.put
  put-Holds p i d [] h k = (h, tt)
  put-Holds p i d ((j, w) ∷ s) h k = elim (Bool-cases (j == i)) [
    | inl same ↦ rw same (h, k.1)
    | inr other ↦ rw other (k.0, put-Holds p i d s h k.1)
  ]

  pub get-delete :
      (q : D → Bool) (i : String) (s : Docs)
      → Dict.get i (delete_by_query q s).0
        ≡ (if survives q (Dict.get i s) then Dict.get i s else none)
  get-delete q i s = get-keep_if (λ k. survives q (Dict.get k s)) i s

  flipped : (b : Bool) (d : D) → (if not b then some d else none) ≡ (if b then none else some d)
  flipped true d = refl
  flipped false d = refl

  pub get-delete_found :
      (q : D → Bool) (i : String) (d : D) (s : Docs)
      → Dict.get i s ≡ some d
      → Dict.get i (delete_by_query q s).0 ≡ (if q d then none else some d)
  get-delete_found q i d s e =
      get-delete q i s ∙ ap (λ o. if survives q o then o else none) e ∙ flipped (q d) d

  only :
      (q : D → Bool) (d : D) (o : Option D)
      → (if survives q o then o else none) ≡ some d
      → o ≡ some d
  only q d none e = absurd (ground arith)
  only q d (some x) e = ground (arith, e)

  pub get-delete_only :
      (q : D → Bool) (i : String) (d : D) (s : Docs)
      → Dict.get i (delete_by_query q s).0 ≡ some d
      → Dict.get i s ≡ some d
  get-delete_only q i d s e = only q d (Dict.get i s) (sym (get-delete q i s) ∙ e)

  pub keep_if_filtered : (q : D → Bool) (xs : List D) → All (λ d. q d ≡ true) (keep_if q xs)
  keep_if_filtered q [] = tt
  keep_if_filtered q (x ∷ xs) = elim (Bool-cases (q x)) [
    | inl fits ↦ rw fits (fits, keep_if_filtered q xs)
    | inr differs ↦ rw differs (keep_if_filtered q xs)
  ]

  pub scan_values :
      (q : D → Bool) (i : String) (d : D) (s : Docs)
      → Dict.get i s ≡ some d
      → q d ≡ true
      → In d (keep_if q (Dict.values s))
  unfolding Dict.get
  scan_values q i d [] e fits = absurd (ground arith)
  scan_values q i d ((j, w) ∷ s) e fits = elim (Bool-cases (j == i)) [
    | inl same ↦ let here : w ≡ d = ground (arith, e, same) in rw (ap q here ∙ fits) (inl here)
    | inr other ↦ elim (Bool-cases (q w)) [
      | inl kept ↦ rw kept (inr (scan_values q i d s (ground (arith, e, other)) fits))
      | inr dropped ↦ rw dropped (scan_values q i d s (ground (arith, e, other)) fits)
    ]
  ]

  pub search-le :
      (q : D → Bool) (relevance : List (Relevance Score)) (size : ℕ) (s : Docs)
      → length (search q relevance size s) ≤ size
  search-le q relevance size s = omega (arith, length-take size (matching q s))

  abbrev pub memory : Corpus Score D
  memory = record {
    State = Docs;
    get = Dict.get;
    is_visible = λ i s. true;
    index = Dict.put;
    delete_by_query = delete_by_query;
    refresh = λ s. s;
    search = search;
    scan = scan;
    Holds = Holds;
    get-index = λ i j d s. get-put i j d s;
    get-delete_by_query = λ q i d s e v. get-delete_found q i d s e;
    get-delete_by_query_kept = λ q i d s e differs.
        get-delete_found q i d s e ∙ ap (λ b. if b then none else some d) differs;
    get-delete_by_query_absent =
        λ q i s e. get-delete q i s ∙ ap (λ o. if survives q o then o else none) e;
    get-delete_by_query_only = λ q i d s e. get-delete_only q i d s e;
    visible-delete_by_query = λ q i s h. refl;
    get-refresh = λ i s. refl;
    refresh_shows = λ i s. refl;
    search_filtered = λ q relevance size s. All-take _ size (matching q s) (matching_filtered q s);
    search_finds = λ q size i d s e v fits room. matching_finds q size i d s e fits room;
    scan_filtered = λ q s. keep_if_filtered q (Dict.values s);
    scan_finds = λ q i d s e v fits. scan_values q i d s e fits;
    length-search = search-le;
    search_holds =
        λ p q relevance size s h. All-take _ size (matching q s) (matching-Holds p q s h);
    index-Holds = λ p i d s h k. put-Holds p i d s h k;
    delete_by_query-Holds = λ p q s h. All-keep_if _ _ s h;
    refresh-Holds = λ p s h. h;
  }
