-- ===== src/Secrets/Redacted.antt =====
-- What a redacted text is.
use code_rag.Prelude.{
  ℕ, zero, suc, ◌+◌, ◌-◌, ◌≤◌, ◌<◌, ◌≡◌, refl, sym, ap, ◌∙◌, inl, inr, Bool, true, false, ◌&&◌,
  ◌||◌, List, [], ◌∷◌, ◌++◌, arith, ltb, leb, eqb, Bool-cases, nat_eq, string_eq, list_eq, pair_eq,
  option_eq, length, take, drop, any, length-append, length-take, length-drop, take-append-drop,
  All, All-append, All-map,
}
use code_rag.Prelude.Sort.{IsTotal, IsSorted, insert_sorted, sort_by, sort_by-All, sort_by-IsSorted}
use code_rag.Secrets.Apart.{keep_apart-All}
use code_rag.Secrets.Scanner.{
  SecretPattern, SecretFinding, rank, comes_first, overlap, keep_apart, dedupe, scan, all_findings,
  cover, cover_all, last_first, redact,
}

-- Each finding ends before the next ones start.
abbrev pub AreOrdered : List SecretFinding → Type 0
AreOrdered [] = Unit
AreOrdered (f ∷ findings) = All (λ g. f.end ≤ g.start) findings × AreOrdered findings

-- The order of three numbers, of which the last counts downwards.
abbrev by_key : ℕ → ℕ → ℕ → ℕ → ℕ → ℕ → Bool
by_key a b r q m n = ltb a b || (eqb a b && (ltb r q || (eqb r q && leb n m)))

by_key_total : (a b r q m n : ℕ) → by_key a b r q m n ≡ false → by_key b a q r n m ≡ true
by_key_total a b r q m n e = ground (arith, e)

by_key_trans :
    (a b c r q p l m n : ℕ)
    → by_key a b r q l m ≡ true
    → by_key b c q p m n ≡ true
    → by_key a c r p l n ≡ true
by_key_trans a b c r q p l m n h k = ground (arith, h, k)

comes_first-IsTotal : IsTotal comes_first
unfolding comes_first
comes_first-IsTotal = record {
  total = λ x y e.
      by_key_total x.start y.start (rank x.confidence) (rank y.confidence) (x.end - x.start)
        (y.end - y.start) e;
  trans = λ x y z h k.
      by_key_trans x.start y.start z.start (rank x.confidence) (rank y.confidence)
        (rank z.confidence) (x.end - x.start) (y.end - y.start) (z.end - z.start) h k;
}

-- No finding of the first list starts after one of the second.
abbrev pub StartBefore : List SecretFinding → List SecretFinding → Type 0
StartBefore result findings = All (λ r. All (λ g. r.start ≤ g.start) findings) result

append-AreOrdered :
    (result : List SecretFinding) (f : SecretFinding)
    → AreOrdered result
    → All (λ r. r.start ≤ f.start) result
    → f.start < f.end
    → any (overlap f) result ≡ false
    → AreOrdered (result ++ (f ∷ []))
append-AreOrdered [] f ordered starts full clear = (tt, tt)
append-AreOrdered (r ∷ result) f ordered starts full clear =
    let after : r.end ≤ f.start = ground (arith, starts.0, full, clear) in
    (
      All-append _ result (f ∷ []) ordered.0 (after, tt),
      append-AreOrdered result f ordered.1 starts.1 full (ground (arith, clear)),
    )

starts_first : (f g : SecretFinding) → comes_first f g ≡ true → f.start ≤ g.start
unfolding comes_first
starts_first f g e = ground (arith, e)

All-tail :
    (f : SecretFinding) (result findings : List SecretFinding)
    → StartBefore result (f ∷ findings)
    → StartBefore result findings
All-tail f result findings h =
    All-map (λ r. All (λ g. r.start ≤ g.start) (f ∷ findings)) (λ r k. k.1) result h

keep_apart-AreOrdered :
    (result findings : List SecretFinding)
    → AreOrdered result
    → StartBefore result findings
    → IsSorted comes_first findings
    → All (λ f. f.start < f.end) findings
    → AreOrdered (keep_apart result findings)
unfolding keep_apart
keep_apart-AreOrdered result [] ordered before sorted full = ordered
keep_apart-AreOrdered result (f ∷ findings) ordered before sorted full =
    let later = All-tail f result findings before in
    elim (Bool-cases (any (overlap f) result)) [
      | inl hit ↦ rw hit (keep_apart-AreOrdered result findings ordered later sorted.1 full.1)
      | inr clear ↦ rw clear (
          keep_apart-AreOrdered _ findings
            (append-AreOrdered result f ordered
              (All-map (λ r. All (λ g. r.start ≤ g.start) (f ∷ findings)) (λ r k. k.0) result
                before)
              full.0 clear)
            (All-append _ result (f ∷ []) later (
              All-map (λ g. comes_first f g ≡ true) (λ g e. starts_first f g e) findings sorted.0,
              tt,
            ))
            sorted.1 full.1)
    ]

module _ {Character : Type 0} (is_newline : Character → Bool) (redaction : List Character) where
  -- The text from a position on, with the findings' spans replaced from left to right.
  abbrev pub replaced : ℕ → List SecretFinding → List Character → List Character
  replaced position [] text = text
  replaced position (f ∷ findings) text =
      take (f.start - position) text
      ++ (redaction ++ replaced f.end findings (drop (f.end - position) text))

  cover_all-last :
      (findings : List SecretFinding) (f : SecretFinding) (text : List Character)
      → cover_all is_newline redaction (findings ++ (f ∷ [])) text
        ≡ cover is_newline redaction f (cover_all is_newline redaction findings text)
  unfolding cover_all
  cover_all-last [] f text = refl
  cover_all-last (g ∷ findings) f text =
      cover_all-last findings f (cover is_newline redaction g text)

  insert_last :
      (f : SecretFinding) (findings : List SecretFinding)
      → All (λ g. f.start < g.start) findings
      → insert_sorted (last_first is_newline redaction) f findings ≡ findings ++ (f ∷ [])
  unfolding insert_sorted
  insert_last f [] h = refl
  insert_last f (g ∷ findings) h =
      let later : leb g.start f.start ≡ false = ground (arith, h.0) in
      rw later (ap (λ fs. g ∷ fs) (insert_last f findings h.1))

  take_prefix :
      (pre t : List Character) (n : ℕ)
      → length pre ≤ n
      → take n (pre ++ t) ≡ pre ++ take (n - length pre) t
  take_prefix [] t n h = ap (λ k. take k t) (omega arith)
  take_prefix (c ∷ pre) t zero h = absurd (omega (arith, h))
  take_prefix (c ∷ pre) t (suc n) h =
      let same : n - length pre ≡ suc n - suc (length pre) = omega arith in
      ap (λ x. c ∷ x) (take_prefix pre t n (omega (arith, h)) ∙ ap (λ k. pre ++ take k t) same)

  drop_prefix : (pre t : List Character) (n : ℕ) → length pre ≡ n → drop n (pre ++ t) ≡ t
  drop_prefix [] t zero h = refl
  drop_prefix [] t (suc n) h = absurd (ground (arith, h))
  drop_prefix (c ∷ pre) t zero h = absurd (ground (arith, h))
  drop_prefix (c ∷ pre) t (suc n) h = drop_prefix pre t n (ground (arith, h))

  append_assoc : (xs ys zs : List Character) → (xs ++ ys) ++ zs ≡ xs ++ (ys ++ zs)
  append_assoc [] ys zs = refl
  append_assoc (x ∷ xs) ys zs = ap (λ t. x ∷ t) (append_assoc xs ys zs)

  take_inner :
      (k m : ℕ) (t rest : List Character)
      → k ≤ m
      → m ≤ length t
      → take k (take m t ++ rest) ≡ take k t
  take_inner zero m t rest h room = refl
  take_inner (suc k) zero t rest h room = absurd (omega (arith, h))
  take_inner (suc k) (suc m) [] rest h room = absurd (omega (arith, room))
  take_inner (suc k) (suc m) (c ∷ t) rest h room =
      ap (λ x. c ∷ x) (take_inner k m t rest (omega (arith, h)) (omega (arith, room)))

  -- One span, once what follows it is replaced.
  cover-replaced :
      (pre t rest : List Character) (f : SecretFinding)
      → length pre ≤ f.start
      → f.start < f.end
      → f.end ≤ length pre + length t
      → cover is_newline redaction f ((pre ++ take (f.end - length pre) t) ++ rest)
        ≡ pre ++ (take (f.start - length pre) t ++ (redaction ++ rest))
  cover-replaced pre t rest f starts full room =
      let m = f.end - length pre in
      let size : length (pre ++ take m t) ≡ f.end =
        length-append pre (take m t) ∙ ground (arith, length-take m t, starts, full, room) in
      ap (λ x. (x ++ redaction) ++ drop f.end ((pre ++ take m t) ++ rest))
        (ap (take f.start) (append_assoc pre (take m t) rest)
          ∙ take_prefix pre (take m t ++ rest) f.start starts
          ∙ ap (λ x. pre ++ x)
              (take_inner (f.start - length pre) m t rest (omega (arith, full))
                (omega (arith, room, starts, full))))
      ∙ ap (λ x. ((pre ++ take (f.start - length pre) t) ++ redaction) ++ x)
          (drop_prefix (pre ++ take m t) rest f.end size)
      ∙ append_assoc (pre ++ take (f.start - length pre) t) redaction rest
      ∙ append_assoc pre (take (f.start - length pre) t) (redaction ++ rest)

  sorted_last :
      (f : SecretFinding) (findings : List SecretFinding) (text : List Character)
      → All (λ g. f.start < g.start) findings
      → cover_all is_newline redaction
          (sort_by (last_first is_newline redaction) (f ∷ findings))
          text
        ≡ cover is_newline redaction f (
            cover_all is_newline redaction
              (sort_by (last_first is_newline redaction) findings)
              text)
  unfolding sort_by
  sorted_last f findings text h =
      let sorted = sort_by (last_first is_newline redaction) findings in
      ap (λ fs. cover_all is_newline redaction fs text)
        (insert_last f sorted
          (sort_by-All (last_first is_newline redaction) (λ g. f.start < g.start) findings h))
      ∙ cover_all-last sorted f text

  abbrev pub Fits : ℕ → ℕ → SecretFinding → Type 0
  Fits position size f = (position ≤ f.start) × (f.start < f.end) × (f.end ≤ size)

  later-Fits :
      (e p size e' size' : ℕ) (findings : List SecretFinding)
      → e' ≡ e
      → size' ≡ size
      → All (λ g. e ≤ g.start) findings
      → All (Fits p size) findings
      → All (Fits e' size') findings
  later-Fits e p size e' size' [] same same' starts fits = tt
  later-Fits e p size e' size' (g ∷ findings) same same' starts fits = (
    (omega (arith, same, starts.0), fits.0.1, omega (arith, same', fits.0.2)),
    later-Fits e p size e' size' findings same same' starts.1 fits.1,
  )

  redact_from :
      (findings : List SecretFinding) (pre t : List Character)
      → AreOrdered findings
      → All (Fits (length pre) (length pre + length t)) findings
      → cover_all is_newline redaction
          (sort_by (last_first is_newline redaction) findings)
          (pre ++ t)
        ≡ pre ++ replaced (length pre) findings t
  unfolding cover_all sort_by
  redact_from [] pre t ordered fits = refl
  redact_from (f ∷ findings) pre t ordered fits =
      let (starts, full, room) = fits.0 in
      let m = f.end - length pre in
      let whole : (pre ++ take m t) ++ drop m t ≡ pre ++ t =
        append_assoc pre (take m t) (drop m t) ∙ ap (λ x. pre ++ x) (take-append-drop m t) in
      let size : length (pre ++ take m t) ≡ f.end =
        length-append pre (take m t) ∙ ground (arith, length-take m t, starts, full, room) in
      let later : All (λ g. f.start < g.start) findings =
        All-map (λ g. f.end ≤ g.start) (λ g h. omega (arith, h, full)) findings ordered.0 in
      let rest : cover_all is_newline redaction (sort_by (last_first is_newline redaction) findings)
            (pre ++ t)
          ≡ (pre ++ take m t) ++ replaced f.end findings (drop m t) =
        ap (cover_all is_newline redaction (sort_by (last_first is_newline redaction) findings))
          (sym whole)
        ∙ redact_from findings (pre ++ take m t) (drop m t) ordered.1 (
            later-Fits f.end (length pre) (length pre + length t) _ _ findings size
              (ground (arith, size, length-drop m t, starts, full, room)) ordered.0 fits.1)
        ∙ ap (λ n. (pre ++ take m t) ++ replaced n findings (drop m t)) size in
      sorted_last f findings (pre ++ t) later
      ∙ ap (cover is_newline redaction f) rest
      ∙ cover-replaced pre t (replaced f.end findings (drop m t)) f starts full room

  -- Where each match is a non-empty span of the text, the redacted text is the text with the span of
  -- each finding replaced by the redaction, from left to right, and nothing else changed.
  pub redact_lem :
      (patterns : List (SecretPattern Character)) (text : List Character)
      → All
          (λ f. (f.start < f.end) × (f.end ≤ length text))
          (all_findings is_newline redaction patterns text)
      → (redact is_newline redaction patterns text).0
        ≡ replaced 0 (redact is_newline redaction patterns text).1 text
  unfolding redact scan dedupe
  redact_lem patterns text spans =
      let found = all_findings is_newline redaction patterns text in
      let sorted = sort_by comes_first found in
      let Span = λ (f : SecretFinding). (f.start < f.end) × (f.end ≤ length text) in
      let spans' = sort_by-All comes_first Span found spans in
      redact_from (keep_apart [] sorted) [] text
        (keep_apart-AreOrdered [] sorted tt tt
          (sort_by-IsSorted comes_first comes_first-IsTotal found)
          (All-map Span (λ f h. h.0) sorted spans'))
        (All-map Span (λ f h. (omega arith, h.0, omega (arith, h.1))) (keep_apart [] sorted)
          (keep_apart-All Span [] sorted tt spans'))
