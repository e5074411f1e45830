-- ===== src/Secrets/Apart.antt =====
-- Which findings are kept.
use code_rag.Prelude.{
  ◌≡◌, refl, ◌⊎◌, inl, inr, true, false, List, [], ◌∷◌, ◌++◌, arith, Bool-cases, nat_eq, string_eq,
  list_eq, pair_eq, option_eq, any, All, In, All-append, In-append_left, In-append_right,
  All-inside,
}
use code_rag.Prelude.Sort.{sort_by, sort_by-All, sort_by-All_back}
use code_rag.Secrets.Scanner.{SecretFinding, comes_first, overlap, add_apart, keep_apart, dedupe}

-- Of two findings of the list none overlaps the other.
abbrev pub AreApart : List SecretFinding → Type 0
AreApart [] = Unit
AreApart (f ∷ findings) = All (λ g. overlap g f ≡ false) findings × AreApart findings

-- The finding is one of the list, or overlaps one.
abbrev pub IsCovered : List SecretFinding → SecretFinding → Type 0
IsCovered result f = In f result ⊎ ((g : SecretFinding) × In g result × (overlap f g ≡ true))

append-AreApart :
    (result : List SecretFinding) (f : SecretFinding)
    → AreApart result
    → any (overlap f) result ≡ false
    → AreApart (result ++ (f ∷ []))
append-AreApart [] f apart clear = (tt, tt)
append-AreApart (g ∷ result) f apart clear = (
  All-append _ result (f ∷ []) apart.0 (ground (arith, clear), tt),
  append-AreApart result f apart.1 (ground (arith, clear)),
)

any-found :
    (f : SecretFinding) (result : List SecretFinding)
    → any (overlap f) result ≡ true
    → (g : SecretFinding) × In g result × (overlap f g ≡ true)
any-found f [] e = absurd (ground arith)
any-found f (g ∷ result) e = elim (Bool-cases (overlap f g)) [
  | inl hit ↦ (g, inl refl, hit)
  | inr miss ↦
      let (h, inside, hit) = any-found f result (ground (arith, e, miss)) in (h, inr inside, hit)
]

-- A longer result covers what a shorter one does.
grown-IsCovered :
    (result more : List SecretFinding) (f : SecretFinding)
    → IsCovered result f
    → IsCovered (result ++ more) f
grown-IsCovered result more f (inl inside) = inl (In-append_left f result more inside)
grown-IsCovered result more f (inr (g, inside, hit)) =
    inr (g, In-append_left g result more inside, hit)

keep_apart-AreApart :
    (result findings : List SecretFinding) → AreApart result → AreApart (keep_apart result findings)
unfolding keep_apart
keep_apart-AreApart result [] apart = apart
keep_apart-AreApart result (f ∷ findings) apart = elim (Bool-cases (any (overlap f) result)) [
  | inl hit ↦ rw hit (keep_apart-AreApart result findings apart)
  | inr clear ↦ rw clear (keep_apart-AreApart _ findings (append-AreApart result f apart clear))
]

keep_apart_keeps :
    (result findings : List SecretFinding) (f : SecretFinding)
    → IsCovered result f
    → IsCovered (keep_apart result findings) f
unfolding keep_apart
keep_apart_keeps result [] f covered = covered
keep_apart_keeps result (g ∷ findings) f covered = elim (Bool-cases (any (overlap g) result)) [
  | inl hit ↦ rw hit (keep_apart_keeps result findings f covered)
  | inr clear ↦ rw clear (keep_apart_keeps _ findings f (grown-IsCovered result (g ∷ []) f covered))
]

add_apart-IsCovered :
    (result : List SecretFinding) (f : SecretFinding) → IsCovered (add_apart result f) f
add_apart-IsCovered result f = elim (Bool-cases (any (overlap f) result)) [
  | inl hit ↦ rw hit (inr (any-found f result hit))
  | inr clear ↦ rw clear (inl (In-append_right f result (f ∷ []) (inl refl)))
]

keep_apart-IsCovered :
    (result findings : List SecretFinding) → All (IsCovered (keep_apart result findings)) findings
unfolding keep_apart
keep_apart-IsCovered result [] = tt
keep_apart-IsCovered result (f ∷ findings) = (
  keep_apart_keeps (add_apart result f) findings f (add_apart-IsCovered result f),
  keep_apart-IsCovered (add_apart result f) findings,
)

pub keep_apart-All :
    (P : SecretFinding → Type 0) (result findings : List SecretFinding)
    → All P result
    → All P findings
    → All P (keep_apart result findings)
unfolding keep_apart
keep_apart-All P result [] h k = h
keep_apart-All P result (f ∷ findings) h k = elim (Bool-cases (any (overlap f) result)) [
  | inl hit ↦ rw hit (keep_apart-All P result findings h k.1)
  | inr clear ↦ rw clear (keep_apart-All P _ findings (All-append P result _ h (k.0, tt)) k.1)
]

-- The kept findings do not overlap one another, each is one of the findings, and each finding is
-- kept or overlaps a kept one.
pub dedupe_lem :
    (findings : List SecretFinding)
    → AreApart (dedupe findings)
      × All (λ f. In f findings) (dedupe findings)
      × All (IsCovered (dedupe findings)) findings
unfolding dedupe
dedupe_lem findings =
    let sorted = sort_by comes_first findings in
    (
      keep_apart-AreApart [] sorted tt,
      keep_apart-All (λ f. In f findings) [] sorted tt
          (sort_by-All comes_first (λ f. In f findings) findings (All-inside findings)),
      sort_by-All_back comes_first (IsCovered (dedupe findings)) findings
          (keep_apart-IsCovered [] sorted),
    )
