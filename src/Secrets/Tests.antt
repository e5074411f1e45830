-- ===== src/Secrets/Tests.antt =====
-- Runs of the secret scanner, and its theorems at a concrete text.
use code_rag.Prelude.{
  ℕ, ◌≤◌, ◌<◌, ◌≡◌, refl, Bool, none, List, [], ◌∷◌, arith, eqb, nat_eq, string_eq, list_eq,
  pair_eq, option_eq, length, All, In,
}
use code_rag.Prelude.Sort.{insert_sorted, sort_by}
use code_rag.Secrets.Scanner.{
  high, medium, SecretPattern, Match, value_span, comes_first, keep_apart, dedupe, all_findings,
  scan, cover_all, redact,
}
use code_rag.Secrets.Apart.{AreApart, IsCovered, dedupe_lem}
use code_rag.Secrets.Redacted.{replaced, redact_lem}

abbrev is_newline : ℕ → Bool
is_newline c = eqb c 10

abbrev matched : ℕ → ℕ → Match
matched start end = record { span = (start, end); second_group = none }

-- Two patterns whose matches in a text of eight characters overlap: 1 to 4 and 3 to 6.
abbrev patterns : List (SecretPattern ℕ)
patterns =
    (record { name = "slack_token"; finditer = λ text. matched 1 4 ∷ []; confidence = high })
    ∷ (record { name = "jwt"; finditer = λ text. matched 3 6 ∷ []; confidence = medium })
    ∷ []

abbrev secret_text : List ℕ
secret_text = 1 ∷ 2 ∷ 3 ∷ 4 ∷ 5 ∷ 6 ∷ 7 ∷ 8 ∷ []

-- The finding that starts first is kept, and what the other one has beyond its end stays: 5 and 6.
rest_stays : (redact is_newline (0 ∷ []) patterns secret_text).0 ≡ (1 ∷ 0 ∷ 5 ∷ 6 ∷ 7 ∷ 8 ∷ [])
unfolding redact scan dedupe keep_apart comes_first sort_by insert_sorted cover_all value_span
rest_stays = refl

dedupe_lem_example :
    AreApart (dedupe (all_findings is_newline (0 ∷ []) patterns secret_text))
    × All
        (λ f. In f (all_findings is_newline (0 ∷ []) patterns secret_text))
        (dedupe (all_findings is_newline (0 ∷ []) patterns secret_text))
    × All
        (IsCovered (dedupe (all_findings is_newline (0 ∷ []) patterns secret_text)))
        (all_findings is_newline (0 ∷ []) patterns secret_text)
dedupe_lem_example = dedupe_lem (all_findings is_newline (0 ∷ []) patterns secret_text)

spans_inside :
    All
      (λ f. (f.start < f.end) × (f.end ≤ length secret_text))
      (all_findings is_newline (0 ∷ []) patterns secret_text)
unfolding value_span
spans_inside = ((omega arith, omega arith), ((omega arith, omega arith), tt))

redact_lem_example :
    (redact is_newline (0 ∷ []) patterns secret_text).0
    ≡ replaced is_newline (0 ∷ []) 0 (redact is_newline (0 ∷ []) patterns secret_text).1 secret_text
redact_lem_example = redact_lem is_newline (0 ∷ []) patterns secret_text spans_inside
