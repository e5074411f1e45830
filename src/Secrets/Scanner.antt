-- ===== src/Secrets/Scanner.antt =====
-- `SecretScanner`, src/code_rag/apps/secrets/secret_scanner.py. A text is the list of its characters,
-- and the matches of the regular expressions are a parameter.
use code_rag.Prelude.{
  ℕ, ◌+◌, ◌-◌, String, Bool, ◌&&◌, ◌||◌, Option, none, some, List, [], ◌∷◌, ◌++◌, ltb, leb, eqb,
  if◌then◌else◌, nat_eq, string_eq, list_eq, pair_eq, option_eq, length, take, drop, keep_if, any,
}
use code_rag.Prelude.Sort.{sort_by}

pub data Confidence : Type 0 where
  high medium low : Confidence

pub record SecretFinding : Type 0 where
  pub secret_type : String
  pub line : ℕ
  pub start : ℕ
  pub end : ℕ
  pub confidence : Confidence

-- A match: its span, and that of its second group, where the expression has two groups.
pub record Match : Type 0 where
  pub span : ℕ × ℕ
  pub second_group : Option (ℕ × ℕ)

-- A pattern; `finditer` is that of its regular expression.
pub record SecretPattern (Character : Type 0) : Type 0 where
  pub name : String
  pub finditer : List Character → List Match
  pub confidence : Confidence

-- confidence_rank
abbrev pub rank : Confidence → ℕ
rank high = 0
rank medium = 1
rank low = 2

unfoldable pub value_span : Match → ℕ × ℕ
value_span m = elim m.second_group [ none ↦ m.span | some group ↦ group ]

-- The order of the key (start, rank, start - end).
unfoldable pub comes_first : SecretFinding → SecretFinding → Bool
comes_first f g =
    ltb f.start g.start
    || (eqb f.start g.start
        && (ltb (rank f.confidence) (rank g.confidence)
            || (eqb (rank f.confidence) (rank g.confidence)
                && leb (g.end - g.start) (f.end - f.start))))

abbrev pub overlap : SecretFinding → SecretFinding → Bool
overlap finding existing = ltb finding.start existing.end && ltb existing.start finding.end

-- if not overlaps: result.append(finding)
abbrev pub add_apart : List SecretFinding → SecretFinding → List SecretFinding
add_apart result finding = if any (overlap finding) result then result else result ++ (finding ∷ [])

-- The loop of `_dedupe`.
unfoldable pub keep_apart : List SecretFinding → List SecretFinding → List SecretFinding
keep_apart result [] = result
keep_apart result (finding ∷ findings) = keep_apart (add_apart result finding) findings

unfoldable pub dedupe : List SecretFinding → List SecretFinding
unfolding keep_apart comes_first
dedupe findings = keep_apart [] (sort_by comes_first findings)

module _ {Character : Type 0} (is_newline : Character → Bool) (redaction : List Character) where
  -- The findings of one pattern.
  abbrev pub findings_of :
      SecretPattern Character → List Character → List Match → List SecretFinding
  findings_of pattern text [] = []
  findings_of pattern text (m ∷ matches) =
      (record {
        secret_type = pattern.name;
        line = length (keep_if is_newline (take (value_span m).0 text)) + 1;
        start = (value_span m).0;
        end = (value_span m).1;
        confidence = pattern.confidence;
      })
      ∷ findings_of pattern text matches

  abbrev pub all_findings : List (SecretPattern Character) → List Character → List SecretFinding
  all_findings [] text = []
  all_findings (pattern ∷ patterns) text =
      findings_of pattern text (pattern.finditer text) ++ all_findings patterns text

  unfoldable pub scan : List (SecretPattern Character) → List Character → List SecretFinding
  unfolding dedupe
  scan patterns text = dedupe (all_findings patterns text)

  -- redacted[: finding.start] + self.REDACTION + redacted[finding.end :]
  abbrev pub cover : SecretFinding → List Character → List Character
  cover finding text = take finding.start text ++ redaction ++ drop finding.end text

  unfoldable pub cover_all : List SecretFinding → List Character → List Character
  cover_all [] text = text
  cover_all (finding ∷ findings) text = cover_all findings (cover finding text)

  abbrev pub last_first : SecretFinding → SecretFinding → Bool
  last_first f g = leb g.start f.start

  unfoldable pub redact :
      List (SecretPattern Character) → List Character → List Character × List SecretFinding
  unfolding scan cover_all
  redact patterns text =
      let findings = scan patterns text in (cover_all (sort_by last_first findings) text, findings)
