-- ===== src/Chunking/Tests.antt =====
-- The text chunker on concrete files.
use code_rag.Prelude.{
  ℕ, ◌≡◌, refl, true, some, List, [], ◌∷◌, map, arith, nat_eq, string_eq, list_eq, pair_eq,
  option_eq, All,
}
use code_rag.Chunking.Windows.{
  file, function_definition, RawChunk, window, windows, fixed_size_chunks, split_large_chunks,
  text_length,
}
use code_rag.Chunking.Cover.{
  is_covered, fixed_size_chunks_cover, fixed_size_chunks_hold, split_restarts, Holds,
}

-- A file by the lengths of its lines.
abbrev source : List ℕ
source = 8 ∷ 1 ∷ 3 ∷ 12 ∷ 2 ∷ []

abbrev spans : List (RawChunk ℕ) → List (ℕ × ℕ)
spans chunks = map (λ c. (c.line_start, c.line_end)) chunks

abbrev large : RawChunk ℕ
large = record {
  kind = function_definition;
  line_start = 40;
  line_end = 44;
  lines = source;
  symbol_name = some "handler";
  symbol_kind = some "function";
}

fixed_size_chunks-source :
    spans (fixed_size_chunks (λ (n : ℕ). n) 10 1 file source)
    ≡ (1, 2) ∷ (2, 4) ∷ (4, 4) ∷ (5, 5) ∷ []
unfolding fixed_size_chunks windows window
fixed_size_chunks-source = refl

split_large_chunks-large :
    spans (split_large_chunks (λ (n : ℕ). n) 10 1 (large ∷ []))
    ≡ (1, 2) ∷ (2, 4) ∷ (4, 4) ∷ (5, 5) ∷ []
unfolding split_large_chunks fixed_size_chunks windows window text_length
split_large_chunks-large = refl

fixed_size_chunks_cover_example :
    is_covered 3 (fixed_size_chunks (λ (n : ℕ). n) 10 1 file source) ≡ true
fixed_size_chunks_cover_example =
    fixed_size_chunks_cover (λ (n : ℕ). n) 10 1 file source 3 (omega arith) (omega arith)
      (omega arith)

fixed_size_chunks_hold_example :
    All (Holds source) (fixed_size_chunks (λ (n : ℕ). n) 10 1 file source)
fixed_size_chunks_hold_example =
    fixed_size_chunks_hold (λ (n : ℕ). n) 10 1 file source (omega arith)

split_restarts_example : All (Holds source) (split_large_chunks (λ (n : ℕ). n) 10 1 (large ∷ []))
unfolding text_length
split_restarts_example = split_restarts (λ (n : ℕ). n) 10 1 large (omega arith) (omega arith)
