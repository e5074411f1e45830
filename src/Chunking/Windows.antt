-- ===== src/Chunking/Windows.antt =====
-- The line windows of `TextChunker.fixed_size_chunks` and `split_large_chunks`,
-- src/code_rag/apps/chunking/strategies/text_chunker.py. A line is a text with its length in
-- characters; `splitlines` is applied before, and is a parameter where a text is split again.
use code_rag.Prelude.{
  ℕ, zero, suc, ◌+◌, ◌-◌, max, String, Option, none, List, [], ◌∷◌, ◌++◌, ltb, leb, if◌then◌else◌,
  nat_eq, string_eq, list_eq, pair_eq, option_eq, length, take, drop,
}

pub data ChunkKind : Type 0 where
  file function_definition method_definition class_definition : ChunkKind
  config_block documentation_section test_case : ChunkKind

-- The fields of RawChunk that the text chunker sets; `lines` are the lines of its text.
pub record RawChunk {ℓ} (Line : Type ℓ) : Type ℓ where
  pub kind : ChunkKind
  pub line_start : ℕ
  pub line_end : ℕ
  pub lines : List Line
  pub symbol_name : Option String
  pub symbol_kind : Option String

module _ {ℓ} {Line : Type ℓ} (len : Line → ℕ) where
  -- The inner loop: how many of the lines from `start` on go into the window.
  -- while end < len(lines) and char_count < max_chunk_chars
  unfoldable pub window : ℕ → ℕ → List Line → ℕ
  window max_chars char_count [] = 0
  window max_chars char_count (l ∷ lines) =
      let rest = window max_chars (char_count + (len l + 1)) lines in
      if ltb char_count max_chars then suc rest else 0

  abbrev pub plain_chunk : ChunkKind → ℕ → ℕ → List Line → RawChunk Line
  plain_chunk kind start end lines = record {
    kind = kind;
    line_start = start + 1;
    line_end = max (start + 1) end;
    lines = lines;
    symbol_name = none;
    symbol_kind = none;
  }

  -- The outer loop. `rest` are the lines from `start` on, and the fuel bounds the rounds.
  -- start = max(start + 1, end - overlap)
  unfoldable pub windows : ℕ → ℕ → ℕ → ChunkKind → ℕ → List Line → List (RawChunk Line)
  unfolding window
  windows zero max_chars overlap kind start rest = []
  windows (suc fuel) max_chars overlap kind start [] = []
  windows (suc fuel) max_chars overlap kind start (l ∷ rest) =
      let taken = window max_chars 0 (l ∷ rest) in
      let step = max 1 (taken - overlap) in
      plain_chunk kind start (start + taken) (take taken (l ∷ rest))
      ∷ windows fuel max_chars overlap kind (start + step) (drop step (l ∷ rest))

  unfoldable pub fixed_size_chunks : ℕ → ℕ → ChunkKind → List Line → List (RawChunk Line)
  unfolding windows
  fixed_size_chunks max_chars overlap kind lines =
      windows (length lines) max_chars overlap kind 0 lines

  -- len("\n".join(lines))
  unfoldable pub text_length : List Line → ℕ
  text_length [] = 0
  text_length (l ∷ []) = len l
  text_length (l ∷ k ∷ lines) = len l + (1 + text_length (k ∷ lines))

  unfoldable pub split_large_chunks : ℕ → ℕ → List (RawChunk Line) → List (RawChunk Line)
  unfolding fixed_size_chunks text_length
  split_large_chunks max_chars overlap [] = []
  split_large_chunks max_chars overlap (c ∷ chunks) =
      let rest = split_large_chunks max_chars overlap chunks in
      if leb (text_length c.lines) max_chars
      then c ∷ rest
      else fixed_size_chunks max_chars overlap c.kind c.lines ++ rest
