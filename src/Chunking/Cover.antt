-- ===== src/Chunking/Cover.antt =====
-- The windows cover the file: each holds the lines that it names, and no line is left out.
use code_rag.Prelude.{
  ℕ, zero, suc, ◌+◌, ◌-◌, ◌≤◌, ◌<◌, max, ◌≡◌, refl, sym, ap, ◌∙◌, inl, inr, Bool, true, false, ◌&&◌,
  List, [], ◌∷◌, arith, leb, Bool-cases, nat_eq, string_eq, list_eq, pair_eq, option_eq, length,
  take, drop, any, length-drop, All, All-append,
}
use code_rag.Chunking.Windows.{
  ChunkKind, RawChunk, window, windows, fixed_size_chunks, split_large_chunks, text_length,
}

-- A line, counted from 1, that some chunk names.
abbrev pub is_covered {ℓ} : {Line : Type ℓ} → ℕ → List (RawChunk Line) → Bool
is_covered i chunks = any (λ c. leb c.line_start i && leb i c.line_end) chunks

-- lines[line_start - 1 : line_end]
abbrev pub named_lines {ℓ} : {Line : Type ℓ} → List Line → RawChunk Line → List Line
named_lines lines c = take (c.line_end + 1 - c.line_start) (drop (c.line_start - 1) lines)

-- The numbers of a chunk are lines of the file, and it holds exactly those.
abbrev pub Holds {ℓ} : {Line : Type ℓ} → List Line → RawChunk Line → Type ℓ
Holds lines c = (0 < c.line_start) × (c.line_end ≤ length lines) × (c.lines ≡ named_lines lines c)

drop-nil {ℓ} : {A : Type ℓ} (n : ℕ) → drop {A = A} n [] ≡ []
drop-nil zero = refl
drop-nil (suc n) = refl

drop-drop {ℓ} : {A : Type ℓ} (n m : ℕ) (xs : List A) → drop m (drop n xs) ≡ drop (n + m) xs
drop-drop zero m xs = ap (λ (k : ℕ). drop k xs) (omega arith)
drop-drop (suc n) m [] = drop-nil m ∙ sym (drop-nil (suc n + m))
drop-drop (suc n) m (x ∷ xs) =
    let same : suc (n + m) ≡ suc n + m = omega arith in
    drop-drop n m xs ∙ ap (λ (k : ℕ). drop k (x ∷ xs)) same

module _ {ℓ} {Line : Type ℓ} (len : Line → ℕ) (max_chars overlap : ℕ) (kind : ChunkKind) where
  window-le-length :
      (count : ℕ) (lines : List Line) → window len max_chars count lines ≤ length lines
  unfolding window
  window-le-length count [] = omega arith
  window-le-length count (l ∷ lines) = ground (arith, window-le-length (count + (len l + 1)) lines)

  window_pos :
      (l : Line) (lines : List Line) → 0 < max_chars → 0 < window len max_chars 0 (l ∷ lines)
  unfolding window
  window_pos l lines h = ground arith

  windows_cover :
      (fuel start i : ℕ) (rest : List Line)
      → 0 < max_chars
      → length rest ≤ fuel
      → start < i
      → i ≤ start + length rest
      → is_covered i (windows len fuel max_chars overlap kind start rest) ≡ true
  unfolding windows
  windows_cover zero start i rest pos enough lo hi = absurd (omega arith)
  windows_cover (suc fuel) start i [] pos enough lo hi = absurd (omega arith)
  windows_cover (suc fuel) start i (l ∷ rest) pos enough lo hi =
      let taken = window len max_chars 0 (l ∷ rest) in
      let step = max 1 (taken - overlap) in
      let p = window_pos l rest pos in
      elim (Bool-cases (leb i (start + taken))) [
        | inl here ↦ ground arith
        | inr later ↦
            let next =
              windows_cover fuel (start + step) i (drop step (l ∷ rest)) pos
                (omega (arith, length-drop step (l ∷ rest))) (ground arith)
                (omega (arith, length-drop step (l ∷ rest), window-le-length 0 (l ∷ rest))) in
            ground arith
      ]

  windows_hold :
      (fuel start : ℕ) (full rest : List Line)
      → 0 < max_chars
      → rest ≡ drop start full
      → All (Holds full) (windows len fuel max_chars overlap kind start rest)
  unfolding windows
  windows_hold zero start full rest pos e = tt
  windows_hold (suc fuel) start full [] pos e = tt
  windows_hold (suc fuel) start full (l ∷ rest) pos e =
      let taken = window len max_chars 0 (l ∷ rest) in
      let step = max 1 (taken - overlap) in
      let next =
        windows_hold fuel (start + step) full (drop step (l ∷ rest)) pos
          (ap (drop step) e ∙ drop-drop start step full) in
      let size = ap length e ∙ length-drop start full in
      let some_taken = window_pos l rest pos in
      let named : max (start + 1) (start + taken) + 1 - (start + 1) ≡ taken =
        omega (arith, some_taken) in
      let from : start + 1 - 1 ≡ start = omega arith in
      let few_taken = window-le-length 0 (l ∷ rest) in
      (
        (omega arith, omega (arith, size, few_taken), ap (take taken) e ∙ rw (named, from) refl),
        next,
      )

  -- The windows of a file leave no line out: the lines are numbered from 1, and each is between the
  -- first and the last line of some chunk, where a chunk may hold a character.
  pub fixed_size_chunks_cover :
      (lines : List Line) (i : ℕ)
      → 0 < max_chars
      → 0 < i
      → i ≤ length lines
      → is_covered i (fixed_size_chunks len max_chars overlap kind lines) ≡ true
  unfolding fixed_size_chunks
  fixed_size_chunks_cover lines i pos lo hi =
      windows_cover (length lines) 0 i lines pos (omega arith) lo (omega arith)

  -- Each window of a file holds exactly the lines that its numbers name, and those are lines of the
  -- file, where a chunk may hold a character.
  pub fixed_size_chunks_hold :
      (lines : List Line)
      → 0 < max_chars
      → All (Holds lines) (fixed_size_chunks len max_chars overlap kind lines)
  unfolding fixed_size_chunks
  fixed_size_chunks_hold lines pos = windows_hold (length lines) 0 lines lines pos refl

module _ {ℓ} {Line : Type ℓ} (len : Line → ℕ) (max_chars overlap : ℕ) where
  -- The pieces of a chunk that is too large are numbered by the lines of its own text, counted from
  -- 1, wherever the chunk stands in the file: each ends at or before the number of those lines.
  pub split_restarts :
      (c : RawChunk Line)
      → 0 < max_chars
      → max_chars < text_length len c.lines
      → All (Holds c.lines) (split_large_chunks len max_chars overlap (c ∷ []))
  unfolding split_large_chunks fixed_size_chunks
  split_restarts c pos large =
      let test : leb (text_length len c.lines) max_chars ≡ false = ground arith in
      let all_hold =
        windows_hold len max_chars overlap c.kind (length c.lines) 0 c.lines c.lines pos refl in
      rw test (
        All-append (Holds c.lines) (windows len (length c.lines) max_chars overlap c.kind 0 c.lines)
          [] all_hold tt)
