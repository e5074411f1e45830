-- ===== src/Indexing/Secrets.antt =====
-- Chunks with secrets that were found with high confidence, where the setting skips them.
use code_rag.Prelude.{
  ℕ, String, ◌≡◌, refl, ap, ◌∙◌, inl, inr, Bool, true, not, Option, List, [], ◌∷◌, arith,
  Bool-cases, ==_refl, nat_eq, string_eq, list_eq, pair_eq, option_eq, keep_if, All, In, All-inside,
}
use code_rag.Prelude.Sets.{contains}
use code_rag.Elastic.Records.{CodeChunk}
use code_rag.Elastic.Store.{Client, Indices}
use code_rag.Jobs.Records.{GitLabProject, ChangedFile}
use code_rag.Indexing.Records.{RepoDocument, IndexSettings, BuiltFile, Tools}
use code_rag.Indexing.Service.{has_secret, skipped_chunk_ids, skip_secrets}
use code_rag.Indexing.Runs.{full_index_project}
use code_rag.Indexing.Incremental.{incremental_index_project}
use code_rag.Indexing.KeptJobs.{jobs-Keeps}

abbrev pub no_secret : {Score : Type 0} → CodeChunk Score → Bool
no_secret c = not (has_secret c)

module _ {Score : Type 0} where
  skipped_id :
      (c : CodeChunk Score) (chunks : List (CodeChunk Score))
      → In c chunks
      → has_secret c ≡ true
      → contains c.chunk_id (skipped_chunk_ids chunks) ≡ true
  unfolding contains
  skipped_id c [] m secret = elim m [ ]
  skipped_id c (first ∷ chunks) (inl same) secret =
      rw (ap has_secret same ∙ secret)
        (ground (arith, ap (λ x. x.chunk_id) same, ==_refl c.chunk_id))
  skipped_id c (first ∷ chunks) (inr later) secret = elim (Bool-cases (has_secret first)) [
    | inl also ↦ rw also (ground (arith, skipped_id c chunks later secret))
    | inr clean ↦ rw clean (skipped_id c chunks later secret)
  ]

  kept_clean :
      (chunks xs : List (CodeChunk Score))
      → All (λ c. In c chunks) xs
      → All
          (λ c. no_secret c ≡ true)
          (keep_if (λ c. not (contains c.chunk_id (skipped_chunk_ids chunks))) xs)
  kept_clean chunks [] inside = tt
  kept_clean chunks (c ∷ xs) inside =
      elim (Bool-cases (contains c.chunk_id (skipped_chunk_ids chunks))) [
        | inl skipped ↦ rw skipped (kept_clean chunks xs inside.1)
        | inr kept ↦
            rw kept
              (ground (arith, kept, skipped_id c chunks inside.0), kept_clean chunks xs inside.1)
      ]

  skip_secrets-clean :
      (skip : Bool) (file : BuiltFile Score)
      → skip ≡ true
      → All (λ c. no_secret c ≡ true) (skip_secrets skip file).chunks
  unfolding skip_secrets
  skip_secrets-clean skip file on =
      rw on (kept_clean file.chunks file.chunks (All-inside file.chunks))

module _ {Score Content : Type 0} (client : Client Score RepoDocument) (tools : Tools Score Content)
    (settings : IndexSettings) where
  -- Where the setting skips chunks with secrets, an index without such a chunk still has none after
  -- a full or an incremental job, whatever the files are and however the job ends.
  pub jobs-no_secret :
      (s : Indices client) (project : GitLabProject) (branch sha : Option String)
      (old_sha new_sha : String) (changes : List ChangedFile) (now later : ℕ)
      → settings.skip_chunks_with_high_confidence_secrets ≡ true
      → client.chunks.Holds no_secret s.chunks_index
      → client.chunks.Holds no_secret
          (full_index_project client tools settings project branch sha now later s).0.chunks_index
        × client.chunks.Holds no_secret
            (incremental_index_project client tools settings project old_sha new_sha changes branch
              now later s).0.chunks_index
  jobs-no_secret s project branch sha old_sha new_sha changes now later skips h =
      jobs-Keeps client tools settings (λ c. no_secret c ≡ true) (client.chunks.Holds no_secret)
        (record {
          delete_ok = λ q t k. client.chunks.delete_by_query-Holds no_secret q t k;
          refresh_ok = λ t k. client.chunks.refresh-Holds no_secret t k;
          index_ok = λ c t clean k. client.chunks.index-Holds no_secret c.chunk_id c t clean k;
        })
        (λ path. path ≡ path) (λ time dense late c clean. clean)
        (λ worktree path project' branch' sha' file indexed e. skip_secrets-clean _ file skips) s
        project branch sha old_sha new_sha changes now later (λ path. refl) h
