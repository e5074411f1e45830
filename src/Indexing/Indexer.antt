-- ===== src/Indexing/Indexer.antt =====
-- The indexing service as the job queue uses it: the interface `Indexer` of Jobs/Queue.antt over the
-- state of the indices, at one reading of the clock.
use code_rag.Prelude.{ℕ, String, List, nat_eq, string_eq, list_eq, pair_eq, option_eq}
use code_rag.Jobs.Records.{ChangedFile}
use code_rag.Jobs.Store
use code_rag.Jobs.Queue
use code_rag.Elastic.Store.{Client, Indices}
use code_rag.Indexing.Records.{RepoDocument, IndexSettings, Tools}
use code_rag.Indexing.Runs.{full_index_project}
use code_rag.Indexing.Incremental.{incremental_index_project}

module _ {Score Content : Type 0} (client : Client Score RepoDocument) (tools : Tools Score Content)
    (settings : IndexSettings) (now later : ℕ) where
  -- GitLabClient.compare and str(exc) stay parameters.
  abbrev pub indexer :
      (String → String → String → Indices client → Store.Result (List ChangedFile))
      → (Store.Error → String)
      → Queue.Indexer (Indices client)
  indexer compare describe = record {
    full_index_project = λ project branch commit_sha s.
        full_index_project client tools settings project branch commit_sha now later s;
    incremental_index_project = λ project old_sha new_sha changes branch s.
        incremental_index_project client tools settings project old_sha new_sha changes branch now
          later s;
    compare = compare;
    describe = describe;
  }
