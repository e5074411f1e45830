-- ===== src/Indexing/Tests.antt =====
-- Runs of the indexing service, and its theorems at concrete files.
use code_rag.Prelude.{
  ℕ, String, ◌≡◌, refl, ap, subst, inl, inr, true, false, none, List, [], ◌∷◌, map, if◌then◌else◌,
  ◌==◌, nat_eq, string_eq, list_eq, pair_eq, option_eq, All,
}
use code_rag.Prelude.Dict.{Dict}
use code_rag.Elastic.Records.{EmbeddingResult}
use code_rag.Elastic.Store.{in_file}
use code_rag.Elastic.Samples.{a_chunk, a_file, client, indices}
use code_rag.Indexing.Action.{Result, ok, raised}
use code_rag.Indexing.Embeddings.{Embedder, attach_embeddings}
use code_rag.Indexing.Attached.{embedded_chunk, attach_embeddings_lem}
use code_rag.Jobs.Records.{GitLabProject, ChangedFile}
use code_rag.Indexing.Records.{IndexSettings, BuiltFile, Tools}
use code_rag.Indexing.Runs.{full_index_project}
use code_rag.Indexing.Secrets.{no_secret, jobs-no_secret}
use code_rag.Indexing.Removed.{incremental_index_project-removed}
use code_rag.Indexing.Incremental.{incremental_index_project}
use code_rag.Indexing.Gone.{Gone}

-- A provider whose vector is one number, and a file that is one chunk, with a secret in s.py.
abbrev embed : String → EmbeddingResult ℕ
embed t = record { dense = 5 ∷ []; late_interaction = [] }

abbrev embedder : Embedder ℕ
embedder = record {
  embed_documents = λ texts. ok (map embed texts);
  model_name = "m";
  dimension = 1;
  text_id = λ t. t;
  reuse_existing_embeddings = true;
}

abbrev built : String → BuiltFile ℕ
built path = record {
  metadata = a_file path;
  chunks = a_chunk path "p" path (if path == "s.py" then 1 else 0) ∷ [];
  symbols = [];
  edges = [];
}

abbrev worktree : Dict String ℕ
worktree = ("b.py", 1) ∷ ("s.py", 2) ∷ []

abbrev tools : Tools ℕ ℕ
tools = record {
  embedder = embedder;
  started_after = λ paths. 1;
  checkout = λ project branch sha. ok worktree;
  head_sha = λ w. ok "c2";
  should_index = λ path w. true;
  build_file = λ w path project branch sha. ok (built path);
  repo_metadata = λ project. ok none;
  detect = λ id path branch sha symbols edges. raised "no graph";
  stable_id = λ parts. "id";
  content_hash = λ content. "h";
}

abbrev settings : IndexSettings
settings = record {
  tenant_id = "t";
  branch = "main";
  index_file_workers = 4;
  skip_chunks_with_high_confidence_secrets = true;
  community_detection_enabled = true;
}

abbrev project : GitLabProject
project = record {
  gitlab_project_id = "p";
  repo_path_with_namespace = "g/r";
  repo_name = "r";
  repo_url = "";
  default_branch = none;
  description = none;
}

-- a.py is deleted and b.py is modified.
abbrev deletion : ChangedFile
deletion = record {
  old_path = "a.py";
  new_path = "a.py";
  added = false;
  deleted = true;
  renamed = false;
  modified = false;
}

abbrev changes : List ChangedFile
changes =
    (record deletion { old_path = "b.py"; new_path = "b.py"; deleted = false; modified = true })
    ∷ deletion
    ∷ []

attach_embeddings_lem_example :
    attach_embeddings client embedder 9 (a_chunk "1" "p" "a.py" 0 ∷ []) indices ≡ (
      indices,
      ok (map (embedded_chunk client embedder 9 indices embed) (a_chunk "1" "p" "a.py" 0 ∷ [])),
    )
attach_embeddings_lem_example =
    attach_embeddings_lem client embedder embed 9 (a_chunk "1" "p" "a.py" 0 ∷ []) indices
      (λ asked. refl)

jobs-no_secret_example :
    client.chunks.Holds no_secret
      (full_index_project client tools settings project none none 1 2 indices).0.chunks_index
    × client.chunks.Holds no_secret
        (incremental_index_project client tools settings project "c1" "c2" changes none 1 2
          indices).0.chunks_index
jobs-no_secret_example =
    jobs-no_secret client tools settings indices project none none "c1" "c2" changes 1 2 refl
      (refl, (refl, (refl, tt)))

file_of : Result (BuiltFile ℕ) → BuiltFile ℕ
file_of (ok file) = file
file_of (raised e) = built ""

builds_path :
    (p : String) (file : BuiltFile ℕ)
    → ok (built p) ≡ ok file
    → All (λ c. c.file_path ≡ p) file.chunks
unfolding file_of
builds_path p file e =
    subst (λ (f : BuiltFile ℕ). All (λ c. c.file_path ≡ p) f.chunks) (ap file_of e) (refl, tt)

incremental_index_project-removed_example :
    Gone client.chunks
      (in_file client "t" "p" "main" "a.py")
      (incremental_index_project client tools settings project "c1" "c2" changes none 1 2
        indices).0.chunks_index
incremental_index_project-removed_example =
    incremental_index_project-removed client tools settings indices project none "c1" "c2" worktree
      changes deletion 1 2 refl (inr (inl refl)) refl (inr refl, (inl refl, tt))
      (λ i d e passes. refl) (λ w p project' branch' sha file e. builds_path p file e)
