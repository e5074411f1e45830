-- ===== src/Indexing/Kept.antt =====
-- What the jobs of the indexing service keep true of every chunk of the index, whatever raises.
use code_rag.Prelude.{
  ℕ, max, String, ◌≡◌, inl, inr, Bool, ◌||◌, Option, none, some, List, [], ◌∷◌, leb, eqb,
  if◌then◌else◌, Bool-cases, nat_eq, string_eq, list_eq, pair_eq, option_eq, length, take, keep_if,
  All, All-take, All-keep_if,
}
use code_rag.Prelude.Dict.{Dict}
use code_rag.Elastic.Records.{CodeChunk, EmbeddingResult}
use code_rag.Elastic.Corpus.{Corpus}
use code_rag.Elastic.Store.{StoredEmbedding, Client, Indices, delete_file, index_all, replace_file}
use code_rag.Indexing.Action.{
  Result, ok, raised, Action, pure, lift, call, Good, returned, Does, Keeps, continue,
  continue-Does, if-Keeps, bind-Keeps, bind_good,
}
use code_rag.Indexing.Embeddings.{
  Embedder, reused, attach, fill_chunk, fill, with_rest, attach_embeddings, stored_embeddings,
  to_embed, embed_texts,
}
use code_rag.Jobs.Records.{GitLabProject}
use code_rag.Indexing.Records.{RepoDocument, IndexSettings, BuiltFile, Tools}
use code_rag.Indexing.Service.{
  skip_secrets, FileResult, delete_path, index_built, drop_file, index_file, one_by_one,
  run_started, after_file, in_pool, is_file, index_paths,
}

module _ {Score RepoDoc : Type 0} (client : Client Score RepoDoc) (embedder : Embedder Score)
    (P : CodeChunk Score → Type 0)
    (attached : (now : ℕ) (dense : List Score) (late : List (List Score)) (c : CodeChunk Score)
      → P c
      → P (attach client embedder now dense late c)) where
  with_rest-Good :
      (chunk : CodeChunk Score) (rest : Result (List (CodeChunk Score)))
      → P chunk
      → Good (All P) rest
      → Good (All P) (with_rest client embedder chunk rest)
  with_rest-Good chunk (ok filled) h more = (h, more)
  with_rest-Good chunk (raised e) h more = tt

  fill_chunk-Good :
      (now : ℕ) (chunk : CodeChunk Score)
      (rest : List (EmbeddingResult Score) → Result (List (CodeChunk Score)))
      (o : Option (StoredEmbedding Score)) (embedded : List (EmbeddingResult Score))
      → P chunk
      → ((later : List (EmbeddingResult Score)) → Good (All P) (rest later))
      → Good (All P) (fill_chunk client embedder now chunk rest o embedded)
  fill_chunk-Good now chunk rest (some cached) embedded h more =
      with_rest-Good _ (rest embedded) (attached now _ _ chunk h) (more embedded)
  fill_chunk-Good now chunk rest none [] h more = tt
  fill_chunk-Good now chunk rest none (embedding ∷ embedded) h more =
      with_rest-Good _ (rest embedded) (attached now _ _ chunk h) (more embedded)

  fill-Good :
      (now : ℕ) (stored : _) (embedded : List (EmbeddingResult Score))
      (chunks : List (CodeChunk Score))
      → All P chunks
      → Good (All P) (fill client embedder now stored embedded chunks)
  unfolding fill
  fill-Good now stored embedded [] h = tt
  fill-Good now stored embedded (chunk ∷ chunks) h =
      fill_chunk-Good now chunk (λ later. fill client embedder now stored later chunks)
        (reused client embedder stored chunk) embedded h.0
        (λ later. fill-Good now stored later chunks h.1)

  pub attach_embeddings-Does :
      (Inv : Indices client → Type 0) (now : ℕ) (chunks : List (CodeChunk Score))
      → All P chunks
      → Does Inv (All P) (attach_embeddings client embedder now chunks)
  unfolding attach_embeddings continue
  attach_embeddings-Does Inv now [] h s inv = (inv, tt)
  attach_embeddings-Does Inv now (chunk ∷ chunks) h s inv =
      let stored = stored_embeddings client embedder (chunk ∷ chunks) s in
      continue-Does Inv (All P)
        (λ embedded. lift (fill client embedder now stored embedded (chunk ∷ chunks)))
        (λ embedded t later. (later, fill-Good now stored embedded (chunk ∷ chunks) h))
        (s, embed_texts client embedder (to_embed client embedder stored (chunk ∷ chunks))) inv

-- What keeps a property of the chunks' index: deletions, a refresh, and an index operation of a chunk that is `P`.
pub record IsKept {Score : Type 0} (corpus : Corpus Score (CodeChunk Score))
    (P : CodeChunk Score → Type 0) (Inv : corpus.State → Type 0) : Type 0 where
  pub delete_ok :
      (q : CodeChunk Score → Bool) (s : corpus.State) → Inv s → Inv (corpus.delete_by_query q s).0
  pub refresh_ok : (s : corpus.State) → Inv s → Inv (corpus.refresh s)
  pub index_ok :
      (c : CodeChunk Score) (s : corpus.State) → P c → Inv s → Inv (corpus.index c.chunk_id c s)

module _ {Score Content : Type 0} (client : Client Score RepoDocument) (tools : Tools Score Content)
    (settings : IndexSettings) (P : CodeChunk Score → Type 0)
    (InvChunks : client.chunks.State → Type 0) (kept : IsKept client.chunks P InvChunks)
    (IsIndexed : String → Type 0)
    (attached : (now : ℕ) (dense : List Score) (late : List (List Score)) (c : CodeChunk Score)
      → P c
      → P (attach client tools.embedder now dense late c))
    (built : (worktree : Dict String Content) (path : String) (project : GitLabProject)
        (branch sha : String) (file : BuiltFile Score)
      → IsIndexed path
      → tools.build_file worktree path project branch sha ≡ ok file
      → All P (skip_secrets settings.skip_chunks_with_high_confidence_secrets file).chunks) where
  abbrev pub Inv : Indices client → Type 0
  Inv s = InvChunks s.chunks_index

  pub delete_path-Keeps :
      (project : GitLabProject) (branch path : String)
      → Keeps Inv (delete_path client tools settings project branch path)
  unfolding delete_file
  delete_path-Keeps project branch path s h = kept.delete_ok _ _ h

  index_chunks :
      (chunks : List (CodeChunk Score)) (s : client.chunks.State)
      → All P chunks
      → InvChunks s
      → InvChunks (index_all client client.chunks (λ c. c.chunk_id) chunks s)
  index_chunks [] s new h = h
  index_chunks (c ∷ chunks) s new h = index_chunks chunks _ new.1 (kept.index_ok c s new.0 h)

  replace_file-Keeps :
      (file : BuiltFile Score) (chunks : List (CodeChunk Score))
      → All P chunks
      → Keeps Inv (call (replace_file client file.metadata chunks file.symbols file.edges))
  unfolding replace_file delete_file
  replace_file-Keeps file chunks new s h = index_chunks chunks _ new (kept.delete_ok _ _ h)

  index_built-Keeps :
      (now : ℕ) (file : BuiltFile Score)
      → All P file.chunks
      → Keeps Inv (index_built client tools settings now file)
  unfolding index_built
  index_built-Keeps now file new =
      bind_good Inv (All P) (attach_embeddings client tools.embedder now file.chunks) _
        (attach_embeddings-Does client tools.embedder P attached Inv now file.chunks new)
        (λ chunks right.
          bind-Keeps Inv (call (replace_file client file.metadata chunks file.symbols file.edges)) _
            (replace_file-Keeps file chunks right) (λ counts s h. h))

  drop_file-Keeps :
      (project : GitLabProject) (branch path : String)
      → Keeps Inv (drop_file client tools settings project branch path)
  unfolding drop_file
  drop_file-Keeps project branch path =
      bind-Keeps Inv (delete_path client tools settings project branch path) _
        (delete_path-Keeps project branch path) (λ deleted s h. h)

  pub index_file-Keeps :
      (project : GitLabProject) (branch sha : String) (worktree : Dict String Content) (now : ℕ)
      (path : String)
      → IsIndexed path
      → Keeps Inv (index_file client tools settings project branch sha worktree now path)
  unfolding index_file
  index_file-Keeps project branch sha worktree now path indexed s h =
      elim (Bool-cases (tools.should_index path worktree)) [
        | inr skipped ↦ rw skipped (drop_file-Keeps project branch path s h)
        | inl wanted ↦ rw wanted (
            bind_good Inv (λ file. tools.build_file worktree path project branch sha ≡ ok file)
              (lift (tools.build_file worktree path project branch sha))
              (λ file.
                index_built client tools settings now
                  (skip_secrets settings.skip_chunks_with_high_confidence_secrets file))
              (λ t k. (k, returned (tools.build_file worktree path project branch sha)))
              (λ file e.
                index_built-Keeps now _ (built worktree path project branch sha file indexed e))
              s h)
      ]

  one_by_one-Keeps :
      (index_one : String → Action (Indices client) FileResult) (paths : List String)
      → ((path : String) → IsIndexed path → Keeps Inv (index_one path))
      → All IsIndexed paths
      → Keeps Inv (one_by_one client tools settings index_one paths)
  unfolding one_by_one
  one_by_one-Keeps index_one [] each ps = λ s h. h
  one_by_one-Keeps index_one (path ∷ paths) each ps =
      bind-Keeps Inv (index_one path) _ (each path ps.0) (λ result.
        bind-Keeps Inv (one_by_one client tools settings index_one paths) _
          (one_by_one-Keeps index_one paths each ps.1) (λ results s h. h))

  run_started-Keeps :
      (index_one : String → Action (Indices client) FileResult) (paths : List String)
      → ((path : String) → IsIndexed path → Keeps Inv (index_one path))
      → All IsIndexed paths
      → (s : Indices client) → Inv s
      → Inv (run_started client tools settings index_one paths s)
  unfolding run_started
  run_started-Keeps index_one [] each ps s h = h
  run_started-Keeps index_one (path ∷ paths) each ps s h =
      run_started-Keeps index_one paths each ps.1 _ (each path ps.0 s h)

  after_file-Keeps :
      (rest : Action (Indices client) (List FileResult))
      (cancelling : Indices client → Indices client) (r : Indices client × Result FileResult)
      → Keeps Inv rest
      → ((s : Indices client) → Inv s → Inv (cancelling s))
      → Inv r.0
      → Inv (after_file client tools settings rest cancelling r).0
  unfolding continue
  after_file-Keeps rest cancelling (t, raised e) later started h = started t h
  after_file-Keeps rest cancelling (t, ok result) later started h =
      bind-Keeps Inv rest (λ results. pure (result ∷ results)) later (λ results s k. k) t h

  in_pool-Keeps :
      (index_one : String → Action (Indices client) FileResult) (paths : List String)
      → ((path : String) → IsIndexed path → Keeps Inv (index_one path))
      → All IsIndexed paths
      → Keeps Inv (in_pool client tools settings index_one paths)
  unfolding in_pool
  in_pool-Keeps index_one [] each ps = λ s h. h
  in_pool-Keeps index_one (path ∷ paths) each ps = λ s h.
      after_file-Keeps (in_pool client tools settings index_one paths)
        (run_started client tools settings index_one (take (tools.started_after paths) paths))
        (index_one path s) (in_pool-Keeps index_one paths each ps.1)
        (run_started-Keeps index_one (take (tools.started_after paths) paths) each
          (All-take IsIndexed (tools.started_after paths) paths ps.1))
        (each path ps.0 s h)

  pub index_paths-Keeps :
      (project : GitLabProject) (branch sha : String) (worktree : Dict String Content) (now : ℕ)
      (paths : List String)
      → All IsIndexed paths
      → Keeps Inv (index_paths client tools settings project branch sha worktree now paths)
  unfolding index_paths
  index_paths-Keeps project branch sha worktree now paths ps =
      let candidates = keep_if (is_file client tools settings worktree) paths in
      let index_one = index_file client tools settings project branch sha worktree now in
      let ps' = All-keep_if IsIndexed (is_file client tools settings worktree) paths ps in
      let each = index_file-Keeps project branch sha worktree now in
      let alone = eqb (max 1 settings.index_file_workers) 1 || leb (length candidates) 1 in
      bind-Keeps Inv
        (if alone
          then one_by_one client tools settings index_one candidates
          else in_pool client tools settings index_one candidates)
        _
        (if-Keeps Inv alone _ _ (one_by_one-Keeps index_one candidates each ps')
          (in_pool-Keeps index_one candidates each ps'))
        (λ results s h. h)
