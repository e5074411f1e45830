-- ===== src/Indexing/Embeddings.antt =====
-- `IndexingService._attach_embeddings`: a chunk keeps the embedding that is stored for the same
-- text, and the texts of the others are embedded in one request, in their order.
use code_rag.Prelude.{
  ℕ, String, Bool, Option, none, some, List, [], ◌∷◌, map, if◌then◌else◌, ◌==◌, nat_eq, string_eq,
  list_eq, pair_eq, option_eq,
}
use code_rag.Prelude.Dict.{Dict, get}
use code_rag.Elastic.Records.{CodeChunk, EmbeddingResult}
use code_rag.Elastic.Store.{StoredEmbedding, Client, Indices, existing_embeddings}
use code_rag.Indexing.Action.{Result, ok, raised, Action, pure, lift, read, ◌>>=◌}

-- EmbeddingProvider, the hash of a text, and the setting.
pub record Embedder (Score : Type 0) : Type 0 where
  pub embed_documents : List String → Result (List (EmbeddingResult Score))
  pub model_name : String
  pub dimension : ℕ
  -- stable_id of one text
  pub text_id : String → String
  pub reuse_existing_embeddings : Bool

module _ {Score RepoDocument : Type 0} (client : Client Score RepoDocument)
    (embedder : Embedder Score) where
  -- The stored embedding of a chunk, where its text is the one that was embedded.
  unfoldable pub reused :
      Dict String (StoredEmbedding Score) → CodeChunk Score → Option (StoredEmbedding Score)
  reused stored chunk = elim (get chunk.chunk_id stored) [
    | none ↦ none
    | some cached ↦
        if cached.embedding_input_hash == some (embedder.text_id chunk.text_for_embedding)
        then some cached
        else none
  ]

  abbrev pub next_text : Option (StoredEmbedding Score) → String → List String → List String
  next_text none t rest = t ∷ rest
  next_text (some cached) t rest = rest

  unfoldable pub to_embed :
      Dict String (StoredEmbedding Score) → List (CodeChunk Score) → List String
  unfolding reused
  to_embed stored [] = []
  to_embed stored (chunk ∷ chunks) =
      next_text (reused stored chunk) chunk.text_for_embedding (to_embed stored chunks)

  abbrev pub attach : ℕ → List Score → List (List Score) → CodeChunk Score → CodeChunk Score
  attach now dense late_interaction chunk = record chunk {
    embedding_dense = dense;
    embedding_late_interaction = late_interaction;
    embedding_model = some embedder.model_name;
    embedding_dimension = some embedder.dimension;
    embedding_created_at = some now;
    embedding_input_hash = some (embedder.text_id chunk.text_for_embedding);
  }

  abbrev pub with_rest :
      CodeChunk Score → Result (List (CodeChunk Score)) → Result (List (CodeChunk Score))
  with_rest chunk (ok filled) = ok (chunk ∷ filled)
  with_rest chunk (raised e) = raised e

  -- One turn of the last loop; `next` raises StopIteration, whose text is empty.
  abbrev pub fill_chunk :
      ℕ
      → CodeChunk Score
      → (List (EmbeddingResult Score) → Result (List (CodeChunk Score)))
      → Option (StoredEmbedding Score)
      → List (EmbeddingResult Score)
      → Result (List (CodeChunk Score))
  fill_chunk now chunk rest (some cached) embedded =
      with_rest (attach now cached.embedding_dense cached.embedding_late_interaction chunk)
        (rest embedded)
  fill_chunk now chunk rest none [] = raised ""
  fill_chunk now chunk rest none (embedding ∷ embedded) =
      with_rest (attach now embedding.dense embedding.late_interaction chunk) (rest embedded)

  unfoldable pub fill :
      ℕ
      → Dict String (StoredEmbedding Score)
      → List (EmbeddingResult Score)
      → List (CodeChunk Score)
      → Result (List (CodeChunk Score))
  unfolding reused
  fill now stored embedded [] = ok []
  fill now stored embedded (chunk ∷ chunks) =
      fill_chunk now chunk (λ later. fill now stored later chunks) (reused stored chunk) embedded

  -- embed_documents(to_embed) if to_embed else iter(())
  abbrev pub embed_texts : List String → Result (List (EmbeddingResult Score))
  embed_texts [] = ok []
  embed_texts (t ∷ texts) = embedder.embed_documents (t ∷ texts)

  abbrev pub stored_embeddings :
      List (CodeChunk Score) → Indices client → Dict String (StoredEmbedding Score)
  stored_embeddings chunks s =
      if embedder.reuse_existing_embeddings
      then existing_embeddings client (map (λ c. c.chunk_id) chunks) s
      else []

  unfoldable pub attach_embeddings :
      ℕ → List (CodeChunk Score) → Action (Indices client) (List (CodeChunk Score))
  unfolding to_embed fill
  attach_embeddings now [] = pure []
  attach_embeddings now (chunk ∷ chunks) = do
    stored ← read (stored_embeddings (chunk ∷ chunks))
    embedded ← lift (embed_texts (to_embed stored (chunk ∷ chunks)))
    lift (fill now stored embedded (chunk ∷ chunks))
