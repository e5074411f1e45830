-- ===== src/Indexing/Attached.antt =====
-- What `_attach_embeddings` gives each chunk.
use code_rag.Prelude.{
  ℕ, String, ◌≡◌, refl, sym, ap, ◌∙◌, subst, inl, inr, Bool, true, false, Option, none, some, List,
  [], ◌∷◌, map, arith, if◌then◌else◌, Option-cases, ◌==◌, nat_eq, string_eq, list_eq, pair_eq,
  option_eq, All, In, All-inside,
}
use code_rag.Prelude.Dict.{Dict, get}
use code_rag.Elastic.Records.{CodeChunk, EmbeddingResult}
use code_rag.Elastic.Store.{StoredEmbedding, Client, Indices, existing_embeddings}
use code_rag.Indexing.Action.{Result, ok, continue}
use code_rag.Indexing.Embeddings.{
  Embedder, reused, next_text, to_embed, attach, with_rest, fill_chunk, fill, embed_texts,
  stored_embeddings, attach_embeddings,
}

module _ {Score RepoDocument : Type 0} (client : Client Score RepoDocument)
    (embedder : Embedder Score) where
  abbrev pub filled_chunk :
      ℕ
      → (String → EmbeddingResult Score)
      → Option (StoredEmbedding Score)
      → CodeChunk Score
      → CodeChunk Score
  filled_chunk now embed none chunk =
      attach client embedder now (embed chunk.text_for_embedding).dense
        (embed chunk.text_for_embedding).late_interaction chunk
  filled_chunk now embed (some cached) chunk =
      attach client embedder now cached.embedding_dense cached.embedding_late_interaction chunk

  -- The chunk as the loop fills it, from the dictionary of the stored embeddings.
  abbrev looked_up :
      ℕ
      → Dict String (StoredEmbedding Score)
      → (String → EmbeddingResult Score)
      → CodeChunk Score
      → CodeChunk Score
  looked_up now stored embed chunk =
      filled_chunk now embed (reused client embedder stored chunk) chunk

  fill_chunk-right :
      (now : ℕ) (embed : String → EmbeddingResult Score) (chunk : CodeChunk Score)
      (texts : List String) (filled : List (CodeChunk Score))
      (rest : List (EmbeddingResult Score) → Result (List (CodeChunk Score)))
      (o : Option (StoredEmbedding Score))
      → rest (map embed texts) ≡ ok filled
      → fill_chunk client embedder now chunk rest o
          (map embed (next_text client embedder o chunk.text_for_embedding texts))
        ≡ ok (filled_chunk now embed o chunk ∷ filled)
  fill_chunk-right now embed chunk texts filled rest none ih = ap (with_rest client embedder _) ih
  fill_chunk-right now embed chunk texts filled rest (some cached) ih =
      ap (with_rest client embedder _) ih

  fill-right :
      (now : ℕ) (stored : Dict String (StoredEmbedding Score))
      (embed : String → EmbeddingResult Score) (chunks : List (CodeChunk Score))
      → fill client embedder now stored (map embed (to_embed client embedder stored chunks)) chunks
        ≡ ok (map (looked_up now stored embed) chunks)
  unfolding fill to_embed
  fill-right now stored embed [] = refl
  fill-right now stored embed (chunk ∷ chunks) =
      fill_chunk-right now embed chunk (to_embed client embedder stored chunks) _
        (λ later. fill client embedder now stored later chunks)
        (reused client embedder stored chunk) (fill-right now stored embed chunks)

  embed_texts-map :
      (embed : String → EmbeddingResult Score) (texts : List String)
      → ((asked : List String) → embedder.embed_documents asked ≡ ok (map embed asked))
      → embed_texts client embedder texts ≡ ok (map embed texts)
  embed_texts-map embed [] right = refl
  embed_texts-map embed (t ∷ texts) right = right (t ∷ texts)

  -- What each chunk should get, told from the index: where reuse is on and the document under its id
  -- was embedded for the same text, that document's vectors, and else those of the provider.
  abbrev pub told_vectors :
      (reuse : Bool)
      → Option (CodeChunk Score)
      → EmbeddingResult Score
      → CodeChunk Score
      → List Score × List (List Score)
  told_vectors false old made chunk = (made.dense, made.late_interaction)
  told_vectors true none made chunk = (made.dense, made.late_interaction)
  told_vectors true (some old) made chunk =
      if old.embedding_input_hash == some (embedder.text_id chunk.text_for_embedding)
      then (old.embedding_dense, old.embedding_late_interaction)
      else (made.dense, made.late_interaction)

  abbrev pub with_vectors : ℕ → List Score × List (List Score) → CodeChunk Score → CodeChunk Score
  with_vectors now vectors chunk = record chunk {
    embedding_dense = vectors.0;
    embedding_late_interaction = vectors.1;
    embedding_model = some embedder.model_name;
    embedding_dimension = some embedder.dimension;
    embedding_created_at = some now;
    embedding_input_hash = some (embedder.text_id chunk.text_for_embedding);
  }

  abbrev pub embedded_chunk :
      ℕ → Indices client → (String → EmbeddingResult Score) → CodeChunk Score → CodeChunk Score
  embedded_chunk now s embed chunk =
      with_vectors now
        (told_vectors embedder.reuse_existing_embeddings
          (client.chunks.get chunk.chunk_id s.chunks_index) (embed chunk.text_for_embedding) chunk)
        chunk

  existing_absent :
      (id : String) (ids : List String) (s : Indices client)
      → client.chunks.get id s.chunks_index ≡ none
      → get id (existing_embeddings client ids s) ≡ none
  unfolding existing_embeddings get
  existing_absent id [] s absent = refl
  existing_absent id (i ∷ ids) s absent =
      ground (arith, existing_absent id ids s absent, string_eq.same_iff i id)

  abbrev embedding_of : CodeChunk Score → StoredEmbedding Score
  embedding_of c = record {
    embedding_input_hash = c.embedding_input_hash;
    embedding_dense = c.embedding_dense;
    embedding_late_interaction = c.embedding_late_interaction;
  }

  existing_found :
      (id : String) (ids : List String) (s : Indices client) (c : CodeChunk Score)
      → In id ids
      → client.chunks.get id s.chunks_index ≡ some c
      → get id (existing_embeddings client ids s) ≡ some (embedding_of c)
  unfolding existing_embeddings get
  existing_found id [] s c m found = elim m [ ]
  existing_found id (i ∷ ids) s c (inl e) found =
      let here : client.chunks.get i s.chunks_index ≡ some c =
        subst (λ (k : String). client.chunks.get k s.chunks_index ≡ some c) (sym e) found in
      rw (existing_embeddings, here) (ground (arith, (string_eq.same_iff i id).1 e))
  existing_found id (i ∷ ids) s c (inr m) found =
      ground (arith, existing_found id ids s c m found, string_eq.same_iff i id)

  reused-none :
      (stored : Dict String (StoredEmbedding Score)) (chunk : CodeChunk Score)
      → get chunk.chunk_id stored ≡ none
      → reused client embedder stored chunk ≡ none
  unfolding reused
  reused-none stored chunk e = rw (reused, e) refl

  reused-some :
      (stored : Dict String (StoredEmbedding Score)) (chunk : CodeChunk Score)
      (cached : StoredEmbedding Score)
      → get chunk.chunk_id stored ≡ some cached
      → reused client embedder stored chunk ≡ (
          if cached.embedding_input_hash == some (embedder.text_id chunk.text_for_embedding)
          then some cached
          else none)
  unfolding reused
  reused-some stored chunk cached e = rw (reused, e) refl

  filled_right :
      (now : ℕ) (embed : String → EmbeddingResult Score) (old chunk : CodeChunk Score) (b : Bool)
      → let made = embed chunk.text_for_embedding in
        filled_chunk now embed (if b then some (embedding_of old) else none) chunk
        ≡ with_vectors now
            (if b
              then (old.embedding_dense, old.embedding_late_interaction)
              else (made.dense, made.late_interaction))
            chunk
  filled_right now embed old chunk true = refl
  filled_right now embed old chunk false = refl

  -- The dictionary tells what the index does, for a chunk whose id was asked for.
  told_right :
      (now : ℕ) (embed : String → EmbeddingResult Score) (ids : List String) (s : Indices client)
      (chunk : CodeChunk Score) (reuse : Bool)
      → In chunk.chunk_id ids
      → looked_up now (if reuse then existing_embeddings client ids s else []) embed chunk
        ≡ with_vectors now
            (told_vectors reuse
              (client.chunks.get chunk.chunk_id s.chunks_index)
              (embed chunk.text_for_embedding)
              chunk)
            chunk
  unfolding get
  told_right now embed ids s chunk false m =
      ap (λ o. filled_chunk now embed o chunk) (reused-none [] chunk refl)
  told_right now embed ids s chunk true m =
      elim (Option-cases (client.chunks.get chunk.chunk_id s.chunks_index)) [
        | inl absent ↦ rw absent (
            ap (λ o. filled_chunk now embed o chunk)
              (reused-none (existing_embeddings client ids s) chunk
                (existing_absent chunk.chunk_id ids s absent)))
        | inr (old, found) ↦ rw found (
            ap (λ o. filled_chunk now embed o chunk)
              (reused-some (existing_embeddings client ids s) chunk (embedding_of old)
                (existing_found chunk.chunk_id ids s old m found))
            ∙ filled_right now embed old chunk _)
      ]

  map-In :
      {A : Type 0} (f g : CodeChunk Score → A) (xs : List (CodeChunk Score)) (ids : List String)
      → All (λ id. In id ids) (map (λ c. c.chunk_id) xs)
      → ((c : CodeChunk Score) → In c.chunk_id ids → f c ≡ g c)
      → map f xs ≡ map g xs
  map-In f g [] ids m same = refl
  map-In f g (x ∷ xs) ids m same = cc (same x m.0, map-In f g xs ids m.1 same)

  -- Where the provider answers each text in its place, each chunk gets the vectors of the document
  -- that the index has under its id, if reuse is on and that document was embedded for a text of the
  -- same hash, and else the provider's vectors of its own text, with the model, the dimension, the
  -- time and the hash of its text; the order of the chunks and the index are kept.
  pub attach_embeddings_lem :
      (embed : String → EmbeddingResult Score) (now : ℕ) (chunks : List (CodeChunk Score))
      (s : Indices client)
      → ((asked : List String) → embedder.embed_documents asked ≡ ok (map embed asked))
      → attach_embeddings client embedder now chunks s
        ≡ (s, ok (map (embedded_chunk now s embed) chunks))
  unfolding attach_embeddings continue
  attach_embeddings_lem embed now [] s right = refl
  attach_embeddings_lem embed now (chunk ∷ chunks) s right =
      let all = chunk ∷ chunks in
      let ids = map (λ (c : CodeChunk Score). c.chunk_id) all in
      let stored = stored_embeddings client embedder all s in
      rw (embed_texts-map embed (to_embed client embedder stored all) right) (
        ap (λ r. (s, r))
          (fill-right now stored embed all
            ∙ ap ok (
                map-In _ _ all ids (All-inside ids)
                  (λ c. told_right now embed ids s c embedder.reuse_existing_embeddings))))
