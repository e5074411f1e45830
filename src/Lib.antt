-- ===== src/Lib.antt =====
-- Code RAG: a service that indexes the code of GitLab projects and answers searches over it. This
-- library models the parts of it that decide: who may read what, which job runs, what a job
-- writes to the indices, how hits are found and ranked, how files are cut into chunks, and how
-- secrets are taken out of them.
--
-- The program. A webhook or an administrator submits an index job; a worker claims it, fetches
-- the files of the project, cuts them into chunks and stores these in Elasticsearch. A search is
-- rate limited, resolves which projects its user may read, asks several legs of the index, fuses
-- their hits, adds neighbors in the code graph, reranks, and returns the best. Paths below are
-- from the repository's root.
--
--   RateLimit     src/code_rag/apps/ratelimit/rate_limiter.py: `SlidingWindowRateLimiter` (allow),
--                 and the identity that interfaces/rest/security.py counts by
--   Auth          src/code_rag/apps/auth/authenticator.py: `Authenticator` (authenticate,
--                 resolve_user_id), over its settings
--   Permissions   src/code_rag/apps/permissions/permission_service.py: `PermissionService`
--                 (upsert, resolve_allowed_projects, _store_cache) over the store interface of
--                 ports/permissions.py, with the in-memory store and the Elasticsearch store
--   Documents     the document index that Elasticsearch is used as: an interface of get, put with a
--                 version, and search, with its laws, and an instance in memory
--   Jobs          src/code_rag/adapters/elasticsearch/_jobs.py: `JobStoreMixin` (enqueue_job,
--                 claim_next_job, finish_job, fail_job), and apps/jobs/index_job_queue.py:
--                 `IndexJobQueue` (submit, _execute, _run, _poll), over Documents
--   Elastic       src/code_rag/adapters/elasticsearch/: the models of what is kept (Records), the
--                 writes of _indexing.py (Store, with Replace and Prune about them), the reads of
--                 _search.py (Legs, over the filters and hits in Queries), and the aliases of
--                 _base.py (Aliases). Corpus is the interface of one index, which Memory fills, and
--                 Cluster in Aliases that of the index administration, which SmallCluster fills
--   Indexing      src/code_rag/apps/indexing/indexing_service.py: `_attach_embeddings` in Embeddings
--                 (Attached is about it),
--                 `_index_file` and `_index_paths` in Service, the full job and the communities in
--                 Runs, the incremental job in Incremental. Indexer hands it to Jobs as the interface
--                 that the queue calls
--   Retrieval     src/code_rag/apps/retrieval/: `RetrievalService._rrf` in Fusion,
--                 `_cached_query_embedding` in QueryCache, `GraphExpander` in Expansion and
--                 `Reranker` in Rerank; Service composes a search as `_search_sync` does
--   Chunking      src/code_rag/apps/chunking/strategies/text_chunker.py: the line windows and the
--                 splitting of large chunks
--   Http          src/code_rag/adapters/http/retries.py: `request_with_retries`
--   Metrics       src/code_rag/apps/metrics/: `TimingStats.observe` and the counters and timings of
--                 `MetricsRegistry`
--   Secrets       src/code_rag/apps/secrets/secret_scanner.py: `SecretScanner` (scan, _dedupe, redact)
--   Communities   src/code_rag/apps/communities/community_detector.py: `_adjacency`, `_resolve` and
--                 `_label_propagation` of `CommunityDetector`
--   Prelude       dictionaries, sets, sorting and lists as Python has them, and shared lemmas
--
-- How the code is rendered. A class is a record of its fields, and a method a function from the
-- state before to the state after and the result. A raised error is a value: `none`, or a
-- constructor of a result type. A dictionary is an association list in insertion order. A clock
-- reading is an argument, a whole number of ticks. A section under a lock is one step; where
-- calls overlap, a list of such steps is the interleaving. A method of the indexing service takes
-- the indices and returns them also where it raises, since what was written stays written.
-- Floating-point scores are a type with operations, of which only a total order is required.
-- Settings that are numbers are natural numbers: the negative values that Python would accept are
-- not modelled.
--
-- Fuel. The window loop of the chunker runs on fuel, the number of lines: each round advances by
-- at least one line. The rounds of label propagation are the 20 of the code. The hops of graph
-- expansion and the attempts of an HTTP call are bounded by their settings.
--
-- Parameters. Elasticsearch, the embedding provider, the cross-encoder, numpy's MaxSim and the
-- functions of Python on texts are arguments of the definitions that use them. So are, for the
-- indexing service, the checkout, the file classifier, the chunk builder, the community detector
-- and the repositories' metadata, each of which may raise, and for the secret scanner the matches
-- of its regular expressions.
--
-- Elasticsearch. A search and a delete by query see the documents that a refresh has made
-- visible, a get by id sees all. A theorem that needs a document to be found says so in a
-- hypothesis. A cluster that fails, version conflicts of a delete by query, and the fields that
-- `_dump` adds for text analysis are not modelled.
--
-- Not modelled: the context text of an answer, the chunk builder and the language chunkers (on
-- the trees of ast and tree-sitter), the groups and summaries of communities, classifiers, the
-- rendering of metrics, evaluation, answers, the embedding, git and GitLab adapters (input and
-- output), the web framework's wiring, the command line, logging and settings. The starting and
-- stopping of the worker is left out. Threads: the legs of a search are independent values, of which
-- one that raises ends the search (an exception of `neighbor_chunks` or of the classifier is left
-- out). The files that a pool indexes are taken in the order of its queue, one whole file after the
-- other; once a file has raised, only as many of the later ones run as the threads had taken, which
-- a parameter tells.
pub mod Auth
pub mod Chunking
pub mod Communities
pub mod Documents
pub mod Elastic
pub mod Http
pub mod Indexing
pub mod Jobs
pub mod Metrics
pub mod Permissions
pub mod Prelude
pub mod RateLimit
pub mod Retrieval
pub mod Secrets
