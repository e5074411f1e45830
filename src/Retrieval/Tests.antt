-- ===== src/Retrieval/Tests.antt =====
-- Retrieval on concrete hits, with natural numbers for scores.
use code_rag.Prelude.{
  ℕ, suc, ◌+◌, ◌-◌, ◌*◌, ◌/◌, ◌≤◌, String, ◌≡◌, refl, Bool, true, false, Option, none, some, List,
  [], ◌∷◌, arith, leb, eqb, if◌then◌else◌, ◌==◌, nat_eq, string_eq, list_eq, pair_eq, option_eq,
  length, All,
}
use code_rag.Prelude.Dict.{get, put}
use code_rag.Prelude.Sets.{contains}
use code_rag.Prelude.Sort.{insert_sorted, sort_by, IsSorted}
use code_rag.Prelude.Unique.{set_default, IsUnique}
use code_rag.Retrieval.Hits.{SearchHit, Scores}
use code_rag.Retrieval.Fusion.{rrf, count_sets, count_set, count_hit, with_score, best_first}
use code_rag.Retrieval.Ranking.{ids, total, named, rrf_lem}
use code_rag.Retrieval.Expansion.{EdgeType, api_question, test_question, expand}
use code_rag.Retrieval.Neighbors.{hit_ids, IsMarked, expand_lem}
use code_rag.Retrieval.Rerank.{RerankSettings, Outside, rerank}
use code_rag.Retrieval.Reranked.{chunk_ids, rerank_lem, rerank_fails}
use code_rag.Retrieval.QueryCache.{cached_query_embedding}
use code_rag.Retrieval.CacheBounds.{
  Section, looks, keeps, run_sections, cached_query_embedding-run_sections, length-run_sections,
}

pub leb_total : (x y : ℕ) → leb x y ≡ false → leb y x ≡ true
leb_total x y h = ground arith

pub leb_trans : (x y z : ℕ) → leb x y ≡ true → leb y z ≡ true → leb x z ≡ true
leb_trans x y z h k = ground arith

-- Scores in units of one millionth.
abbrev pub millionths : Scores ℕ
millionths = record {
  nothing = 0;
  plus = λ x y. x + y;
  minus = λ x y. x - y;
  times = λ x y. x * y;
  over = λ x y. x / y;
  one = 1;
  is_zero = λ x. eqb x 0;
  reciprocal = λ n. 1000000 / n;
  at_most = leb;
  at_most-IsTotal = record { total = λ x y. leb_total x y; trans = λ x y z. leb_trans x y z };
}

abbrev pub hit : String → SearchHit ℕ Bool
hit id = record {
  chunk_id = id;
  score = 7;
  repo_path_with_namespace = "group/app";
  file_path = "app/main.py";
  line_start = 1;
  line_end = 9;
  language = "python";
  chunk_kind = "file";
  symbol_name = none;
  symbol_fqn = some id;
  gitlab_blob_url = "";
  text = "";
  metadata = [];
}

abbrev legs : List (List (SearchHit ℕ Bool))
legs = (hit "a" ∷ hit "b" ∷ []) ∷ (hit "c" ∷ hit "b" ∷ hit "d" ∷ []) ∷ []

rrf-legs : ids millionths 60 (rrf millionths 60 legs) ≡ "b" ∷ "a" ∷ "c" ∷ "d" ∷ []
unfolding rrf count_sets count_set count_hit with_score sort_by insert_sorted put get set_default
rrf-legs = refl

rrf_lem_example :
    ((c : String)
      → contains c (ids millionths 60 (rrf millionths 60 legs)) ≡ named millionths 60 c legs)
    × IsUnique (ids millionths 60 (rrf millionths 60 legs))
    × All (λ hit. hit.score ≡ total millionths 60 hit.chunk_id legs 0) (rrf millionths 60 legs)
    × IsSorted (best_first millionths) (rrf millionths 60 legs)
rrf_lem_example = rrf_lem millionths 60 legs

-- An index that answers with two new chunks and one that is known.
abbrev neighbors : List String → List EdgeType → ℕ → List (SearchHit ℕ Bool)
neighbors fqns edges size = hit "a" ∷ hit "e" ∷ hit "e" ∷ hit "f" ∷ hit "g" ∷ []

abbrev found : List (SearchHit ℕ Bool)
found = expand true (some neighbors) 2 3 1 (hit "a" ∷ hit "b" ∷ []) api_question

expand_lem_example :
    (length found ≤ 2)
    × IsUnique (hit_ids true found)
    × All (IsMarked true) found
    × ((c : String)
        → contains c (hit_ids true (hit "a" ∷ hit "b" ∷ [])) ≡ true
        → contains c (hit_ids true found) ≡ false)
expand_lem_example = expand_lem true (some neighbors) 2 3 1 (hit "a" ∷ hit "b" ∷ []) api_question

abbrev provider : String → Option ℕ
provider query = if query == "down" then none else some 5

abbrev sections : List Section
sections =
    looks 0 "x"
    ∷ looks 1 "y"
    ∷ keeps 0 "x"
    ∷ keeps 1 "y"
    ∷ looks 2 "down"
    ∷ keeps 2 "down"
    ∷ keeps 3 "z"
    ∷ []

cached_query_embedding-run_sections_example :
    (cached_query_embedding provider 2 300 4 "y" (run_sections provider 2 300 sections [])).0
    ≡ provider "y"
cached_query_embedding-run_sections_example =
    cached_query_embedding-run_sections provider 2 300 sections 4 "y"

length-run_sections_example : length (run_sections provider 2 300 sections []) ≤ 2
length-run_sections_example = length-run_sections provider 2 300 sections

abbrev pub outside : Outside ℕ Bool ℕ
outside = record {
  lower = λ text. text;
  occurs = λ part text. part == text;
  join = λ texts. "app/main.py";
  is_truthy = λ b. b;
  is_text = λ b text. false;
  of_score = λ score. true;
  max_sim = λ query late. some 2;
}

abbrev pub boosts : RerankSettings ℕ
boosts = record {
  rerank_identifier_boost = 20;
  rerank_definition_boost = 30;
  rerank_usage_boost = 20;
  rerank_test_boost = 20;
  rerank_config_boost = 10;
  rerank_graph_neighbor_boost = 5;
  rerank_community_boost = 5;
  rerank_late_interaction_weight = 3;
  rerank_cross_encoder_candidates = 2;
  rerank_cross_encoder_weight = 100;
}

-- Scores each text one more than the text before it.
abbrev count_up : ℕ → List String → List ℕ
count_up n [] = []
count_up n (text ∷ texts) = n ∷ count_up (suc n) texts

abbrev encoder : String → List String → List ℕ
encoder query texts = count_up 4 texts

abbrev three : List (SearchHit ℕ Bool)
three = hit "a" ∷ hit "b" ∷ hit "c" ∷ []

rerank_lem_example :
    (ranked : List (SearchHit ℕ Bool)) × (rerank millionths outside boosts
        (some encoder)
        three
        test_question
        ("main" ∷ [])
        0
        "where"
      ≡ some ranked)
    × IsSorted (best_first millionths) ranked
    × IsUnique (chunk_ids millionths outside boosts ranked)
    × ((c : String)
        → contains c (chunk_ids millionths outside boosts ranked)
          ≡ contains c (chunk_ids millionths outside boosts three))
unfolding contains
rerank_lem_example =
    rerank_lem millionths outside boosts encoder three test_question ("main" ∷ []) 0 "where"
      (omega arith) (omega arith) (refl, (refl, (refl, tt)))

rerank_fails_example :
    rerank millionths outside boosts (some encoder) [] test_question ("main" ∷ []) 0 "where" ≡ none
rerank_fails_example =
    rerank_fails millionths outside boosts encoder test_question ("main" ∷ []) 0 "where" refl refl
