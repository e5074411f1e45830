-- ===== src/Communities/Tests.antt =====
-- A run of the clustering, and its theorem at concrete edges.
use code_rag.Prelude.{
  String, ◌≡◌, refl, false, none, [], ◌∷◌, nat_eq, string_eq, list_eq, pair_eq, option_eq,
}
use code_rag.Prelude.Dict.{Dict, get, put}
use code_rag.Prelude.Sets.{contains, distinct}
use code_rag.Prelude.Sort.{insert_sorted, sort_by}
use code_rag.Elastic.Records.{CodeSymbol}
use code_rag.Elastic.Queries.{last_name}
use code_rag.Elastic.Samples.{an_edge}
use code_rag.Communities.Graph.{
  resolve, add_neighbor, link, link_edges, adjacency_of, best_label, relabel, relabel_all, rounds,
}
use code_rag.Communities.Undirected.{IsUndirected, adjacency_of-IsUndirected}

abbrev a_symbol : String → CodeSymbol
a_symbol fqn = record {
  symbol_id = fqn;
  tenant_id = "t";
  gitlab_project_id = "p";
  repo_path_with_namespace = "g/r";
  branch = "main";
  commit_sha = "c";
  language = "python";
  symbol_name = fqn;
  symbol_fqn = fqn;
  symbol_kind = "function";
  visibility = none;
  exported = false;
  definition_file_path = "a.py";
  definition_line_start = 1;
  definition_line_end = 2;
  definition_chunk_id = "1";
  definition_gitlab_url = "";
  parent_symbol_fqn = none;
  package_name = none;
  module_path = none;
  docstring = none;
  signature = none;
  annotations = [];
  decorators = [];
  referenced_by_count = 0;
  called_by_count = 0;
  tested_by_count = 0;
  indexed_at = 0;
}

abbrev symbols : Dict String CodeSymbol
symbols = ("f", a_symbol "f") ∷ ("m.g", a_symbol "m.g") ∷ ("h", a_symbol "h") ∷ []

-- The edge from f to g is resolved to m.g, and h stays alone.
two_linked :
    adjacency_of symbols (an_edge "e" "1" ∷ [])
    ≡ (("f", "m.g" ∷ []) ∷ ("m.g", "f" ∷ []) ∷ ("h", []) ∷ [])
unfolding adjacency_of link_edges link add_neighbor resolve last_name get put contains
two_linked = refl

-- In the first round f takes the label of m.g, which m.g then finds on its neighbor and keeps.
one_round :
    rounds 1
      (("f", "m.g" ∷ []) ∷ ("m.g", "f" ∷ []) ∷ [])
      ("f" ∷ "m.g" ∷ [])
      (("f", "f") ∷ ("m.g", "m.g") ∷ [])
    ≡ (("f", "m.g") ∷ ("m.g", "m.g") ∷ [])
unfolding rounds relabel_all relabel best_label distinct contains sort_by insert_sorted get put
one_round = refl

adjacency_of-IsUndirected_example : IsUndirected (adjacency_of symbols (an_edge "e" "1" ∷ []))
adjacency_of-IsUndirected_example = adjacency_of-IsUndirected symbols (an_edge "e" "1" ∷ [])
