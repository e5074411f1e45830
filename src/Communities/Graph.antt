-- ===== src/Communities/Graph.antt =====
-- `CommunityDetector._adjacency`, `_resolve` and `_label_propagation`,
-- src/code_rag/apps/communities/community_detector.py. A set of names is a list without repetition.
use code_rag.Prelude.{
  ℕ, zero, suc, String, Bool, true, false, not, ◌&&◌, ◌||◌, Option, none, some, List, [], ◌∷◌, map,
  ltb, eqb, if◌then◌else◌, ◌==◌, nat_eq, string_eq, list_eq, pair_eq, option_eq, length, keep_if,
}
use code_rag.Prelude.Dict.{Dict, get, put, keys}
use code_rag.Prelude.Sets.{contains, distinct}
use code_rag.Prelude.Sort.{sort_by}
use code_rag.Prelude.Text.{text_leb}
use code_rag.Retrieval.Fusion.{some_or}
use code_rag.Elastic.Records.{CodeSymbol, CodeEdge}
use code_rag.Elastic.Queries.{last_name}

-- name_index.get: the names whose last part is the given one, if there is one only.
abbrev pub the_only : List String → Option String
the_only [] = none
the_only (fqn ∷ []) = some fqn
the_only (fqn ∷ other ∷ more) = none

unfoldable pub resolve : List String → String → Option String
resolve fqns target =
    if contains target fqns
    then some target
    else the_only (keep_if (λ fqn. last_name fqn == last_name target) fqns)

-- adjacency[node]
abbrev pub neighbors : String → Dict String (List String) → List String
neighbors node adjacency = some_or [] (get node adjacency)

-- adjacency[node].add(neighbor)
unfoldable pub add_neighbor :
    String → String → Dict String (List String) → Dict String (List String)
add_neighbor node neighbor adjacency =
    put node
      (if contains neighbor (neighbors node adjacency)
        then neighbors node adjacency
        else neighbor ∷ neighbors node adjacency)
      adjacency

-- if resolved and resolved != source
unfoldable pub link : String → Option String → Dict String (List String) → Dict String (List String)
unfolding add_neighbor
link source none adjacency = adjacency
link source (some resolved) adjacency =
    if resolved == "" || resolved == source
    then adjacency
    else add_neighbor resolved source (add_neighbor source resolved adjacency)

-- The names that an edge links, where its source is known.
abbrev pub edge_link :
    {Score : Type 0} → List String → CodeEdge Score → Option (String × Option String)
edge_link fqns edge = elim edge.source_symbol_fqn [
  | none ↦ none
  | some source ↦ if not (contains source fqns) then none else elim edge.target_symbol_fqn [
    | none ↦ none
    | some target ↦ if target == "" then none else some (source, resolve fqns target)
  ]
]

abbrev pub link_found :
    Option (String × Option String) → Dict String (List String) → Dict String (List String)
link_found none adjacency = adjacency
link_found (some (source, resolved)) adjacency = link source resolved adjacency

unfoldable pub link_edges :
    {Score : Type 0}
    → List String
    → List (CodeEdge Score)
    → Dict String (List String)
    → Dict String (List String)
link_edges fqns [] adjacency = adjacency
link_edges fqns (edge ∷ edges) adjacency =
    link_edges fqns edges (link_found (edge_link fqns edge) adjacency)

-- {fqn: set() for fqn in by_fqn}
abbrev pub no_links : List String → Dict String (List String)
no_links [] = []
no_links (fqn ∷ fqns) = (fqn, []) ∷ no_links fqns

unfoldable pub adjacency_of :
    {Score : Type 0} → Dict String CodeSymbol → List (CodeEdge Score) → Dict String (List String)
unfolding link_edges
adjacency_of by_fqn edges = link_edges (keys by_fqn) edges (no_links (keys by_fqn))

-- labels[neighbor] for neighbor in neighbors
abbrev pub labels_of : Dict String String → List String → List String
labels_of labels nodes = map (λ node. some_or node (get node labels)) nodes

abbrev pub count_of : String → List String → ℕ
count_of label found = length (keep_if (λ l. l == label) found)

-- The order of the key (-counts[label], label).
abbrev pub better : List String → String → String → Bool
better found a b =
    ltb (count_of b found) (count_of a found)
    || (eqb (count_of a found) (count_of b found) && text_leb a b)

unfoldable pub best_label : List String → Option String
best_label found = elim (sort_by (better found) (distinct found)) [
  | [] ↦ none
  | label ∷ labels ↦ some label
]

-- One turn of the loop over the nodes: the labels, and whether one changed.
unfoldable pub relabel :
    Dict String (List String) → String → Dict String String × Bool → Dict String String × Bool
unfolding best_label
relabel adjacency node (labels, changed) =
    elim (best_label (labels_of labels (neighbors node adjacency))) [
      | none ↦ (labels, changed)
      | some best ↦
          if some_or node (get node labels) == best
          then (labels, changed)
          else (put node best labels, true)
    ]

unfoldable pub relabel_all :
    Dict String (List String) → List String → Dict String String × Bool → Dict String String × Bool
unfolding relabel
relabel_all adjacency [] state = state
relabel_all adjacency (node ∷ nodes) state =
    relabel_all adjacency nodes (relabel adjacency node state)

-- The rounds, of which there are at most `max_iterations`.
unfoldable pub rounds :
    ℕ → Dict String (List String) → List String → Dict String String → Dict String String
unfolding relabel_all
rounds zero adjacency nodes labels = labels
rounds (suc n) adjacency nodes labels =
    let (after, changed) = relabel_all adjacency nodes (labels, false) in
    let more = rounds n adjacency nodes after in if changed then more else after

abbrev pub own_labels : List String → Dict String String
own_labels [] = []
own_labels (node ∷ nodes) = (node, node) ∷ own_labels nodes

unfoldable pub label_propagation : List String → Dict String (List String) → Dict String String
unfolding rounds
label_propagation nodes adjacency = rounds 20 adjacency nodes (own_labels nodes)
