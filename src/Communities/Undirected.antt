-- ===== src/Communities/Undirected.antt =====
-- The graph that is clustered has no direction.
use code_rag.Prelude.{
  String, ◌≡◌, refl, sym, ap, ◌∙◌, inl, inr, Bool, false, ◌&&◌, ◌||◌, Option, none, some, List, [],
  ◌∷◌, arith, if◌then◌else◌, Bool-cases, ◌==◌, ==_refl, nat_eq, string_eq, list_eq, pair_eq,
  option_eq,
}
use code_rag.Prelude.Dict.{Dict, get, keys, get-put}
use code_rag.Prelude.Sets.{contains}
use code_rag.Retrieval.Fusion.{some_or}
use code_rag.Elastic.Records.{CodeSymbol, CodeEdge}
use code_rag.Communities.Graph.{
  neighbors, add_neighbor, link, edge_link, link_found, link_edges, no_links, adjacency_of,
}

abbrev pub linked : String → String → Dict String (List String) → Bool
linked a b adjacency = contains b (neighbors a adjacency)

added :
    (neighbor b : String) (found : List String)
    → contains b (if contains neighbor found then found else neighbor ∷ found)
      ≡ (contains b found || neighbor == b)
unfolding contains
added neighbor b found = elim (Bool-cases (contains neighbor found)) [
  | inr new ↦ rw new (ground arith)
  | inl old ↦ rw old (elim (Bool-cases (neighbor == b)) [
    | inr other ↦ rw other (ground arith)
    | inl same ↦
        ground
          (arith, old, same, ap (λ x. contains x found) ((string_eq.same_iff neighbor b).0 same))
  ])
]

linked-add_neighbor :
    (node neighbor a b : String) (adjacency : Dict String (List String))
    → linked a b (add_neighbor node neighbor adjacency)
      ≡ (linked a b adjacency || (node == a && neighbor == b))
unfolding add_neighbor contains
linked-add_neighbor node neighbor a b adjacency =
    ap (λ o. contains b (some_or [] o)) (get-put node a _ adjacency)
    ∙ elim (Bool-cases (node == a)) [
      | inr other ↦ rw other (ground arith)
      | inl same ↦
          let here = (string_eq.same_iff node a).0 same in
          rw same (
            added neighbor b (neighbors node adjacency)
            ∙ ap (λ x. linked x b adjacency || neighbor == b) here)
    ]

-- Links go both ways, and no name is linked to itself.
pub record IsUndirected (adjacency : Dict String (List String)) : Type 0 where
  pub both_ways : (a b : String) → linked a b adjacency ≡ linked b a adjacency
  pub no_loop : (a : String) → linked a a adjacency ≡ false

both_added :
    (source resolved a b : String) (adjacency : Dict String (List String))
    → linked a b (add_neighbor resolved source (add_neighbor source resolved adjacency))
      ≡ ((linked a b adjacency || (source == a && resolved == b)) || (resolved == a && source == b))
both_added source resolved a b adjacency =
    linked-add_neighbor resolved source a b (add_neighbor source resolved adjacency)
    ∙ ap (λ x. x || (resolved == a && source == b))
        (linked-add_neighbor source resolved a b adjacency)

-- A name is not both of two different ones.
apart_at : (x y a : String) → (x == y) ≡ false → (x == a && y == a) ≡ false
apart_at x y a differs = elim (Bool-cases (x == a)) [
  | inr other ↦ rw other refl
  | inl same ↦ elim (Bool-cases (y == a)) [
    | inr other ↦ ground (arith, other)
    | inl also ↦
        let path = (string_eq.same_iff x a).0 same ∙ sym ((string_eq.same_iff y a).0 also) in
        absurd (ground (arith, differs, ap (λ z. z == y) path, ==_refl y))
  ]
]

link-IsUndirected :
    (source : String) (resolved : Option String) (adjacency : Dict String (List String))
    → IsUndirected adjacency
    → IsUndirected (link source resolved adjacency)
unfolding link
link-IsUndirected source none adjacency h = h
link-IsUndirected source (some resolved) adjacency h =
    elim (Bool-cases (resolved == "" || resolved == source)) [
      | inl skipped ↦ rw skipped h
      | inr linked_now ↦ rw linked_now (record {
        both_ways = λ a b.
            both_added source resolved a b adjacency
            ∙ ground (arith, h.both_ways a b)
            ∙ sym (both_added source resolved b a adjacency);
        no_loop = λ a.
            both_added source resolved a a adjacency
            ∙ ground (arith, h.no_loop a, apart_at resolved source a (ground (arith, linked_now)));
      })
    ]

link_found-IsUndirected :
    (found : Option (String × Option String)) (adjacency : Dict String (List String))
    → IsUndirected adjacency
    → IsUndirected (link_found found adjacency)
link_found-IsUndirected none adjacency h = h
link_found-IsUndirected (some (source, resolved)) adjacency h =
    link-IsUndirected source resolved adjacency h

link_edges-IsUndirected :
    {Score : Type 0} (fqns : List String) (edges : List (CodeEdge Score))
    (adjacency : Dict String (List String))
    → IsUndirected adjacency
    → IsUndirected (link_edges fqns edges adjacency)
unfolding link_edges
link_edges-IsUndirected fqns [] adjacency h = h
link_edges-IsUndirected fqns (edge ∷ edges) adjacency h =
    link_edges-IsUndirected fqns edges _ (link_found-IsUndirected (edge_link fqns edge) adjacency h)

no_links-neighbors : (fqns : List String) (a : String) → neighbors a (no_links fqns) ≡ []
unfolding get
no_links-neighbors [] a = refl
no_links-neighbors (fqn ∷ fqns) a = elim (Bool-cases (fqn == a)) [
  | inl same ↦ rw same refl
  | inr other ↦ rw other (no_links-neighbors fqns a)
]

-- Whatever the symbols and edges are, the graph that is clustered links two names both ways or not
-- at all, and links no name to itself.
pub adjacency_of-IsUndirected :
    {Score : Type 0} (by_fqn : Dict String CodeSymbol) (edges : List (CodeEdge Score))
    → IsUndirected (adjacency_of by_fqn edges)
unfolding adjacency_of contains
adjacency_of-IsUndirected by_fqn edges =
    let nothing = λ (a b : String). ap (contains b) (no_links-neighbors (keys by_fqn) a) in
    link_edges-IsUndirected (keys by_fqn) edges (no_links (keys by_fqn))
      (record { both_ways = λ a b. nothing a b ∙ sym (nothing b a); no_loop = λ a. nothing a a })
