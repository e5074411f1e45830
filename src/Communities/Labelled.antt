-- ===== src/Communities/Labelled.antt =====
-- Every name keeps a label.
use code_rag.Prelude.{
  ℕ, zero, suc, String, ◌≡◌, refl, ap, ◌∙◌, inl, inr, Bool, true, false, List, [], ◌∷◌, arith,
  Bool-cases, Option-cases, ◌==◌, ==_refl, nat_eq, string_eq, list_eq, pair_eq, option_eq, All,
  All-map,
}
use code_rag.Prelude.Dict.{Dict, get, put, keys}
use code_rag.Prelude.Sets.{contains}
use code_rag.Retrieval.Fusion.{some_or}
use code_rag.Communities.Graph.{
  neighbors, labels_of, best_label, relabel, relabel_all, rounds, own_labels, label_propagation,
}

keys-put_old :
    (k v : String) (d : Dict String String) → contains k (keys d) ≡ true → keys (put k v d) ≡ keys d
unfolding put contains
keys-put_old k v [] h = absurd (ground arith)
keys-put_old k v ((j, w) ∷ d) h = elim (Bool-cases (j == k)) [
  | inl same ↦ rw same refl
  | inr other ↦ rw other (ap (λ x. j ∷ x) (keys-put_old k v d (ground (arith, h, other))))
]

module _ (adjacency : Dict String (List String)) where
  keys-relabel :
      (node : String) (labels : Dict String String) (changed : Bool)
      → contains node (keys labels) ≡ true
      → keys (relabel adjacency node (labels, changed)).0 ≡ keys labels
  unfolding relabel
  keys-relabel node labels changed there =
      elim (Option-cases (best_label (labels_of labels (neighbors node adjacency)))) [
        | inl alone ↦ rw (alone, relabel) refl
        | inr (best, found) ↦
            rw (found, relabel)
              (elim (Bool-cases (some_or node (get node labels) == best)) [
                | inl same ↦ rw same refl
                | inr other ↦ rw other (keys-put_old node best labels there)
              ])
      ]

  -- The nodes are names that have a label.
  abbrev pub HaveLabels : List String → Dict String String → Type 0
  HaveLabels nodes labels = All (λ node. contains node (keys labels) ≡ true) nodes

  keys-relabel_all :
      (nodes : List String) (labels : Dict String String) (changed : Bool)
      → HaveLabels nodes labels
      → keys (relabel_all adjacency nodes (labels, changed)).0 ≡ keys labels
  unfolding relabel_all
  keys-relabel_all [] labels changed have = refl
  keys-relabel_all (node ∷ nodes) labels changed have =
      let same = keys-relabel node labels changed have.0 in
      let next = relabel adjacency node (labels, changed) in
      keys-relabel_all nodes next.0 next.1 (
        All-map (λ n. contains n (keys labels) ≡ true) (λ n h. ap (contains n) same ∙ h) nodes
          have.1)
      ∙ same

  keys-rounds :
      (n : ℕ) (nodes : List String) (labels : Dict String String)
      → HaveLabels nodes labels
      → keys (rounds n adjacency nodes labels) ≡ keys labels
  unfolding rounds
  keys-rounds zero nodes labels have = refl
  keys-rounds (suc n) nodes labels have =
      let after = relabel_all adjacency nodes (labels, false) in
      let same = keys-relabel_all nodes labels false have in
      elim (Bool-cases after.1) [
        | inr settled ↦ rw settled same
        | inl changed ↦ rw changed (
            keys-rounds n nodes after.0 (
              All-map (λ m. contains m (keys labels) ≡ true) (λ m h. ap (contains m) same ∙ h) nodes
                have)
            ∙ same)
      ]

  keys-own_labels : (nodes : List String) → keys (own_labels nodes) ≡ nodes
  keys-own_labels [] = refl
  keys-own_labels (node ∷ nodes) = ap (λ x. node ∷ x) (keys-own_labels nodes)

  has_itself : (nodes : List String) → All (λ node. contains node nodes ≡ true) nodes
  unfolding contains
  has_itself [] = tt
  has_itself (node ∷ nodes) = (
    ground (arith, ==_refl node),
    All-map (λ m. contains m nodes ≡ true) (λ m h. ground (arith, h)) nodes (has_itself nodes),
  )

  -- After the propagation the names that have a label are the nodes, in their order: no name is
  -- lost and none is added, however often the labels change.
  pub keys-label_propagation :
      (nodes : List String) → keys (label_propagation nodes adjacency) ≡ nodes
  unfolding label_propagation
  keys-label_propagation nodes =
      let own = keys-own_labels nodes in
      keys-rounds 20 nodes (own_labels nodes) (
        All-map (λ m. contains m nodes ≡ true) (λ m h. ap (contains m) own ∙ h) nodes
          (has_itself nodes))
      ∙ own
