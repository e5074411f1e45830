-- ===== src/Permissions/Narrow.antt =====
-- What `narrow` grants, and that it reads the requested projects as a set.
use code_rag.Prelude.{
  String, ◌≡◌, refl, sym, ap, ◌∙◌, inl, inr, Bool, ◌&&◌, ◌||◌, List, [], ◌∷◌, arith, Bool-cases,
  ◌==◌, nat_eq, string_eq, list_eq, pair_eq, option_eq, keep_if,
}
use code_rag.Prelude.Text.{text_leb}
use code_rag.Prelude.Sort.{insert_sorted, sort_by}
use code_rag.Prelude.Sets.{
  contains, sorted_set, contains-sorted_set, contains-keep_if, contains-sort_by,
}
use code_rag.Permissions.Service.{narrow}

-- A project is granted exactly if the record has it and, where the request names projects, the
-- request names it too.
pub contains-narrow :
    (a : String) (accessible requested : List String)
    → contains a (narrow accessible requested)
      ≡ (contains a accessible && (requested == [] || contains a requested))
unfolding narrow
contains-narrow a accessible [] = ground (arith, contains-sorted_set a accessible)
contains-narrow a accessible (x ∷ xs) = ground (
  arith,
  contains-sorted_set a (keep_if (λ b. contains b (x ∷ xs)) accessible),
  contains-keep_if (λ b. contains b (x ∷ xs)) a accessible,
)

keep_if_congr :
    (p q : String → Bool) (xs : List String)
    → ((a : String) → p a ≡ q a)
    → keep_if p xs ≡ keep_if q xs
keep_if_congr p q [] h = refl
keep_if_congr p q (x ∷ xs) h = rw (h x, keep_if_congr p q xs h)

insert_sorted-cons :
    (x : String) (xs : List String)
    → (y : String) × (ys : List String) × (insert_sorted text_leb x xs ≡ y ∷ ys)
unfolding insert_sorted
insert_sorted-cons x [] = (x, [], refl)
insert_sorted-cons x (y ∷ ys) = elim (Bool-cases (text_leb x y)) [
  | inl e ↦ (x, y ∷ ys, rw e)
  | inr e ↦ (y, insert_sorted text_leb x ys, rw e)
]

pub narrow-sort_by :
    (accessible requested : List String)
    → narrow accessible (sort_by text_leb requested) ≡ narrow accessible requested
narrow-sort_by accessible [] = unfold sort_by in refl
narrow-sort_by accessible (x ∷ xs) =
    let (y, ys, e) = insert_sorted-cons x (sort_by text_leb xs) in
    let e' : sort_by text_leb (x ∷ xs) ≡ y ∷ ys = unfold sort_by in e in
    rw e' (
      unfold narrow in
      ap sorted_set (
        keep_if_congr _ _ accessible
          (λ a. ap (contains a) (sym e') ∙ contains-sort_by text_leb a (x ∷ xs))))
