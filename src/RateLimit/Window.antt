-- ===== src/RateLimit/Window.antt =====
-- The deque of a key against the full list of its granted requests.
use code_rag.Prelude.{
  ℕ, ◌+◌, ◌≤◌, ◌<◌, ◌≡◌, refl, sym, ap, ◌∙◌, inl, inr, ◌&&◌, List, [], ◌∷◌, ◌++◌, arith, ltb, leb,
  if◌then◌else◌, leb→le, Bool-cases, nat_eq, string_eq, list_eq, pair_eq, length, All, All-append,
  All-map,
}
use code_rag.RateLimit.{expire}
use mathlib.Core.List.{append_assoc}

-- How many of the times lie in the window (now - window, now].
unfoldable pub in_window : ℕ → ℕ → List ℕ → ℕ
in_window window now [] = 0
in_window window now (g ∷ gs) =
    (if leb g now && ltb now (g + window) then 1 else 0) + in_window window now gs

abbrev pub Ascending : List ℕ → Type 0
Ascending [] = Unit
Ascending (x ∷ xs) = All (λ y. x ≤ y) xs × Ascending xs

-- The deque holds the end of the list of grants, and what it lacks has expired.
pub record Covers (window now : ℕ) (full live : List ℕ) : Type 0 where
  pub dropped : List ℕ
  pub split : full ≡ dropped ++ live
  pub gone : All (λ g. g + window ≤ now) dropped
  pub order : Ascending live
  pub past : All (λ g. g ≤ now) live

module _ (window : ℕ) where
  pub in_window-append :
      (now : ℕ) (xs ys : List ℕ)
      → in_window window now (xs ++ ys) ≡ in_window window now xs + in_window window now ys
  unfolding in_window
  in_window-append now [] ys = omega arith
  in_window-append now (x ∷ xs) ys = omega (arith, in_window-append now xs ys)

  pub in_window-gone :
      (now later : ℕ) (xs : List ℕ)
      → now ≤ later
      → All (λ g. g + window ≤ now) xs
      → in_window window later xs ≡ 0
  unfolding in_window
  in_window-gone now later [] le h = refl
  in_window-gone now later (x ∷ xs) le h = ground (arith, in_window-gone now later xs le h.1)

  pub in_window-le-length : (now : ℕ) (xs : List ℕ) → in_window window now xs ≤ length xs
  unfolding in_window
  in_window-le-length now [] = omega arith
  in_window-le-length now (x ∷ xs) = ground (arith, in_window-le-length now xs)

  -- In an ascending deque whose first entry is in the window, every entry is.
  in_window-All :
      (now g : ℕ) (xs : List ℕ)
      → now < g + window
      → All (λ y. g ≤ y) xs
      → All (λ y. y ≤ now) xs
      → in_window window now xs ≡ length xs
  unfolding in_window
  in_window-All now g [] lt h k = refl
  in_window-All now g (x ∷ xs) lt h k = ground (arith, in_window-All now g xs lt h.1 k.1)

  -- What stays of an ascending deque is counted exactly.
  pub length-expire :
      (now : ℕ) (xs : List ℕ)
      → Ascending xs
      → All (λ y. y ≤ now) xs
      → in_window window now xs ≡ length (expire window now xs)
  unfolding in_window expire
  length-expire now [] o k = refl
  length-expire now (x ∷ xs) o k =
      ground (arith, length-expire now xs o.1 k.1, in_window-All now x xs)

  pub expire-Covers :
      {now : ℕ} {full : List ℕ} (live : List ℕ)
      → Covers window now full live
      → Covers window now full (expire window now live)
  unfolding expire
  expire-Covers [] c = c
  expire-Covers {now} {full} (x ∷ xs) c = elim (Bool-cases (leb (x + window) now)) [
    | inl e ↦ rw e (
        expire-Covers xs (record {
          dropped = c.dropped ++ x ∷ [];
          split = c.split ∙ sym (append_assoc c.dropped (x ∷ []) xs);
          gone = All-append _ c.dropped (x ∷ []) c.gone (leb→le _ _ e, tt);
          order = c.order.1;
          past = c.past.1;
        }))
    | inr e ↦ rw e c
  ]

  pub Covers-later :
      {now later : ℕ} {full live : List ℕ}
      → now ≤ later
      → Covers window now full live
      → Covers window later full live
  Covers-later le c = record {
    dropped = c.dropped;
    split = c.split;
    gone = All-map _ (λ g h. omega arith) c.dropped c.gone;
    order = c.order;
    past = All-map _ (λ g h. omega arith) _ c.past;
  }

  Ascending-snoc :
      (xs : List ℕ) (now : ℕ) → Ascending xs → All (λ g. g ≤ now) xs → Ascending (xs ++ now ∷ [])
  Ascending-snoc [] now o k = (tt, tt)
  Ascending-snoc (x ∷ xs) now o k =
      (All-append _ xs (now ∷ []) o.0 (k.0, tt), Ascending-snoc xs now o.1 k.1)

  pub push-Covers :
      {now : ℕ} {full live : List ℕ}
      → Covers window now full live
      → Covers window now (full ++ now ∷ []) (live ++ now ∷ [])
  push-Covers {now} {full} {live} c = record {
    dropped = c.dropped;
    split = ap (λ xs. xs ++ now ∷ []) c.split ∙ append_assoc c.dropped live (now ∷ []);
    gone = c.gone;
    order = Ascending-snoc live now c.order c.past;
    past = All-append _ live (now ∷ []) c.past (omega arith);
  }

  -- The deque after expiry is as long as the count of grants in the window.
  pub Covers-count :
      {now : ℕ} {full live : List ℕ}
      → Covers window now full live
      → in_window window now full ≡ length (expire window now live)
  Covers-count {now} {full} {live} c = rw c.split (
      omega (
        arith,
        in_window-append now c.dropped live,
        in_window-gone now now c.dropped (omega arith) c.gone,
        length-expire now live c.order c.past,
      ))
