-- ===== src/Indexing/Action.antt =====
-- A method of the indexing service: it writes to the index and may raise, with the text of the
-- exception. What was written before stays written.
use code_rag.Prelude.{
  String, ◌≡◌, refl, Bool, true, false, if◌then◌else◌, nat_eq, string_eq, list_eq, pair_eq,
  option_eq,
}

pub data Result (A : Type 0) : Type 0 where
  ok : A → Result A
  raised : String → Result A

abbrev pub Action : Type 0 → Type 0 → Type 0
Action S A = S → S × Result A

module _ {S A : Type 0} where
  abbrev pub pure : A → Action S A
  pure a s = (s, ok a)

  abbrev pub lift : Result A → Action S A
  lift r s = (s, r)

  -- A call of the index that returns a value.
  abbrev pub call : (S → S × A) → Action S A
  call f s = let (t, a) = f s in (t, ok a)

  abbrev pub read : (S → A) → Action S A
  read f s = (s, ok (f s))

abbrev pub write : {S : Type 0} → (S → S) → Action S (Unit {0})
write f s = (f s, ok tt)

unfoldable pub continue : {S A B : Type 0} → (A → Action S B) → S × Result A → S × Result B
continue f (t, ok a) = f a t
continue f (t, raised e) = (t, raised e)

infixl 5 ◌>>=◌ ◌>>◌
abbrev pub ◌>>=◌ : {S A B : Type 0} → Action S A → (A → Action S B) → Action S B
◌>>=◌ m f s = continue f (m s)

abbrev pub ◌>>◌ : {S A B : Type 0} → Action S A → Action S B → Action S B
m >> k = m >>= λ _. k

-- What a method returns, if it returns.
abbrev pub Good : {A : Type 0} → (A → Type 0) → Result A → Type 0
Good R (ok a) = R a
Good R (raised e) = Unit {0}

pub returned : {A : Type 0} (r : Result A) → Good (λ a. r ≡ ok a) r
returned (ok a) = refl
returned (raised e) = tt

module _ {S : Type 0} (Inv : S → Type 0) where
  -- The method keeps the invariant, also where it raises, and what it returns is right.
  abbrev pub Does : {A : Type 0} → (A → Type 0) → Action S A → Type 0
  Does R m = (s : S) → Inv s → Inv (m s).0 × Good R (m s).1

  pub continue-Does :
      {A B : Type 0} (Q : B → Type 0) (f : A → Action S B)
      → ((a : A) → Does Q (f a))
      → (r : S × Result A) → Inv r.0
      → Inv (continue f r).0 × Good Q (continue f r).1
  unfolding continue
  continue-Does Q f next (t, ok a) h = next a t h
  continue-Does Q f next (t, raised e) h = (h, tt)

  -- Where what is returned does not matter.
  abbrev pub Keeps : {A : Type 0} → Action S A → Type 0
  Keeps m = (s : S) → Inv s → Inv (m s).0

  continue-Keeps :
      {A B : Type 0} (f : A → Action S B)
      → ((a : A) → Keeps (f a))
      → (r : S × Result A) → Inv r.0
      → Inv (continue f r).0
  unfolding continue
  continue-Keeps f next (t, ok a) h = next a t h
  continue-Keeps f next (t, raised e) h = h

  pub bind-Keeps :
      {A B : Type 0} (m : Action S A) (f : A → Action S B)
      → Keeps m
      → ((a : A) → Keeps (f a))
      → Keeps (m >>= f)
  bind-Keeps m f first next s h = continue-Keeps f next (m s) (first s h)

  pub if-Keeps :
      {A : Type 0} (b : Bool) (m n : Action S A) → Keeps m → Keeps n → Keeps (if b then m else n)
  if-Keeps true m n first second = first
  if-Keeps false m n first second = second

  -- Where the next method needs that what is returned is right.
  pub continue_good :
      {A B : Type 0} (R : A → Type 0) (f : A → Action S B)
      → ((a : A) → R a → Keeps (f a))
      → (r : S × Result A) → Inv r.0
      → Good R r.1
      → Inv (continue f r).0
  unfolding continue
  continue_good R f next (t, ok a) h right = next a right t h
  continue_good R f next (t, raised e) h right = h

  pub bind_good :
      {A B : Type 0} (R : A → Type 0) (m : Action S A) (f : A → Action S B)
      → Does R m
      → ((a : A) → R a → Keeps (f a))
      → Keeps (m >>= f)
  bind_good R m f first next s h = continue_good R f next (m s) (first s h).0 (first s h).1
