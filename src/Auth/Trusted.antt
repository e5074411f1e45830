-- ===== src/Auth/Trusted.antt =====
-- With keys configured, the user that a request counts as is the one that its key stands for.
use code_rag.Prelude.{
  String, ◌≡◌, refl, sym, ap, ◌∙◌, subst, ◌⊎◌, inl, inr, Bool, true, Option, none, some, List, [],
  ◌∷◌, arith, Bool-cases, Option-cases, ◌==◌, nat_eq, string_eq, list_eq, pair_eq, option_eq, In,
}
use code_rag.Prelude.Dict.{Dict}
use code_rag.Auth.Keys.{
  Entry, KeySettings, AuthContext, Answer, accepted, unauthorized, forbidden, or_else, entries,
  plain_user, entry_matches, first_match, first_user, named_or, name_of, match_user_key, enabled,
  present, answer_for, authenticate, resolve_user_id,
}

some_or : {A : Type 0} → A → Option A → A
some_or a none = a
some_or a (some b) = b

accepted_or : {A : Type 0} → A → Answer A → A
accepted_or a (accepted b) = b
accepted_or a unauthorized = a
accepted_or a forbidden = a

module _ (sha256 : String → String) (is_past : String → Bool) where
  -- An entry of the list holds the digest of the key, and has not expired.
  abbrev pub Opens : String → List Entry → Entry → Type 0
  Opens key held entry = In entry held × (entry_matches sha256 is_past key entry ≡ true)

  -- The ways in which the settings give a key to a user.
  abbrev pub StandsFor : KeySettings → String → String → Type 0
  StandsFor settings key user =
      (plain_user settings.api_keys key ≡ some user)
      ⊎ ((entry : Entry) × Opens key (entries settings.api_keys) entry
          × (user ≡ named_or sha256 is_past "None" entry))
      ⊎ ((held : List Entry) × (entry : Entry) × In (user, held) settings.api_key_users
          × Opens key held entry)
      ⊎ ((entry : Entry) × Opens key settings.admin_api_keys entry
          × (user ≡ named_or sha256 is_past "admin" entry))

  first_match-Opens :
      (key : String) (held : List Entry) (entry : Entry)
      → first_match sha256 is_past key held ≡ some entry
      → Opens key held entry
  unfolding first_match some_or
  first_match-Opens key [] entry e = absurd (ground arith)
  first_match-Opens key (first ∷ held) entry e =
      elim (Bool-cases (entry_matches sha256 is_past key first)) [
        | inl opens ↦
            let found : first_match sha256 is_past key (first ∷ held) ≡ some first =
              rw (first_match, opens) refl in
            let same : first ≡ entry = ap (some_or first) (sym found ∙ e) in
            (inl same, subst (λ x. entry_matches sha256 is_past key x ≡ true) same opens)
        | inr closed ↦
            let next : first_match sha256 is_past key (first ∷ held)
                ≡ first_match sha256 is_past key held =
              rw (first_match, closed) refl in
            let (there, right) = first_match-Opens key held entry (sym next ∙ e) in
            (inr there, right)
      ]

  name_of-Opens :
      (default key user : String) (held : List Entry)
      → name_of sha256 is_past default (first_match sha256 is_past key held) ≡ some user
      → (entry : Entry) × Opens key held entry × (user ≡ named_or sha256 is_past default entry)
  unfolding some_or
  name_of-Opens default key user held e =
      elim (Option-cases (first_match sha256 is_past key held)) [
        | inl missing ↦
            absurd (ground (arith, sym (ap (name_of sha256 is_past default) missing) ∙ e))
        | inr (entry, found) ↦ (
          entry,
          first_match-Opens key held entry found,
          ap (some_or user) (sym e ∙ ap (name_of sha256 is_past default) found),
        )
      ]

  first_user-Opens :
      (key user : String) (users : Dict String (List Entry))
      → first_user sha256 is_past key users ≡ some user
      → (held : List Entry) × (entry : Entry) × In (user, held) users × Opens key held entry
  unfolding first_user some_or
  first_user-Opens key user [] e = absurd (ground arith)
  first_user-Opens key user ((identity, held) ∷ users) e =
      elim (Option-cases (first_match sha256 is_past key held)) [
        | inl missing ↦
            let next : first_user sha256 is_past key ((identity, held) ∷ users)
                ≡ first_user sha256 is_past key users =
              rw (first_user, missing) refl in
            let (held', entry, there, right) = first_user-Opens key user users (sym next ∙ e) in
            (held', entry, inr there, right)
        | inr (entry, found) ↦
            let here : first_user sha256 is_past key ((identity, held) ∷ users) ≡ some identity =
              rw (first_user, found) refl in
            let same : identity ≡ user = ap (some_or identity) (sym here ∙ e) in
            (held, entry, inl (ap (λ u. (u, held)) same), first_match-Opens key held entry found)
      ]

  or_else_cases :
      (a b : Option String) (user : String)
      → or_else a b ≡ some user
      → (a ≡ some user) ⊎ (b ≡ some user)
  or_else_cases none b user e = inr e
  or_else_cases (some a) b user e = inl e

  match_user_key-StandsFor :
      (settings : KeySettings) (key user : String)
      → match_user_key sha256 is_past settings key ≡ some user
      → StandsFor settings key user
  unfolding match_user_key
  match_user_key-StandsFor settings key user e = elim (or_else_cases _ _ user e) [
    | inl a ↦ inl a
    | inr e1 ↦ elim (or_else_cases _ _ user e1) [
      | inl b ↦ inr (inl (name_of-Opens "None" key user (entries settings.api_keys) b))
      | inr e2 ↦ elim (or_else_cases _ _ user e2) [
        | inl c ↦ inr (inr (inl (first_user-Opens key user settings.api_key_users c)))
        | inr d ↦ inr (inr (inr (name_of-Opens "admin" key user settings.admin_api_keys d)))
      ]
    ]
  ]

  answer_for-accepted :
      (found : Option String) (context : AuthContext)
      → answer_for sha256 is_past found ≡ accepted context
      → (user : String) × (found ≡ some user)
        × (context ≡ record { user_id = some user; authenticated = true })
  unfolding accepted_or
  answer_for-accepted none context e = absurd (ground arith)
  answer_for-accepted (some user) context e = elim (Bool-cases (user == "")) [
    | inl empty ↦ absurd (ground (arith, e, empty))
    | inr named ↦
        let trusted : AuthContext = record { user_id = some user; authenticated = true } in
        let known : answer_for sha256 is_past (some user) ≡ accepted trusted = rw named refl in
        (user, refl, ap (accepted_or trusted) (sym e ∙ known))
  ]

  present-some :
      (o : Option String) (text : String) → present sha256 is_past o ≡ some text → o ≡ some text
  present-some none text e = absurd (ground arith)
  present-some (some t) text e = elim (Bool-cases (t == "")) [
    | inl empty ↦ absurd (ground (arith, e, empty))
    | inr full ↦ ground (arith, e, full)
  ]

  authenticate-StandsFor :
      (settings : KeySettings) (api_key : Option String) (context : AuthContext)
      → enabled sha256 is_past settings ≡ true
      → authenticate sha256 is_past settings api_key ≡ accepted context
      → (key : String) × (user : String) × (api_key ≡ some key)
        × StandsFor settings key user
        × (context ≡ record { user_id = some user; authenticated = true })
  unfolding authenticate
  authenticate-StandsFor settings api_key context on e =
      elim (Option-cases (present sha256 is_past api_key)) [
        | inl missing ↦
            let refused : authenticate sha256 is_past settings api_key ≡ unauthorized =
              rw (authenticate, on, missing) refl in
            absurd (ground (arith, e, refused))
        | inr (key, given) ↦
            let asked : authenticate sha256 is_past settings api_key
                ≡ answer_for sha256 is_past (match_user_key sha256 is_past settings key) =
              rw (authenticate, on, given) refl in
            let (user, found, same) = answer_for-accepted _ context (sym asked ∙ e) in
            (
              key,
              user,
              present-some api_key key given,
              match_user_key-StandsFor settings key user found,
              same,
            )
      ]

  resolved_user :
      (user : String) (context : AuthContext) (requested effective : Option String)
      → context ≡ record { user_id = some user; authenticated = true }
      → resolve_user_id sha256 is_past context requested ≡ accepted effective
      → effective ≡ some user
  unfolding resolve_user_id accepted_or
  resolved_user user context requested effective same resolved =
      let trusted : AuthContext = record { user_id = some user; authenticated = true } in
      let e = ap (λ c. resolve_user_id sha256 is_past c requested) (sym same) ∙ resolved in
      elim (Option-cases (present sha256 is_past requested)) [
        | inl unnamed ↦
            let own : resolve_user_id sha256 is_past trusted requested ≡ accepted (some user) =
              rw (resolve_user_id, unnamed) refl in
            ap (accepted_or effective) (sym e ∙ own)
        | inr (other, names) ↦ elim (Bool-cases (some user == some other)) [
          | inl itself ↦
              let own : resolve_user_id sha256 is_past trusted requested ≡ accepted (some user) =
                rw (resolve_user_id, names, itself) refl in
              ap (accepted_or effective) (sym e ∙ own)
          | inr another ↦
              let refused : resolve_user_id sha256 is_past trusted requested ≡ forbidden =
                rw (resolve_user_id, names, another) refl in
              absurd (ground (arith, sym e ∙ refused))
        ]
      ]

  -- With some key configured, a request that is authenticated and whose user is then resolved
  -- counts as the user that its key stands for in the settings, whatever user it names itself.
  pub resolve_user_id-StandsFor :
      (settings : KeySettings) (api_key requested effective : Option String) (context : AuthContext)
      → enabled sha256 is_past settings ≡ true
      → authenticate sha256 is_past settings api_key ≡ accepted context
      → resolve_user_id sha256 is_past context requested ≡ accepted effective
      → (key : String) × (user : String) × (api_key ≡ some key)
        × StandsFor settings key user
        × (effective ≡ some user)
  resolve_user_id-StandsFor settings api_key requested effective context on e resolved =
      let (key, user, given, stands, same) = authenticate-StandsFor settings api_key context on e in
      (key, user, given, stands, resolved_user user context requested effective same resolved)
