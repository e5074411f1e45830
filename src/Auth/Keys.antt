-- ===== src/Auth/Keys.antt =====
-- `Authenticator`, src/code_rag/apps/auth/authenticator.py. The digest of a key, and whether an
-- expiry has passed at the time of the call, are parameters.
use code_rag.Prelude.{
  String, Bool, true, false, not, ◌&&◌, Option, none, some, List, [], ◌∷◌, if◌then◌else◌, ◌==◌,
  nat_eq, string_eq, list_eq, pair_eq, option_eq,
}
use code_rag.Prelude.Dict
use code_rag.Prelude.Dict.{Dict}

abbrev pub Entry : Type 0
Entry = Dict String String

-- api_keys: dict[str, str] | list[dict[str, str]]
pub data ApiKeys : Type 0 where
  plain : Dict String String → ApiKeys
  listed : List Entry → ApiKeys

pub record KeySettings : Type 0 where
  pub api_keys : ApiKeys
  pub api_key_users : Dict String (List Entry)
  pub admin_api_keys : List Entry

pub record AuthContext : Type 0 where
  pub user_id : Option String
  pub authenticated : Bool

-- HTTPException, by its status
pub data Answer (A : Type 0) : Type 0 where
  accepted : A → Answer A
  unauthorized forbidden : Answer A

-- d.get(key), an empty text counting as absent, as `or` and `if` read it
unfoldable pub filled : String → Entry → Option String
filled key entry = elim (Dict.get key entry) [
  | none ↦ none
  | some text ↦ if text == "" then none else some text
]

-- a or b
abbrev pub or_else : Option String → Option String → Option String
or_else none b = b
or_else (some a) b = some a

-- self._entries(self.settings.api_keys): a dictionary is one entry.
abbrev pub entries : ApiKeys → List Entry
entries (plain keys) = keys ∷ []
entries (listed keys) = keys

-- self.settings.api_keys.get(api_key), where it is a dictionary
unfoldable pub plain_user : ApiKeys → String → Option String
unfolding filled
plain_user (plain keys) api_key = filled api_key keys
plain_user (listed keys) api_key = none

module _ (sha256 : String → String) (is_past : String → Bool) where
  unfoldable pub entry_matches : String → Entry → Bool
  unfolding filled
  entry_matches api_key entry =
      elim (or_else (filled "sha256" entry)
        (or_else (filled "key_sha256" entry) (filled "hash" entry))) [
          | none ↦ false
          | some digest ↦
              digest == sha256 api_key
              && not
                  (elim (filled "expires_at" entry) [ none ↦ false | some expiry ↦ is_past expiry ])
        ]

  -- for entry in entries: if self._entry_matches(entry, api_key): return entry
  unfoldable pub first_match : String → List Entry → Option Entry
  unfolding entry_matches
  first_match api_key [] = none
  first_match api_key (entry ∷ rest) =
      let later = first_match api_key rest in
      if entry_matches api_key entry then some entry else later

  unfoldable pub first_user : String → Dict String (List Entry) → Option String
  unfolding first_match
  first_user api_key [] = none
  first_user api_key ((identity, held) ∷ users) = elim (first_match api_key held) [
    | none ↦ first_user api_key users
    | some entry ↦ some identity
  ]

  -- str(entry.get("user_id") or entry.get("identity") or entry.get("id") or default); without a
  -- default, `str(None)` is the text None.
  unfoldable pub named_or : String → Entry → String
  unfolding filled
  named_or default entry =
      elim (or_else (filled "user_id" entry)
        (or_else (filled "identity" entry) (filled "id" entry))) [
          | none ↦ default
          | some name ↦ name
        ]

  abbrev pub name_of : String → Option Entry → Option String
  name_of default none = none
  name_of default (some entry) = some (named_or default entry)

  -- The values of a plain dictionary are texts, so the loop over its lists of entries does nothing.
  unfoldable pub match_user_key : KeySettings → String → Option String
  unfolding plain_user first_match first_user named_or
  match_user_key settings api_key = or_else (plain_user settings.api_keys api_key) (
      or_else (name_of "None" (first_match api_key (entries settings.api_keys))) (
        or_else (first_user api_key settings.api_key_users)
          (name_of "admin" (first_match api_key settings.admin_api_keys))))

  abbrev pub is_empty : {A : Type 0} → List A → Bool
  is_empty [] = true
  is_empty (x ∷ xs) = false

  abbrev pub no_keys : ApiKeys → Bool
  no_keys (plain keys) = is_empty keys
  no_keys (listed keys) = is_empty keys

  unfoldable pub enabled : KeySettings → Bool
  enabled settings = not (
      no_keys settings.api_keys
      && is_empty settings.api_key_users
      && is_empty settings.admin_api_keys)

  abbrev pub present : Option String → Option String
  present none = none
  present (some text) = if text == "" then none else some text

  -- The answer for a key that is not empty, by the user found.
  abbrev pub answer_for : Option String → Answer AuthContext
  answer_for none = unauthorized
  answer_for (some user) =
      if user == ""
      then unauthorized
      else accepted (record { user_id = some user; authenticated = true })

  unfoldable pub authenticate : KeySettings → Option String → Answer AuthContext
  unfolding match_user_key enabled
  authenticate settings api_key =
      if not (enabled settings)
      then accepted (record { user_id = none; authenticated = false })
      else elim (present api_key) [
        | none ↦ unauthorized
        | some key ↦ answer_for (match_user_key settings key)
      ]

  unfoldable pub resolve_user_id : AuthContext → Option String → Answer (Option String)
  resolve_user_id context requested =
      if not context.authenticated then accepted requested else elim (present requested) [
        | none ↦ accepted context.user_id
        | some user ↦ if context.user_id == some user then accepted context.user_id else forbidden
      ]
