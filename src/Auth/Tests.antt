-- ===== src/Auth/Tests.antt =====
-- Keys with a digest that is the key written with a mark before it.
use code_rag.Prelude.{
  String, ◌≡◌, refl, Bool, true, none, some, [], ◌∷◌, ◌==◌, nat_eq, string_eq, list_eq, pair_eq,
  option_eq,
}
use Prim.Native.String.{◌++◌ as ◌++ˢ◌}
use code_rag.Prelude.Dict
use code_rag.Auth.Keys.{
  plain, KeySettings, accepted, unauthorized, forbidden, filled, entry_matches, first_match,
  first_user, named_or, plain_user, match_user_key, enabled, authenticate, resolve_user_id,
}
use code_rag.Auth.Trusted.{StandsFor, resolve_user_id-StandsFor}

abbrev digest : String → String
digest key = "#" ++ˢ key

abbrev is_past : String → Bool
is_past expiry = expiry == "2020"

abbrev settings : KeySettings
settings = record {
  api_keys = plain (("open sesame", "alice") ∷ []);
  api_key_users =
      ("bob", (("sha256", "#old") ∷ ("expires_at", "2020") ∷ []) ∷ (("hash", "#new") ∷ []) ∷ [])
      ∷ [];
  admin_api_keys = (("key_sha256", "#root") ∷ []) ∷ [];
}

program : Unit {0}
unfolding authenticate resolve_user_id enabled match_user_key plain_user first_match first_user
    named_or entry_matches filled Dict.get
program = tt

authenticate-new :
    authenticate digest is_past settings (some "new")
    ≡ accepted (record { user_id = some "bob"; authenticated = true })
unfolding program
authenticate-new = refl

authenticate-old : authenticate digest is_past settings (some "old") ≡ unauthorized
unfolding program
authenticate-old = refl

resolve_user_id-other :
    resolve_user_id digest is_past
      (record { user_id = some "bob"; authenticated = true })
      (some "alice")
    ≡ forbidden
unfolding program
resolve_user_id-other = refl

enabled-settings : enabled digest is_past settings ≡ true
unfolding program
enabled-settings = refl

resolve_user_id-bob :
    resolve_user_id digest is_past (record { user_id = some "bob"; authenticated = true }) none
    ≡ accepted (some "bob")
unfolding program
resolve_user_id-bob = refl

resolve_user_id-StandsFor_example :
    (key : String) × (user : String) × (some "new" ≡ some key)
    × StandsFor digest is_past settings key user
    × (some "bob" ≡ some user)
resolve_user_id-StandsFor_example =
    resolve_user_id-StandsFor digest is_past settings (some "new") none (some "bob")
      (record { user_id = some "bob"; authenticated = true }) enabled-settings authenticate-new
      resolve_user_id-bob
