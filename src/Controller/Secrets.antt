-- ===== src/Controller/Secrets.antt =====
-- GetPullSecretToken, GetAuthSecret and GetServiceAccountSecret of
-- internal/controller/costmanagementmetricsconfig_controller.go. Reading a secret gives its data or an
-- error; the keys of a secret are ASCII, by the rules of the API server.

use Prim.Native.Char.{code}
use Prim.Native.String.{char_at}
use koku_metrics_operator.Base.{
  String, ◌<>◌, str_eq, ◌||◌, ◌&&◌, Option, none, some, List, [], ◌∷◌, Result, ok, err, ◌>>=◌,
  if◌then◌else◌, leb, ◌-◌,
}
use koku_metrics_operator.Base.Text.{contains}
use koku_metrics_operator.Base.Space.{trim_space}
use koku_metrics_operator.Base.Dict.{lookup, insert}

-- strings.ToLower on ASCII
unfoldable pub to_lower : String → String
to_lower String.[] = ""
to_lower (String.◌∷◌ c s) =
    let rest = to_lower s in
    let lower = char_at "abcdefghijklmnopqrstuvwxyz" (code c - 65) in
    String.◌∷◌ (if leb 65 (code c) && leb (code c) 90 then lower else c) rest

-- The values by key; a key that is missing has the empty text.
abbrev pub value_of : String → List (String × String) → String
value_of key keys = elim (lookup key keys) [ none ↦ "" | some v ↦ v ]

checked_token : String → Result String String
unfolding contains
checked_token token =
    if contains token "\n" || contains token "\r"
    then err "cluster authorization token is not valid: contains newlines"
    else if str_eq token ""
    then err "cluster authorization token is not found"
    else ok token

token_of : List (String × String) → Result String String
unfolding checked_token trim_space lookup
token_of auths = elim (lookup "cloud.openshift.com" auths) [
  | none ↦ err "cluster authorization token was not found in secret data"
  | some auth ↦ checked_token (trim_space auth)
]

-- GetPullSecretToken, with the data of the pull secret and the decoder of its map of tokens: the token
-- that the configuration takes.
unfoldable pub get_pull_secret_token :
    (String → Result String (List (String × String)))
    → Result String (List (String × String))
    → Result String String
unfolding token_of lookup
get_pull_secret_token unmarshal secret = do
  data_ ← secret
  (if str_eq (value_of ".dockerconfigjson" data_) ""
      then err "cluster authorization secret did not have data"
      else (unmarshal (value_of ".dockerconfigjson" data_) >>= token_of))

-- `keys[strings.ToLower(k)] = string(v)` for the entries in the order of the iteration.
unfoldable pub keys_of : List (String × String) → List (String × String) → List (String × String)
unfolding to_lower insert
keys_of [] keys = keys
keys_of ((k, v) ∷ entries) keys = keys_of entries (insert (to_lower k) v keys)

-- The first of these keys that has no value.
unfoldable pub missing : List String → List (String × String) → Option String
unfolding lookup
missing [] keys = none
missing (k ∷ ks) keys =
    let further = missing ks keys in if str_eq (value_of k keys) "" then some k else further

-- The values of two keys of a secret, which must not be empty.
unfoldable pub two_values :
    String → String → String → List (String × String) → Result String (String × String)
unfolding missing keys_of lookup
two_values prefix first second data_ =
    let keys = keys_of data_ [] in
    elim (missing (first ∷ second ∷ []) keys) [
      | some k ↦ err (prefix <> ("secret not found with expected " <> (k <> " data")))
      | none ↦ ok (value_of first keys, value_of second keys)
    ]

-- GetAuthSecret: the user and the password that the configuration takes.
unfoldable pub get_auth_secret :
    Result String (List (String × String)) → Result String (String × String)
unfolding two_values
get_auth_secret secret = secret >>= two_values "" "username" "password"

-- GetServiceAccountSecret
unfoldable pub get_service_account_secret :
    Result String (List (String × String)) → Result String (String × String)
unfolding two_values
get_service_account_secret secret =
    secret >>= two_values "service account " "client_id" "client_secret"
