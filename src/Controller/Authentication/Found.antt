-- ===== src/Controller/Authentication/Found.antt =====
-- When credentials count as found.
use koku_metrics_operator.Base.{
  ◌≡◌, refl, String, str_eq, true, false, Option, none, some, if◌then◌else◌, Bool-cases, inl, inr,
}
use koku_metrics_operator.Controller.Authentication.{
  AuthType, token, basic, service_account, AuthStatus, Auth, not_found, not_found_basic,
  with_secret, by_type, set_authentication,
}

-- Found, unless there is an error, whose text the status has.
pub data IsReported : Option String → AuthStatus → Type 0 where
  is_found : {st : AuthStatus} → st.credentials_found ≡ some true → IsReported none st
  is_missing :
      {e : String} {st : AuthStatus}
      → st.credentials_found ≡ some false
      → st.auth_error_message ≡ e
      → IsReported (some e) st

not_found-IsReported :
    (o : Option String) (st : AuthStatus)
    → st.credentials_found ≡ some true
    → IsReported (not_found o st).0 (not_found o st).1
unfolding not_found
not_found-IsReported none st h = is_found h
not_found-IsReported (some e) st h = is_missing refl refl

not_found_basic-IsReported :
    (o : Option String) (st : AuthStatus)
    → st.credentials_found ≡ some true
    → IsReported (not_found_basic o st).0 (not_found_basic o st).1
unfolding not_found_basic
not_found_basic-IsReported none st h = is_found h
not_found_basic-IsReported (some e) st h = is_missing refl refl

with_secret-IsReported :
    (auth : Auth) (t : AuthType) (st : AuthStatus)
    → st.credentials_found ≡ some true
    → IsReported (with_secret auth t st).0 (with_secret auth t st).1
unfolding with_secret
with_secret-IsReported auth basic st h = not_found_basic-IsReported auth.auth_secret _ h
with_secret-IsReported auth token st h = not_found-IsReported auth.service_account_secret _ h
with_secret-IsReported auth service_account st h =
    not_found-IsReported auth.service_account_secret _ h

by_secret-IsReported :
    (auth : Auth) (t : AuthType) (st : AuthStatus) (message : String)
    → st.credentials_found ≡ some true
    → (let r =
          if str_eq auth.secret_name ""
          then not_found_basic (some message) st
          else with_secret auth t st in
        IsReported r.0 r.1)
by_secret-IsReported auth t st message h = elim (Bool-cases (str_eq auth.secret_name "")) [
  | inl e ↦ rw e (not_found_basic-IsReported (some message) st h)
  | inr e ↦ rw e (with_secret-IsReported auth t st h)
]

-- After setAuthentication the status says that credentials were found exactly if there is no error,
-- and the text of an error is in the status.
pub set_authentication-IsReported :
    (auth : Auth) (t : AuthType) (st : AuthStatus)
    → IsReported (set_authentication auth t st).0 (set_authentication auth t st).1
unfolding set_authentication by_type
set_authentication-IsReported auth token st = not_found-IsReported auth.pull_secret_token _ refl
set_authentication-IsReported auth basic st =
    by_secret-IsReported auth basic
      (record st { deprecation_notice = ""; credentials_found = some true }) _ refl
set_authentication-IsReported auth service_account st =
    by_secret-IsReported auth service_account
      (record st { deprecation_notice = ""; credentials_found = some true }) _ refl
