-- ===== src/Controller/Authentication/Cached.antt =====
-- The validation of user and password within one cycle.
use koku_metrics_operator.Base.{
  ℕ, suc, ◌≡◌, refl, String, str_eq, eq_refl, ap, subst, sym, ◌∙◌, true, false, ◌&&◌, not, Option,
  none, some, arith,
}
use koku_metrics_operator.Base.Text.{contains}
use koku_metrics_operator.Base.Time.{Time}
use koku_metrics_operator.Controller.Package.{check_cycle}
use koku_metrics_operator.Controller.Authentication.{
  basic, AuthStatus, Validation, Auth, Validated, answered, request, previous_or_new, by_basic,
  validate_credentials,
}

by_basic-due :
    (auth : Auth) (cycle : ℕ) (now : Time) (v : Validated)
    → check_cycle cycle now (previous_or_new v.previous).timestamp ≡ true
    → by_basic auth cycle now v ≡ request auth now v
unfolding by_basic
by_basic-due auth cycle now v due =
    let p = previous_or_new v.previous in
    let sent : (str_eq p.password auth.password
          && (str_eq p.username auth.username && not (check_cycle cycle now p.timestamp)))
        ≡ false =
      ground (arith, due) in
    rw sent refl

by_basic-soon :
    (auth : Auth) (cycle : ℕ) (now : Time) (p : Validation) (status : AuthStatus) (n : ℕ)
    → check_cycle cycle now p.timestamp ≡ false
    → str_eq p.username auth.username ≡ true
    → str_eq p.password auth.password ≡ true
    → (let v : Validated = record { previous = some p; status = status; requests = n } in
        by_basic auth cycle now v ≡ (p.error, v))
unfolding by_basic previous_or_new
by_basic-soon auth cycle now p status n soon user password = rw (soon, user, password) refl

-- If a cycle has passed since the last validation of user and password, then one request is sent
-- and its answer is kept; and a validation of the same user and password before another cycle has
-- passed sends none, changes nothing, and gives the error of that answer, whatever the API would
-- answer now.
pub validate_credentials-cached :
    (auth later_auth : Auth) (cycle : ℕ) (now later : Time) (v : Validated)
    → check_cycle cycle now (previous_or_new v.previous).timestamp ≡ true
    → check_cycle cycle later now ≡ false
    → str_eq auth.username later_auth.username ≡ true
    → str_eq auth.password later_auth.password ≡ true
    → (let first = validate_credentials auth basic cycle now v in
        (first.1.requests ≡ suc v.requests)
        × (validate_credentials later_auth basic cycle later first.1 ≡ (auth.sources, first.1)))
unfolding validate_credentials by_basic request
validate_credentials-cached auth later_auth cycle now later v due soon same_user same_password =
    let sent = by_basic-due auth cycle now v due in
    let kept : Validation = record {
      secret_name = (previous_or_new v.previous).secret_name;
      username = auth.username;
      password = auth.password;
      error = auth.sources;
      timestamp = now;
    } in
    let again =
      by_basic-soon later_auth cycle later kept
        (answered auth.secret_name now auth.sources v.status).1 (suc v.requests) soon same_user
        same_password in
    rw sent (refl, again)

answered-valid :
    (secret_name : String) (now : Time) (o : Option String) (e : String) (st : AuthStatus)
    → o ≡ some e
    → contains e "401" ≡ false
    → ((answered secret_name now o st).0 ≡ none)
      × ((answered secret_name now o st).1.valid_basic_auth ≡ some true)
unfolding answered
answered-valid secret_name now o e st failing other =
    subst
      (λ (p : Option String).
        ((answered secret_name now p st).0 ≡ none)
        × ((answered secret_name now p st).1.valid_basic_auth ≡ some true))
      (sym failing) (rw (other, answered) (refl, refl))

-- If a cycle has passed since the last validation of user and password and the request fails with an
-- error that does not name the status 401, then the validation gives no error and the credentials
-- count as valid, and the next validation before another cycle has passed gives that error.
pub validate_credentials-other_failure :
    (auth : Auth) (cycle : ℕ) (now later : Time) (v : Validated) (e : String)
    → check_cycle cycle now (previous_or_new v.previous).timestamp ≡ true
    → check_cycle cycle later now ≡ false
    → auth.sources ≡ some e
    → contains e "401" ≡ false
    → (let first = validate_credentials auth basic cycle now v in
        ((first.0 ≡ none) × (first.1.status.valid_basic_auth ≡ some true))
        × ((validate_credentials auth basic cycle later first.1).0 ≡ some e))
unfolding validate_credentials by_basic request answered
validate_credentials-other_failure auth cycle now later v e due soon failing other =
    let sent = by_basic-due auth cycle now v due in
    let kept : Validation = record {
      secret_name = (previous_or_new v.previous).secret_name;
      username = auth.username;
      password = auth.password;
      error = auth.sources;
      timestamp = now;
    } in
    let again =
      by_basic-soon auth cycle later kept (answered auth.secret_name now auth.sources v.status).1
        (suc v.requests) soon (eq_refl auth.username) (eq_refl auth.password) in
    rw sent (
      answered-valid auth.secret_name now auth.sources e v.status failing other,
      ap (λ r. r.0) again ∙ failing,
    )

-- A validation of user and password that is due sends a request.
pub validate_credentials-due :
    (auth : Auth) (cycle : ℕ) (now : Time) (v : Validated)
    → check_cycle cycle now (previous_or_new v.previous).timestamp ≡ true
    → (validate_credentials auth basic cycle now v).1.requests ≡ suc v.requests
unfolding validate_credentials request
validate_credentials-due auth cycle now v due =
    ap (λ r. r.1.requests) (by_basic-due auth cycle now v due)
