-- ===== src/Controller/Session/Renewed.antt =====
-- What another authentication secret changes.
use koku_metrics_operator.Base.{
  ℕ, suc, String, str_eq, Bool, true, false, Option, none, some, ◌≡◌, refl, subst, sym,
}
use koku_metrics_operator.Controller.Package.{check_cycle}
use koku_metrics_operator.Controller.Authentication.{basic, Validation, previous_or_new}
use koku_metrics_operator.Controller.Authentication.Cached.{validate_credentials-due}
use koku_metrics_operator.Controller.Session.{
  Session, for_secret, reads_secret, validation_of, authenticate, validate, auth_of, start_config,
}
use koku_metrics_operator.Controller.SourceCheck.{SessionEnv}

-- Is the previous validation one of this secret?
abbrev pub is_of_secret : String → Option Validation → Bool
is_of_secret name none = false
is_of_secret name (some p) = str_eq p.secret_name name

for_secret-due :
    (name : String) (previous : Option Validation) (cycle now : ℕ)
    → is_of_secret name previous ≡ false
    → check_cycle cycle now (for_secret name previous).timestamp ≡ true
unfolding for_secret check_cycle
for_secret-due name none cycle now h = refl
for_secret-due name (some p) cycle now h = rw h refl

validation_of-basic :
    (env : SessionEnv) (previous : Option Validation)
    → str_eq env.secret_name "" ≡ false
    → validation_of env basic previous ≡ some (for_secret env.secret_name previous)
unfolding validation_of reads_secret
validation_of-basic env previous named = rw named refl

-- With user and password, if the previous validation was of a secret of another name, or there was
-- none, then the validation after setAuthentication sends a request, whatever was validated before and
-- however long the cycle is.
pub validate-after_rename :
    (env : SessionEnv) (s : Session) (cycle : ℕ)
    → str_eq env.secret_name "" ≡ false
    → is_of_secret env.secret_name s.validated.previous ≡ false
    → (let env' = record env { auth_type = basic } in
        (validate env' cycle (authenticate env' s).1).1.validated.requests
        ≡ suc s.validated.requests)
unfolding validate authenticate previous_or_new
validate-after_rename env s cycle named other =
    let env' = record env { auth_type = basic } in
    let s' = (authenticate env' s).1 in
    validate_credentials-due (auth_of env' none (start_config env' s'.auth_config)) cycle env.now
      s'.validated
      (subst (λ o. check_cycle cycle env.now (previous_or_new o).timestamp ≡ true)
        (sym (validation_of-basic env' s.validated.previous named))
        (for_secret-due env.secret_name s.validated.previous cycle env.now other))
