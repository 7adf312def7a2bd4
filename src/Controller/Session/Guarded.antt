-- ===== src/Controller/Session/Guarded.antt =====
-- When setAuthAndUpload uploads.
use koku_metrics_operator.Base.{
  String, Bool, true, false, ◌&&◌, not, Option, none, some, List, [], ◌∷◌, ◌≡◌, refl, ap, ◌⊎◌, inl,
  inr, ◌≢◌, Result, ok, err, Bool-cases,
}
use koku_metrics_operator.Base.Time.{is_zero}
use koku_metrics_operator.Sources.{SourceError, failure, panicked}
use koku_metrics_operator.Controller.Package.{check_cycle, files_to_upload}
use koku_metrics_operator.Controller.Session.{
  Session, authenticate, validate, is_defined, if_defined, after_check, after_validation, is_empty,
  after_listing, after_authentication, set_auth_and_upload,
}
use koku_metrics_operator.Controller.SourceCheck.{SourceStatus, SessionEnv, check_source}

-- What led to uploads: the credentials were found and valid, and the source is defined.
pub record Cleared (env : SessionEnv) (s : Session) : Type 0 where
  pub found : (authenticate env s).0 ≡ none
  pub valid : (validate env 1440 (authenticate env s).1).0 ≡ none
  pub defined :
      (check_source env (validate env 1440 (authenticate env s).1).1.source).1.source_defined
      ≡ some true
  pub due : check_cycle env.upload_cycle env.now s.uploads.status.last_successful_upload_time ≡ true

-- Nothing is uploaded, and nothing leaves the upload directory.
pub record Untouched (s s' : Session) : Type 0 where
  pub same_sent : s'.uploads.sent ≡ s.uploads.sent
  pub same_stored : s'.uploads.stored ≡ s.uploads.stored

module _ (env : SessionEnv) where
  Untouched-refl : (s : Session) → Untouched s s
  Untouched-refl s = record { same_sent = refl; same_stored = refl }

  is_defined-true : (o : Option Bool) → is_defined env o ≡ true → o ≡ some true
  unfolding is_defined
  is_defined-true none h = cc
  is_defined-true (some b) h = ap some h

  if_defined-Untouched :
      (files : List String) (s : Session)
      → (Untouched s (if_defined env files s).1) ⊎ (s.source.source_defined ≡ some true)
  unfolding if_defined
  if_defined-Untouched files s = elim (Bool-cases (is_defined env s.source.source_defined)) [
    | inl e ↦ inr (is_defined-true s.source.source_defined e)
    | inr e ↦ inl (rw e (record { same_sent = refl; same_stored = refl }))
  ]

  with_source :
      (s : Session) (source : SourceStatus) (s' : Session)
      → (Untouched (record s { source = source }) s') ⊎ (source.source_defined ≡ some true)
      → (Untouched s s') ⊎ ((source.source_defined ≡ some true) × (◌≡◌ {A = Bool} false false))
  with_source s source s' (inl h) =
      inl (record { same_sent = h.same_sent; same_stored = h.same_stored })
  with_source s source s' (inr h) = inr (h, refl)

  listed :
      (r : Result String (List String)) (files : List String)
      → r ≡ ok files
      → is_empty env files ≡ false
      → r ≢ ok []
  listed r [] p h = cc
  listed r (file ∷ files) p h = λ e. cc

  after_check-Untouched :
      (files : List String) (r : Option SourceError × SourceStatus) (s : Session)
      → (Untouched s (after_check env files r s).1)
        ⊎ ((r.1.source_defined ≡ some true) × (is_empty env files ≡ false))
  unfolding after_check
  after_check-Untouched files (some panicked, source) s = inl (Untouched-refl s)
  after_check-Untouched [] (some (failure e), source) s =
      inl (record { same_sent = refl; same_stored = refl })
  after_check-Untouched [] (none, source) s = inl (record { same_sent = refl; same_stored = refl })
  after_check-Untouched (file ∷ files) (some (failure e), source) s =
      with_source s source _ (if_defined-Untouched (file ∷ files) (record s { source = source }))
  after_check-Untouched (file ∷ files) (none, source) s =
      with_source s source _ (if_defined-Untouched (file ∷ files) (record s { source = source }))

  after_validation-Untouched :
      (files : List String) (r : Option String × Session)
      → (Untouched r.1 (after_validation env files r).1)
        ⊎ (((r.0 ≡ none) × ((check_source env r.1.source).1.source_defined ≡ some true))
            × (is_empty env files ≡ false))
  unfolding after_validation
  after_validation-Untouched files (some e, s) = inl (Untouched-refl s)
  after_validation-Untouched files (none, s) =
      elim (after_check-Untouched files (check_source env s.source) s) [
        | inl h ↦ inl h
        | inr h ↦ inr ((refl, h.0), h.1)
      ]

  after_listing-Untouched :
      (r : Result String (List String)) (s : Session)
      → (Untouched s (after_listing env r s).1)
        ⊎ ((((validate env 1440 s).0 ≡ none)
              × ((check_source env (validate env 1440 s).1.source).1.source_defined ≡ some true))
            × (r ≢ ok []))
  unfolding after_listing validate
  after_listing-Untouched (err e) s = inl (Untouched-refl s)
  after_listing-Untouched (ok files) s =
      elim (Bool-cases (is_empty env files && not (is_zero s.source.last_source_check_time))) [
        | inl e ↦ rw e (inl (Untouched-refl s))
        | inr e ↦ rw e (elim (after_validation-Untouched files (validate env 1440 s)) [
          | inl h ↦ inl (record { same_sent = h.same_sent; same_stored = h.same_stored })
          | inr h ↦ inr (h.0, listed (ok files) files refl h.1)
        ])
      ]

  after_authentication-Untouched :
      (r : Option String × Session)
      → (Untouched r.1 (after_authentication env r).1)
        ⊎ ((r.0 ≡ none)
            × ((((validate env 1440 r.1).0 ≡ none)
                  × ((check_source env (validate env 1440 r.1).1.source).1.source_defined
                      ≡ some true))
                × (check_cycle env.upload_cycle env.now
                      r.1.uploads.status.last_successful_upload_time
                    ≡ true)))
  unfolding after_authentication files_to_upload
  after_authentication-Untouched (some e, s) = inl (Untouched-refl s)
  after_authentication-Untouched (none, s) =
      let due = check_cycle env.upload_cycle env.now s.uploads.status.last_successful_upload_time in
      elim (Bool-cases due) [
        | inl e ↦ elim (after_listing-Untouched _ s) [
          | inl h ↦ inl h
          | inr h ↦ inr (refl, (h.0, e))
        ]
        | inr e ↦ rw e (elim (after_listing-Untouched (ok []) s) [
          | inl h ↦ inl h
          | inr h ↦ elim (h.1 refl) [ ]
        ])
      ]

-- setAuthAndUpload uploads nothing and removes no package, unless the last successful upload is as
-- many minutes ago as the upload cycle has, credentials were found and validated without error, and
-- the check of the source leaves a source that is defined.
pub set_auth_and_upload-Untouched :
    (env : SessionEnv) (s : Session) → (Untouched s (set_auth_and_upload env s).1) ⊎ (Cleared env s)
unfolding set_auth_and_upload authenticate
set_auth_and_upload-Untouched env s =
    elim (after_authentication-Untouched env (authenticate env s)) [
      | inl h ↦ inl (record { same_sent = h.same_sent; same_stored = h.same_stored })
      | inr h ↦ inr (record { found = h.0; valid = h.1.0.0; defined = h.1.0.1; due = h.1.1 })
    ]
