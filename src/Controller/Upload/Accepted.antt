-- ===== src/Controller/Upload/Accepted.antt =====
-- Which packages leave the upload directory.
use koku_metrics_operator.Base.{
  String, true, false, Bool, ◌&&◌, ◌||◌, str_eq, Option, none, some, List, [], ◌∷◌, elem, ◌≡◌, ◌⊎◌,
  inl, inr, elem-without, Result, ok, err, arith, Bool-cases, eq_iff, eq_refl, refl, subst, without,
}
use koku_metrics_operator.Base.Text.{contains}
use koku_metrics_operator.Crhchttp.{AuthConfig, HttpRequest, Uploaded}
use koku_metrics_operator.Packaging.Archive.{FileInfoManifest}
use koku_metrics_operator.Controller.Upload.{
  Sent, Uploads, UploadEnv, Flow, go_on, stop, remove_file, by_error, after_upload, with_body,
  with_info, upload_file, upload_files, follow, send_file, path_of,
}

-- Was the file uploaded without error, with an answer of status 202?
abbrev pub accepted : String → List Sent → Bool
accepted file [] = false
accepted file (s ∷ sent) =
    str_eq s.file file
      && ((elim s.result.error [ none ↦ true | some e ↦ false ]) && contains s.result.status "202")
    || accepted file sent

-- What stood in the directory stands there, unless it was accepted; and what was accepted stays so.
record Keeps (file : String) (w w' : Uploads) : Type 0 where
  in_place :
      elem file w.stored ≡ true → (elem file w'.stored ≡ true) ⊎ (accepted file w'.sent ≡ true)
  still : accepted file w.sent ≡ true → accepted file w'.sent ≡ true

accepted-now :
    (s : Sent) (sent : List Sent)
    → s.result.error ≡ none
    → contains s.result.status "202" ≡ true
    → accepted s.file (s ∷ sent) ≡ true
accepted-now s sent fine h = rw (eq_refl s.file, fine, h) refl

module _ (file : String) where
  Keeps-refl : (w : Uploads) → Keeps file w w
  Keeps-refl w = record { in_place = λ h. inl h; still = λ h. h }

  Keeps-trans : (u v w : Uploads) → Keeps file u v → Keeps file v w → Keeps file u w
  Keeps-trans u v w a b = record {
    in_place = λ h. elim (a.in_place h) [ inl k ↦ b.in_place k | inr k ↦ inr (b.still k) ];
    still = λ h. b.still (a.still h);
  }

  accepted-later :
      (s : Sent) (sent : List Sent) → accepted file sent ≡ true → accepted file (s ∷ sent) ≡ true
  accepted-later s sent h = ground (arith, h)

  follow-Keeps :
      (env : UploadEnv) (auth : AuthConfig) (w : Uploads) (step : Flow × Uploads)
      (rest : Uploads → Option String × Uploads)
      → Keeps file w step.1
      → ((v : Uploads) → Keeps file v (rest v).1)
      → Keeps file w (follow env auth step rest).1
  unfolding follow
  follow-Keeps env auth w (stop e, v) rest h k = h
  follow-Keeps env auth w (go_on, v) rest h k = Keeps-trans w v (rest v).1 h (k v)

  module _ (env : UploadEnv) where
    remove_file-keeps :
        (other : String) (stored : List String)
        → str_eq other file ≡ false
        → elem file stored ≡ true
        → elem file (remove_file env other stored) ≡ true
    unfolding remove_file
    remove_file-keeps other stored differ h =
        elim (env.remove_error (path_of env other))
          as (λ o. elem file (elim o [ some e ↦ stored | none ↦ without other stored ]) ≡ true) [
            | some e ↦ h
            | none ↦ ground (arith, elem-without other file stored, differ, h)
          ]

    by_error-Keeps :
        (other : String) (e : Option String) (u : Uploaded) (w : Uploads)
        → (e ≡ none → contains u.status "202" ≡ true → accepted other w.sent ≡ true)
        → Keeps file w (by_error env other e u w).1
    unfolding by_error
    by_error-Keeps other (some e) u w ok_ = record { in_place = λ h. inl h; still = λ h. h }
    by_error-Keeps other none u w ok_ = elim (Bool-cases (contains u.status "202")) [
      | inr e ↦ rw e (Keeps-refl w)
      | inl e ↦ rw e (record {
        in_place = λ h. elim (Bool-cases (str_eq other file)) [
          | inr differ ↦ inl (remove_file-keeps other w.stored differ h)
          | inl same ↦
              inr (subst (λ f. accepted f w.sent ≡ true) ((eq_iff other file).0 same) (ok_ refl e))
        ];
        still = λ h. h;
      })
    ]

    after_upload-Keeps :
        (other : String) (info : FileInfoManifest) (answer : Uploaded × Option HttpRequest)
        (w : Uploads)
        → Keeps file w (after_upload env other info answer w).1
    unfolding after_upload
    after_upload-Keeps other info (u, request) w =
        let sent : Sent = record { file = other; request = request; result = u } in
        Keeps-trans w _ _
          (record { in_place = λ h. inl h; still = λ h. accepted-later sent w.sent h })
          (by_error-Keeps other u.error u _ (λ e h. accepted-now sent w.sent e h))

    module _ (auth : AuthConfig) where
      with_info-Keeps :
          (other : String) (r : Result String FileInfoManifest) (w : Uploads)
          → Keeps file w (with_info env auth other r w).1
      unfolding with_info with_body
      with_info-Keeps other (err e) w = Keeps-refl w
      with_info-Keeps other (ok info) w =
          elim (env.multipart (path_of env other))
            as (λ r. Keeps file w (with_body env auth other info r w).1) [
              | err e ↦ Keeps-refl w
              | ok body ↦ after_upload-Keeps other info (send_file env auth other body) w
            ]

      upload_file-Keeps :
          (other : String) (w : Uploads) → Keeps file w (upload_file env auth other w).1
      unfolding upload_file
      upload_file-Keeps other w = elim (Bool-cases (contains other "tar.gz")) [
        | inl e ↦ rw (e, upload_file) (with_info-Keeps other _ w)
        | inr e ↦ rw (e, upload_file) (Keeps-refl w)
      ]

      upload_files-Keeps :
          (files : List String) (w : Uploads) → Keeps file w (upload_files env auth files w).1
      unfolding upload_files
      upload_files-Keeps [] w = Keeps-refl w
      upload_files-Keeps (other ∷ files) w =
          follow-Keeps env auth w (upload_file env auth other w) (upload_files env auth files)
            (upload_file-Keeps other w) (upload_files-Keeps files)

-- A package that stood in the upload directory stands there after uploadFiles, unless it was uploaded
-- without error and answered with a status that has 202 in it, now or before.
pub upload_files-keeps_unaccepted :
    (env : UploadEnv) (auth : AuthConfig) (files : List String) (w : Uploads) (file : String)
    → elem file w.stored ≡ true
    → (let w' = (upload_files env auth files w).1 in
        (elem file w'.stored ≡ true) ⊎ (accepted file w'.sent ≡ true))
upload_files-keeps_unaccepted env auth files w file h =
    (upload_files-Keeps file env auth files w).in_place h
