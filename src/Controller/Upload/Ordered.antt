-- ===== src/Controller/Upload/Ordered.antt =====
-- What a run of uploadFiles leaves in the status, and where it ends.
use koku_metrics_operator.Base.{
  String, Option, none, some, List, [], ◌∷◌, All, ◌≡◌, refl, Result, ok, err, Bool-cases, sym, ap,
  ◌∙◌, inl, inr,
}
use koku_metrics_operator.Base.Text.{contains}
use koku_metrics_operator.Crhchttp.{AuthConfig, HttpRequest, Uploaded}
use koku_metrics_operator.Packaging.Archive.{FileInfoManifest}
use koku_metrics_operator.Controller.Upload.{
  UploadStatus, Sent, Uploads, UploadEnv, Flow, go_on, stop, by_error, after_upload, with_body,
  with_info, upload_file, upload_files, follow, noted, send_file, path_of,
}

-- Did every upload succeed?
abbrev pub AllFine : List Sent → Type 0
AllFine sent = All (λ s. s.result.error ≡ none) sent

abbrev error_text : Option String → String
error_text none = ""
error_text (some e) = e

-- The status tells of the last upload, before which none failed.
abbrev pub TellsOfLast : UploadStatus → List Sent → Type 0
TellsOfLast st [] = Unit
TellsOfLast st (s ∷ sent) =
    ((st.last_upload_status ≡ s.result.status)
      × ((st.last_payload_name ≡ s.file)
          × ((st.last_payload_request_id ≡ s.result.request_id)
              × (st.upload_error ≡ error_text s.result.error))))
    × AllFine sent

abbrev NoFailure : Flow → List Sent → Type 0
NoFailure go_on sent = AllFine sent
NoFailure (stop e) sent = Unit

-- What holds after a step, if no upload failed before it.
record Told (step : Flow × Uploads) : Type 0 where
  tells : TellsOfLast step.1.status step.1.sent
  fine : NoFailure step.0 step.1.sent

module _ (env : UploadEnv) where
  by_error-Told :
      (file : String) (e : Option String) (u : Uploaded) (request : Option HttpRequest)
      (st : UploadStatus) (stored : List String) (sent : List Sent)
      → u.error ≡ e
      → st.upload_error ≡ ""
      → (st.last_upload_status ≡ u.status)
        × ((st.last_payload_name ≡ file) × (st.last_payload_request_id ≡ u.request_id))
      → AllFine sent
      → Told (
          by_error env file e u (record {
            status = st;
            stored = stored;
            sent = record { file = file; request = request; result = u } ∷ sent;
          }))
  unfolding by_error
  by_error-Told file (some e) u request st stored sent same clear told fine = record {
    tells = ((told.0, (told.1.0, (told.1.1, sym (ap error_text same)))), fine);
    fine = tt;
  }
  by_error-Told file none u request st stored sent same clear told fine =
      let shown = clear ∙ sym (ap error_text same) in
      elim (Bool-cases (contains u.status "202")) [
        | inl e ↦ rw e (record {
          tells = ((told.0, (told.1.0, (told.1.1, shown))), fine);
          fine = (same, fine);
        })
        | inr e ↦ rw e (record {
          tells = ((told.0, (told.1.0, (told.1.1, shown))), fine);
          fine = (same, fine);
        })
      ]

  module _ (auth : AuthConfig) where
    with_info-Told :
        (file : String) (r : Result String FileInfoManifest) (w : Uploads)
        → TellsOfLast w.status w.sent
        → AllFine w.sent
        → Told (with_info env auth file r w)
    unfolding with_info with_body after_upload noted
    with_info-Told file (err e) w told fine = record { tells = told; fine = fine }
    with_info-Told file (ok info) w told fine =
        elim (env.multipart (path_of env file)) as (λ r. Told (with_body env auth file info r w)) [
          | err e ↦ record { tells = told; fine = tt }
          | ok body ↦
              let (u, request) = send_file env auth file body in
              by_error-Told file u.error u request _ w.stored w.sent refl refl (refl, (refl, refl))
                fine
        ]

    upload_file-Told :
        (file : String) (w : Uploads)
        → TellsOfLast w.status w.sent
        → AllFine w.sent
        → Told (upload_file env auth file w)
    unfolding upload_file
    upload_file-Told file w told fine = elim (Bool-cases (contains file "tar.gz")) [
      | inl e ↦ rw (e, upload_file) (with_info-Told file _ w told fine)
      | inr e ↦ rw (e, upload_file) (record { tells = told; fine = fine })
    ]

    follow-tells :
        (step : Flow × Uploads) (rest : Uploads → Option String × Uploads)
        → Told step
        → ((w : Uploads)
            → TellsOfLast w.status w.sent
            → AllFine w.sent
            → TellsOfLast (rest w).1.status (rest w).1.sent)
        → (let w' = (follow env auth step rest).1 in TellsOfLast w'.status w'.sent)
    unfolding follow
    follow-tells (stop e, w) rest h k = h.tells
    follow-tells (go_on, w) rest h k = k w h.tells h.fine

    -- If the uploads so far succeeded and the status tells of the last, then after uploadFiles it
    -- tells of the last again, with its file, its answer's status and request id and its error, and
    -- none of the uploads before the last failed.
    pub upload_files-TellsOfLast :
        (files : List String) (w : Uploads)
        → TellsOfLast w.status w.sent
        → AllFine w.sent
        → (let w' = (upload_files env auth files w).1 in TellsOfLast w'.status w'.sent)
    unfolding upload_files
    upload_files-TellsOfLast [] w told fine = told
    upload_files-TellsOfLast (file ∷ files) w told fine =
        follow-tells (upload_file env auth file w) (upload_files env auth files)
          (upload_file-Told file w told fine) (upload_files-TellsOfLast files)
