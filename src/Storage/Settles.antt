-- ===== src/Storage/Settles.antt =====
-- After a conversion of the volume.
use koku_metrics_operator.Base.{
  ℕ, String, eq_refl, Bool, true, false, Option, none, some, List, [], ◌∷◌, ◌≡◌, refl, sym, subst,
  ap, ◌∙◌, Result, ok, err, Bool-cases, inl, inr, arith,
}
use koku_metrics_operator.Base.Dict.{lookup, insert, lookup-insert}
use koku_metrics_operator.Storage.{
  Claim, Volume, Cluster, StorageStatus, StorageEnv, StorageError, find_volume, replace,
  version_volumes, volumes_of, put_in, create_unless, patched, read_claim, mounted_on,
  get_or_create_volume, spec_volumes, put_volumes, mount_volume, after_claim, convert_found,
  convert_spec, with_deployment, convert_volume,
}
use koku_metrics_operator.Storage.Finding.{
  Finds, FindsOption, find_volume-FindsOption, find_volume_complete, replaced,
}

module _ (env : StorageEnv) where
  version_volumes-set :
      (e : Option String) (found : Option (Option (List Volume))) (before vols : List Volume)
      → version_volumes env e found ≡ ok before
      → version_volumes env e (some (some vols)) ≡ ok vols
  unfolding version_volumes
  version_volumes-set (some e) found before vols h = cc
  version_volumes-set none found before vols h = refl

  -- What was put into the specification stands there, whatever the deployment's volumes are.
  spec_volumes-put :
      (owners : List String) (volumes before vols : List Volume)
      (versions : List (String × Option (List Volume))) (claims : List (String × Claim))
      → (let c : Cluster = record {
        owners = owners;
        volumes = volumes;
        versions = versions;
        claims = claims;
      } in
          (spec_volumes env c ≡ ok before)
          → ((spec_volumes env (put_volumes env vols c) ≡ ok vols)
              × (spec_volumes env (record (put_volumes env vols c) { volumes = vols }) ≡ ok vols)))
  unfolding spec_volumes put_volumes volumes_of put_in
  spec_volumes-put [] volumes before vols versions claims h = (refl, refl)
  spec_volumes-put (owner ∷ owners) volumes before vols versions claims h =
      let set = version_volumes-set (env.get_version owner) (lookup owner versions) before vols h in
      let found : lookup owner (insert owner (some vols) versions) ≡ some (some vols) =
        lookup-insert owner owner (some vols) versions ∙ rw (eq_refl owner) refl in
      rw found (set, set)

  volumes_of-claims :
      (owners : List String) (c : Cluster) (claims : List (String × Claim))
      → volumes_of env owners (record c { claims = claims }) ≡ volumes_of env owners c
  unfolding volumes_of
  volumes_of-claims [] c claims = refl
  volumes_of-claims (owner ∷ owners) c claims = refl

  module _ (pvc : Claim) where
    -- Once the deployment has the volumes of the specification, another conversion changes nothing,
    -- and says that the volume is mounted.
    pub record Settled (st : StorageStatus) (c : Cluster) : Type 0 where
      pub volumes : List Volume
      pub specified : spec_volumes env c ≡ ok volumes
      pub converted :
          (let c' = record c { volumes = volumes } in
            convert_volume env pvc st c' ≡ (
              ok false,
              (record st { volume_type = env.claim_string pvc.name; volume_mounted = true }, c'),
            ))

    with_deployment-none :
        (o : Option String) (w : StorageStatus × Cluster)
        (rest : Result StorageError Bool × (StorageStatus × Cluster))
        → o ≡ none
        → with_deployment env o w rest ≡ rest
    unfolding with_deployment
    with_deployment-none none w rest h = refl
    with_deployment-none (some e) w rest h = cc

    abbrev on_claim : Volume → Volume
    on_claim v = record v { empty_dir = none; claim_name = some pvc.name }

    -- A deployment whose volume is one of the claim.
    convert_volume-mounted :
        (st : StorageStatus) (c : Cluster) (vols : List Volume) (i : ℕ) (v : Volume)
        → env.get_deployment ≡ none
        → spec_volumes env c ≡ ok vols
        → Finds c.volumes i (on_claim v)
        → convert_volume env pvc st c ≡ (
          ok false,
          (record st { volume_type = env.claim_string pvc.name; volume_mounted = true }, c),
        )
    unfolding convert_volume
    convert_volume-mounted st c vols i v readable spec finds =
        with_deployment-none env.get_deployment _ _ readable
        ∙ ap (λ s. convert_spec env pvc s st c) spec
        ∙ ap (λ o. convert_found env pvc vols o st c)
            (find_volume_complete c.volumes i (on_claim v) finds)
        ∙ rw (eq_refl pvc.name) refl

    patched-Settled :
        (e : Option String) (c : Cluster) (claims : List (String × Claim)) (st : StorageStatus)
        (i : ℕ) (v : Volume)
        → env.get_deployment ≡ none
        → spec_volumes env c ≡ ok c.volumes
        → Finds c.volumes i v
        → (let r =
              patched env e (replace c.volumes i (on_claim v)) (record c { claims = claims }) in
            r.0 ≡ ok true → Settled st r.1)
    unfolding patched spec_volumes
    patched-Settled (some e) c claims st i v readable spec finds =
        let rep = replaced c.volumes i v (on_claim v) finds refl in rw rep.put (λ h. cc)
    patched-Settled none c claims st i v readable spec finds =
        let rep = replaced c.volumes i v (on_claim v) finds refl in
        let before = volumes_of-claims c.owners c claims ∙ spec in
        let (now, later) =
          spec_volumes-put c.owners c.volumes c.volumes rep.after c.versions claims before in
        rw rep.put (λ h. record {
          volumes = rep.after;
          specified = now;
          converted = convert_volume-mounted st _ rep.after i v readable later rep.found;
        })

    after_claim-Settled :
        (read : Result String Claim) (create : Option String) (c : Cluster) (st : StorageStatus)
        (i : ℕ) (v : Volume)
        → env.get_deployment ≡ none
        → spec_volumes env c ≡ ok c.volumes
        → Finds c.volumes i v
        → (let r = after_claim env pvc i v c.volumes (create_unless env read create pvc c) c in
            r.0 ≡ ok true → Settled st r.1)
    unfolding after_claim create_unless mount_volume
    after_claim-Settled (ok claim) create c st i v readable spec finds =
        patched-Settled env.patch c c.claims st i v readable spec finds
    after_claim-Settled (err e) (some e') c st i v readable spec finds = λ h. cc
    after_claim-Settled (err e) none c st i v readable spec finds =
        patched-Settled env.patch c (insert pvc.name pvc c.claims) st i v readable spec finds

    convert_found-Settled :
        (o : Option (ℕ × Volume)) (c : Cluster) (st : StorageStatus)
        → env.get_deployment ≡ none
        → spec_volumes env c ≡ ok c.volumes
        → FindsOption c.volumes o
        → (let r = convert_found env pvc c.volumes o st c in r.0 ≡ ok true → Settled r.1.0 r.1.1)
    unfolding convert_found FindsOption get_or_create_volume
    convert_found-Settled none c st readable spec finds = λ h. cc
    convert_found-Settled (some (i, v)) c st readable spec finds =
        elim (Bool-cases (mounted_on pvc.name v.claim_name)) [
          | inl e ↦ rw e (λ h. ground (arith, h))
          | inr e ↦ rw e (
              after_claim-Settled (read_claim env pvc.name c) (env.create_claim pvc.name) c _ i v
                readable spec finds)
        ]

-- If the deployment can be read and the specification that is patched has its volumes, then after a
-- ConvertVolume that converts the volume the specification has volumes such that, once the deployment
-- has them as well, another ConvertVolume converts nothing, changes nothing that the API server holds,
-- and says in the status that the volume is mounted.
pub convert_volume-settles :
    (env : StorageEnv) (pvc : Claim) (st : StorageStatus) (c : Cluster)
    → env.get_deployment ≡ none
    → spec_volumes env c ≡ ok c.volumes
    → (convert_volume env pvc st c).0 ≡ ok true
    → Settled env pvc (convert_volume env pvc st c).1.0 (convert_volume env pvc st c).1.1
unfolding convert_volume
convert_volume-settles env pvc st c readable spec converted =
    let found = convert_found env pvc c.volumes (find_volume c.volumes) st c in
    let same : convert_volume env pvc st c ≡ found =
      with_deployment-none env pvc env.get_deployment _ _ readable
      ∙ ap (λ s. convert_spec env pvc s st c) spec in
    subst (λ r. Settled env pvc r.1.0 r.1.1) (sym same)
      (convert_found-Settled env pvc (find_volume c.volumes) c st readable spec
        (find_volume-FindsOption c.volumes) (sym (ap (λ r. r.0) same) ∙ converted))
