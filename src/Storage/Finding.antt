-- ===== src/Storage/Finding.antt =====
-- The volume of the reports among others, and what replaces it: getVolume and mountVolume of
-- internal/storage/storage.go.
use koku_metrics_operator.Base.{
  ℕ, zero, suc, str_eq, true, false, Option, none, some, List, [], ◌∷◌, ◌≡◌, refl, sym, subst, ap,
  ◌∙◌, Bool-cases, inl, inr,
}
use koku_metrics_operator.Storage.{Volume, volume_mount_name, find_volume, replace}

-- The first volume of the reports, with its index.
pub data Finds : List Volume → ℕ → Volume → Type 0 where
  finds_here :
      {v : Volume} {vols : List Volume}
      → str_eq v.name volume_mount_name ≡ true
      → Finds (v ∷ vols) zero v
  finds_later :
      {u v : Volume} {vols : List Volume} {i : ℕ}
      → str_eq u.name volume_mount_name ≡ false
      → Finds vols i v
      → Finds (u ∷ vols) (suc i) v

unfoldable pub FindsOption : List Volume → Option (ℕ × Volume) → Type 0
FindsOption vols none = Unit
FindsOption vols (some (i, v)) = Finds vols i v

step_later : Option (ℕ × Volume) → Option (ℕ × Volume)
step_later none = none
step_later (some (i, w)) = some (suc i, w)

find_volume-later :
    (u : Volume) (vols : List Volume)
    → str_eq u.name volume_mount_name ≡ false
    → find_volume (u ∷ vols) ≡ step_later (find_volume vols)
unfolding find_volume step_later
find_volume-later u vols e =
    rw e
      (elim (find_volume vols)
        as (λ o. (elim o [ none ↦ none | some (i, w) ↦ some (suc i, w) ]) ≡ step_later o) [
          | none ↦ refl
          | some (i, w) ↦ refl
        ])

later-FindsOption :
    (u : Volume) (vols : List Volume) (o : Option (ℕ × Volume))
    → str_eq u.name volume_mount_name ≡ false
    → FindsOption vols o
    → FindsOption (u ∷ vols) (step_later o)
unfolding FindsOption step_later
later-FindsOption u vols none e h = tt
later-FindsOption u vols (some (i, w)) e h = finds_later e h

pub find_volume-FindsOption : (vols : List Volume) → FindsOption vols (find_volume vols)
unfolding FindsOption find_volume
find_volume-FindsOption [] = tt
find_volume-FindsOption (u ∷ vols) = elim (Bool-cases (str_eq u.name volume_mount_name)) [
  | inl e ↦ rw (e, find_volume) (finds_here e)
  | inr e ↦
      subst (FindsOption (u ∷ vols)) (sym (find_volume-later u vols e))
        (later-FindsOption u vols (find_volume vols) e (find_volume-FindsOption vols))
]

pub find_volume_complete :
    (vols : List Volume) (i : ℕ) (v : Volume) → Finds vols i v → find_volume vols ≡ some (i, v)
unfolding find_volume step_later
find_volume_complete [] i v' h = elim h [ ]
find_volume_complete (v ∷ vols) zero v' (finds_here e) = rw (e, find_volume) refl
find_volume_complete (u ∷ vols) (suc i) v (finds_later e h) =
    find_volume-later u vols e ∙ ap step_later (find_volume_complete vols i v h)

-- In the place of the volume that is found, a volume of its name is put and found.
pub record Replaced (vols : List Volume) (i : ℕ) (w : Volume) : Type 0 where
  pub after : List Volume
  pub put : replace vols i w ≡ some after
  pub found : Finds after i w

pub replaced :
    (vols : List Volume) (i : ℕ) (v w : Volume)
    → Finds vols i v
    → w.name ≡ v.name
    → Replaced vols i w
replaced [] i v' w h same = elim h [ ]
replaced (v ∷ vols) zero v' w (finds_here e) same = record {
  after = w ∷ vols;
  put = refl;
  found = finds_here (rw same e);
}
replaced (u ∷ vols) (suc i) v w (finds_later e h) same =
    let rest = replaced vols i v w h same in
    record { after = u ∷ rest.after; put = rw rest.put refl; found = finds_later e rest.found }
