-- ===== src/Web/Snapshot/Masked.antt =====
-- What a sanitized snapshot of pkg/web/server.go tells of the values of secret keys.
use ctop.Prelude.{◌≡◌, refl, sym, ap, ◌∙◌, true, List, [], ◌∷◌, arith, map, ◌⊎◌, inl, inr}
use ctop.Prelude.Texts.{Text}
use ctop.Sanitize.{CommandPatterns, is_sensitive_key, mask_env_list, mask_labels}
use ctop.Sanitize.Hiding.{AllSameButSecret, mask_env_list-hides}
use ctop.Web.Snapshot.{ContainerSnapshot, sanitize_snapshot, clean_command}

-- Labels that are alike, but for the values of secret keys.
abbrev pub LabelsMatch : List (Text × Text) → List (Text × Text) → Type 0
LabelsMatch [] [] = Unit
LabelsMatch ((j, v) ∷ ls) ((k, w) ∷ ms) =
    (j ≡ k) × ((v ≡ w) ⊎ (is_sensitive_key j ≡ true)) × LabelsMatch ls ms
LabelsMatch _ _ = ⊥

mask_labels-LabelsMatch :
    (ls ms : List (Text × Text)) → LabelsMatch ls ms → mask_labels ls ≡ mask_labels ms
unfolding mask_labels
mask_labels-LabelsMatch [] [] h = refl
mask_labels-LabelsMatch [] (m ∷ ms) h = elim h [ ]
mask_labels-LabelsMatch (l ∷ ls) [] h = elim h [ ]
mask_labels-LabelsMatch ((j, v) ∷ ls) ((k, w) ∷ ms) (e, inl d, h) =
    rw (e, d, mask_labels-LabelsMatch ls ms h) refl
mask_labels-LabelsMatch ((j, v) ∷ ls) ((k, w) ∷ ms) (e, inr s, h) =
    ground (arith, e, s, mask_labels-LabelsMatch ls ms h)

-- The snapshot without its environment and labels.
abbrev pub bare : ContainerSnapshot → ContainerSnapshot
bare c = record c { env = []; image_env = []; labels = []; image_labels = [] }

abbrev pub SnapshotMatch : ContainerSnapshot → ContainerSnapshot → Type 0
SnapshotMatch a b =
    (bare a ≡ bare b)
    × AllSameButSecret a.env b.env
    × AllSameButSecret a.image_env b.image_env
    × LabelsMatch a.labels b.labels
    × LabelsMatch a.image_labels b.image_labels

abbrev dressed :
    CommandPatterns
    → List Text
    → List Text
    → List (Text × Text)
    → List (Text × Text)
    → ContainerSnapshot
    → ContainerSnapshot
dressed p e ie l il c = record c {
  env = e;
  image_env = ie;
  labels = l;
  image_labels = il;
  generated_run_cmd = clean_command p c.generated_run_cmd;
  generated_compose = clean_command p c.generated_compose;
}

sanitize_snapshot-dressed :
    (p : CommandPatterns) (a : ContainerSnapshot)
    → sanitize_snapshot p a
      ≡ dressed p
          (mask_env_list a.env)
          (mask_env_list a.image_env)
          (mask_labels a.labels)
          (mask_labels a.image_labels)
          (bare a)
unfolding sanitize_snapshot
sanitize_snapshot-dressed p a = refl

-- Two snapshots that differ in the values of secret keys alone are sanitized to the same.
pub sanitize_snapshot-hides :
    (p : CommandPatterns) (a b : ContainerSnapshot)
    → SnapshotMatch a b
    → sanitize_snapshot p a ≡ sanitize_snapshot p b
sanitize_snapshot-hides p a b (same, e, ie, l, il) =
    sanitize_snapshot-dressed p a
    ∙ ap
        (dressed p (mask_env_list a.env) (mask_env_list a.image_env) (mask_labels a.labels)
          (mask_labels a.image_labels))
        same
    ∙ rw
        (
          mask_env_list-hides a.env b.env e,
          mask_env_list-hides a.image_env b.image_env ie,
          mask_labels-LabelsMatch a.labels b.labels l,
          mask_labels-LabelsMatch a.image_labels b.image_labels il,
        )
        (sym (sanitize_snapshot-dressed p b))

abbrev pub AllMatch : List ContainerSnapshot → List ContainerSnapshot → Type 0
AllMatch [] [] = Unit
AllMatch (x ∷ xs) (y ∷ ys) = SnapshotMatch x y × AllMatch xs ys
AllMatch _ _ = ⊥

pub map-sanitize_snapshot :
    (p : CommandPatterns) (xs ys : List ContainerSnapshot)
    → AllMatch xs ys
    → map (sanitize_snapshot p) xs ≡ map (sanitize_snapshot p) ys
map-sanitize_snapshot p [] [] h = refl
map-sanitize_snapshot p [] (y ∷ ys) h = elim h [ ]
map-sanitize_snapshot p (x ∷ xs) [] h = elim h [ ]
map-sanitize_snapshot p (x ∷ xs) (y ∷ ys) (h, hs) =
    rw (sanitize_snapshot-hides p x y h, map-sanitize_snapshot p xs ys hs) refl
