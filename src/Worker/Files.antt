-- ===== src/Worker/Files.antt =====
-- Reading and creating files in src/orchestration/synthetic_worker.py, for a property that every
-- effect keeps.
use scraper_project.Base.{
  ℕ, String, ◌≡◌, refl, ap, ◌∙◌, subst, sym, true, Option, none, List, [], ◌∷◌, arith, eq_refl,
  is_some,
}
use scraper_project.Errors.{Error}
use scraper_project.Worker.Actions.{
  World, spend, read_file, create_file, set_files, content, overwrite,
}
use scraper_project.Worker.Keeps.{Holds, IsSteady, Holds-bind, Holds-spend, Holds-raise, Holds-if}
use scraper_project.Worker.Calls.{IsKept, is_saved}

pub Holds-read_file :
    {P R : World → Type 0} (path : String)
    → Holds P (λ there w. P w × (content path w.files ≡ there)) R (read_file path)
unfolding read_file
Holds-read_file path = record { at = λ w h. (h, refl) }

overwrite-absent :
    (path : String) (bytes : List ℕ) (files : List (String × List ℕ))
    → content path files ≡ none
    → overwrite path bytes files ≡ files
overwrite-absent path bytes [] h = refl
overwrite-absent path bytes ((other, old) ∷ files) h =
    ground (arith, overwrite-absent path bytes files)

overwrite-opened :
    (path : String) (bytes : List ℕ) (files fs : List (String × List ℕ))
    → files ≡ ((path, []) ∷ fs)
    → content path fs ≡ none
    → overwrite path bytes files ≡ ((path, bytes) ∷ fs)
overwrite-opened path bytes files fs e h =
    rw e (ground (arith, eq_refl path, overwrite-absent path bytes fs h))

module _ {sha256 : List ℕ → String} {run_id partition_id : String} {From : Option String → Type 0}
    {I : World → Type 0} (kept : IsKept sha256 run_id partition_id From I) (path : String)
    (bytes : List ℕ) where
  -- There is no file at the path.
  abbrev pub Absent : World → Type 0
  Absent w = I w × (content path w.files ≡ none)

  -- The file has just been opened, and is empty.
  abbrev Opened : World → Type 0
  Opened w =
      (fs : List (String × List ℕ)) × (w.files ≡ ((path, []) ∷ fs))
      × (content path fs ≡ none)
      × I (record w { files = fs })

  -- The bytes are at the path.
  abbrev pub Saved : World → Type 0
  Saved w = I w × (is_saved sha256 path (sha256 bytes) w.files ≡ true)

  Absent-IsSteady : IsSteady Absent
  Absent-IsSteady = record { at = λ w n h. (kept.steady w n h.0, h.1) }

  Opened-IsSteady : IsSteady Opened
  Opened-IsSteady = record {
    at = λ w n (fs, e, absent, h). (fs, e, absent, kept.steady (record w { files = fs }) n h);
  }

  Opened-kept : (w : World) → Opened w → I w
  Opened-kept w (fs, e, absent, h) =
      subst (λ files. I (record w { files = files })) (sym e)
        (kept.creations path [] (record w { files = fs }) absent h)

  open-Holds : Holds Absent (λ _. Opened) I (set_files (λ files. (path, []) ∷ files))
  unfolding set_files
  open-Holds = record { at = λ w h. (w.files, refl, h.1, h.0) }

  written : (w : World) → Opened w → Saved (record w { files = overwrite path bytes w.files })
  written w (fs, e, absent, h) =
      let same = overwrite-opened path bytes w.files fs e absent in
      (
        subst (λ files. I (record w { files = files })) (sym same)
            (kept.creations path bytes (record w { files = fs }) absent h),
        ap (λ files. is_saved sha256 path (sha256 bytes) files) same
            ∙ ground (arith, eq_refl path, eq_refl (sha256 bytes)),
      )

  write-Holds : Holds Opened (λ _. Saved) I (set_files (overwrite path bytes))
  unfolding set_files
  write-Holds = record { at = written }

  -- A file is created where there was none, and then has its bytes.
  pub Holds-create_file : (e : Error) → Holds Absent (λ _. Saved) I (create_file e path bytes)
  unfolding create_file
  Holds-create_file e =
      Holds-bind (λ _. Absent) spend _ (Holds-spend Absent-IsSteady (λ w h. h.0))
        λ _.
          Holds-bind (λ there w. Absent w × (content path w.files ≡ there)) (read_file path) _
            (Holds-read_file path)
            λ there.
              Holds-bind (λ _. Opened) _ _
                (Holds-if (is_some there) _ _ (λ _. Holds-raise e λ w h. h.0.0)
                  λ _. record { at = λ w h. open-Holds.at w h.0 })
                λ _.
                  Holds-bind (λ _. Opened) spend _ (Holds-spend Opened-IsSteady Opened-kept)
                    λ _. write-Holds
