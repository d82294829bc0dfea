-- ===== src/Migrations/Again.antt =====
-- Running the migrations of src/database/migrations.py again.
use scraper_project.Base.{
  ℕ, String, ◌≡◌, refl, subst, is_some, inl, inr, Bool, true, Option, none, some, List, [], ◌∷◌,
  arith, All, ◌==◌, eq_refl, Option-cases,
}
use scraper_project.Errors.{Result-cases, ok}
use scraper_project.Contracts.Text.{same_codes}
use scraper_project.Database.Table.{select_first, append_row}
use scraper_project.Migrations.{
  MigrationFile, MigrationRow, Schema, version_of, has_version, rows_of, with_versions, with_row,
  apply_file, apply_files, apply_migrations,
}

same_codes_refl : (cs : List ℕ) → same_codes cs cs ≡ true
same_codes_refl [] = refl
same_codes_refl (c ∷ cs) = ground (arith, same_codes_refl cs)

select_first-append_keep :
    (test : MigrationRow → Bool) (rows : List MigrationRow) (new row : MigrationRow)
    → select_first test rows ≡ some row
    → select_first test (append_row new rows) ≡ some row
select_first-append_keep test [] new row h = ground arith
select_first-append_keep test (x ∷ rows) new row h =
    ground (arith, select_first-append_keep test rows new row)

select_first-append_new :
    (test : MigrationRow → Bool) (rows : List MigrationRow) (new : MigrationRow)
    → select_first test rows ≡ none
    → test new ≡ true
    → select_first test (append_row new rows) ≡ some new
select_first-append_new test [] new h hit = ground arith
select_first-append_new test (x ∷ rows) new h hit =
    ground (arith, select_first-append_new test rows new)

module _ {T : Type 0} (sha256 : String → String)
    (execute : String → Schema T → Option (Schema T)) where
  -- The file's version is recorded with its checksum.
  abbrev pub IsApplied : Schema T → MigrationFile → Type 0
  IsApplied s file =
      (row : MigrationRow) × (select_first (has_version (version_of file))
          (rows_of s.schema_migrations)
        ≡ some row)
      × ((row.checksum == sha256 file.sql) ≡ true)

  with_row-IsApplied :
      (file other : MigrationFile) (s : Schema T)
      → IsApplied s other
      → IsApplied (with_row sha256 execute file s) other
  with_row-IsApplied file other s (row, found, same) =
      (row, select_first-append_keep _ (rows_of s.schema_migrations) _ row found, same)

  -- What a file that is accepted leaves.
  abbrev Kept : MigrationFile → Schema T → Schema T → Type 0
  Kept file s s' =
      IsApplied s' file × ((other : MigrationFile) → IsApplied s other → IsApplied s' other)

  -- The file's script leaves the table of versions as it is.
  abbrev pub Spares : MigrationFile → Type 0
  Spares file =
      (s s' : Schema T) → execute file.sql s ≡ some s' → s'.schema_migrations ≡ s.schema_migrations

  new-Kept :
      (file : MigrationFile) (s after : Schema T)
      → after.schema_migrations ≡ s.schema_migrations
      → select_first (has_version (version_of file)) (rows_of s.schema_migrations) ≡ none
      → Kept file s (with_row sha256 execute file after)
  new-Kept file s after spared h = (
    (
      _,
      select_first-append_new (has_version (version_of file)) (rows_of after.schema_migrations) _
          (rw spared h) (same_codes_refl (version_of file)),
      eq_refl (sha256 file.sql),
    ),
    λ other (row, found, same). with_row-IsApplied file other after (row, rw spared found, same),
  )

  apply_file-Kept :
      (file : MigrationFile) (s s' : Schema T)
      → Spares file
      → apply_file sha256 execute file s ≡ (ok tt, s')
      → Kept file s s'
  unfolding apply_file
  apply_file-Kept file s s' spares h =
      elim (Option-cases
        (select_first (has_version (version_of file)) (rows_of s.schema_migrations))) [
          | inr (row, found) ↦
              let e : s ≡ s' = ground (arith, found, h) in
              let same : (row.checksum == sha256 file.sql) ≡ true = ground (arith, found, h) in
              subst (Kept file s) e ((row, found, same), λ other applied. applied)
          | inl absent ↦ elim (Option-cases (execute file.sql s)) [
            | inl failed ↦ ground (arith, absent, failed, h)
            | inr (after, done) ↦
                let e : with_row sha256 execute file after ≡ s' = ground (arith, absent, done, h) in
                subst (Kept file s) e (new-Kept file s after (spares s after done) absent)
          ]
        ]

  apply_file-again :
      (file : MigrationFile) (s : Schema T)
      → IsApplied s file
      → apply_file sha256 execute file s ≡ (ok tt, s)
  unfolding apply_file
  apply_file-again file s (row, found, same) = ground (arith, found, same)

  apply_files-again :
      (files : List MigrationFile) (s : Schema T)
      → All (IsApplied s) files
      → apply_files sha256 execute files s ≡ (ok tt, s)
  unfolding apply_files
  apply_files-again [] s h = refl
  apply_files-again (file ∷ files) s h =
      ground (arith, apply_file-again file s h.0, apply_files-again files s h.1)

  apply_files-IsApplied :
      (files : List MigrationFile) (s s' : Schema T)
      → All Spares files
      → apply_files sha256 execute files s ≡ (ok tt, s')
      → All (IsApplied s') files
        × ((other : MigrationFile) → IsApplied s other → IsApplied s' other)
  unfolding apply_files
  apply_files-IsApplied [] s s' spares h =
      let e : s ≡ s' = ground (arith, h) in
      (
        tt,
        subst (λ t. (other : MigrationFile) → IsApplied s other → IsApplied t other) e (λ _ a. a),
      )
  apply_files-IsApplied (file ∷ files) s s' spares h =
      let after = (apply_file sha256 execute file s).1 in
      elim (Result-cases (apply_file sha256 execute file s).0) [
        | inl (e, raised) ↦ ground (arith, raised, h)
        | inr (_, accepted) ↦
            let first = apply_file-Kept file s after spares.0 (ground (arith, accepted)) in
            let rest =
              apply_files-IsApplied files after s' spares.1 (ground (arith, accepted, h)) in
            ((rest.1 file first.0, rest.0), λ other applied. rest.1 other (first.1 other applied))
      ]

  apply_file-table :
      (file : MigrationFile) (s : Schema T)
      → is_some s.schema_migrations ≡ true
      → is_some (apply_file sha256 execute file s).1.schema_migrations ≡ true
  unfolding apply_file
  apply_file-table file s h = ground arith

  apply_files-table :
      (files : List MigrationFile) (s : Schema T)
      → is_some s.schema_migrations ≡ true
      → is_some (apply_files sha256 execute files s).1.schema_migrations ≡ true
  unfolding apply_files
  apply_files-table [] s h = h
  apply_files-table (file ∷ files) s h =
      let after = (apply_file sha256 execute file s).1 in
      ground (
        arith,
        apply_file-table file s h,
        apply_files-table files after (apply_file-table file s h),
      )

  with_versions-again :
      (s : Schema T) → is_some s.schema_migrations ≡ true → with_versions sha256 execute s ≡ s
  with_versions-again s h = ground arith

  -- Migrations that have been applied are applied once: if no script touches the table of
  -- versions, then after a run that raises nothing, a run of the same files raises nothing and
  -- changes nothing.
  pub apply_migrations_twice :
      (files : List MigrationFile) (s s' : Schema T)
      → All Spares files
      → apply_migrations sha256 execute files s ≡ (ok tt, s')
      → apply_migrations sha256 execute files s' ≡ (ok tt, s')
  unfolding apply_migrations
  apply_migrations_twice files s s' spares h =
      let table : is_some s'.schema_migrations ≡ true =
        subst (λ r. is_some r.1.schema_migrations ≡ true) h
          (apply_files-table files (with_versions sha256 execute s) refl) in
      rw (with_versions-again s' table) (
        apply_files-again files s'
          (apply_files-IsApplied files (with_versions sha256 execute s) s' spares h).0)
