-- ===== src/Migrations.antt =====
-- src/database/migrations.py: the runner of the numbered migrations. The files come in the order of
-- their names; `applied_at` is what SQLite's clock gives for each.
pub mod Again
use scraper_project.Base.{
  ℕ, String, Bool, true, false, Option, none, some, List, [], ◌∷◌, ◌==◌, if◌then◌else◌,
}
use scraper_project.Errors.{Result, ok, err, integrity_error, migration_error, operational_error}
use scraper_project.Contracts.Text.{codes, before, same_codes}
use scraper_project.Database.Table.{select_first, exists, append_row}

pub record MigrationFile : Type 0 where
  pub name : String
  pub sql : String
  pub applied_at : String

-- schema_migrations
pub record MigrationRow : Type 0 where
  pub version : List ℕ
  pub checksum : String
  pub applied_at : String

-- The table of versions, which may be missing, and all the others.
pub record Schema (T : Type 0) : Type 0 where
  pub schema_migrations : Option (List MigrationRow)
  pub tables : T

-- `path.name.split("_", 1)[0]`
abbrev pub version_of : MigrationFile → List ℕ
version_of file = before b'_' (codes file.name)

-- WHERE version = ?
abbrev pub has_version : List ℕ → MigrationRow → Bool
has_version version row = same_codes row.version version

abbrev pub rows_of : Option (List MigrationRow) → List MigrationRow
rows_of none = []
rows_of (some rows) = rows

-- `sha256` is the digest of a text; `execute` is what the database makes of a script, which may touch
-- every table, none where it fails.
module _ {T : Type 0} (sha256 : String → String)
    (execute : String → Schema T → Option (Schema T)) where
  -- CREATE TABLE IF NOT EXISTS schema_migrations
  abbrev pub with_versions : Schema T → Schema T
  with_versions s = record s { schema_migrations = some (rows_of s.schema_migrations) }

  abbrev pub with_row : MigrationFile → Schema T → Schema T
  with_row file s = record s {
    schema_migrations = some (
        append_row
          (record {
            version = version_of file;
            checksum = sha256 file.sql;
            applied_at = file.applied_at;
          })
          (rows_of s.schema_migrations));
  }

  -- The INSERT that follows the script: the table must be there, the version must be new.
  insert_version : MigrationFile → Schema T → Result (Schema T)
  insert_version file s = elim s.schema_migrations [
    | none ↦ err operational_error
    | some rows ↦
        if exists (has_version (version_of file)) rows
        then err integrity_error
        else ok (with_row file s)
  ]

  -- One round of the loop; a script that fails is rolled back, and so is one whose version cannot be
  -- recorded.
  unfoldable pub apply_file : MigrationFile → Schema T → Result (Unit {0}) × Schema T
  unfolding insert_version
  apply_file file s =
      elim (select_first (has_version (version_of file)) (rows_of s.schema_migrations)) [
        | some row ↦
            if row.checksum == sha256 file.sql then (ok tt, s) else (err migration_error, s)
        | none ↦ elim (execute file.sql s) [
          | none ↦ (err operational_error, s)
          | some s' ↦ elim (insert_version file s') [ ok s'' ↦ (ok tt, s'') | err e ↦ (err e, s) ]
        ]
      ]

  unfoldable pub apply_files : List MigrationFile → Schema T → Result (Unit {0}) × Schema T
  apply_files [] s = (ok tt, s)
  apply_files (file ∷ files) s =
      let (r, s') = apply_file file s in
      elim r [ ok _ ↦ apply_files files s' | err e ↦ (err e, s') ]

  -- `apply_migrations`
  unfoldable pub apply_migrations : List MigrationFile → Schema T → Result (Unit {0}) × Schema T
  apply_migrations files s = apply_files files (with_versions s)
