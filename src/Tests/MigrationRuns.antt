-- ===== src/Tests/MigrationRuns.antt =====
-- The migration runner on two files, with scripts that are counted and a text as its own checksum.
use scraper_project.Base.{ℕ, ◌+◌, String, ◌≡◌, refl, Option, none, some, List, [], ◌∷◌, All, arith}
use scraper_project.Errors.{ok, err, migration_error}
use scraper_project.Migrations.{MigrationFile, Schema, apply_file, apply_files, apply_migrations}
use scraper_project.Migrations.Again.{Spares, apply_migrations_twice}

abbrev text_itself : String → String
text_itself text = text

abbrev counted : String → Schema ℕ → Option (Schema ℕ)
counted sql s = some (record s { tables = s.tables + 1 })

spared :
    (file : MigrationFile) (s s' : Schema ℕ)
    → counted file.sql s ≡ some s'
    → s'.schema_migrations ≡ s.schema_migrations
spared file s s' h = ground arith

abbrev files : List MigrationFile
files =
    record { name = "0001_runtime_schema.sql"; sql = "CREATE"; applied_at = "t1" }
    ∷ record { name = "0002_persistence_hardening.sql"; sql = "ALTER"; applied_at = "t2" }
    ∷ []

abbrev fresh : Schema ℕ
fresh = record { schema_migrations = none; tables = 0 }

abbrev migrated : Schema ℕ
migrated = (apply_migrations text_itself counted files fresh).1

two_scripts : migrated.tables ≡ 2
unfolding apply_migrations apply_files apply_file
two_scripts = refl

first_run : apply_migrations text_itself counted files fresh ≡ (ok tt, migrated)
unfolding apply_migrations apply_files apply_file
first_run = refl

-- A file that has changed is refused.
changed_file :
    apply_migrations text_itself counted
      (record { name = "0001_runtime_schema.sql"; sql = "DROP"; applied_at = "t3" } ∷ [])
      migrated
    ≡ (err migration_error, migrated)
unfolding apply_migrations apply_files apply_file
changed_file = refl

spares : (files : List MigrationFile) → All (Spares text_itself counted) files
spares [] = tt
spares (file ∷ files) = (spared file, spares files)

apply_migrations_twice_example :
    apply_migrations text_itself counted files migrated ≡ (ok tt, migrated)
apply_migrations_twice_example =
    apply_migrations_twice text_itself counted files fresh migrated (spares files) first_run
