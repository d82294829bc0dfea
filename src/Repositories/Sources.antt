-- ===== src/Repositories/Sources.antt =====
-- `SourceRegistryRepository` of src/database/repositories.py.
use scraper_project.Base.{String, Bool, Option, if◌then◌else◌, ◌==◌}
use scraper_project.Timestamp.{Timestamp}
use scraper_project.Database.Rows.{SourceRow}
use scraper_project.Database.Table.{exists, update, append_row}
use scraper_project.Database.Transaction.{Exec, modify, write_transaction}

-- WHERE source_name=?
abbrev pub has_source_name : String → SourceRow → Bool
has_source_name name row = row.source_name == name

-- INSERT … ON CONFLICT(source_name) DO UPDATE
unfoldable pub upsert : String → Bool → String → Option String → Timestamp → Exec (Unit {0})
unfolding write_transaction
upsert source_name enabled identity_strategy identity_notes now = write_transaction do
  let excluded : SourceRow = record {
    source_name = source_name;
    enabled = enabled;
    identity_strategy = identity_strategy;
    identity_notes = identity_notes;
    updated_at = now;
  }
  modify λ db. record db {
    source_registry_state =
        if exists (has_source_name source_name) db.source_registry_state
        then update (has_source_name source_name) (λ _. excluded) db.source_registry_state
        else append_row excluded db.source_registry_state;
  }
