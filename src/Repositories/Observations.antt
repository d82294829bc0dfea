-- ===== src/Repositories/Observations.antt =====
-- `ObservationRepository` of src/database/repositories.py.
pub mod Append
use scraper_project.Base.{String, Bool, true, false, not, Option, none, some, ◌==◌, if◌then◌else◌}
use scraper_project.Timestamp.{Timestamp, timestamp}
use scraper_project.Contracts.Models.{DiscoveryObservation}
use scraper_project.Database.{Database}
use scraper_project.Database.Rows.{IdentityRow, ObservationRow}
use scraper_project.Database.Table.{exists, update, append_row}
use scraper_project.Database.Transaction.{
  Exec, pure, gets, modify, require, write_transaction, ◌>>=◌, ◌>>◌,
}
use scraper_project.Repositories.Crawls.{has_run_id}
use scraper_project.Repositories.Jobs.{is_identity, new_identity}

-- `observation_id or str(uuid4())`: the empty text is false too.
abbrev pub given_or_fresh : Option String → String → String
given_or_fresh none fresh = fresh
given_or_fresh (some id) fresh = if id == "" then fresh else id

-- INSERT INTO source_listing_identity … ON CONFLICT DO UPDATE
upsert_identity : IdentityRow → Database → Database
upsert_identity row db =
    let same = is_identity row.source_name row.source_listing_key in
    record db {
      source_listing_identity =
          if exists same db.source_listing_identity
          then update same
              (λ old. record old {
                listing_url = row.listing_url;
                last_observed_at = row.last_observed_at;
              })
              db.source_listing_identity
          else append_row row db.source_listing_identity;
    }

abbrev pub new_observation : DiscoveryObservation → String → ObservationRow
new_observation observation record_id = record {
  observation_id = record_id;
  crawl_run_id = observation.crawl_run_id;
  source_name = observation.source_name;
  source_listing_key = observation.source_listing_key;
  listing_url = observation.listing_url;
  observed_at = timestamp observation.observed_at;
  visible_title = observation.visible_title;
  visible_price_text = observation.visible_price_text;
  visible_currency = observation.visible_currency;
  visible_specs_json = observation.visible_specs;
  visible_status = observation.visible_status;
  card_fingerprint = observation.card_fingerprint;
  discovery_partition = observation.discovery_partition;
}

-- The primary key and the two foreign keys are checked.
insert_observation : ObservationRow → Exec (Unit {0})
insert_observation row = do
  taken ← gets λ db.
      exists (λ (old : ObservationRow). old.observation_id == row.observation_id)
        db.discovery_observations
  require (not taken)
  run_known ← gets λ db. exists (has_run_id row.crawl_run_id) db.crawl_runs
  require run_known
  listing_known ←
      gets
        λ db. exists (is_identity row.source_name row.source_listing_key) db.source_listing_identity
  require listing_known
  modify λ db. record db { discovery_observations = append_row row db.discovery_observations }

-- `append`; `fresh` is the text of `uuid4()`.
unfoldable pub append : DiscoveryObservation → Option String → String → Exec String
unfolding upsert_identity insert_observation write_transaction
append observation observation_id fresh = do
  let record_id = given_or_fresh observation_id fresh
  write_transaction do
    modify (
        upsert_identity (
          new_identity observation.source_name observation.source_listing_key
            observation.listing_url (timestamp observation.observed_at)))
    insert_observation (new_observation observation record_id)
  pure record_id
