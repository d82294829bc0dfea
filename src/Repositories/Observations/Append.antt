-- ===== src/Repositories/Observations/Append.antt =====
-- `ObservationRepository.append` of src/database/repositories.py: the listing and its history.
use scraper_project.Base.{
  ◌≡◌, String, inl, inr, refl, Bool, true, false, Option, none, some, List, [], ◌∷◌, arith, eq_refl,
  Option-cases,
}
use scraper_project.Errors.{ok}
use scraper_project.Timestamp.{timestamp}
use scraper_project.Contracts.Models.{DiscoveryObservation}
use scraper_project.Database.{Database}
use scraper_project.Database.Rows.{IdentityRow}
use scraper_project.Database.Table.{exists, select_first, update, append_row}
use scraper_project.Repositories.Jobs.{is_identity, new_identity}
use scraper_project.Repositories.Observations.{upsert_identity, append, given_or_fresh}

-- The listing's row after an observation: the first one keeps its time, the last one sets its own.
abbrev pub observed : DiscoveryObservation → Option IdentityRow → IdentityRow
observed o none = record {
  source_name = o.source_name;
  source_listing_key = o.source_listing_key;
  listing_url = o.listing_url;
  first_observed_at = timestamp o.observed_at;
  last_observed_at = timestamp o.observed_at;
}
observed o (some old) = record old {
  listing_url = o.listing_url;
  last_observed_at = timestamp o.observed_at;
}

identity-update :
    (source key : String) (change : IdentityRow → IdentityRow) (rows : List IdentityRow)
    → ((row : IdentityRow) → is_identity source key (change row) ≡ is_identity source key row)
    → select_first (is_identity source key) (update (is_identity source key) change rows)
      ≡ elim (select_first (is_identity source key) rows) [
        | none ↦ none
        | some row ↦ some (change row)
      ]
identity-update source key change [] same = refl
identity-update source key change (row ∷ rows) same =
    ground (arith, same row, identity-update source key change rows same)

identity-exists :
    (test : IdentityRow → Bool) (rows : List IdentityRow)
    → exists test rows ≡ elim (select_first test rows) [ none ↦ false | some _ ↦ true ]
identity-exists test [] = refl
identity-exists test (row ∷ rows) = ground (arith, identity-exists test rows)

identity-append :
    (test : IdentityRow → Bool) (row : IdentityRow) (rows : List IdentityRow)
    → select_first test rows ≡ none
    → test row ≡ true
    → select_first test (append_row row rows) ≡ some row
identity-append test row [] h hit = ground arith
identity-append test row (x ∷ rows) h hit = ground (arith, identity-append test row rows)

upsert-observed :
    (o : DiscoveryObservation) (db : Database)
    → let same = is_identity o.source_name o.source_listing_key in
      select_first same
        (upsert_identity
          (new_identity o.source_name o.source_listing_key o.listing_url (timestamp o.observed_at))
          db).source_listing_identity
      ≡ some (observed o (select_first same db.source_listing_identity))
unfolding upsert_identity
upsert-observed o db =
    let same = is_identity o.source_name o.source_listing_key in
    let now = timestamp o.observed_at in
    let rows = db.source_listing_identity in
    let change =
      λ (old : IdentityRow). record old { listing_url = o.listing_url; last_observed_at = now } in
    let row = new_identity o.source_name o.source_listing_key o.listing_url now in
    elim (Option-cases (select_first same rows)) [
      | inl e ↦ ground (
        arith,
        e,
        identity-exists same rows,
        identity-append same row rows,
        eq_refl o.source_name,
        eq_refl o.source_listing_key,
      )
      | inr (old, e) ↦ ground (
        arith,
        e,
        identity-exists same rows,
        identity-update o.source_name o.source_listing_key change rows (λ r. refl),
      )
    ]

-- An observation that is accepted is appended after all the others with each of its fields in the
-- column of that name, under the identifier that is returned, and the listing's row is the first
-- observation's with the address and the time of this one; the jobs are as before.
pub append-accepted :
    (o : DiscoveryObservation) (given : Option String) (fresh id : String) (db db' : Database)
    → append o given fresh db ≡ (ok id, db')
    → (id ≡ given_or_fresh given fresh)
      × (db'.discovery_observations
          ≡ append_row
              (record {
                observation_id = id;
                crawl_run_id = o.crawl_run_id;
                source_name = o.source_name;
                source_listing_key = o.source_listing_key;
                listing_url = o.listing_url;
                observed_at = timestamp o.observed_at;
                visible_title = o.visible_title;
                visible_price_text = o.visible_price_text;
                visible_currency = o.visible_currency;
                visible_specs_json = o.visible_specs;
                visible_status = o.visible_status;
                card_fingerprint = o.card_fingerprint;
                discovery_partition = o.discovery_partition;
              })
              db.discovery_observations)
      × (select_first (is_identity o.source_name o.source_listing_key) db'.source_listing_identity
          ≡ some (
              observed o (
                select_first
                  (is_identity o.source_name o.source_listing_key)
                  db.source_listing_identity)))
      × (db'.detail_fetch_jobs ≡ db.detail_fetch_jobs)
unfolding append
append-accepted o given fresh id db db' done = ground (arith, upsert-observed o db, done)
