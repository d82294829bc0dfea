-- ===== src/Repositories/DatasetBatches/RoundTrip.antt =====
-- `record` and `get` of `DatasetBatchRepository` of src/database/repositories.py.
use scraper_project.Base.{
  ℕ, ◌+◌, String, ◌≡◌, refl, ap, ◌∙◌, inl, inr, Option, some, Bool, ◌&&◌, List, [], ◌∷◌, arith,
  if◌then◌else◌, eq_refl, Bool-cases,
}
use scraper_project.Errors.{ok}
use scraper_project.Timestamp.{Datetime, timestamp}
use scraper_project.Timestamp.Iso.{isoformat}
use scraper_project.Contracts.Value.{pos, Value}
use scraper_project.Contracts.Models.{DatasetBatchManifest}
use scraper_project.Contracts.Text.{codes}
use scraper_project.Contracts.Checks.{check_manifest, all_terminal, is_terminal_state, sum_counts}
use scraper_project.Contracts.Payload.{
  parse_utc_timestamp, texts_of, counts_in, of_counts, of_texts, mapping,
}
use scraper_project.Json.{sorted_fields, sorted_items, sorted_value, insert_field, codes_le}
use scraper_project.Database.{Database}
use scraper_project.Database.Table.Laws.{select_first-append_self}
use scraper_project.Repositories.DatasetBatches.{has_batch_id, new_batch, record_batch, get}
use scraper_project.Repositories.DatasetBatches.Stored.{payload_of, manifest_of}

-- The counts in the order of their states: a mapping is read back in the order of its keys.
abbrev insert_count : String → ℕ → List (String × ℕ) → List (String × ℕ)
insert_count state n [] = (state, n) ∷ []
insert_count state n ((other, k) ∷ counts) =
    let rest = insert_count state n counts in
    if codes_le (codes state) (codes other)
    then (state, n) ∷ (other, k) ∷ counts
    else (other, k) ∷ rest

abbrev pub sort_counts : List (String × ℕ) → List (String × ℕ)
sort_counts [] = []
sort_counts ((state, n) ∷ counts) = insert_count state n (sort_counts counts)

abbrev pub with_sorted_counts : DatasetBatchManifest → DatasetBatchManifest
with_sorted_counts m = record m { terminal_state_counts = sort_counts m.terminal_state_counts }

insert_field-of_counts :
    (state : String) (n : ℕ) (counts : List (String × ℕ))
    → insert_field state (Value.int (pos n)) (of_counts counts)
      ≡ of_counts (insert_count state n counts)
unfolding insert_field
insert_field-of_counts state n [] = refl
insert_field-of_counts state n ((other, k) ∷ counts) =
    ground (arith, insert_field-of_counts state n counts)

sorted_fields-of_counts :
    (counts : List (String × ℕ)) → sorted_fields (of_counts counts) ≡ of_counts (sort_counts counts)
unfolding sorted_fields sorted_value
sorted_fields-of_counts [] = refl
sorted_fields-of_counts ((state, n) ∷ counts) =
    rw (sorted_fields-of_counts counts) (insert_field-of_counts state n (sort_counts counts))

sorted_items-of_texts : (texts : List String) → sorted_items (of_texts texts) ≡ of_texts texts
unfolding sorted_items sorted_value
sorted_items-of_texts [] = refl
sorted_items-of_texts (text ∷ texts) = ground (arith, sorted_items-of_texts texts)

texts_of-of_texts : (texts : List String) → texts_of (of_texts texts) ≡ ok texts
texts_of-of_texts [] = refl
texts_of-of_texts (text ∷ texts) = ground (arith, texts_of-of_texts texts)

counts_in-of_counts : (counts : List (String × ℕ)) → counts_in (of_counts counts) ≡ ok counts
counts_in-of_counts [] = refl
counts_in-of_counts ((state, n) ∷ counts) = ground (arith, counts_in-of_counts counts)

and_swap : (a b c : Bool) → (a && (b && c)) ≡ (b && (a && c))
and_swap a b c = ground arith

add_swap : (a b c : ℕ) → a + (b + c) ≡ b + (a + c)
add_swap a b c = omega arith

insert_count-kept :
    (state : String) (n : ℕ) (counts : List (String × ℕ))
    → (all_terminal (insert_count state n counts) ≡ all_terminal ((state, n) ∷ counts))
      × (sum_counts (insert_count state n counts) ≡ sum_counts ((state, n) ∷ counts))
insert_count-kept state n [] = (refl, refl)
insert_count-kept state n ((other, k) ∷ counts) =
    let (terminal, sum) = insert_count-kept state n counts in
    elim (Bool-cases (codes_le (codes state) (codes other))) [
      | inl first ↦ rw first (refl, refl)
      | inr later ↦ rw later (
        ap (λ b. is_terminal_state other && b) terminal
            ∙ and_swap (is_terminal_state other) (is_terminal_state state) (all_terminal counts),
        ap (λ a. k + a) sum ∙ add_swap k n (sum_counts counts),
      )
    ]

sort_counts-kept :
    (counts : List (String × ℕ))
    → (all_terminal (sort_counts counts) ≡ all_terminal counts)
      × (sum_counts (sort_counts counts) ≡ sum_counts counts)
sort_counts-kept [] = (refl, refl)
sort_counts-kept ((state, n) ∷ counts) =
    let (terminal, sum) = insert_count-kept state n (sort_counts counts) in
    let (rest_terminal, rest_sum) = sort_counts-kept counts in
    (
      terminal ∙ ap (λ b. is_terminal_state state && b) rest_terminal,
      sum ∙ ap (λ a. n + a) rest_sum,
    )

check-sorted : (m : DatasetBatchManifest) → check_manifest (with_sorted_counts m) ≡ check_manifest m
unfolding check_manifest
check-sorted m =
    let (terminal, sum) = sort_counts-kept m.terminal_state_counts in rw (terminal) (rw sum refl)

-- The payload in the order of its keys.
sorted-payload :
    (m : DatasetBatchManifest)
    → sorted_fields (payload_of m)
      ≡ mapping (
          ("acquisition_versions", Value.array (sorted_items (of_texts m.acquisition_versions)))
          ∷ ("batch_id", Value.str m.batch_id)
          ∷ ("batch_version", Value.str m.batch_version)
          ∷ ("contract_version", Value.str m.contract_version)
          ∷ ("created_at", Value.str (isoformat (timestamp m.created_at)))
          ∷ ("known_limitations", Value.array (sorted_items (of_texts m.known_limitations)))
          ∷ ("manifest_checksum", Value.str m.manifest_checksum)
          ∷ ("parser_versions", Value.array (sorted_items (of_texts m.parser_versions)))
          ∷ ("proxy_bytes_used", Value.int (pos m.proxy_bytes_used))
          ∷ ("record_count", Value.int (pos m.record_count))
          ∷ ("records_checksum", Value.str m.records_checksum)
          ∷ ("records_path", Value.str m.records_path)
          ∷ ("snapshot_date", Value.str m.snapshot_date)
          ∷ ("source_name", Value.str m.source_name)
          ∷ (
            "terminal_state_counts",
            Value.object (sorted_fields (of_counts m.terminal_state_counts)),
          )
          ∷ [])
unfolding sorted_fields sorted_value insert_field
sorted-payload m = refl

manifest_of-payload :
    (fromisoformat : String → Option Datetime) (m : DatasetBatchManifest)
    → check_manifest m ≡ ok tt
    → fromisoformat (isoformat (timestamp m.created_at)) ≡ some m.created_at
    → manifest_of fromisoformat (sorted_fields (payload_of m)) ≡ ok (with_sorted_counts m)
unfolding manifest_of parse_utc_timestamp
manifest_of-payload fromisoformat m checked read = rw (sorted-payload m) (
    rw (sorted_items-of_texts m.acquisition_versions) (
      rw (sorted_items-of_texts m.parser_versions) (
        rw (sorted_items-of_texts m.known_limitations) (
          rw (sorted_fields-of_counts m.terminal_state_counts) ground (
            arith,
            read,
            texts_of-of_texts m.acquisition_versions,
            texts_of-of_texts m.parser_versions,
            texts_of-of_texts m.known_limitations,
            counts_in-of_counts (sort_counts m.terminal_state_counts),
            check-sorted m,
          )))))

-- A manifest that its contract accepts and that has been recorded is read back under its
-- identifier, with its counts in the order of their states, if `fromisoformat` reads the text of its
-- instant as that instant.
pub get-record_batch :
    (fromisoformat : String → Option Datetime) (m : DatasetBatchManifest) (db db' : Database)
    → check_manifest m ≡ ok tt
    → fromisoformat (isoformat (timestamp m.created_at)) ≡ some m.created_at
    → record_batch m db ≡ (ok tt, db')
    → (get fromisoformat m.batch_id db').0 ≡ ok (some (with_sorted_counts m))
unfolding record_batch get new_batch
get-record_batch fromisoformat m db db' checked read done = ground (
  arith,
  done,
  manifest_of-payload fromisoformat m checked read,
  select_first-append_self (has_batch_id m.batch_id) db.dataset_batch_manifests (new_batch m),
  eq_refl m.batch_id,
)
