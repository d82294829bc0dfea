-- ===== src/Repositories/ProxyUsage.antt =====
-- `ProxyUsageRepository` of src/database/repositories.py.
pub mod Totals
use Prim.Native.Nat.{Ordering}
use Prim.Native.String.{compare}
use scraper_project.Base.{
  ℕ, ◌+◌, String, Bool, true, false, not, ◌&&◌, Option, none, some, List, [], ◌∷◌, ◌==◌,
}
use scraper_project.Errors.{Error, Result, ok, err, value_error, overflow_error, operational_error}
use scraper_project.Timestamp.{Timestamp}
use scraper_project.Contracts.Value.{ℤ, pos, negsuc}
use scraper_project.Database.{Database}
use scraper_project.Database.Rows.{JobRow, LedgerRow}
use scraper_project.Database.Table.{exists, append_row}
use scraper_project.Database.Table.Key.{has_key}
use scraper_project.Database.Transaction.{
  Exec, pure, gets, modify, require, guard, lift, fits, write_transaction, read_connection, ◌>>=◌,
  ◌>>◌,
}
use scraper_project.Repositories.Crawls.{has_run_id}

-- One round of the loop that checks the two byte counts.
abbrev pub non_negative : ℤ → Result ℕ
non_negative (pos n) = ok n
non_negative (negsuc n) = err value_error

-- `append`; a byte count of more than 64 bits cannot be bound. `fresh` is the text of `uuid4()`,
-- and a job that is given must exist.
unfoldable pub append :
    String → String → String → ℤ → ℤ → Option String → String → Timestamp → Exec String
unfolding write_transaction
append crawl_run_id source_name proxy_pool_label bytes_sent bytes_received job_id fresh now = do
  sent ← lift (non_negative bytes_sent)
  received ← lift (non_negative bytes_received)
  write_transaction do
    guard (not (fits sent && fits received)) overflow_error
    taken ← gets λ db. exists (λ (row : LedgerRow). row.ledger_id == fresh) db.proxy_usage_ledger
    require (not taken)
    run_known ← gets λ db. exists (has_run_id crawl_run_id) db.crawl_runs
    require run_known
    job_known ← gets λ db. elim job_id [
      | none ↦ true
      | some id ↦ exists (has_key (λ (job : JobRow). job.job_id) id) db.detail_fetch_jobs
    ]
    require job_known
    let row : LedgerRow = record {
      ledger_id = fresh;
      crawl_run_id = crawl_run_id;
      job_id = job_id;
      source_name = source_name;
      proxy_pool_label = proxy_pool_label;
      recorded_at = now;
      bytes_sent = sent;
      bytes_received = received;
    }
    modify λ db. record db { proxy_usage_ledger = append_row row db.proxy_usage_ledger }
  pure fresh

pub record Total : Type 0 where
  pub source_name : String
  pub proxy_pool_label : String
  pub bytes_sent : ℕ
  pub bytes_received : ℕ

-- ORDER BY source_name, proxy_pool_label
abbrev pub compare_group : LedgerRow → Total → Ordering
compare_group row total = elim (compare row.source_name total.source_name) [
  | Ordering.lt ↦ Ordering.lt
  | Ordering.eq ↦ compare row.proxy_pool_label total.proxy_pool_label
  | Ordering.gt ↦ Ordering.gt
]

abbrev pub total_of : LedgerRow → Total
total_of row = record {
  source_name = row.source_name;
  proxy_pool_label = row.proxy_pool_label;
  bytes_sent = row.bytes_sent;
  bytes_received = row.bytes_received;
}

-- SUM(bytes_sent), SUM(bytes_received) of a group with one more row
abbrev pub with_row : LedgerRow → Total → Total
with_row row total = record total {
  bytes_sent = row.bytes_sent + total.bytes_sent;
  bytes_received = row.bytes_received + total.bytes_received;
}

add_row : LedgerRow → List Total → List Total
add_row row [] = total_of row ∷ []
add_row row (total ∷ totals) =
    let later = add_row row totals in
    elim (compare_group row total) [
      | Ordering.lt ↦ total_of row ∷ total ∷ totals
      | Ordering.eq ↦ with_row row total ∷ totals
      | Ordering.gt ↦ total ∷ later
    ]

-- GROUP BY source_name, proxy_pool_label
group_rows : List LedgerRow → List Total
unfolding add_row
group_rows [] = []
group_rows (row ∷ rows) = add_row row (group_rows rows)

-- SUM raises OperationalError where the sum is no 64-bit integer.
all_fit : List Total → Bool
all_fit [] = true
all_fit (total ∷ totals) = fits total.bytes_sent && fits total.bytes_received && all_fit totals

unfoldable pub totals : Exec (List Total)
unfolding group_rows all_fit read_connection
totals = do
  groups ← read_connection λ db. group_rows db.proxy_usage_ledger
  guard (not (all_fit groups)) operational_error
  pure groups
