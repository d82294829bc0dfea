-- ===== src/Repositories/ProxyUsage/Totals.antt =====
-- The grouped sums of `ProxyUsageRepository.totals` against sums over the ledger.
use Prim.Native.Nat.{Ordering}
use text.Mathlib.TextEquality.{path_by_compare}
use scraper_project.Base.{
  ℕ, ◌+◌, ◌≤◌, true, eq_refl, String, ◌≡◌, refl, ◌&&◌, List, [], ◌∷◌, arith, ◌==◌, if◌then◌else◌,
}
use scraper_project.Errors.{ok}
use scraper_project.Database.{Database}
use scraper_project.Database.Rows.{LedgerRow}
use scraper_project.Database.Transaction.{largest_integer}
use scraper_project.Repositories.ProxyUsage.{
  Total, add_row, group_rows, totals, all_fit, compare_group, total_of, with_row,
}

-- The sum of a column over the ledger's rows of one source and label.
abbrev pub ledger_sum : (LedgerRow → ℕ) → String → String → List LedgerRow → ℕ
ledger_sum column source label [] = 0
ledger_sum column source label (row ∷ rows) =
    (if row.source_name == source && row.proxy_pool_label == label then column row else 0)
    + ledger_sum column source label rows

-- The same over the groups that are returned.
abbrev pub group_sum : (Total → ℕ) → String → String → List Total → ℕ
group_sum column source label [] = 0
group_sum column source label (total ∷ totals) =
    (if total.source_name == source && total.proxy_pool_label == label then column total else 0)
    + group_sum column source label totals

compare_group-eq :
    (row : LedgerRow) (total : Total)
    → compare_group row total ≡ Ordering.eq
    → (row.source_name ≡ total.source_name) × (row.proxy_pool_label ≡ total.proxy_pool_label)
compare_group-eq row total h = ground (
  arith,
  path_by_compare row.source_name total.source_name,
  path_by_compare row.proxy_pool_label total.proxy_pool_label,
)

module _ (column : LedgerRow → ℕ) (total_column : Total → ℕ)
    (one : (row : LedgerRow) → total_column (total_of row) ≡ column row)
    (more : (row : LedgerRow) (total : Total)
      → total_column (with_row row total) ≡ column row + total_column total)
    (source label : String) where
  group_sum-add_row :
      (row : LedgerRow) (ts : List Total)
      → group_sum total_column source label (add_row row ts)
        ≡ (if row.source_name == source && row.proxy_pool_label == label then column row else 0)
          + group_sum total_column source label ts
  unfolding add_row
  group_sum-add_row row [] = ground (arith, one row)
  group_sum-add_row row (total ∷ ts) =
      ground (arith, compare_group-eq row total, one row, more row total, group_sum-add_row row ts)

  group_sum-group_rows :
      (rows : List LedgerRow)
      → group_sum total_column source label (group_rows rows) ≡ ledger_sum column source label rows
  unfolding group_rows
  group_sum-group_rows [] = refl
  group_sum-group_rows (row ∷ rows) =
      ground (arith, group_sum-add_row row (group_rows rows), group_sum-group_rows rows)

group_sum-least :
    (column : Total → ℕ) (limit : ℕ) (total : Total) (ts : List Total)
    → ((source label : String) → group_sum column source label (total ∷ ts) ≤ limit)
    → (column total ≤ limit) × ((source label : String) → group_sum column source label ts ≤ limit)
group_sum-least column limit total ts h = (
  ground (
    arith,
    h total.source_name total.proxy_pool_label,
    eq_refl total.source_name,
    eq_refl total.proxy_pool_label,
  ),
  λ source label. ground (arith, h source label),
)

sums-fit :
    (ts : List Total)
    → ((source label : String) → group_sum (λ t. t.bytes_sent) source label ts ≤ largest_integer)
    → ((source label : String)
        → group_sum (λ t. t.bytes_received) source label ts ≤ largest_integer)
    → all_fit ts ≡ true
unfolding all_fit
sums-fit [] sent received = refl
sums-fit (total ∷ ts) sent received =
    let (head_sent, tail_sent) =
      group_sum-least (λ t. t.bytes_sent) largest_integer total ts sent in
    let (head_received, tail_received) =
      group_sum-least (λ t. t.bytes_received) largest_integer total ts received in
    ground (arith, head_sent, head_received, sums-fit ts tail_sent tail_received)

-- If the sums of every source and label are 64-bit integers, `totals` does not raise. For every source
-- and label, the bytes sent of its groups add up to the
-- bytes sent of the ledger's rows of that source and label, and so do the bytes received.
pub totals-sums :
    (db : Database)
    → ((source label : String)
        → (ledger_sum (λ r. r.bytes_sent) source label db.proxy_usage_ledger ≤ largest_integer)
          × (ledger_sum (λ r. r.bytes_received) source label db.proxy_usage_ledger
              ≤ largest_integer))
    → (groups : List Total) × (totals db ≡ (ok groups, db))
      × ((source label : String)
          → (group_sum (λ t. t.bytes_sent) source label groups
              ≡ ledger_sum (λ r. r.bytes_sent) source label db.proxy_usage_ledger)
            × (group_sum (λ t. t.bytes_received) source label groups
                ≡ ledger_sum (λ r. r.bytes_received) source label db.proxy_usage_ledger))
unfolding totals
totals-sums db small =
    let rows = db.proxy_usage_ledger in
    let sent =
      group_sum-group_rows (λ r. r.bytes_sent) (λ t. t.bytes_sent) (λ r. refl) (λ r t. refl) in
    let received =
      group_sum-group_rows (λ r. r.bytes_received) (λ t. t.bytes_received) (λ r. refl)
        (λ r t. refl) in
    let fit =
      sums-fit (group_rows rows)
        (λ source label. rw (sent source label rows) (small source label).0)
        (λ source label. rw (received source label rows) (small source label).1) in
    (
      group_rows rows,
      rw fit refl,
      λ source label. (sent source label rows, received source label rows),
    )
