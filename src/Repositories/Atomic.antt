-- ===== src/Repositories/Atomic.antt =====
-- The operations of src/database/repositories.py that raise, and the database that they leave.
use scraper_project.Base.{◌≡◌}
use scraper_project.Errors.{Result, ok, err}
use scraper_project.Timestamp.{Timestamp}
use scraper_project.Database.{Database}
use scraper_project.Repositories.Crawls
use scraper_project.Repositories.Observations
use scraper_project.Repositories.Checkpoints
use scraper_project.Repositories.Snapshots
use scraper_project.Repositories.ParserRuns
use scraper_project.Repositories.ProxyUsage
use scraper_project.Repositories.DatasetBatches

-- Where the result is an exception, the database is `db`.
abbrev pub Unchanged : {A : Type 0} → Database → Result A × Database → Type 0
Unchanged db (ok a, db') = Unit
Unchanged db (err e, db') = db' ≡ db
