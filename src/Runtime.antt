-- ===== src/Runtime.antt =====
-- src/orchestration/runtime.py. A path is its text; the file system is a parameter: the free bytes of
-- the volume are given, and that `mkdir` makes the directories is not modelled.
use Prim.Native.String.{◌++◌ as ◌<>◌}
use scraper_project.Base.{ℕ, String, ltb, if◌then◌else◌, ◌==◌}
use scraper_project.Errors.{Result, ok, err, value_error, runtime_safety_error}
use scraper_project.Contracts.Value.{ℤ, pos, negsuc}

pub record RuntimePaths : Type 0 where
  pub root : String
  pub database : String
  pub checkpoints : String
  pub snapshots : String
  pub logs : String
  pub exports : String

-- `path / name`, for a resolved path
abbrev pub joined : String → String → String
joined path name = if path == "/" then path <> name else path <> "/" <> name

-- `resolved` is `root.resolve()`.
abbrev pub from_root : String → RuntimePaths
from_root resolved = record {
  root = resolved;
  database = joined resolved "database";
  checkpoints = joined resolved "checkpoints";
  snapshots = joined resolved "snapshots";
  logs = joined resolved "logs";
  exports = joined resolved "exports";
}

unfoldable pub require_free_space : ℕ → ℤ → Result ℕ
require_free_space free_bytes (negsuc n) = err value_error
require_free_space free_bytes (pos minimum_free_bytes) =
    if ltb free_bytes minimum_free_bytes then err runtime_safety_error else ok free_bytes
