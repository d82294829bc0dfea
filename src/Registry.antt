-- ===== src/Registry.antt =====
-- src/source_registry/config.py: the source registry, read from a parsed TOML document.
pub mod Sources
use scraper_project.Base.{
  ℕ, String, Bool, true, false, not, ◌&&◌, ◌||◌, Option, none, some, List, [], ◌∷◌, nat_eq, is_some,
  ◌==◌, if◌then◌else◌,
}
use scraper_project.Errors.{Result, ok, err, raise_if, registry_config_error, ◌andthen◌}
use scraper_project.Contracts.Value.{ℤ, Float}
use scraper_project.Contracts.Text.{codes, all_of}

-- What `tomllib` parses. A date or a time is given by its text.
mutual
  pub data Toml : Type 0 where
    string : String → Toml
    boolean : Bool → Toml
    integer : ℤ → Toml
    float : Float → Toml
    moment : String → Toml
    array : TomlItems → Toml
    table : TomlTable → Toml

  pub data TomlItems : Type 0 where
    nil : TomlItems
    cons : Toml → TomlItems → TomlItems

  pub data TomlTable : Type 0 where
    end : TomlTable
    entry : String → Toml → TomlTable → TomlTable

-- `value.get(key)`; a table has a key once.
abbrev pub entry_of : String → TomlTable → Option Toml
entry_of key TomlTable.end = none
entry_of key (TomlTable.entry other value rest) =
    if other == key then some value else entry_of key rest

pub record SourceDefinition : Type 0 where
  pub name : String
  pub enabled : Bool
  pub identity_strategy : String
  pub identity_notes : Option String

abbrev pub is_strategy : String → Bool
is_strategy s = s == "stable_source_key" || s == "deterministic_url_fallback"

-- `not self.identity_notes`
abbrev pub no_notes : Option String → Bool
no_notes none = true
no_notes (some notes) = notes == ""

-- The codes that `replace("_", "").replace("-", "")` leaves.
abbrev pub without_dashes : List ℕ → List ℕ
without_dashes [] = []
without_dashes (c ∷ cs) =
    let rest = without_dashes cs in if nat_eq c b'_' || nat_eq c b'-' then rest else c ∷ rest

abbrev pub is_source_key : String → Bool
is_source_key key =
    key == "name" || key == "enabled" || key == "identity_strategy" || key == "identity_notes"

abbrev pub is_registry_key : String → Bool
is_registry_key key = key == "registry_version" || key == "sources"

-- `set(value) - allowed` is empty.
abbrev pub only_keys : (String → Bool) → TomlTable → Bool
only_keys allowed TomlTable.end = true
only_keys allowed (TomlTable.entry key value rest) = allowed key && only_keys allowed rest

pub record SourceRegistryConfig : Type 0 where
  pub registry_version : String
  pub sources : List SourceDefinition

abbrev pub has_name : String → List SourceDefinition → Bool
has_name name [] = false
has_name name (source ∷ sources) = source.name == name || has_name name sources

-- `len(names) == len(set(names))`
abbrev pub unique_names : List SourceDefinition → Bool
unique_names [] = true
unique_names (source ∷ sources) = not (has_name source.name sources) && unique_names sources

-- What opening and parsing the file gives: it is missing, it is no TOML, or it is this document.
pub data Document : Type 0 where
  not_found not_toml : Document
  parsed : TomlTable → Document

-- `is_alnum` tells the characters that `str.isalnum` counts as letters and digits.
module _ (is_alnum : ℕ → Bool) where
  -- `name.replace("_", "").replace("-", "").isalnum()`; the empty text is not.
  name_ok : List ℕ → Bool
  name_ok [] = false
  name_ok (c ∷ cs) = all_of is_alnum (c ∷ cs)

  -- `SourceDefinition.__post_init__`, of fields that have their types
  unfoldable pub check_source : SourceDefinition → Result (Unit {0})
  unfolding name_ok
  check_source source =
      raise_if (not (name_ok (without_dashes (codes source.name)))) registry_config_error
      andthen raise_if (not (is_strategy source.identity_strategy)) registry_config_error
      andthen raise_if
          (source.identity_strategy == "deterministic_url_fallback"
            && no_notes source.identity_notes)
          registry_config_error

  built : SourceDefinition → Result SourceDefinition
  built source = elim (check_source source) [ ok _ ↦ ok source | err e ↦ err e ]

  -- The fields of the table, by their types; a missing one and one of another type are refused.
  with_notes : String → Bool → String → Option Toml → Result SourceDefinition
  unfolding built
  with_notes name enabled strategy none = built (record {
    name = name;
    enabled = enabled;
    identity_strategy = strategy;
    identity_notes = none;
  })
  with_notes name enabled strategy (some (Toml.string notes)) = built (record {
    name = name;
    enabled = enabled;
    identity_strategy = strategy;
    identity_notes = some notes;
  })
  with_notes name enabled strategy (some _) = err registry_config_error

  from_entries : Option Toml → Option Toml → Option Toml → Option Toml → Result SourceDefinition
  unfolding with_notes
  from_entries (some (Toml.string name)) (some (Toml.boolean enabled)) (some (Toml.string strategy))
        notes =
      with_notes name enabled strategy notes
  from_entries _ _ _ _ = err registry_config_error

  -- `_read_source_definition`
  unfoldable pub read_source_definition : Toml → Result SourceDefinition
  unfolding from_entries
  read_source_definition (Toml.table fields) =
      if only_keys is_source_key fields
      then from_entries (entry_of "name" fields) (entry_of "enabled" fields)
          (entry_of "identity_strategy" fields) (entry_of "identity_notes" fields)
      else err registry_config_error
  read_source_definition _ = err registry_config_error

  unfoldable pub read_sources : TomlItems → Result (List SourceDefinition)
  read_sources TomlItems.nil = ok []
  read_sources (TomlItems.cons item items) = elim (read_source_definition item) [
    | err e ↦ err e
    | ok source ↦ elim (read_sources items) [ err e ↦ err e | ok sources ↦ ok (source ∷ sources) ]
  ]

  -- `payload.get("sources", [])`
  sources_of : Option Toml → Result (List SourceDefinition)
  unfolding read_sources
  sources_of none = ok []
  sources_of (some (Toml.array items)) = read_sources items
  sources_of (some _) = err registry_config_error

  -- `SourceRegistryConfig.__post_init__`: the version is the text `0.1`, and no name comes twice.
  config_of : Toml → List SourceDefinition → Result SourceRegistryConfig
  config_of (Toml.string version) sources =
      if version == "0.1" && unique_names sources
      then ok (record { registry_version = version; sources = sources })
      else err registry_config_error
  config_of _ sources = err registry_config_error

  registry_of : Option Toml → Option Toml → Result SourceRegistryConfig
  unfolding sources_of config_of
  registry_of none sources = err registry_config_error
  registry_of (some version) sources = elim (sources_of sources) [
    | err e ↦ err e
    | ok definitions ↦ config_of version definitions
  ]

  -- `load_source_registry`
  unfoldable pub load_source_registry : Document → Result SourceRegistryConfig
  unfolding registry_of
  load_source_registry Document.not_found = err registry_config_error
  load_source_registry Document.not_toml = err registry_config_error
  load_source_registry (Document.parsed payload) =
      if only_keys is_registry_key payload
      then registry_of (entry_of "registry_version" payload) (entry_of "sources" payload)
      else err registry_config_error
