-- ===== src/Registry/Sources.antt =====
-- The configurations that `load_source_registry` of src/source_registry/config.py returns.
use scraper_project.Base.{
  ℕ, String, ◌≡◌, refl, sym, subst, inl, inr, Bool, true, Option, none, some, List, [], ◌∷◌, arith,
  All, eq_iff,
}
use scraper_project.Errors.{Result-cases, ok, err}
use scraper_project.Registry.{
  Toml, TomlItems, TomlTable, entry_of, SourceDefinition, SourceRegistryConfig, Document,
  unique_names, check_source, built, with_notes, from_entries, read_source_definition, read_sources,
  sources_of, config_of, registry_of, load_source_registry,
}

module _ (is_alnum : ℕ → Bool) where
  -- The definition satisfies `SourceDefinition.__post_init__`.
  abbrev pub IsChecked : SourceDefinition → Type 0
  IsChecked source = check_source is_alnum source ≡ ok tt

  pub record IsLoaded (config : SourceRegistryConfig) : Type 0 where
    pub version : config.registry_version ≡ "0.1"
    pub unique : unique_names config.sources ≡ true
    pub checked : All IsChecked config.sources

  built-IsChecked :
      (source result : SourceDefinition) → built is_alnum source ≡ ok result → IsChecked result
  unfolding built
  built-IsChecked source result h = ground arith

  with_notes-IsChecked :
      (name : String) (enabled : Bool) (strategy : String) (notes : Option Toml)
      (result : SourceDefinition)
      → with_notes is_alnum name enabled strategy notes ≡ ok result
      → IsChecked result
  unfolding with_notes
  with_notes-IsChecked name enabled strategy notes result h = ground arith

  from_entries-IsChecked :
      (name enabled strategy notes : Option Toml) (result : SourceDefinition)
      → from_entries is_alnum name enabled strategy notes ≡ ok result
      → IsChecked result
  unfolding from_entries
  from_entries-IsChecked name enabled strategy notes result h = ground arith

  read_source_definition-IsChecked :
      (item : Toml) (result : SourceDefinition)
      → read_source_definition is_alnum item ≡ ok result
      → IsChecked result
  unfolding read_source_definition
  read_source_definition-IsChecked item result h = ground arith

  read_sources-IsChecked :
      (items : TomlItems) (sources : List SourceDefinition)
      → read_sources is_alnum items ≡ ok sources
      → All IsChecked sources
  unfolding read_sources
  read_sources-IsChecked TomlItems.nil sources h = ground arith
  read_sources-IsChecked (TomlItems.cons item items) [] h = ground arith
  read_sources-IsChecked (TomlItems.cons item items) (source ∷ sources) h =
      ground
        (arith, read_source_definition-IsChecked item source, read_sources-IsChecked items sources)

  sources_of-IsChecked :
      (value : Option Toml) (sources : List SourceDefinition)
      → sources_of is_alnum value ≡ ok sources
      → All IsChecked sources
  unfolding sources_of
  sources_of-IsChecked none sources h =
      subst (λ r. elim r [ ok s ↦ All IsChecked s | err e ↦ Unit ]) h tt
  sources_of-IsChecked (some (Toml.array items)) sources h = read_sources-IsChecked items sources h
  sources_of-IsChecked (some value) sources h = ground arith

  config_of-eq-ok :
      (version : Toml) (sources : List SourceDefinition) (config : SourceRegistryConfig)
      → config_of is_alnum version sources ≡ ok config
      → (config.registry_version ≡ "0.1")
        × (unique_names config.sources ≡ true)
        × (config.sources ≡ sources)
  unfolding config_of
  config_of-eq-ok (Toml.string version) sources config h = ground (arith, eq_iff version "0.1")
  config_of-eq-ok version sources config h = ground arith

  config_of-IsLoaded :
      (version : Toml) (sources : List SourceDefinition) (config : SourceRegistryConfig)
      → All IsChecked sources
      → config_of is_alnum version sources ≡ ok config
      → IsLoaded config
  config_of-IsLoaded version sources config checked h =
      let (right, unique, same) = config_of-eq-ok version sources config h in
      record {
        version = right;
        unique = unique;
        checked = subst (All IsChecked) (sym same) checked;
      }

  registry_of-IsLoaded :
      (version sources : Option Toml) (config : SourceRegistryConfig)
      → registry_of is_alnum version sources ≡ ok config
      → IsLoaded config
  unfolding registry_of
  registry_of-IsLoaded none sources config h = ground arith
  registry_of-IsLoaded (some version) sources config h =
      elim (Result-cases (sources_of is_alnum sources)) [
        | inl (e, refused) ↦ ground (arith, refused, h)
        | inr (definitions, read) ↦
            config_of-IsLoaded version definitions config
              (sources_of-IsChecked sources definitions read) (ground (arith, read, h))
      ]

  -- A configuration that is returned has version 0.1, names no source twice, and each of its sources
  -- satisfies the checks of a source definition.
  pub load_source_registry-IsLoaded :
      (document : Document) (config : SourceRegistryConfig)
      → load_source_registry is_alnum document ≡ ok config
      → IsLoaded config
  unfolding load_source_registry
  load_source_registry-IsLoaded Document.not_found config h = ground arith
  load_source_registry-IsLoaded Document.not_toml config h = ground arith
  load_source_registry-IsLoaded (Document.parsed payload) config h =
      registry_of-IsLoaded (entry_of "registry_version" payload) (entry_of "sources" payload) config
        (ground (arith, h))

-- The tables that describe a configuration.
abbrev pub notes_table : Option String → TomlTable
notes_table none = TomlTable.end
notes_table (some notes) = TomlTable.entry "identity_notes" (Toml.string notes) TomlTable.end

abbrev pub source_table : SourceDefinition → TomlTable
source_table source = TomlTable.entry "name" (Toml.string source.name) (
    TomlTable.entry "enabled" (Toml.boolean source.enabled) (
      TomlTable.entry "identity_strategy" (Toml.string source.identity_strategy)
        (notes_table source.identity_notes)))

abbrev pub source_items : List SourceDefinition → TomlItems
source_items [] = TomlItems.nil
source_items (source ∷ sources) =
    TomlItems.cons (Toml.table (source_table source)) (source_items sources)

abbrev pub config_table : SourceRegistryConfig → TomlTable
config_table config =
    TomlTable.entry "registry_version" (Toml.string config.registry_version)
      (TomlTable.entry "sources" (Toml.array (source_items config.sources)) TomlTable.end)

module _ (is_alnum : ℕ → Bool) where
  read_source_definition-table :
      (source : SourceDefinition)
      → IsChecked is_alnum source
      → read_source_definition is_alnum (Toml.table (source_table source)) ≡ ok source
  unfolding read_source_definition
  read_source_definition-table source h = ground (arith, h)

  read_sources-items :
      (sources : List SourceDefinition)
      → All (IsChecked is_alnum) sources
      → read_sources is_alnum (source_items sources) ≡ ok sources
  unfolding read_sources
  read_sources-items [] h = refl
  read_sources-items (source ∷ sources) h =
      ground (arith, read_source_definition-table source h.0, read_sources-items sources h.1)

  -- Each configuration that satisfies the checks is returned for the document that describes it.
  pub load_source_registry-table :
      (config : SourceRegistryConfig)
      → IsLoaded is_alnum config
      → load_source_registry is_alnum (Document.parsed (config_table config)) ≡ ok config
  unfolding load_source_registry
  load_source_registry-table config h = ground (
    arith,
    h.version,
    h.unique,
    eq_iff config.registry_version "0.1",
    read_sources-items config.sources h.checked,
  )
