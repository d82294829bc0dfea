-- ===== src/FixtureServer.antt =====
-- src/orchestration/fixture_server.py: what the local server answers. The socket and the threads are
-- not modelled; the body is the text of the payload.
use scraper_project.Base.{ℕ, String, [], ◌∷◌, ◌==◌, if◌then◌else◌}
use scraper_project.Contracts.Value.{Value, Fields}
use scraper_project.Contracts.Payload.{mapping}

abbrev pub synthetic_listing : Fields
synthetic_listing = mapping (
    ("source_name", Value.str "synthetic_fixture")
    ∷ ("source_listing_key", Value.str "synthetic-listing-001")
    ∷ ("listing_url", Value.str "https://fixture.invalid/listings/synthetic-listing-001")
    ∷ ("visible_title", Value.str "Synthetic fixture boat")
    ∷ ("visible_price_text", Value.str "100000")
    ∷ ("visible_currency", Value.str "EUR")
    ∷ ("visible_specs", Value.object (mapping (("length_m", Value.str "10.0") ∷ [])))
    ∷ ("visible_status", Value.str "active")
    ∷ ("card_fingerprint", Value.str "synthetic-card-v1")
    ∷ [])

-- `do_GET`: the status and the payload
unfoldable pub do_get : String → ℕ × Fields
do_get path =
    if path == "/health"
    then (200, mapping (("status", Value.str "ok") ∷ []))
    else if path == "/listing.json"
    then (200, synthetic_listing)
    else (404, mapping (("error", Value.str "not found") ∷ []))
