-- ===== src/Worker/Served.antt =====
-- What `_fetch_fixture` of src/orchestration/synthetic_worker.py takes for a listing.
use scraper_project.Base.{
  ℕ, ap, ◌∙◌, ◌≡◌, ◌⊎◌, refl, subst, sym, true, false, some, List, [], ◌∷◌, arith, eq_iff, inl, inr,
  Option-cases, Bool-cases, nat_eq,
}
use scraper_project.Errors.{Result-cases, ok}
use scraper_project.Contracts.Value.{Value, Fields}
use scraper_project.Contracts.Text.{codes, same_codes}
use scraper_project.Contracts.Payload.{entry}
use scraper_project.Contracts.Url.{urlparse}
use scraper_project.Worker.Environment.{
  Platform, Fetch, Response, unavailable, failing, answered, decoded,
}
use scraper_project.Worker.Fixture.{
  check_url, body_of, identified, fetch_fixture, hostname, is_local_fixture_host, text,
}

same_codes-eq : (cs ds : List ℕ) → same_codes cs ds ≡ true → cs ≡ ds
same_codes-eq [] [] h = refl
same_codes-eq [] (d ∷ ds) h = ground arith
same_codes-eq (c ∷ cs) [] h = ground arith
same_codes-eq (c ∷ cs) (d ∷ ds) h = ground (arith, same_codes-eq cs ds)

same_codes_refl : (cs : List ℕ) → same_codes cs cs ≡ true
same_codes_refl [] = refl
same_codes_refl (c ∷ cs) = ground (arith, same_codes_refl cs)

-- The URL is one of the local fixture server.
abbrev pub IsLocal : Platform → Type 0
IsLocal env =
    let (scheme, netloc) = urlparse (codes env.fixture_url) in
    (env.bad_netloc netloc ≡ false)
    × (scheme ≡ codes "http")
    × ((hostname netloc ≡ codes "localhost")
        ⊎ ((hostname netloc ≡ codes "127.0.0.1") ⊎ (hostname netloc ≡ codes "fixture-server")))

host-local :
    (host : List ℕ)
    → is_local_fixture_host host ≡ true
    → (host ≡ codes "localhost") ⊎ ((host ≡ codes "127.0.0.1") ⊎ (host ≡ codes "fixture-server"))
unfolding is_local_fixture_host
host-local host h = ground (
  arith,
  same_codes-eq host (codes "localhost"),
  same_codes-eq host (codes "127.0.0.1"),
  same_codes-eq host (codes "fixture-server"),
)

module _ (env : Platform) (call : Fetch) (listing : Fields)
    (done : fetch_fixture env call ≡ ok listing) where
  url-checked :
      let (scheme, netloc) = urlparse (codes env.fixture_url) in
      (env.bad_netloc netloc ≡ false)
      × (same_codes scheme (codes "http") ≡ true)
      × (is_local_fixture_host (hostname netloc) ≡ true)
  unfolding fetch_fixture
  url-checked = ground (arith, done)

  payload-read :
      (payload : Value) × (body_of env (env.response call) ≡ ok payload)
      × (identified env payload ≡ ok listing)
  unfolding fetch_fixture
  payload-read = elim (Result-cases (check_url env)) [
    | inl (e, refused) ↦ ground (arith, refused, done)
    | inr (_, passed) ↦ elim (Result-cases (body_of env (env.response call))) [
      | inl (e, failed) ↦ ground (arith, passed, failed, done)
      | inr (payload, e) ↦ (payload, e, ground (arith, passed, e, done))
    ]
  ]

body-answered :
    (env : Platform) (response : Response) (payload : Value)
    → body_of env response ≡ ok payload
    → (body : List ℕ) × (response ≡ answered 200 body) × (env.decode_json body ≡ decoded payload)
unfolding body_of
body-answered env unavailable payload h = ground arith
body-answered env (failing e) payload h = ground arith
body-answered env (answered status body) payload h = elim (Bool-cases (nat_eq status 200)) [
  | inl e ↦ (body, ground arith, ground arith)
  | inr other ↦ ground arith
]

named-source :
    (env : Platform) (fields : Fields) (value : Value) (listing : Fields)
    → entry "source_name" fields ≡ some value
    → identified env (Value.object fields) ≡ ok listing
    → (fields ≡ listing) × (value ≡ Value.str "synthetic_fixture")
unfolding identified text
named-source env fields (Value.str name) listing e h =
    ground (arith, e, h, eq_iff name "synthetic_fixture")
named-source env fields Value.null listing e h = ground arith
named-source env fields (Value.bool b) listing e h = ground arith
named-source env fields (Value.int n) listing e h = ground arith
named-source env fields (Value.float x) listing e h = ground arith
named-source env fields (Value.array items) listing e h = ground arith
named-source env fields (Value.object other) listing e h = ground arith

identified-source :
    (env : Platform) (payload : Value) (listing : Fields)
    → identified env payload ≡ ok listing
    → (payload ≡ Value.object listing)
      × (entry "source_name" listing ≡ some (Value.str "synthetic_fixture"))
unfolding identified text
identified-source env (Value.object fields) listing h =
    elim (Option-cases (entry "source_name" fields)) [
      | inl e ↦ ground arith
      | inr (value, e) ↦
          let (same, named) = named-source env fields value listing e h in
          (
            ap Value.object same,
            subst (λ f. entry "source_name" f ≡ some (Value.str "synthetic_fixture")) same
                (e ∙ ap some named),
          )
    ]
identified-source env Value.null listing h = ground arith
identified-source env (Value.bool b) listing h = ground arith
identified-source env (Value.int n) listing h = ground arith
identified-source env (Value.float x) listing h = ground arith
identified-source env (Value.str name) listing h = ground arith
identified-source env (Value.array items) listing h = ground arith

-- A fetch gives a listing only if the URL is `http` on localhost, 127.0.0.1 or fixture-server, the
-- server has answered with status 200 and the listing as its JSON, and the listing is of the source
-- synthetic_fixture.
pub fetch_fixture-IsLocal :
    (env : Platform) (call : Fetch) (listing : Fields)
    → fetch_fixture env call ≡ ok listing
    → IsLocal env
      × ((body : List ℕ) × (env.response call ≡ answered 200 body)
          × (env.decode_json body ≡ decoded (Value.object listing)))
      × (entry "source_name" listing ≡ some (Value.str "synthetic_fixture"))
fetch_fixture-IsLocal env call listing done =
    let (good, scheme, host) = url-checked env call listing done in
    let (payload, read, taken) = payload-read env call listing done in
    let (same, source) = identified-source env payload listing taken in
    (
      (good, same_codes-eq _ (codes "http") scheme, host-local _ host),
      body-answered env (env.response call) (Value.object listing) (rw (sym same) read),
      source,
    )
