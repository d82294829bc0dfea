-- ===== src/Contracts/Url.antt =====
-- The scheme and the network location that `urlparse` reads, for `require_http_url` of
-- src/contracts/validation.py.
use scraper_project.Base.{
  ℕ, Bool, false, not, ◌&&◌, ◌||◌, Option, none, some, List, [], ◌∷◌, leb, nat_eq, if◌then◌else◌,
}
use scraper_project.Contracts.Text.{between, all_of, lower}

-- `lstrip` of the control characters and the space
drop_controls : List ℕ → List ℕ
drop_controls [] = []
drop_controls (c ∷ cs) = let rest = drop_controls cs in if leb c 32 then rest else c ∷ cs

-- Tabs and line ends are removed everywhere.
remove_breaks : List ℕ → List ℕ
remove_breaks [] = []
remove_breaks (c ∷ cs) =
    let rest = remove_breaks cs in
    if nat_eq c 9 || nat_eq c 10 || nat_eq c 13 then rest else c ∷ rest

is_scheme_code : ℕ → Bool
is_scheme_code c =
    between 97 122 c
    || between 65 90 c
    || between 48 57 c
    || nat_eq c 43
    || nat_eq c 45
    || nat_eq c 46

-- The text before the first colon and the text after it.
split_colon : List ℕ → Option (List ℕ × List ℕ)
split_colon [] = none
split_colon (c ∷ cs) =
    let rest = split_colon cs in
    if nat_eq c 58
    then some ([], cs)
    else elim rest [ none ↦ none | some (scheme, url) ↦ some (c ∷ scheme, url) ]

-- A scheme starts with a letter of ASCII.
starts_with_letter : List ℕ → Bool
starts_with_letter [] = false
starts_with_letter (c ∷ cs) = between 97 122 c || between 65 90 c

split_scheme : List ℕ → List ℕ × List ℕ
unfolding split_colon starts_with_letter is_scheme_code
split_scheme url = elim (split_colon url) [
  | none ↦ ([], url)
  | some (scheme, rest) ↦
      if not (starts_with_letter scheme) || not (all_of is_scheme_code scheme)
      then ([], url)
      else (lower scheme, rest)
]

until_delimiter : List ℕ → List ℕ
until_delimiter [] = []
until_delimiter (c ∷ cs) =
    let rest = until_delimiter cs in
    if nat_eq c 47 || nat_eq c 63 || nat_eq c 35 then [] else c ∷ rest

-- What follows two slashes, up to the delimiter; nothing where they are missing.
netloc_of : List ℕ → List ℕ
unfolding until_delimiter
netloc_of (c ∷ d ∷ url) = if nat_eq c 47 && nat_eq d 47 then until_delimiter url else []
netloc_of _ = []

-- The scheme and the network location.
unfoldable pub urlparse : List ℕ → List ℕ × List ℕ
unfolding drop_controls remove_breaks split_scheme netloc_of
urlparse url =
    let (scheme, rest) = split_scheme (remove_breaks (drop_controls url)) in
    (scheme, netloc_of rest)
