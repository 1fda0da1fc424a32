-- ===== src/Core/Gateway/Parse.antt =====
-- `GatewayUrl::parse`, over the url crate as a parameter.
use saiai_client.Prelude.{
  is_some, ℕ, ◌≤◌, ◌≡◌, ◌⊎◌, refl, Bool, true, false, not, ◌||◌, Option, none, some, [], ◌∷◌, Text,
  codes, text_eq, text_eq_iff, any, byte_len, ltb, ◌==◌, is_whitespace, trim, trim_end_while, arith,
  if◌then◌else◌,
}
use saiai_client.Prelude.Result.{ok, ◌>>=◌, ◌>>◌, refuse_if, ok_or, >>=-eq-ok}
use saiai_client.Core.Error.{Error, Outcome, invalid_gateway_url}

abbrev pub max_gateway_url_bytes : ℕ
max_gateway_url_bytes = 4096

-- The url crate: parsing, the accessors that `parse` reads, `set_path` and `as_str`.
pub record UrlCrate : Type 1 where
  pub Url : Type 0
  pub parse_url : Text → Option Url
  pub scheme : Url → Text
  pub host_str : Url → Option Text
  pub username : Url → Text
  pub password : Url → Option Text
  pub query : Url → Option Text
  pub fragment : Url → Option Text
  pub path : Url → Text
  pub set_path : Text → Url → Url
  pub as_str : Url → Text

unfoldable pub normalized_path : Text → Text
normalized_path path =
    if text_eq path (codes "/") then codes "/" else trim_end_while (λ c. c == b'/') path

-- The checks on the text, in the order of the source.
unfoldable pub check_input : Text → Outcome (Unit {0})
check_input input = do
  refuse_if (text_eq input []) (invalid_gateway_url "URL is empty")
  refuse_if (ltb max_gateway_url_bytes (byte_len input))
      (invalid_gateway_url "URL exceeds the 4096-byte limit")
  refuse_if (not (text_eq (trim input) input))
      (invalid_gateway_url "leading or trailing whitespace is not allowed")
  refuse_if (any is_whitespace input) (invalid_gateway_url "whitespace is not allowed")

module _ (u : UrlCrate) where
  open u use {Url, parse_url, scheme, host_str, username, password, query, fragment, path, set_path}

  unfoldable pub check_url : Url → Outcome (Unit {0})
  check_url url = do
    refuse_if (not (text_eq (scheme url) (codes "http") || text_eq (scheme url) (codes "https")))
        (invalid_gateway_url "scheme must be http or https")
    refuse_if (not (is_some (host_str url))) (invalid_gateway_url "host is required")
    refuse_if (not (text_eq (username url) []) || is_some (password url))
        (invalid_gateway_url "embedded credentials are not allowed")
    refuse_if (is_some (query url)) (invalid_gateway_url "query parameters are not allowed")
    refuse_if (is_some (fragment url)) (invalid_gateway_url "fragments are not allowed")

  unfoldable pub parse : Text → Outcome Url
  parse input = do
    check_input input
    url ← ok_or (parse_url input) (invalid_gateway_url "could not parse URL")
    check_url url
    ok (set_path (normalized_path (path url)) url)

-- Trimming the slashes of an already trimmed path changes nothing.
trim_end-trim_end :
    (p : ℕ → Bool) (s : Text) → trim_end_while p (trim_end_while p s) ≡ trim_end_while p s
trim_end-trim_end p [] = refl
trim_end-trim_end p (c ∷ s) = ground (arith, trim_end-trim_end p s)

-- Normalising a path a second time changes nothing.
pub normalized_path_idempotent :
    (path : Text) → normalized_path (normalized_path path) ≡ normalized_path path
unfolding normalized_path
normalized_path_idempotent path =
    ground (arith, trim_end-trim_end (λ c. c == b'/') path, text_eq_iff path (codes "/"))

ok_or-some {ℓ} : {A : Type ℓ} (o : Option A) (e : Error) {a : A} → ok_or o e ≡ ok a → o ≡ some a
ok_or-some none e h = cc
ok_or-some (some b) e h = cc

check_input_sound :
    (input : Text)
    → check_input input ≡ ok tt
    → (1 ≤ byte_len input)
      × (byte_len input ≤ max_gateway_url_bytes)
      × (trim input ≡ input)
      × (any is_whitespace input ≡ false)
unfolding check_input
check_input_sound [] h = cc
check_input_sound (c ∷ s) h = ground (arith, text_eq_iff (trim (c ∷ s)) (c ∷ s))

module _ (u : UrlCrate) where
  open u use {Url, parse_url, scheme, host_str, username, password, query, fragment, path, set_path}

  -- What `parse` requires of the components that the url crate reports.
  pub record IsPlainUrl (url : Url) : Type 0 where
    pub web : (scheme url ≡ codes "http") ⊎ (scheme url ≡ codes "https")
    pub named : is_some (host_str url) ≡ true
    pub nobody : username url ≡ []
    pub no_password : password url ≡ none
    pub no_query : query url ≡ none
    pub no_fragment : fragment url ≡ none

  check_url_sound : (url : Url) → check_url u url ≡ ok tt → IsPlainUrl url
  unfolding check_url
  check_url_sound url h = record {
    web =
        ground (
          arith,
          text_eq_iff (scheme url) (codes "http"),
          text_eq_iff (scheme url) (codes "https"),
        );
    named = ground arith;
    nobody = ground (arith, text_eq_iff (username url) []);
    no_password = ground arith;
    no_query = ground arith;
    no_fragment = ground arith;
  }

  -- A parsed Gateway URL comes from a text of 1 to 4096 bytes without white space, which the url
  -- crate parses to a plain http or https URL with a host and without credentials, query or
  -- fragment; it is that URL with its path normalised.
  pub parse_sound :
      (input : Text) (url : Url)
      → parse u input ≡ ok url
      → (raw : Url) × (parse_url input ≡ some raw)
        × IsPlainUrl raw
        × (url ≡ set_path (normalized_path (path raw)) raw)
        × (1 ≤ byte_len input)
        × (byte_len input ≤ max_gateway_url_bytes)
        × (any is_whitespace input ≡ false)
  unfolding parse
  parse_sound input url h =
      let (_, checked, h1) = >>=-eq-ok (check_input input) _ h in
      let (low, high, _, solid) = check_input_sound input checked in
      let (raw, parsed, h2) = >>=-eq-ok _ _ h1 in
      let (_, plain, h3) = >>=-eq-ok (check_url u raw) _ h2 in
      (raw, ok_or-some _ _ parsed, check_url_sound raw plain, cc h3, low, high, solid)
