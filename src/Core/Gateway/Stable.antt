-- ===== src/Core/Gateway/Stable.antt =====
-- A Gateway URL that was parsed is parsed again from its own text, if that text is not too long.
use saiai_client.Prelude.{
  is_empty, ℕ, ◌≡◌, ◌⊎◌, inl, inr, refl, sym, ◌∙◌, ap, Bool, true, false, Bool-cases, ◌||◌, some,
  [], ◌∷◌, Text, codes, text_eq, text_eq_iff, text_eq_refl, any, byte_len, ltb, ◌==◌, is_whitespace,
  trim, trim_end_while, trim_start_while, arith, if◌then◌else◌,
}
use mathlib.Core.Path.{subst}
use saiai_client.Prelude.Result.{ok, err, refuse_if}
use saiai_client.Core.Error.{invalid_gateway_url}
use saiai_client.Core.Gateway.Parse.{
  UrlCrate, IsPlainUrl, max_gateway_url_bytes, normalized_path, check_input, check_url, parse,
  parse_sound,
}

abbrev pub without_slashes : Text → Text
without_slashes = trim_end_while (λ c. c == b'/')

abbrev pub or_root : Text → Text
or_root [] = codes "/"
or_root (c ∷ s) = c ∷ s

-- What the url crate documents of http and https URLs: `as_str` is a text without white space that
-- is parsed to the same URL; `set_path` changes the path only, nothing if the path is the same, and
-- given the path less its final slashes it sets that, or `/` for the empty text.
pub record UrlLaws (u : UrlCrate) : Type 0 where
  pub spelled : (url : u.Url) → IsPlainUrl u url → is_empty (u.as_str url) ≡ false
  pub solid : (url : u.Url) → IsPlainUrl u url → any is_whitespace (u.as_str url) ≡ false
  pub reparsed : (url : u.Url) → IsPlainUrl u url → u.parse_url (u.as_str url) ≡ some url
  pub same_scheme : (t : Text) (url : u.Url) → u.scheme (u.set_path t url) ≡ u.scheme url
  pub same_host : (t : Text) (url : u.Url) → u.host_str (u.set_path t url) ≡ u.host_str url
  pub same_username : (t : Text) (url : u.Url) → u.username (u.set_path t url) ≡ u.username url
  pub same_password : (t : Text) (url : u.Url) → u.password (u.set_path t url) ≡ u.password url
  pub same_query : (t : Text) (url : u.Url) → u.query (u.set_path t url) ≡ u.query url
  pub same_fragment : (t : Text) (url : u.Url) → u.fragment (u.set_path t url) ≡ u.fragment url
  pub same_path : (url : u.Url) → IsPlainUrl u url → u.set_path (u.path url) url ≡ url
  pub trimmed_path :
      (url : u.Url)
      → IsPlainUrl u url
      → u.path (u.set_path (without_slashes (u.path url)) url)
        ≡ or_root (without_slashes (u.path url))

-- The path is `/`, or does not end with a slash.
abbrev pub HasNormalPath : Text → Type 0
HasNormalPath path = (path ≡ codes "/") ⊎ (without_slashes path ≡ path)

trim_start-solid : (s : Text) → any is_whitespace s ≡ false → trim_start_while is_whitespace s ≡ s
trim_start-solid [] h = refl
trim_start-solid (c ∷ s) h = ground arith

trim_end-inner :
    (c d : ℕ) (s r : Text)
    → trim_end_while is_whitespace s ≡ d ∷ r
    → trim_end_while is_whitespace (c ∷ s) ≡ c ∷ d ∷ r
trim_end-inner c d s r h = rw h refl

trim_end-solid : (s : Text) → any is_whitespace s ≡ false → trim_end_while is_whitespace s ≡ s
trim_end-solid [] h = refl
trim_end-solid (c ∷ []) h = ground arith
trim_end-solid (c ∷ d ∷ s) h = trim_end-inner c d (d ∷ s) s (trim_end-solid (d ∷ s) (ground arith))

trim-solid : (s : Text) → any is_whitespace s ≡ false → trim s ≡ s
trim-solid s h = rw (trim_start-solid s h) (trim_end-solid s h)

trim_end-trim_end :
    (p : ℕ → Bool) (s : Text) → trim_end_while p (trim_end_while p s) ≡ trim_end_while p s
trim_end-trim_end p [] = refl
trim_end-trim_end p (c ∷ s) = ground (arith, trim_end-trim_end p s)

-- A text without white space is refused only for its length.
check_input-solid :
    (t : Text)
    → is_empty t ≡ false
    → any is_whitespace t ≡ false
    → check_input t
      ≡ refuse_if
          (ltb max_gateway_url_bytes (byte_len t))
          (invalid_gateway_url "URL exceeds the 4096-byte limit")
unfolding check_input
check_input-solid [] e h = cc
check_input-solid (c ∷ s) e h = ground (arith, trim-solid (c ∷ s) h, text_eq_refl (c ∷ s))

-- A normal path is kept.
normalized_path-normal : (path : Text) → HasNormalPath path → normalized_path path ≡ path
unfolding normalized_path
normalized_path-normal path (inl root) = rw root refl
normalized_path-normal path (inr h) = ground (arith, text_eq_iff path (codes "/"))

normalized_path-cases :
    (t : Text)
    → ((t ≡ codes "/") × (normalized_path t ≡ t)) ⊎ (normalized_path t ≡ without_slashes t)
unfolding normalized_path
normalized_path-cases t = elim (Bool-cases (text_eq t (codes "/"))) [
  | inl h ↦
      inl
        (ground (arith, h, text_eq_iff t (codes "/")), ground (arith, h, text_eq_iff t (codes "/")))
  | inr h ↦ inr (ground (arith, h))
]

or_root-normal : (t r : Text) → without_slashes t ≡ r → HasNormalPath (or_root r)
or_root-normal t [] h = inl refl
or_root-normal t (c ∷ s) h =
    inr (subst (λ x. without_slashes x ≡ x) h (trim_end-trim_end (λ c. c == b'/') t))

text_eq-of_≡ : (s t : Text) → s ≡ t → text_eq s t ≡ true
text_eq-of_≡ s t h = subst (λ x. text_eq s x ≡ true) h (text_eq_refl s)

module _ (u : UrlCrate) (laws : UrlLaws u) where
  web-scheme :
      (scheme : Text)
      → (scheme ≡ codes "http") ⊎ (scheme ≡ codes "https")
      → text_eq scheme (codes "http") || text_eq scheme (codes "https") ≡ true
  web-scheme scheme (inl h) = ground (arith, text_eq-of_≡ scheme (codes "http") h)
  web-scheme scheme (inr h) = ground (arith, text_eq-of_≡ scheme (codes "https") h)

  check_url-plain : (url : u.Url) → IsPlainUrl u url → check_url u url ≡ ok tt
  unfolding check_url
  check_url-plain url p = ground (
    arith,
    web-scheme (u.scheme url) p.web,
    p.named,
    text_eq-of_≡ (u.username url) [] p.nobody,
    p.no_password,
    p.no_query,
    p.no_fragment,
  )

  set_path-plain : (t : Text) (url : u.Url) → IsPlainUrl u url → IsPlainUrl u (u.set_path t url)
  set_path-plain t url p = record {
    web = rw (laws.same_scheme t url) p.web;
    named = rw (laws.same_host t url) p.named;
    nobody = rw (laws.same_username t url) p.nobody;
    no_password = rw (laws.same_password t url) p.no_password;
    no_query = rw (laws.same_query t url) p.no_query;
    no_fragment = rw (laws.same_fragment t url) p.no_fragment;
  }

  parse-plain :
      (url : u.Url)
      → IsPlainUrl u url
      → HasNormalPath (u.path url)
      → parse u (u.as_str url) ≡ (
          if ltb max_gateway_url_bytes (byte_len (u.as_str url))
          then err (invalid_gateway_url "URL exceeds the 4096-byte limit")
          else ok url)
  unfolding parse
  parse-plain url p normal =
      let path : u.set_path (normalized_path (u.path url)) url ≡ url =
        rw (normalized_path-normal (u.path url) normal) (laws.same_path url p) in
      ground (
        arith,
        check_input-solid (u.as_str url) (laws.spelled url p) (laws.solid url p),
        laws.reparsed url p,
        check_url-plain url p,
        path,
      )

  normalized-HasNormalPath :
      (raw : u.Url)
      → IsPlainUrl u raw
      → ((u.path raw ≡ codes "/") × (normalized_path (u.path raw) ≡ u.path raw))
        ⊎ (normalized_path (u.path raw) ≡ without_slashes (u.path raw))
      → HasNormalPath (u.path (u.set_path (normalized_path (u.path raw)) raw))
  normalized-HasNormalPath raw p (inl (root, same)) =
      inl (ap u.path (rw same (laws.same_path raw p)) ∙ root)
  normalized-HasNormalPath raw p (inr trimmed) =
      rw (trimmed, laws.trimmed_path raw p) (or_root-normal (u.path raw) _ refl)

-- Under the documented laws of the url crate: a Gateway URL that was parsed is a plain http or https
-- URL whose path is `/` or does not end with a slash, and its own text is parsed to the same URL
-- again exactly if that text has at most 4096 bytes; a longer one is refused for its length.
pub parse-as_str :
    (u : UrlCrate) (laws : UrlLaws u) (input : Text) (url : u.Url)
    → parse u input ≡ ok url
    → IsPlainUrl u url
      × HasNormalPath (u.path url)
      × (parse u (u.as_str url) ≡ (
          if ltb max_gateway_url_bytes (byte_len (u.as_str url))
          then err (invalid_gateway_url "URL exceeds the 4096-byte limit")
          else ok url))
parse-as_str u laws input url h =
    let (raw, _, plain, made, _, _, _) = parse_sound u input url h in
    let still : IsPlainUrl u url =
      subst (IsPlainUrl u) (sym made)
        (set_path-plain u laws (normalized_path (u.path raw)) raw plain) in
    let normal : HasNormalPath (u.path url) =
      subst (λ x. HasNormalPath (u.path x)) (sym made)
        (normalized-HasNormalPath u laws raw plain (normalized_path-cases (u.path raw))) in
    (still, normal, parse-plain u laws url still normal)
