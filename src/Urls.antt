-- ===== src/Urls.antt =====
-- pkg/parse/normalize.go, over the operations of Go's net/url, net and strings that it calls.
use Prim.Native.String.{String, len}
use text.Mathlib.Text.{◌==◌ as str_eq, get?}
use doc_scraper.Prelude.{◌-◌, Bool, ◌&&◌, ◌||◌, Option, none, some, if◌then◌else◌, ltb}

-- `url.URL`; `host` has the port, and `user` is a `Userinfo` as a text.
pub record Url : Type 0 where
  pub scheme : String
  pub opaque : String
  pub user : Option String
  pub host : String
  pub path : String
  pub raw_path : String
  pub omit_host : Bool
  pub force_query : Bool
  pub raw_query : String
  pub fragment : String
  pub raw_fragment : String

-- Go's library: `parse` is `url.Parse`, `resolve` is `base.Parse(ref)`, `render` is `u.String()`,
-- `lower` is `strings.ToLower`, and `ext` is `path.Ext`.
pub record UrlOps : Type 0 where
  pub parse : String → Option Url
  pub resolve : Url → String → Option Url
  pub render : Url → String
  pub hostname : Url → String
  pub split_host_port : String → Option (String × String)
  pub equal_fold : String → String → Bool
  pub lower : String → String
  pub ext : String → String

-- `p[:len(p)-1]`, for a text that ends in "/" and has more before it.
unfoldable pub without_slash : String → String
without_slash p =
    if ltb 1 (len p)
    then elim (get? p (len p - 1) (len p)) [
      | none ↦ p
      | some last ↦
          if str_eq last "/"
          then elim (get? p 0 (len p - 1)) [ none ↦ p | some front ↦ front ]
          else p
    ]
    else p

module _ (ops : UrlOps) where
  -- The host without the port that its scheme has by default.
  unfoldable pub plain_host : String → String → String
  plain_host scheme host = elim (ops.split_host_port host) [
    | none ↦ host
    | some (name, port) ↦
        if (str_eq scheme "http" && str_eq port "80")
          || (str_eq scheme "https" && str_eq port "443")
        then name
        else host
  ]

  -- The URL that `NormalizeURL` renders: a copy, of which five fields are changed.
  unfoldable pub normalized : Url → Url
  unfolding plain_host without_slash
  normalized u =
      let scheme = ops.lower u.scheme in
      record u {
        scheme = scheme;
        host = plain_host scheme (ops.lower u.host);
        path = if str_eq u.path "" then "/" else without_slash u.path;
        fragment = "";
        raw_query = "";
      }

  -- `NormalizeURL`
  unfoldable pub normalize_url : Url → String
  normalize_url u = ops.render (normalized u)

  -- `SameHost`
  unfoldable pub same_host : String → String → Bool
  same_host a b = ops.equal_fold a b

  -- `ParseAndNormalize`; none is an error.
  unfoldable pub parse_and_normalize : String → Option (String × Url)
  parse_and_normalize text = elim (ops.parse text) [
    | none ↦ none
    | some u ↦ if str_eq u.scheme "" || str_eq u.host "" then none else some (normalize_url u, u)
  ]
