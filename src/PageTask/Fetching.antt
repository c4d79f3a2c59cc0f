-- ===== src/PageTask/Fetching.antt =====
-- pkg/crawler/crawler.go: fetchAndValidatePage and readBody.
use Prim.Native.String.{String}
use text.Mathlib.Text.{◌==◌ as str_eq, starts_with}
use doc_scraper.Prelude.{
  ◌+◌, Bool, not, ◌&&◌, ◌||◌, List, [], ◌∷◌, Option, none, some, if◌then◌else◌, ltb, min,
}
use mathlib.Core.Option
use doc_scraper.Errors.{
  Error, Sentinel, request_creation, scope_violation, robots_disallowed, non_html_content,
  response_body_read, page_too_large,
}
use doc_scraper.Urls.{Url, same_host}
use doc_scraper.Links.{any_match, target_path}
use doc_scraper.PageTask.State.{PageConfig, PageWorld, Response, Step, in_fetch, in_read}

-- What `fetchAndValidatePage` returns.
pub record Fetched : Type 0 where
  pub resp : Option Response
  pub err : Option Error

abbrev pub error_of : PageWorld → Step → List Sentinel → Error
error_of world step wraps = record { wraps = wraps; text = world.message step }

abbrev refused_with : PageWorld → Sentinel → Fetched
refused_with world s = record { resp = none; err = some (error_of world in_fetch (s ∷ [])) }

-- The content types that are parsed as HTML, and those that are certainly no document.
unfoldable pub is_html : String → Bool
is_html ct = starts_with ct "text/html" || starts_with ct "application/xhtml+xml"

unfoldable pub is_no_document : String → Bool
is_no_document ct =
    starts_with ct "image/"
    || starts_with ct "audio/"
    || starts_with ct "video/"
    || starts_with ct "font/"
    || starts_with ct "application/zip"
    || starts_with ct "application/gzip"
    || starts_with ct "application/pdf"
    || starts_with ct "application/octet-stream"

-- The tests of the response that a fetch without error gives, after any redirects.
unfoldable pub validate : PageConfig → PageWorld → Url → Response → Fetched
validate cfg world asked r =
    let u = r.final_url in
    let host = cfg.ops.hostname u in
    let ct = cfg.ops.lower r.content_type in
    if not (
      same_host cfg.ops host cfg.scope.allowed_domain
      && starts_with (target_path u) cfg.scope.allowed_path_prefix)
    then refused_with world scope_violation
    else if any_match cfg.scope.disallowed u.path
    then refused_with world scope_violation
    else if not (str_eq host (cfg.ops.hostname asked)) && not (world.robots_allow u)
    then refused_with world robots_disallowed
    else if not (is_html ct) && is_no_document ct
    then refused_with world non_html_content
    else record { resp = some r; err = none }

-- `fetchAndValidatePage`. A client that gives neither an error nor a response would crash it.
unfoldable pub fetch_and_validate_page : PageConfig → PageWorld → Url → Option Fetched
fetch_and_validate_page cfg world asked =
    if world.request_made
    then elim world.fetched.1 [
      | some e ↦ some (record { resp = world.fetched.0; err = some e })
      | none ↦ Option.map (validate cfg world asked) world.fetched.0
    ]
    else some (record { resp = none; err = some (error_of world in_fetch (request_creation ∷ [])) })

-- `readBody`: it reads one byte more than the limit at most, and none is success.
unfoldable pub read_body : PageConfig → PageWorld → Response → Option Error
read_body cfg world r =
    if not world.body_read
    then some (error_of world in_read (response_body_read ∷ []))
    else if ltb cfg.max_page_size (min r.body_length (cfg.max_page_size + 1))
    then some (error_of world in_read (response_body_read ∷ page_too_large ∷ []))
    else none
