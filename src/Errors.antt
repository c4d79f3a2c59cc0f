-- ===== src/Errors.antt =====
-- pkg/utils/errors.go and the errors of Go's library that the code asks for by `errors.Is`.
-- An error is its text with the sentinel errors that it wraps.
use Prim.Native.String.{String}
use doc_scraper.Prelude.{ℕ, Bool, false, ◌||◌, List, [], ◌∷◌, ◌==◌}

pub data Sentinel : Type 0 where
  retry_failed client_http_error server_http_error other_http_error robots_disallowed : Sentinel
  scope_violation max_depth_exceeded content_selector parsing filesystem database : Sentinel
  semaphore_timeout request_creation blocked_address response_body_read page_too_large : Sentinel
  config_validation non_html_content context_canceled deadline_exceeded : Sentinel

abbrev pub rank : Sentinel → ℕ
rank retry_failed = 0
rank client_http_error = 1
rank server_http_error = 2
rank other_http_error = 3
rank robots_disallowed = 4
rank scope_violation = 5
rank max_depth_exceeded = 6
rank content_selector = 7
rank parsing = 8
rank filesystem = 9
rank database = 10
rank semaphore_timeout = 11
rank request_creation = 12
rank blocked_address = 13
rank response_body_read = 14
rank page_too_large = 15
rank config_validation = 16
rank non_html_content = 17
rank context_canceled = 18
rank deadline_exceeded = 19

pub record Error : Type 0 where
  pub wraps : List Sentinel
  pub text : String

-- Whether a sentinel is among those that an error wraps.
unfoldable pub wraps_any : Sentinel → List Sentinel → Bool
wraps_any s [] = false
wraps_any s (t ∷ ts) = (rank s == rank t) || wraps_any s ts

-- `errors.Is(err, sentinel)`
unfoldable pub is : Error → Sentinel → Bool
unfolding wraps_any
is e s = wraps_any s e.wraps
