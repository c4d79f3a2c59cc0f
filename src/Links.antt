-- ===== src/Links.antt =====
-- pkg/process/links.go: which links of a page are crawled, and how they are queued. The anchors of the
-- document, by selector, are goquery's answers.
pub mod Queued
pub mod Counting
pub mod Scope
use Prim.Native.String.{String, len}
use text.Mathlib.Text.{◌==◌ as str_eq, starts_with, find?}
use doc_scraper.Prelude.{
  ℕ, zero, suc, ◌+◌, Bool, true, false, not, ◌&&◌, ◌||◌, List, [], ◌∷◌, ◌++◌, Option, none, some,
  if◌then◌else◌,
}
use doc_scraper.Prelude.Int.{ℤ, pos, ◌+ℤ◌, i64, lez, ltz}
use doc_scraper.Errors.{Error, Sentinel}
use doc_scraper.Store.Entries.{WorkItem}
use doc_scraper.Store.Database.{BadgerStore, TxnWorld, mark_page_visited, is_found}
use doc_scraper.Queue.{HeapOps, PageQueue, add}
use doc_scraper.Urls.{Url, UrlOps, same_host, parse_and_normalize}

-- What `ExtractAndQueueLinks` reads of the site's configuration, with the compiled patterns as tests.
pub record LinkScope : Type 0 where
  pub max_depth : ℤ
  pub allowed_domain : String
  pub allowed_path_prefix : String
  pub respect_nofollow : Bool
  pub disallowed : List (String → Bool)

-- An `a[href]`; an attribute that is missing is "".
pub record Anchor : Type 0 where
  pub href : String
  pub rel : String

-- `resourceExtensions`
abbrev pub resource_extensions : List String
resource_extensions =
    ".svg" ∷ ".png" ∷ ".jpg" ∷ ".jpeg" ∷ ".gif" ∷ ".webp" ∷ ".ico" ∷ ".bmp" ∷ ".tiff" ∷ ".avif"
    ∷ ".woff" ∷ ".woff2" ∷ ".ttf" ∷ ".eot" ∷ ".otf" ∷ ".css" ∷ ".js" ∷ ".mjs" ∷ ".pdf" ∷ ".zip"
    ∷ ".tar" ∷ ".gz" ∷ ".tgz" ∷ ".mp4" ∷ ".mp3" ∷ ".wav" ∷ ".ogg" ∷ ".webm" ∷ []

-- Whether a text is in a list.
unfoldable pub member : String → List String → Bool
member s [] = false
member s (t ∷ ts) = str_eq t s || member s ts

-- Whether one of the patterns matches a path.
unfoldable pub any_match : List (String → Bool) → String → Bool
any_match [] path = false
any_match (p ∷ ps) path = if p path then true else any_match ps path

-- The path that a prefix is asked of.
abbrev pub target_path : Url → String
target_path u = if str_eq u.path "" then "/" else u.path

-- `foundLinks[link] = struct{}{}`
unfoldable pub add_link : String → List String → List String
add_link link found = if member link found then found else link ∷ found

module _ (ops : UrlOps) where
  -- `isResourceURL`
  unfoldable pub is_resource_url : Url → Bool
  unfolding member
  is_resource_url u = member (ops.lower (ops.ext u.path)) resource_extensions

  -- The tests of a link's URL.
  unfoldable pub in_scope : LinkScope → Url → Bool
  unfolding is_resource_url any_match same_host
  in_scope scope u =
      not (is_resource_url u)
      && (str_eq u.scheme "http" || str_eq u.scheme "https")
      && same_host ops (ops.hostname u) scope.allowed_domain
      && starts_with (target_path u) scope.allowed_path_prefix
      && not (any_match scope.disallowed u.path)

  -- The normalized URL that an anchor adds, if it adds one.
  unfoldable pub link_of : LinkScope → Url → Anchor → Option String
  unfolding in_scope parse_and_normalize
  link_of scope page anchor =
      if str_eq anchor.href ""
      then none
      else if scope.respect_nofollow && is_found (find? (ops.lower anchor.rel) "nofollow")
      then none
      else elim (ops.resolve page anchor.href) [
        | none ↦ none
        | some u ↦
            if in_scope scope u
            then elim (parse_and_normalize ops (ops.render u)) [
              | none ↦ none
              | some (text, parsed) ↦ some text
            ]
            else none
      ]

  -- The loop over the anchors of a selector.
  unfoldable pub links_of : LinkScope → Url → List Anchor → List String → List String
  unfolding link_of add_link
  links_of scope page [] found = found
  links_of scope page (a ∷ anchors) found =
      links_of scope page anchors
        (elim (link_of scope page a) [ none ↦ found | some l ↦ add_link l found ])

  -- The loop over the selectors.
  unfoldable pub found_links : LinkScope → Url → List (List Anchor) → List String → List String
  unfolding links_of
  found_links scope page [] found = found
  found_links scope page (anchors ∷ rest) found =
      found_links scope page rest (links_of scope page anchors found)

-- What the loop that queues changes.
pub record LinkState : Type 0 where
  pub store : BadgerStore
  pub queue : PageQueue
  pub wg : ℕ

-- What happens around the transaction of the k-th link, and the time then.
pub record LinkWorld : Type 0 where
  pub txns : ℕ → ℕ → TxnWorld
  pub clock : ℕ → ℕ

-- `queued` is the count that is returned, and `failed` says that a mark failed.
pub record LinkResult : Type 0 where
  pub state : LinkState
  pub queued : ℕ
  pub failed : Bool

module _ (heap : HeapOps) (world : LinkWorld) (next_depth : ℤ) where
  -- One turn of the loop over the found links, by the answer of `MarkPageVisited`.
  unfoldable pub queue_link : String → BadgerStore → Option Bool → LinkResult → LinkResult
  queue_link link store none r = record r {
    state = record r.state { store = store };
    failed = true;
  }
  queue_link link store (some false) r = record r { state = record r.state { store = store } }
  queue_link link store (some true) r = record r {
    state = record {
      store = store;
      queue = add heap (record { url = link; depth = next_depth }) r.state.queue;
      wg = r.state.wg + 1;
    };
    queued = r.queued + 1;
  }

  unfoldable pub queue_links : ℕ → List String → LinkResult → LinkResult
  queue_links k [] r = r
  queue_links k (link ∷ links) r =
      let marked = mark_page_visited (world.txns k) (world.clock k) link next_depth r.state.store in
      queue_links (k + 1) links (queue_link link marked.0 marked.1 r)

-- `ExtractAndQueueLinks`; `order` is the order in which Go visits the map of links.
unfoldable pub extract_and_queue_links :
    UrlOps
    → HeapOps
    → LinkWorld
    → (List String → List String)
    → LinkScope
    → Url
    → ℤ
    → List (List Anchor)
    → LinkState
    → LinkResult
extract_and_queue_links ops heap world order scope page depth anchors s =
    let next_depth = i64 (depth +ℤ pos 1) in
    let start : LinkResult = record { state = s; queued = 0; failed = false } in
    if ltz (pos 0) scope.max_depth && lez scope.max_depth next_depth
    then start
    else queue_links heap world next_depth 0 (order (found_links ops scope page anchors [])) start
