-- ===== src/PageTask/State.antt =====
-- What processSinglePageTask in pkg/crawler/crawler.go reads and changes, and the steps of a function
-- that may return early or panic.
use Prim.Native.String.{String}
use doc_scraper.Prelude.{ℕ, Bool, true, false, List, Option, none, some, if◌then◌else◌}
use doc_scraper.Errors.{Error}
use doc_scraper.Crawler.Failures.{FailureTally}
use doc_scraper.Store.Database.{BadgerStore, TxnWorld}
use doc_scraper.Queue.{HeapOps, PageQueue}
use doc_scraper.Urls.{Url, UrlOps}
use doc_scraper.Links.{LinkScope, LinkWorld, Anchor}

-- What a task does with the request slots and the shared page budget, in order.
pub data Resource : Type 0 where
  take_host take_global free_host free_global parse_page : Resource

-- The part of a `Crawler` that its page tasks change. The counters count tasks from 0 by ones, so no
-- crawl reaches the bound of an int64. `noted` are the URLs that `carry.note` was called with.
pub record Crawl : Type 0 where
  pub store : BadgerStore
  pub queue : PageQueue
  pub wg : ℕ
  pub processed : ℕ
  pub succeeded : ℕ
  pub unchanged : ℕ
  pub saved : ℕ
  pub failures : FailureTally
  pub gone_pages : List Url
  pub noted : List Url
  pub recorded : List Url

-- What the configuration says, and what does not change during a task.
pub record PageConfig : Type 1 where
  pub ops : UrlOps
  pub heap : HeapOps
  pub scope : LinkScope
  pub order : List String → List String
  pub enable_incremental : Bool
  pub respect_noindex : Bool
  pub max_page_size : ℕ
  pub carries : Bool

-- The steps of a task that call code which may panic.
pub data Step : Type 0 where
  in_setup in_policy in_acquire in_acquire_global in_delay in_fetch in_read in_parse : Step
  in_robots in_select in_links in_save : Step

pub record Response : Type 0 where
  pub status : ℕ
  pub final_url : Url
  pub content_type : String
  pub body_length : ℕ

-- How the code that a task calls answers it. A none of an error is success. `message` gives the texts
-- of the errors that the task makes itself.
pub record PageWorld : Type 0 where
  pub panics : Step → Bool
  pub message : Step → String
  pub cancelled : Bool
  pub db_reads : Bool
  pub robots_allow : Url → Bool
  pub host_slot : Option Error
  pub global_slot : Option Error
  pub request_made : Bool
  pub fetched : Option Response × Option Error
  pub body_read : Bool
  pub parse_result : Option Error
  pub noindex : Bool
  pub nofollow : Bool
  pub select_result : Option Error
  pub outer_html : Option Error
  pub region_hash : String
  pub anchors : List (List Anchor)
  pub link_world : LinkWorld
  pub saved_file_exists : Bool
  pub saved_path : String
  pub save_result : Option Error
  pub update_world : ℕ → TxnWorld
  pub now : ℕ

-- The variables that the deferred function reads, with the crawl. `cleans_up` says that
-- `defer cleanupResources()` was reached.
pub record Task : Type 0 where
  pub crawl : Crawl
  pub task_err : Option Error
  pub skipped : Bool
  pub normalized_url : String
  pub content_hash : String
  pub gone : Bool
  pub noindex_page : Bool
  pub has_host : Bool
  pub has_global : Bool
  pub cleans_up : Bool
  pub resources : List Resource

-- How a piece of the function ends: it goes on, returns, or panics.
pub data Ends (A : Type 0) : Type 0 where
  goes_on : A → Ends A
  returns panicked : Ends A

abbrev pub M : Type 0 → Type 0
M A = Task → Task × Ends A

infixl 5 ◌>>=◌ ◌>>◌
abbrev pub ◌>>=◌ : {A B : Type 0} → M A → (A → M B) → M B
◌>>=◌ m f t =
    let (t', e) = m t in
    elim e [ goes_on a ↦ f a t' | returns ↦ (t', returns) | panicked ↦ (t', panicked) ]

abbrev pub ◌>>◌ : {B : Type 0} → M (Unit {0}) → M B → M B
m >> k = m >>= λ _. k

abbrev pub pure : {A : Type 0} → A → M A
pure a t = (t, goes_on a)

-- `return`
abbrev pub stop : {A : Type 0} → M A
stop t = (t, returns)

abbrev pub modify : (Task → Task) → M (Unit {0})
modify f t = (f t, goes_on tt)

abbrev pub when : Bool → M (Unit {0}) → M (Unit {0})
when true m = m
when false m = pure tt

-- `handleTaskError`: the first error stays.
abbrev pub note_error : Error → Task → Task
note_error e t = elim t.task_err [ none ↦ record t { task_err = some e } | some first ↦ t ]

-- A call that may panic.
abbrev pub enter : PageWorld → Step → M (Unit {0})
enter world step t = if world.panics step then (t, panicked) else (t, goes_on tt)

-- An error that ends the task.
abbrev pub fail_with : {A : Type 0} → Error → M A
fail_with e t = (note_error e t, returns)

abbrev pub check_error : Option Error → M (Unit {0})
check_error none = pure tt
check_error (some e) = fail_with e
