-- ===== src/Store/Scan.antt =====
-- pkg/storage/badger_store.go: RequeueIncomplete, the scan that a resumed crawl starts with.
use Prim.Native.String.{String}
use doc_scraper.Prelude.{ℕ, ◌+◌, Bool, true, false, List, [], ◌∷◌, if◌then◌else◌}
use doc_scraper.Prelude.Int.{ℤ, pos}
use doc_scraper.Store.Entries.{PageStatus, pending, success, failure, WorkItem, PageDbEntry}
use doc_scraper.Store.Database.{BadgerStore, Stored, empty_value, undecodable, entry}

-- What happens at one key of the scan: the context is seen cancelled before it, its value can be
-- read, and the queue takes the item before the context is cancelled.
pub record ScanWorld : Type 0 where
  pub cancelled : Bool
  pub readable : Bool
  pub queue_takes : Bool

pub record ScanResult : Type 0 where
  pub sent : List WorkItem
  pub requeued_count : ℕ
  pub scan_errors : ℕ
  pub interrupted : Bool

-- What a value says about its page's place in the queue.
pub data Verdict : Type 0 where
  requeue : ℤ → Verdict
  leave scan_error : Verdict

-- The statuses that are queued again.
unfoldable pub wants_requeue : Bool → PageStatus → Bool
wants_requeue include_success failure = true
wants_requeue include_success pending = true
wants_requeue include_success success = include_success
wants_requeue include_success status = false

unfoldable pub verdict : Bool → Stored PageDbEntry → Verdict
unfolding wants_requeue
verdict include_success empty_value = requeue (pos 0)
verdict include_success undecodable = scan_error
verdict include_success (entry e) =
    if wants_requeue include_success e.status then requeue e.depth else leave

abbrev pub stop_scan : ScanResult
stop_scan = record { sent = []; requeued_count = 0; scan_errors = 0; interrupted = true }

abbrev pub one_error : ScanResult → ScanResult
one_error r = record r { scan_errors = r.scan_errors + 1 }

abbrev pub one_sent : WorkItem → ScanResult → ScanResult
one_sent item r = record r { sent = item ∷ r.sent; requeued_count = r.requeued_count + 1 }

-- The loop of `RequeueIncomplete` from its k-th key on.
unfoldable pub scan_from :
    (ℕ → ScanWorld) → Bool → ℕ → List (String × Stored PageDbEntry) → ScanResult
unfolding verdict
scan_from world include_success k [] = record {
  sent = [];
  requeued_count = 0;
  scan_errors = 0;
  interrupted = false;
}
scan_from world include_success k ((url, value) ∷ rest) =
    let later = scan_from world include_success (k + 1) rest in
    if (world k).cancelled
    then stop_scan
    else if (world k).readable
    then elim (verdict include_success value) [
      | requeue depth ↦
          if (world k).queue_takes
          then one_sent (record { url = url; depth = depth }) later
          else stop_scan
      | leave ↦ later
      | scan_error ↦ one_error later
    ]
    else one_error later

-- `RequeueIncomplete`, where `iterate` is the order in which Badger's iterator visits the keys.
unfoldable pub requeue_incomplete :
    (List (String × Stored PageDbEntry) → List (String × Stored PageDbEntry))
    → (ℕ → ScanWorld)
    → Bool
    → BadgerStore
    → ScanResult
unfolding scan_from
requeue_incomplete iterate world include_success s =
    scan_from world include_success 0 (iterate s.pages)
