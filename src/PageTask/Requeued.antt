-- ===== src/PageTask/Requeued.antt =====
-- What a page task of pkg/crawler/crawler.go leaves for RequeueIncomplete of
-- pkg/storage/badger_store.go.
use Prim.Native.String.{String}
use text.Mathlib.Text.{◌==◌ as str_eq}
use text.Mathlib.TextPositions.{eq_refl}
use doc_scraper.Prelude.{
  ℕ, Bool, false, not, ◌&&◌, ◌||◌, List, none, some, ◌≡◌, refl, arith, if◌then◌else◌, Option-cases,
  inl, inr, ◌∙◌, ap,
}
use doc_scraper.Prelude.Int.{ℤ}
use doc_scraper.Prelude.Assoc.{lookup, lookup-insert}
use doc_scraper.Store.Entries.{PageDbEntry}
use doc_scraper.Store.Database.{BadgerStore, Stored, entry, update_page_status, put_page, db_update}
use doc_scraper.Store.Answers.{Quiet, Settles, db_update_from-Settles}
use doc_scraper.Store.Scan.{ScanWorld, requeue_incomplete, wants_requeue}
use doc_scraper.Store.Requeue.{queued, requeue_depth, Visits, Calm, requeue_incomplete-queued}
use doc_scraper.PageTask.State.{Crawl, PageConfig, PageWorld, Task, Ends}
use doc_scraper.PageTask.Task.{
  final_entry, write_entry, count_page, tally_page, recover_panic, is_panic, has_error, finish_task,
  run_body, process_single_page_task,
}

module _ (cfg : PageConfig) (world : PageWorld) where
  count_page-store : (t : Task) (d : Crawl) → (count_page cfg world t d).store ≡ d.store
  unfolding count_page
  count_page-store t d = ground arith

  tally_page-store :
      (url : String) (t : Task) (d : Crawl) → (tally_page cfg world url t d).store ≡ d.store
  unfolding tally_page
  tally_page-store url t d = elim (Option-cases t.task_err) [
    | inl e ↦ rw (e, tally_page) (ground arith)
    | inr (err, e) ↦ rw (e, tally_page) (ground arith)
  ]

  requeue_final :
      (depth : ℤ) (include_success : Bool) (t : Task)
      → requeue_depth include_success (some (entry (final_entry cfg world depth t)))
        ≡ (if has_error t || include_success then some depth else none)
  unfolding requeue_depth wants_requeue has_error
  requeue_final depth include_success t = elim (Option-cases t.task_err) [
    | inl e ↦ rw (e, final_entry, has_error) refl
    | inr (err, e) ↦ rw (e, final_entry, has_error) refl
  ]

  written_lem :
      (depth : ℤ) (t : Task)
      → t.skipped ≡ false
      → str_eq t.normalized_url "" ≡ false
      → Quiet world.update_world
      → Settles world.update_world 10 0
      → lookup t.normalized_url (write_entry cfg world depth t).store.pages
        ≡ some (entry (final_entry cfg world depth t))
  unfolding write_entry update_page_status db_update put_page
  written_lem depth t s n q h =
      rw
        (
          s,
          n,
          db_update_from-Settles world.update_world 10 0
              (put_page t.normalized_url (final_entry cfg world depth t)) t.crawl.store q h,
        )
        (lookup-insert t.normalized_url t.normalized_url (entry (final_entry cfg world depth t))
            t.crawl.store.pages
          ∙ rw (eq_refl t.normalized_url) refl)

-- The state in which the deferred function of a task finds it.
unfoldable pub task_end : PageConfig → PageWorld → String → ℤ → Crawl → Task × Ends (Unit {0})
task_end cfg world url depth c =
    let r = run_body cfg world url depth c in (recover_panic cfg world r.1 r.0, r.1)

-- A page is crawled again or left by what its task came to: after a task that was not skipped, nor
-- abandoned on cancelling, and whose URL could be normalized, a resumed crawl queues the page at the
-- task's depth if the task failed, a panic included, or if successes are asked for, and else does not;
-- where the final update commits after at most nine conflicts with no other goroutine writing, and
-- the scan is not disturbed.
pub process_single_page_task_requeued :
    (cfg : PageConfig) (world : PageWorld) (url : String) (depth : ℤ) (c : Crawl)
    (iterate : List (String × Stored PageDbEntry) → List (String × Stored PageDbEntry))
    (scan : ℕ → ScanWorld) (include_success : Bool)
    → (task_end cfg world url depth c).0.skipped ≡ false
    → str_eq (task_end cfg world url depth c).0.normalized_url "" ≡ false
    → (has_error (task_end cfg world url depth c).0
        && not (is_panic (task_end cfg world url depth c).1)
        && world.cancelled)
      ≡ false
    → Quiet world.update_world
    → Settles world.update_world 10 0
    → Visits iterate (process_single_page_task cfg world url depth c).store.pages
    → Calm scan
    → queued
        (task_end cfg world url depth c).0.normalized_url
        (requeue_incomplete iterate scan include_success
          (process_single_page_task cfg world url depth c).store).sent
      ≡ (if has_error (task_end cfg world url depth c).0 || include_success
          then some depth
          else none)
unfolding process_single_page_task task_end finish_task
process_single_page_task_requeued cfg world url depth c iterate scan include_success s n a q h v
      calm =
    let r = task_end cfg world url depth c in
    let t = r.0 in
    let w = write_entry cfg world depth t in
    let store : (process_single_page_task cfg world url depth c).store ≡ w.store = rw a (
      tally_page-store cfg world url t (count_page cfg world t w)
      ∙ count_page-store cfg world t w) in
    let found : lookup t.normalized_url (process_single_page_task cfg world url depth c).store.pages
        ≡ some (entry (final_entry cfg world depth t)) =
      ap (λ (b : BadgerStore). lookup t.normalized_url b.pages) store
      ∙ written_lem cfg world depth t s n q h in
    requeue_incomplete-queued iterate scan include_success
      (process_single_page_task cfg world url depth c).store t.normalized_url v calm
    ∙ (ap (λ o. requeue_depth include_success o) found
        ∙ requeue_final cfg world depth include_success t)
