-- ===== src/PageTask/Tallies.antt =====
-- The counters that processSinglePageTask in pkg/crawler/crawler.go leaves, from which GetProgress
-- takes the number of failed pages.
use Prim.Native.String.{String}
use doc_scraper.Prelude.{
  ℕ, ◌+◌, ◌-◌, ◌^◌, ◌<◌, Bool, true, false, not, ◌&&◌, [], ◌∷◌, ◌++◌, ◌≡◌, refl, arith,
  if◌then◌else◌, Bool-cases, Option-cases, inl, inr, ◌∙◌, ap,
}
use doc_scraper.Prelude.Int.{ℤ, pos, ◌+ℤ◌, i64, pos_part, i64-plus}
use doc_scraper.Errors.{Error}
use doc_scraper.Crawler.Failures.{FailureTally, mark_noindex, record_failure}
use doc_scraper.PageTask.State.{
  parse_page, Crawl, PageConfig, PageWorld, Task, in_links, Ends, goes_on, returns, panicked,
  note_error,
}
use doc_scraper.PageTask.Steps.{cleanup_resources, parse_body, follow_links}
use doc_scraper.PageTask.Task.{
  start_task, page_body, write_entry, count_page, tally_page, recover_panic, is_panic, has_error,
  finish_task, deferred_cleanup, run_body, process_single_page_task,
}
use doc_scraper.PageTask.Rules.{setup_lem, fetch_lem, acquire_lem}
use doc_scraper.PageTask.Body.{deferred_lem, BodyRules, page_body_lem}
use doc_scraper.PageTask.Endings.{EndsIn, check_error_lem}

-- The state of a task that returned: a noindex page has no error and is not skipped, and a skipped one
-- has no error.
unfoldable settled : Task → Bool
unfolding has_error
settled t =
    if t.noindex_page
    then not (has_error t) && not t.skipped
    else if t.skipped
    then not (has_error t)
    else true

module _ (c : Crawl) where
  abbrev Same : Task → Type 0
  Same t =
      (t.crawl.processed ≡ c.processed)
      × (t.crawl.succeeded ≡ c.succeeded)
      × (t.crawl.failures ≡ c.failures)

  abbrev Fresh : Task → Type 0
  Fresh t = Same t × (has_error t ≡ false) × (t.skipped ≡ false) × (t.noindex_page ≡ false)

  abbrev Noindexed : Task → Type 0
  Noindexed t = Same t × (has_error t ≡ false) × (t.skipped ≡ false) × (t.noindex_page ≡ true)

  abbrev Failed : Task → Type 0
  Failed t = Same t × (t.skipped ≡ false) × (t.noindex_page ≡ false)

  abbrev Settled : Task → Type 0
  Settled t = Same t × (settled t ≡ true)

  note_error-Failed : (e : Error) (t : Task) → Fresh t → Failed (note_error e t)
  note_error-Failed e t f = elim (Option-cases t.task_err) [
    | inl h ↦ rw (h, note_error) (f.0, f.2, f.3)
    | inr (k, h) ↦ rw (h, note_error) (f.0, f.2, f.3)
  ]

  Failed-Settled : (t : Task) → Failed t → Settled t
  unfolding settled
  Failed-Settled t f = (f.0, simp (f.1, f.2))

  module _ (cfg : PageConfig) (world : PageWorld) (calm : world.panics in_links ≡ false) where
    tally_rules : BodyRules cfg world Fresh Fresh Noindexed Failed Settled Failed
    unfolding cleanup_resources follow_links parse_body settled has_error
    tally_rules = record {
      panics = λ t f. (f.0, f.2, f.3);
      panics_held = λ t f. (f.0, f.2, f.3);
      fails = λ e t f. Failed-Settled (note_error e t) (note_error-Failed e t f);
      fails_held = λ e t f. Failed-Settled (note_error e t) (note_error-Failed e t f);
      sets_up = λ url.
          setup_lem cfg world Fresh Settled Failed
            (λ e t f. Failed-Settled (note_error e t) (note_error-Failed e t f)) url (λ t n f. f)
            (λ t f. (f.0, simp (f.3, f.1)));
      acquires =
          acquire_lem cfg world Fresh Settled Failed
            (λ e t f. Failed-Settled (note_error e t) (note_error-Failed e t f)) (λ t a b k rs f. f)
            (λ t f. (f.0, f.2, f.3));
      fetches = λ u.
          fetch_lem cfg world Fresh Settled Failed
            (λ e t f. Failed-Settled (note_error e t) (note_error-Failed e t f)) u (λ t h. h)
            (λ t f. (f.0, f.2, f.3));
      frees = λ t f. f;
      parses = λ t f.
          check_error_lem Settled Failed Fresh world.parse_result
            (λ e u g. Failed-Settled (note_error e u) (note_error-Failed e u g))
            (record t { resources = t.resources ++ (parse_page ∷ []) }) f;
      noindexed = λ t f. (f.0, f.1, f.2, refl);
      follows_noindex = λ page depth t f. rw (calm, follow_links) f;
      noindex_returns = λ t f. (f.0, simp (f.3, f.1, f.2));
      unselected = λ e t f. note_error-Failed e t f;
      follows_unselected = λ page depth t f. rw (calm, follow_links) f;
      unselected_returns = Failed-Settled;
      hashed = λ t f. f;
      follows = λ page depth t f. rw (calm, follow_links) f;
      unchanged = λ t f. (f.0, simp (f.3, f.1));
      saves = λ page t f. f;
    }

  -- Processed pages against succeeded, noindex and failed ones, from `c` to `d`.
  abbrev pub Accounts : Crawl → Bool → Type 0
  Accounts d fails =
      d.processed + (c.succeeded + pos_part c.failures.noindex)
      ≡ c.processed + (d.succeeded + pos_part d.failures.noindex + (if fails then 1 else 0))

  module _ (cfg : PageConfig) (world : PageWorld) where
    write_entry_keeps :
        (depth : ℤ) (t : Task)
        → Same t
        → ((write_entry cfg world depth t).processed ≡ c.processed)
          × ((write_entry cfg world depth t).succeeded ≡ c.succeeded)
          × ((write_entry cfg world depth t).failures ≡ c.failures)
    unfolding write_entry
    write_entry_keeps depth t s = ground (arith, s)

    counted_lem :
        (url : String) (t : Task) (w : Crawl) (k : ℕ)
        → settled t ≡ true
        → (w.processed ≡ c.processed) × (w.succeeded ≡ c.succeeded) × (w.failures ≡ c.failures)
        → c.failures.noindex ≡ pos k
        → k + 1 < 2 ^ 63
        → Accounts (tally_page cfg world url t (count_page cfg world t w)) (has_error t)
    unfolding settled tally_page count_page has_error mark_noindex record_failure
    counted_lem url t w k h s n b =
        let noted : i64 (pos k +ℤ pos 1) ≡ pos (k + 1) = i64-plus (pos k) (pos 1) refl refl b in
        let m : w.failures.noindex ≡ pos k = ap (λ (f : FailureTally). f.noindex) s.2 ∙ n in
        elim (Option-cases t.task_err) [
          | inl e ↦ elim (Bool-cases t.skipped) [
            | inl p ↦ elim (Bool-cases t.noindex_page) [
              | inl q ↦ absurd (let z : false ≡ true = rw (e, p, q, settled, has_error) at h in cc)
              | inr q ↦
                  rw (e, p, q, count_page, has_error, e, tally_page)
                    (rw (m, n) (omega (arith, s.0, s.1)))
            ]
            | inr p ↦ elim (Bool-cases t.noindex_page) [
              | inl q ↦
                  rw (e, p, q, count_page, has_error, e, tally_page)
                    (rw (m, n, noted) (omega (arith, s.0, s.1)))
              | inr q ↦
                  rw (e, p, q, count_page, has_error, e, tally_page)
                    (rw (m, n) (omega (arith, s.0, s.1)))
            ]
          ]
          | inr (err, e) ↦ elim (Bool-cases t.noindex_page) [
            | inl q ↦ absurd (let z : false ≡ true = rw (e, q, settled, has_error) at h in cc)
            | inr q ↦ elim (Bool-cases t.skipped) [
              | inl p ↦ absurd (let z : false ≡ true = rw (e, p, q, settled, has_error) at h in cc)
              | inr p ↦
                  rw (e, p, q, count_page, has_error, e, tally_page)
                    (rw (m, n) (omega (arith, s.0, s.1)))
            ]
          ]
        ]

    recovered_lem :
        (r : Task × Ends (Unit {0}))
        → EndsIn Fresh Settled Failed r
        → Settled (recover_panic cfg world r.1 (deferred_cleanup cfg world r.0))
    unfolding recover_panic cleanup_resources settled has_error
    recovered_lem (t, goes_on a) f =
        deferred_lem cfg world Settled t (f.0, simp (f.2, f.3)) (f.0, simp (f.2, f.3))
    recovered_lem (t, returns) s = deferred_lem cfg world Settled t s s
    recovered_lem (t, panicked) f =
        deferred_lem cfg world (λ t. Settled (recover_panic cfg world panicked t)) t (f.0, simp f.2)
          (f.0, simp f.2)

    -- Whether a task whose body ended so is a failed one: it has an error and was not abandoned.
    unfoldable pub fails : Task × Ends (Unit {0}) → Bool
    fails r =
        has_error (recover_panic cfg world r.1 r.0) && not (not (is_panic r.1) && world.cancelled)

    abandoned_lem : (t : Task) → Same t → Accounts (record t.crawl { wg = t.crawl.wg - 1 }) false
    abandoned_lem t s = rw (s.2) (omega (arith, s.0, s.1))

    finish_lem :
        (url : String) (depth : ℤ) (k : ℕ) (r : Task × Ends (Unit {0}))
        → Settled (recover_panic cfg world r.1 r.0)
        → c.failures.noindex ≡ pos k
        → k + 1 < 2 ^ 63
        → Accounts (finish_task cfg world url depth r) (fails r)
    unfolding finish_task fails
    finish_lem url depth k r s n b =
        let t = recover_panic cfg world r.1 r.0 in
        let counted =
          counted_lem url t (write_entry cfg world depth t) k s.1 (write_entry_keeps depth t s.0) n
            b in
        elim (Bool-cases (has_error t)) [
          | inl e ↦ elim (Bool-cases (not (is_panic r.1) && world.cancelled)) [
            | inl a ↦ rw (e, a) (abandoned_lem t s.0)
            | inr a ↦ rw (e, a) (rw e at counted)
          ]
          | inr e ↦ rw e (rw e at counted)
        ]

-- Whether the task of a page ends as a failed one.
unfoldable pub task_fails : PageConfig → PageWorld → String → ℤ → Crawl → Bool
task_fails cfg world url depth c = fails c cfg world (run_body cfg world url depth c)

-- For every page task of a site and every way that the code it calls answers, a panic anywhere but
-- while links are followed included: what GetProgress subtracts for the failed pages, the processed
-- pages less the succeeded and the noindex ones, grows by one if the task fails and was not abandoned
-- on cancelling, and else stays; while the noindex count stays below 2 ^ 63.
pub process_single_page_task-Accounts :
    (cfg : PageConfig) (world : PageWorld) (url : String) (depth : ℤ) (c : Crawl) (k : ℕ)
    → world.panics in_links ≡ false
    → c.failures.noindex ≡ pos k
    → k + 1 < 2 ^ 63
    → Accounts c (process_single_page_task cfg world url depth c) (task_fails cfg world url depth c)
unfolding process_single_page_task run_body task_fails
process_single_page_task-Accounts cfg world url depth c k calm n b =
    let r = page_body cfg world url depth (start_task c) in
    finish_lem c cfg world url depth k (deferred_cleanup cfg world r.0, r.1)
      (recovered_lem c cfg world r (
        page_body_lem cfg world (Fresh c) (Fresh c) (Noindexed c) (Failed c) (Settled c) (Failed c)
          (tally_rules c cfg world calm) url depth (start_task c)
          ((refl, refl, refl), unfold has_error in refl, refl, refl)))
      n b
