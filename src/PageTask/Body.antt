-- ===== src/PageTask/Body.antt =====
-- One rule for the whole body of processSinglePageTask in pkg/crawler/crawler.go.
use Prim.Native.String.{String}
use text.Mathlib.Text.{◌==◌ as str_eq}
use doc_scraper.Prelude.{
  ◌+◌, Bool, true, false, ◌&&◌, [], ◌∷◌, ◌++◌, if◌then◌else◌, Bool-cases, Option-cases, inl, inr,
}
use doc_scraper.Prelude.Int.{ℤ}
use doc_scraper.Errors.{Error}
use doc_scraper.Urls.{Url}
use doc_scraper.PageTask.State.{
  PageConfig, PageWorld, Response, Task, in_setup, in_policy, in_acquire, in_fetch, in_read,
  in_parse, in_robots, in_select, in_save, M, ◌>>◌, pure, stop, modify, when, note_error, enter,
  check_error,
}
use doc_scraper.PageTask.Fetching.{read_body}
use doc_scraper.PageTask.Steps.{
  setup, run_policy_checks, cleanup_resources, acquire_resources, fetch_page, parse_body,
  follow_links, is_unchanged,
}
use doc_scraper.PageTask.Task.{
  deferred_cleanup, page_body, page_steps, noindex_steps, select_steps, incremental_steps,
  save_steps,
}
use doc_scraper.PageTask.Endings.{Leads, bind_lem, then_lem, enter_lem, check_error_lem}

-- What the steps have to do to the predicates of a proof: `P` while the task goes on, `A` while it
-- holds slots, `N` once the page is found to be noindex, `S` once its content was not found, and `R`
-- and `X` where it returns and panics.
pub record BodyRules (cfg : PageConfig) (world : PageWorld) (P A N S R X : Task → Type 0)
    : Type 0 where
  pub panics : (t : Task) → P t → X t
  pub panics_held : (t : Task) → A t → X t
  pub fails : (e : Error) (t : Task) → P t → R (note_error e t)
  pub fails_held : (e : Error) (t : Task) → A t → R (note_error e t)
  pub sets_up : (url : String) → Leads P P R X (setup cfg world url)
  pub acquires : Leads P A R X (acquire_resources cfg world)
  pub fetches : (u : Url) → Leads A A R X (fetch_page cfg world u)
  pub frees : (t : Task) → A t → P (cleanup_resources cfg world t)
  pub parses : Leads P P R X (parse_body cfg world)
  pub noindexed :
      (t : Task) → P t → N (cleanup_resources cfg world (record t { noindex_page = true }))
  pub follows_noindex : (page : Url) (depth : ℤ) → Leads N N R X (follow_links cfg world page depth)
  pub noindex_returns : (t : Task) → N t → R t
  pub unselected : (e : Error) (t : Task) → P t → S (cleanup_resources cfg world (note_error e t))
  pub follows_unselected :
      (page : Url) (depth : ℤ) → Leads S S R X (follow_links cfg world page depth)
  pub unselected_returns : (t : Task) → S t → R t
  pub hashed :
      (t : Task)
      → P t
      → P (cleanup_resources cfg world (record t { content_hash = world.region_hash }))
  pub follows : (page : Url) (depth : ℤ) → Leads P P R X (follow_links cfg world page depth)
  pub unchanged :
      (t : Task)
      → P t
      → R (record t {
        crawl = record t.crawl { unchanged = t.crawl.unchanged + 1 };
        skipped = true;
      })
  pub saves :
      (page : Url) (t : Task)
      → P t
      → P (record t {
        crawl = record t.crawl {
          recorded = t.crawl.recorded ++ (page ∷ []);
          saved = t.crawl.saved + 1;
        };
      })

module _ (cfg : PageConfig) (world : PageWorld) (P A N S R X : Task → Type 0)
    (rules : BodyRules cfg world P A N S R X) where
  stop_lem : (Q T : Task → Type 0) → ((t : Task) → Q t → R t) → Leads Q T R X (stop {A = Unit {0}})
  stop_lem Q T h t q = h t q

  may_follow_lem :
      (b : Bool) (page : Url) (depth : ℤ)
      → Leads N N R X (if b then pure tt else follow_links cfg world page depth)
  may_follow_lem true page depth t n = n
  may_follow_lem false page depth t n = rules.follows_noindex page depth t n

  when_lem : (b : Bool) (m : M (Unit {0})) → Leads P P R X m → Leads P P R X (when b m)
  when_lem true m h t p = h t p
  when_lem false m h t p = p

  noindex_lem : (page : Url) (depth : ℤ) → Leads P P R X (noindex_steps cfg world page depth)
  unfolding noindex_steps
  noindex_lem page depth t p =
      let skips = world.nofollow && cfg.scope.respect_nofollow in
      then_lem R X N N P (if skips then pure tt else follow_links cfg world page depth) stop
        (may_follow_lem skips page depth) (stop_lem N P rules.noindex_returns)
        (cleanup_resources cfg world (record t { noindex_page = true })) (rules.noindexed t p)

  select_lem : (page : Url) (depth : ℤ) → Leads P P R X (select_steps cfg world page depth)
  unfolding select_steps
  select_lem page depth t p = elim (Option-cases world.select_result) [
    | inl e ↦ rw (e, select_steps) p
    | inr (err, e) ↦
        rw (e, select_steps)
          (then_lem R X S S P (follow_links cfg world page depth) stop
            (rules.follows_unselected page depth) (stop_lem S P rules.unselected_returns)
            (cleanup_resources cfg world (note_error err t)) (rules.unselected err t p))
  ]

  incremental_lem : Leads P P R X (incremental_steps cfg world)
  unfolding incremental_steps
  incremental_lem t p = elim (Bool-cases (cfg.enable_incremental && is_unchanged cfg world t)) [
    | inl e ↦ rw (e, incremental_steps) (rules.unchanged t p)
    | inr e ↦ rw (e, incremental_steps) p
  ]

  saved_lem :
      (b : Bool) (page : Url) (t : Task)
      → P t
      → P (
          if b then t else record t {
            crawl = record t.crawl {
              recorded = t.crawl.recorded ++ (page ∷ []);
              saved = t.crawl.saved + 1;
            };
          })
  saved_lem true page t p = p
  saved_lem false page t p = rules.saves page t p

  save_lem : (page : Url) → Leads P P R X (save_steps cfg world page)
  unfolding save_steps
  save_lem page t p =
      then_lem R X P P P (check_error world.save_result)
        (modify (λ t. if str_eq world.saved_path "" then t else record t {
          crawl = record t.crawl {
            recorded = t.crawl.recorded ++ (page ∷ []);
            saved = t.crawl.saved + 1;
          };
        }))
        (check_error_lem R X P world.save_result rules.fails)
        (λ u q. saved_lem (str_eq world.saved_path "") page u q) t p

  page_steps_lem : (page : Url) (depth : ℤ) → Leads P P R X (page_steps cfg world page depth)
  unfolding page_steps
  page_steps_lem page depth =
      then_lem R X P P P _ _ (enter_lem R X P world in_robots rules.panics) (
        then_lem R X P P P _ _
          (when_lem (world.noindex && cfg.respect_noindex) (noindex_steps cfg world page depth)
            (noindex_lem page depth))
          (then_lem R X P P P _ _ (enter_lem R X P world in_select rules.panics) (
            then_lem R X P P P _ _ (select_lem page depth) (
              then_lem R X P P P _ _ (check_error_lem R X P world.outer_html rules.fails) (
                then_lem R X P P P
                  (modify (λ t.
                    cleanup_resources cfg world (record t { content_hash = world.region_hash })))
                  _ (λ t p. rules.hashed t p)
                  (then_lem R X P P P _ _ (rules.follows page depth) (
                    then_lem R X P P P _ _ incremental_lem (
                      then_lem R X P P P _ _ (enter_lem R X P world in_save rules.panics)
                        (save_lem page)))))))))

  read_lem :
      (r : Response) (depth : ℤ)
      → Leads A P R X (do
        enter world in_read
        check_error (read_body cfg world r)
        modify (cleanup_resources cfg world)
        enter world in_parse
        parse_body cfg world
        page_steps cfg world r.final_url depth)
  read_lem r depth = then_lem R X A A P _ _ (enter_lem R X A world in_read rules.panics_held) (
      then_lem R X A A P _ _ (check_error_lem R X A (read_body cfg world r) rules.fails_held) (
        then_lem R X A P P (modify (cleanup_resources cfg world)) _ (λ t a. rules.frees t a)
          (then_lem R X P P P _ _ (enter_lem R X P world in_parse rules.panics)
            (then_lem R X P P P _ _ rules.parses (page_steps_lem r.final_url depth)))))

  pub page_body_lem : (url : String) (depth : ℤ) → Leads P P R X (page_body cfg world url depth)
  unfolding page_body
  page_body_lem url depth = then_lem R X P P P _ _ (enter_lem R X P world in_setup rules.panics) (
      bind_lem R X P P P _ _ (rules.sets_up url) (λ u.
        then_lem R X P P P _ _ (enter_lem R X P world in_policy rules.panics) (
          then_lem R X P P P _ _
            (check_error_lem R X P (run_policy_checks cfg world u depth) rules.fails)
            (then_lem R X P P P _ _ (enter_lem R X P world in_acquire rules.panics) (
              then_lem R X P A P _ _ rules.acquires (
                then_lem R X A A P _ _ (enter_lem R X A world in_fetch rules.panics_held)
                  (bind_lem R X A A P _ _ (rules.fetches u) (λ r. read_lem r depth))))))))

if_lem {ℓ} : (P : Task → Type ℓ) (b : Bool) (t u : Task) → P t → P u → P (if b then t else u)
if_lem P true t u p q = p
if_lem P false t u p q = q

-- What holds with the cleanup and without it holds after the deferred one.
pub deferred_lem {ℓ} :
    (cfg : PageConfig) (world : PageWorld) (P : Task → Type ℓ) (t : Task)
    → P (cleanup_resources cfg world t)
    → P t
    → P (deferred_cleanup cfg world t)
unfolding deferred_cleanup
deferred_lem cfg world P t clean left =
    if_lem P t.cleans_up (cleanup_resources cfg world t) t clean left
