-- ===== src/PageTask/Slots.antt =====
-- The request slots that processSinglePageTask in pkg/crawler/crawler.go holds.
use Prim.Native.String.{String}
use doc_scraper.Prelude.{
  Bool, true, false, not, ◌&&◌, ◌||◌, List, [], ◌∷◌, ◌++◌, ◌≡◌, refl, arith, if◌then◌else◌,
  Bool-cases, Option-cases, inl, inr, ◌∙◌,
}
use doc_scraper.Prelude.Int.{ℤ}
use doc_scraper.Errors.{Error}
use doc_scraper.Urls.{Url}
use doc_scraper.PageTask.State.{
  Resource, take_host, take_global, free_host, free_global, parse_page, Crawl, PageConfig,
  PageWorld, Task, in_acquire_global, in_delay, in_links, Ends, goes_on, returns, panicked,
  note_error,
}
use doc_scraper.PageTask.Steps.{
  slot_error, took_host, took_global, defer_cleanup, cleanup_resources, acquire_resources,
  acquire_global, wait_delay, parse_body, follow_links,
}
use doc_scraper.PageTask.Task.{start_task, page_body, deferred_cleanup, run_body}
use doc_scraper.PageTask.Rules.{setup_lem, fetch_lem}
use doc_scraper.PageTask.Body.{BodyRules, page_body_lem}
use doc_scraper.PageTask.Endings.{EndsIn, Leads, check_error_lem}

-- What an observer of the slots has seen: which are held, and that nothing was out of order.
pub record Held : Type 0 where
  pub host : Bool
  pub global : Bool
  pub in_order : Bool

-- The host's slot comes first, a slot is freed only when held, and a page is parsed with none held.
unfoldable pub watch : Resource → Held → Held
watch take_host h = record h { host = true; in_order = h.in_order && not h.host && not h.global }
watch take_global h = record h { global = true; in_order = h.in_order && h.host && not h.global }
watch free_host h = record h { host = false; in_order = h.in_order && h.host }
watch free_global h = record h { global = false; in_order = h.in_order && h.global }
watch parse_page h = record h { in_order = h.in_order && not h.host && not h.global }

unfoldable pub watch_all : List Resource → Held → Held
unfolding watch
watch_all [] h = h
watch_all (r ∷ rs) h = watch_all rs (watch r h)

abbrev pub idle : Held
idle = record { host = false; global = false; in_order = true }

watch_all-append :
    (xs ys : List Resource) (h : Held) → watch_all (xs ++ ys) h ≡ watch_all ys (watch_all xs h)
unfolding watch_all
watch_all-append [] ys h = refl
watch_all-append (x ∷ xs) ys h = watch_all-append xs ys (watch x h)

-- What was seen is what the task's variables say.
abbrev Tracked : Task → Type 0
Tracked t =
    watch_all t.resources idle
    ≡ record { host = t.has_host; global = t.has_global; in_order = true }

abbrev Clear : Task → Type 0
Clear t = Tracked t × (t.has_host ≡ false) × (t.has_global ≡ false)

-- What is held is freed by the deferred cleanup.
abbrev Guarded : Task → Type 0
Guarded t = Tracked t × (((t.has_host || t.has_global) && not t.cleans_up) ≡ false)

Clear-Guarded : (t : Task) → Clear t → Guarded t
Clear-Guarded t c = (c.0, rw (c.1, c.2) refl)

note_error-Guarded : (e : Error) (t : Task) → Guarded t → Guarded (note_error e t)
note_error-Guarded e t h = ground (arith, h)

-- Once the cleanup is deferred.
armed :
    (cfg : PageConfig) (world : PageWorld) (t : Task)
    → Tracked t
    → Guarded (defer_cleanup cfg world t)
armed cfg world t h = (h, ground arith)

took_host-Tracked :
    (t : Task)
    → Clear t
    → watch_all (t.resources ++ (take_host ∷ [])) idle
      ≡ record { host = true; global = t.has_global; in_order = true }
unfolding watch_all watch
took_host-Tracked t c = watch_all-append t.resources (take_host ∷ []) idle ∙ rw (c.0, c.1, c.2) refl

abbrev frees : Bool → Bool → List Resource
frees a b = (if a then free_host ∷ [] else []) ++ (if b then free_global ∷ [] else [])

frees_lem :
    (a b : Bool) → watch_all (frees a b) (record { host = a; global = b; in_order = true }) ≡ idle
unfolding watch_all watch
frees_lem true true = refl
frees_lem true false = refl
frees_lem false true = refl
frees_lem false false = refl

module _ (cfg : PageConfig) (world : PageWorld) where
  cleanup-Clear : (t : Task) → Tracked t → Clear (cleanup_resources cfg world t)
  unfolding cleanup_resources
  cleanup-Clear t h = (
    watch_all-append t.resources (frees t.has_host t.has_global) idle
        ∙ rw h (frees_lem t.has_host t.has_global),
    refl,
    refl,
  )

  acquire-Guarded :
      world.panics in_acquire_global ≡ false
      → world.panics in_delay ≡ false
      → Leads Clear Guarded Guarded Guarded (acquire_resources cfg world)
  unfolding acquire_resources acquire_global wait_delay watch_all watch
  acquire-Guarded calm_global calm_delay t c =
      let one = took_host cfg world t in
      elim (Option-cases world.host_slot) [
        | inr (e, h) ↦
            rw (h, acquire_resources)
              (note_error-Guarded (slot_error cfg world e) (defer_cleanup cfg world t)
                (armed cfg world t c.0))
        | inl h ↦ elim (Option-cases world.global_slot) [
          | inr (e, g) ↦
              rw (h, g, calm_global, acquire_resources, acquire_global)
                (note_error-Guarded (slot_error cfg world e) (defer_cleanup cfg world one)
                  (armed cfg world one (took_host-Tracked t c)))
          | inl g ↦
              rw (h, g, calm_global, calm_delay, acquire_resources, acquire_global, wait_delay)
                (armed cfg world (took_global cfg world one) (
                  watch_all-append one.resources (take_global ∷ []) idle
                  ∙ rw (took_host-Tracked t c, c.2) refl))
        ]
      ]

  parse-Clear : Leads Clear Clear Guarded Guarded (parse_body cfg world)
  unfolding parse_body watch_all watch
  parse-Clear t c =
      let seen : watch_all (t.resources ++ (parse_page ∷ [])) idle
          ≡ record { host = t.has_host; global = t.has_global; in_order = true } =
        watch_all-append t.resources (parse_page ∷ []) idle ∙ rw (c.0, c.1, c.2) refl in
      check_error_lem Guarded Guarded Clear world.parse_result
        (λ e u h. note_error-Guarded e u (Clear-Guarded u h))
        (record t { resources = t.resources ++ (parse_page ∷ []) }) (seen, c.1, c.2)

  follow-Clear :
      (page : Url) (depth : ℤ)
      → Leads Clear Clear Guarded Guarded (follow_links cfg world page depth)
  unfolding follow_links
  follow-Clear page depth t c = elim (Bool-cases (world.panics in_links)) [
    | inl e ↦ rw (e, follow_links) (Clear-Guarded t c)
    | inr e ↦ rw (e, follow_links) c
  ]

  slot_rules :
      world.panics in_acquire_global ≡ false
      → world.panics in_delay ≡ false
      → BodyRules cfg world Clear Guarded Clear Clear Guarded Guarded
  slot_rules calm_global calm_delay = record {
    panics = Clear-Guarded;
    panics_held = λ t h. h;
    fails = λ e t c. note_error-Guarded e t (Clear-Guarded t c);
    fails_held = note_error-Guarded;
    sets_up = λ url.
        setup_lem cfg world Clear Guarded Guarded
          (λ e t c. note_error-Guarded e t (Clear-Guarded t c)) url (λ t n c. c)
          (λ t c. Clear-Guarded t c);
    acquires = acquire-Guarded calm_global calm_delay;
    fetches =
        λ u. fetch_lem cfg world Guarded Guarded Guarded note_error-Guarded u (λ t h. h) (λ t h. h);
    frees = λ t h. cleanup-Clear t h.0;
    parses = parse-Clear;
    noindexed = λ t c. cleanup-Clear (record t { noindex_page = true }) c.0;
    follows_noindex = follow-Clear;
    noindex_returns = Clear-Guarded;
    unselected =
        λ e t c. cleanup-Clear (note_error e t) (note_error-Guarded e t (Clear-Guarded t c)).0;
    follows_unselected = follow-Clear;
    unselected_returns = Clear-Guarded;
    hashed = λ t c. cleanup-Clear (record t { content_hash = world.region_hash }) c.0;
    follows = follow-Clear;
    unchanged = Clear-Guarded;
    saves = λ page t c. c;
  }

  Guarded-end : (r : Task × Ends (Unit {0})) → EndsIn Clear Guarded Guarded r → Guarded r.0
  Guarded-end (t, goes_on a) h = Clear-Guarded t h
  Guarded-end (t, returns) h = h
  Guarded-end (t, panicked) h = h

  held_nothing : (a b : Bool) → ((a || b) && not false) ≡ false → (a ≡ false) × (b ≡ false)
  held_nothing a b h = ground (arith, h)

  cleaned-idle :
      (b : Bool) (t : Task)
      → Tracked t
      → ((t.has_host || t.has_global) && not b) ≡ false
      → watch_all (if b then cleanup_resources cfg world t else t).resources idle ≡ idle
  cleaned-idle true t h g = unfold cleanup_resources in (cleanup-Clear t h).0
  cleaned-idle false t h g =
      let n = held_nothing t.has_host t.has_global g in h ∙ rw (n.0, n.1) refl

  deferred-idle :
      (t : Task) → Guarded t → watch_all (deferred_cleanup cfg world t).resources idle ≡ idle
  unfolding deferred_cleanup
  deferred-idle t h = cleaned-idle t.cleans_up t h.0 h.1

  -- However a page task ends, an error or a panic included, but for a panic in acquireResources while it
  -- holds a slot, which comes before the cleanup is deferred: what the task does with the request slots
  -- leaves none held; it takes the host's slot first, frees only what it holds, and never waits for the
  -- page budget while it holds one.
  pub run_body_slots :
      (url : String) (depth : ℤ) (crawl : Crawl)
      → world.panics in_acquire_global ≡ false
      → world.panics in_delay ≡ false
      → watch_all (run_body cfg world url depth crawl).0.resources idle ≡ idle
  unfolding run_body
  run_body_slots url depth crawl calm_global calm_delay =
      let r = page_body cfg world url depth (start_task crawl) in
      let ends =
        page_body_lem cfg world Clear Guarded Clear Clear Guarded Guarded
          (slot_rules calm_global calm_delay) url depth (start_task crawl)
          (unfold watch_all in refl, refl, refl) in
      deferred-idle r.0 (Guarded-end r ends)
