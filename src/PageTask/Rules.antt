-- ===== src/PageTask/Rules.antt =====
-- The rules of the module Endings at the steps of processSinglePageTask in pkg/crawler/crawler.go that
-- branch.
use Prim.Native.String.{String}
use text.Mathlib.Text.{◌==◌ as str_eq}
use doc_scraper.Prelude.{
  Bool, true, not, ◌&&◌, List, [], ◌∷◌, Option, none, some, Bool-cases, Option-cases, inl, inr,
}
use doc_scraper.Errors.{Error, parsing}
use doc_scraper.Urls.{Url, normalize_url}
use doc_scraper.PageTask.State.{
  Resource, PageConfig, PageWorld, Response, Task, in_setup, in_acquire_global, in_delay,
  note_error,
}
use doc_scraper.PageTask.Fetching.{error_of, fetch_and_validate_page}
use doc_scraper.PageTask.Steps.{
  slot_error, took_host, took_global, defer_cleanup, acquire_global, wait_delay, setup,
  acquire_resources, fetch_page, after_fetch, is_gone, mark_gone, already_done,
}
use doc_scraper.PageTask.Endings.{Leads}

module _ (cfg : PageConfig) (world : PageWorld) (P R X : Task → Type 0)
    (fails : (e : Error) (t : Task) → P t → R (note_error e t)) where
  pub setup_lem :
      (url : String)
      → ((t : Task) (n : String) → P t → P (record t { normalized_url = n }))
      → ((t : Task) → P t → R (record t { skipped = true }))
      → Leads P P R X (setup cfg world url)
  unfolding setup
  setup_lem url named skips t p = elim (Option-cases (cfg.ops.parse url)) [
    | inl e ↦ rw (e, setup) (fails (error_of world in_setup (parsing ∷ [])) t p)
    | inr (u, e) ↦
        let t' : Task = record t { normalized_url = normalize_url cfg.ops u } in
        elim (Bool-cases (str_eq (cfg.ops.hostname u) "" && not (str_eq u.scheme "file"))) [
          | inl h ↦
              rw (e, setup, h)
                (fails (error_of world in_setup []) t' (named t (normalize_url cfg.ops u) p))
          | inr h ↦ elim (Bool-cases (already_done cfg world t')) [
            | inl d ↦ rw (e, setup, h, d) (skips t' (named t (normalize_url cfg.ops u) p))
            | inr d ↦ rw (e, setup, h, d) (named t (normalize_url cfg.ops u) p)
          ]
        ]
  ]

  after_fetch_lem :
      (u : Url) (resp : Option Response) (err : Option Error)
      → ((t : Task) → R t → R (mark_gone cfg world u t))
      → ((t : Task) → P t → X t)
      → Leads P P R X (after_fetch cfg world u resp err)
  unfolding after_fetch
  after_fetch_lem u resp (some e) gone panics t p = elim (Bool-cases (is_gone cfg world resp)) [
    | inl h ↦ rw h (gone (note_error e t) (fails e t p))
    | inr h ↦ rw h (fails e t p)
  ]
  after_fetch_lem u none none gone panics t p = panics t p
  after_fetch_lem u (some r) none gone panics t p = p

  pub fetch_lem :
      (u : Url)
      → ((t : Task) → R t → R (mark_gone cfg world u t))
      → ((t : Task) → P t → X t)
      → Leads P P R X (fetch_page cfg world u)
  unfolding fetch_page
  fetch_lem u gone panics t p = elim (Option-cases (fetch_and_validate_page cfg world u)) [
    | inl e ↦ rw (e, fetch_page) (panics t p)
    | inr (f, e) ↦ rw (e, fetch_page) (after_fetch_lem u f.resp f.err gone panics t p)
  ]

  pub acquire_lem :
      ((t : Task) (a b c : Bool) (rs : List Resource)
        → P t
        → P (record t { has_host = a; has_global = b; cleans_up = c; resources = rs }))
      → ((t : Task) → P t → X t)
      → Leads P P R X (acquire_resources cfg world)
  unfolding acquire_resources acquire_global wait_delay
  acquire_lem keeps panics t p =
      let one = took_host cfg world t in
      let with_host = keeps t true t.has_global t.cleans_up one.resources p in
      elim (Option-cases world.host_slot) [
        | inr (e, h) ↦
            rw (h, acquire_resources)
              (fails (slot_error cfg world e) (defer_cleanup cfg world t)
                (keeps t t.has_host t.has_global true t.resources p))
        | inl h ↦ elim (Bool-cases (world.panics in_acquire_global)) [
          | inl k ↦ rw (h, k, acquire_resources, acquire_global) (panics one with_host)
          | inr k ↦ elim (Option-cases world.global_slot) [
            | inr (e, g) ↦
                rw (h, k, g, acquire_resources, acquire_global)
                  (fails (slot_error cfg world e) (defer_cleanup cfg world one)
                    (keeps t true t.has_global true one.resources p))
            | inl g ↦ elim (Bool-cases (world.panics in_delay)) [
              | inl d ↦
                  rw (h, k, g, d, acquire_resources, acquire_global, wait_delay)
                    (panics (took_global cfg world one)
                      (keeps t true true t.cleans_up (took_global cfg world one).resources p))
              | inr d ↦
                  rw (h, k, g, d, acquire_resources, acquire_global, wait_delay)
                    (keeps t true true true (took_global cfg world one).resources p)
            ]
          ]
        ]
      ]
