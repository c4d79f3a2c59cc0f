-- ===== src/Store/Requeue.antt =====
-- What the scan of RequeueIncomplete in pkg/storage/badger_store.go sends to the queue.
use Prim.Native.String.{String}
use text.Mathlib.Text.{◌==◌}
use text.Mathlib.TextEquality.{eq_iff}
use doc_scraper.Prelude.{
  ℕ, ◌+◌, Bool, true, false, List, [], ◌∷◌, length, Option, none, some, ◌≤◌, ◌≡◌, refl, arith,
  if◌then◌else◌, Bool-cases, inl, inr,
}
use doc_scraper.Prelude.Int.{ℤ, pos}
use doc_scraper.Prelude.Assoc.{lookup, UniqueKeys}
use doc_scraper.Store.Entries.{pending, success, failure, WorkItem, PageDbEntry}
use doc_scraper.Store.Database.{
  BadgerStore, Stored, empty_value, undecodable, entry, page_answer, check_page_status, mark_page,
  is_found,
}
use doc_scraper.Store.Scan.{ScanWorld, wants_requeue, verdict, scan_from, requeue_incomplete}

-- The depth at which a URL stands in the queue first.
unfoldable pub queued : String → List WorkItem → Option ℤ
queued url [] = none
queued url (item ∷ rest) = if item.url == url then some item.depth else queued url rest

-- The depth at which a page is to be crawled again, by what its key holds.
unfoldable pub requeue_depth : Bool → Option (Stored PageDbEntry) → Option ℤ
requeue_depth include_success none = none
requeue_depth include_success (some empty_value) = some (pos 0)
requeue_depth include_success (some undecodable) = none
requeue_depth include_success (some (entry e)) = elim e.status [
  | pending ↦ some e.depth
  | failure ↦ some e.depth
  | success ↦ if include_success then some e.depth else none
  | other ↦ none
]

-- The context is not cancelled and every value can be read.
abbrev pub Calm : (ℕ → ScanWorld) → Type 0
Calm world =
    (k : ℕ)
    → ((world k).cancelled ≡ false) × ((world k).readable ≡ true) × ((world k).queue_takes ≡ true)

-- The iterator visits each key of a table once, with its value.
abbrev pub Visits {ℓ} :
    {V : Type ℓ} → (List (String × V) → List (String × V)) → List (String × V) → Type ℓ
Visits iterate m = UniqueKeys (iterate m) × ((url : String) → lookup url (iterate m) ≡ lookup url m)

scan_from-queued :
    (world : ℕ → ScanWorld) (include_success : Bool) (k : ℕ)
    (m : List (String × Stored PageDbEntry)) (url : String)
    → Calm world
    → UniqueKeys m
    → queued url (scan_from world include_success k m).sent
      ≡ requeue_depth include_success (lookup url m)
unfolding scan_from lookup queued requeue_depth verdict wants_requeue
scan_from-queued world include_success k [] url calm u = refl
scan_from-queued world include_success k ((held, empty_value) ∷ rest) url calm u = ground (
  arith,
  calm k,
  scan_from-queued world include_success (k + 1) rest url calm u.1,
  eq_iff held url,
  u.0,
)
scan_from-queued world include_success k ((held, undecodable) ∷ rest) url calm u = ground (
  arith,
  calm k,
  scan_from-queued world include_success (k + 1) rest url calm u.1,
  eq_iff held url,
  u.0,
)
scan_from-queued world include_success k ((held, entry e) ∷ rest) url calm u = ground (
  arith,
  calm k,
  scan_from-queued world include_success (k + 1) rest url calm u.1,
  eq_iff held url,
  u.0,
)

-- When the context stays alive and every value can be read, a resumed crawl queues a URL exactly if
-- the database holds a failed or pending page for it, an empty value, or a success where those are
-- asked for; and at the depth of its entry, or 0 for an empty value.
pub requeue_incomplete-queued :
    (iterate : List (String × Stored PageDbEntry) → List (String × Stored PageDbEntry))
    (world : ℕ → ScanWorld) (include_success : Bool) (s : BadgerStore) (url : String)
    → Visits iterate s.pages
    → Calm world
    → queued url (requeue_incomplete iterate world include_success s).sent
      ≡ requeue_depth include_success (lookup url s.pages)
unfolding requeue_incomplete
requeue_incomplete-queued iterate world include_success s url visits calm =
    rw (scan_from-queued world include_success 0 (iterate s.pages) url calm visits.0, visits.1 url)
      refl

-- In every world, the count is that of the items sent, and each key gives an item or an error at most.
pub scan_from-counts :
    (world : ℕ → ScanWorld) (include_success : Bool) (k : ℕ)
    (m : List (String × Stored PageDbEntry))
    → ((scan_from world include_success k m).requeued_count
        ≡ length (scan_from world include_success k m).sent)
      × (length (scan_from world include_success k m).sent
            + (scan_from world include_success k m).scan_errors
          ≤ length m)
unfolding scan_from verdict
scan_from-counts world include_success k [] = ground arith
scan_from-counts world include_success k ((held, value) ∷ rest) =
    ground (arith, scan_from-counts world include_success (k + 1) rest)

-- What the database gives no depth is never queued.
scan_from-never :
    (world : ℕ → ScanWorld) (include_success : Bool) (k : ℕ)
    (m : List (String × Stored PageDbEntry)) (url : String)
    → UniqueKeys m
    → requeue_depth include_success (lookup url m) ≡ none
    → queued url (scan_from world include_success k m).sent ≡ none
unfolding scan_from lookup queued requeue_depth verdict wants_requeue
scan_from-never world include_success k [] url u h = refl
scan_from-never world include_success k ((held, value) ∷ rest) url u h =
    elim (Bool-cases (held == url)) [
      | inl e ↦ ground (
        arith,
        h,
        e,
        eq_iff held url,
        u.0,
        scan_from-never world include_success (k + 1) rest url u.1
            (rw (← (eq_iff held url).0 e, u.0) refl),
      )
      | inr e ↦ ground (
        arith,
        e,
        scan_from-never world include_success (k + 1) rest url u.1 (rw (e, lookup) at h),
      )
    ]

-- A page whose value does not decode is answered as pending and is not marked again, yet no scan of
-- an iterator that visits each key queues it, whatever the world and the mode.
pub undecodable_page_forgotten :
    (iterate : List (String × Stored PageDbEntry) → List (String × Stored PageDbEntry))
    (world : ℕ → ScanWorld) (include_success : Bool) (now : ℕ) (depth : ℤ) (s : BadgerStore)
    (url : String)
    → Visits iterate s.pages
    → lookup url s.pages ≡ some undecodable
    → (check_page_status true s url ≡ (pending, none))
      × (mark_page now url depth s ≡ (s, false))
      × (queued url (requeue_incomplete iterate world include_success s).sent ≡ none)
unfolding requeue_depth
undecodable_page_forgotten iterate world include_success now depth s url visits h = (
  unfold check_page_status in unfold page_answer in rw h refl,
  unfold mark_page in unfold is_found in rw h refl,
  unfold requeue_incomplete in
      scan_from-never world include_success 0 (iterate s.pages) url visits.0
        (rw (visits.1 url) (rw h refl)),
)
