-- ===== src/Store/Answers.antt =====
-- What a client of pkg/storage/badger_store.go sees of its pages: the interface PageStore of
-- pkg/storage/interface.go, against a map from URLs to values.
use Prim.Native.String.{String}
use text.Mathlib.Text.{◌==◌}
use doc_scraper.Prelude.{
  ℕ, zero, suc, ◌+◌, Bool, true, false, List, [], ◌∷◌, Option, none, some, ◌≡◌, refl, arith, ap,
  if◌then◌else◌, Option-cases, inl, inr, ◌⊎◌, ◌∙◌,
}
use doc_scraper.Prelude.Int.{ℤ}
use doc_scraper.Prelude.Assoc.{lookup, insert, lookup-insert}
use doc_scraper.Store.Entries.{
  PageStatus, unset, pending, success, failure, not_found, db_error, odd, PageDbEntry,
}
use doc_scraper.Store.Database.{
  BadgerStore, Stored, empty_value, undecodable, entry, TxnWorld, TxnEnd, commits, conflicts, fails,
  db_update_from, db_update, is_found, pending_entry, mark_page, put_page, page_answer, hash_of,
  mark_page_visited, check_page_status, update_page_status, get_page_content_hash,
}

-- The transactions of a call commit after at most nine conflicts, with no change from elsewhere.
abbrev pub Settles : (ℕ → TxnWorld) → ℕ → ℕ → Type 0
Settles world zero attempt = ⊥
Settles world (suc left) attempt = elim (world attempt).outcome [
  | commits ↦ Unit
  | conflicts ↦ Settles world left (attempt + 1)
  | fails ↦ ⊥
]

abbrev pub Quiet : (ℕ → TxnWorld) → Type 0
Quiet world = (k : ℕ) (s : BadgerStore) → (world k).others s ≡ s

TxnEnd-cases : (o : TxnEnd) → (o ≡ commits) ⊎ ((o ≡ conflicts) ⊎ (o ≡ fails))
TxnEnd-cases commits = inl refl
TxnEnd-cases conflicts = inr (inl refl)
TxnEnd-cases fails = inr (inr refl)

-- Such a call is one run of its function.
pub db_update_from-Settles {ℓ} :
    {A : Type ℓ} (world : ℕ → TxnWorld) (left attempt : ℕ) (f : BadgerStore → BadgerStore × A)
    (s : BadgerStore)
    → Quiet world
    → Settles world left attempt
    → db_update_from world left attempt f s ≡ ((f s).0, some (f s).1)
unfolding db_update_from
db_update_from-Settles world zero attempt f s q h = absurd h
db_update_from-Settles world (suc left) attempt f s q h =
    elim (TxnEnd-cases (world attempt).outcome) [
      | inl e ↦ rw (e, db_update_from, q attempt s) refl
      | inr (inl e) ↦
          rw
            (
              e,
              db_update_from,
              q attempt s,
              db_update_from-Settles world left (attempt + 1) f s q (rw (e, Settles) at h),
            )
            refl
      | inr (inr e) ↦ absurd (rw (e, Settles) at h)
    ]

-- With no change from elsewhere, a call runs its function once, or leaves the store.
pub db_update_from-Quiet {ℓ} :
    {A : Type ℓ} (world : ℕ → TxnWorld) (left attempt : ℕ) (f : BadgerStore → BadgerStore × A)
    (s : BadgerStore)
    → Quiet world
    → (db_update_from world left attempt f s ≡ (s, none))
      ⊎ (db_update_from world left attempt f s ≡ ((f s).0, some (f s).1))
unfolding db_update_from
db_update_from-Quiet world zero attempt f s q = inl refl
db_update_from-Quiet world (suc left) attempt f s q = elim (TxnEnd-cases (world attempt).outcome) [
  | inl e ↦ inr (rw (e, db_update_from, q attempt s) refl)
  | inr (inl e) ↦ elim (db_update_from-Quiet world left (attempt + 1) f s q) [
    | inl h ↦ inl (rw (e, db_update_from, q attempt s, h) refl)
    | inr h ↦ inr (rw (e, db_update_from, q attempt s, h) refl)
  ]
  | inr (inr e) ↦ inl (rw (e, db_update_from, q attempt s) refl)
]

-- One call of the interface `PageStore`.
pub data Call : Type 0 where
  mark : ℕ → String → ℤ → Call
  update : String → PageDbEntry → Call
  check : String → Call
  content_hash : String → Call

pub data Answer : Type 0 where
  added : Option Bool → Answer
  wrote : Option (Unit {0}) → Answer
  found : PageStatus × Option PageDbEntry → Answer
  hash : Option String → Answer

unfoldable pub call : (ℕ → TxnWorld) → Call → BadgerStore → BadgerStore × Answer
unfolding mark_page_visited update_page_status check_page_status get_page_content_hash
call world (mark now url depth) s =
    let r = mark_page_visited world now url depth s in (r.0, added r.1)
call world (update url e) s = let r = update_page_status world url e s in (r.0, wrote r.1)
call world (check url) s = (s, found (check_page_status true s url))
call world (content_hash url) s = (s, hash (get_page_content_hash s url))

unfoldable pub answers : List ((ℕ → TxnWorld) × Call) → BadgerStore → List Answer
unfolding call
answers [] s = []
answers ((world, c) ∷ cs) s = let r = call world c s in r.1 ∷ answers cs r.0

-- The abstract view: what is stored for each URL.
abbrev pub Visited : Type 0
Visited = String → Option (Stored PageDbEntry)

abbrev pub set_at : String → Stored PageDbEntry → Visited → Visited
set_at url value v = λ asked. if url == asked then some value else v asked

-- What is known of a URL. An entry that cannot be read counts as pending.
unfoldable pub known : Option (Stored PageDbEntry) → PageStatus × Option PageDbEntry
known none = (not_found, none)
known (some empty_value) = (pending, none)
known (some undecodable) = (pending, none)
known (some (entry e)) = (e.status, some e)

abbrev nonempty : String → Option String
nonempty text = if text == "" then none else some text

-- Only a page that was saved has a hash, and the empty text is none.
unfoldable pub hash_at : Option (Stored PageDbEntry) → Option String
hash_at none = none
hash_at (some empty_value) = none
hash_at (some undecodable) = none
hash_at (some (entry e)) = elim e.status [ success ↦ nonempty e.content_hash | other ↦ none ]

-- A URL that is new is noted as pending at its depth, never processed; one that is known stays as it is.
unfoldable pub spec_mark : ℕ → String → ℤ → Option (Stored PageDbEntry) → Visited → Visited × Answer
spec_mark now url depth (some value) v = (v, added (some false))
spec_mark now url depth none v = (
  set_at url
      (entry (record {
        status = pending;
        error_type = "";
        processed_at = 0;
        last_attempt = now;
        depth = depth;
        content_hash = "";
      }))
      v,
  added (some true),
)

unfoldable pub spec_call : Call → Visited → Visited × Answer
unfolding spec_mark known hash_at
spec_call (mark now url depth) v = spec_mark now url depth (v url) v
spec_call (update url e) v = (set_at url (entry e) v, wrote (some tt))
spec_call (check url) v = (v, found (known (v url)))
spec_call (content_hash url) v = (v, hash (hash_at (v url)))

unfoldable pub spec_answers : List ((ℕ → TxnWorld) × Call) → Visited → List Answer
unfolding spec_call
spec_answers [] v = []
spec_answers ((world, c) ∷ cs) v = let r = spec_call c v in r.1 ∷ spec_answers cs r.0

-- A store stands for the map of what it looks up.
abbrev pub Represents : BadgerStore → Visited → Type 0
Represents s v = (url : String) → lookup url s.pages ≡ v url

abbrev pub AllSettle : List ((ℕ → TxnWorld) × Call) → Type 0
AllSettle [] = Unit
AllSettle ((world, c) ∷ cs) = (Quiet world × Settles world 10 0) × AllSettle cs

insert-Represents :
    (url : String) (value : Stored PageDbEntry) (s : BadgerStore) (v : Visited)
    → Represents s v
    → (asked : String) → lookup asked (insert url value s.pages) ≡ set_at url value v asked
insert-Represents url value s v r asked =
    ground (arith, lookup-insert url asked value s.pages, r asked)

mark_page-Represents :
    (now : ℕ) (url : String) (depth : ℤ) (s : BadgerStore) (v : Visited)
    → Represents s v
    → Represents (mark_page now url depth s).0 (spec_call (mark now url depth) v).0
      × (added (some (mark_page now url depth s).1) ≡ (spec_call (mark now url depth) v).1)
unfolding mark_page spec_call is_found spec_mark
mark_page-Represents now url depth s v r = elim (Option-cases (v url)) [
  | inr (value, e) ↦ rw (mark_page, r url, e, spec_call) (r, refl)
  | inl e ↦
      rw (mark_page, r url, e, spec_call)
        (insert-Represents url (entry (pending_entry now depth)) s v r, refl)
]

page_answer-known : (o : Option (Stored PageDbEntry)) → page_answer o ≡ known o
unfolding page_answer known
page_answer-known none = refl
page_answer-known (some empty_value) = refl
page_answer-known (some undecodable) = refl
page_answer-known (some (entry e)) = refl

hash_of_entry :
    (s : PageStatus) (e : PageDbEntry)
    → hash_of (s, some e) ≡ (elim s [ success ↦ nonempty e.content_hash | other ↦ none ])
unfolding hash_of
hash_of_entry unset e = refl
hash_of_entry pending e = refl
hash_of_entry success e = refl
hash_of_entry failure e = refl
hash_of_entry not_found e = refl
hash_of_entry db_error e = refl
hash_of_entry (odd text) e = refl

hash_of_at : (o : Option (Stored PageDbEntry)) → hash_of (page_answer o) ≡ hash_at o
unfolding page_answer hash_at hash_of
hash_of_at none = refl
hash_of_at (some empty_value) = refl
hash_of_at (some undecodable) = refl
hash_of_at (some (entry e)) = hash_of_entry e.status e

put_page-Represents :
    (url : String) (e : PageDbEntry) (s : BadgerStore) (v : Visited)
    → Represents s v
    → Represents (put_page url e s).0 (set_at url (entry e) v)
unfolding put_page
put_page-Represents url e s v r = insert-Represents url (entry e) s v r

call-Represents :
    (world : ℕ → TxnWorld) (c : Call) (s : BadgerStore) (v : Visited)
    → Quiet world
    → Settles world 10 0
    → Represents s v
    → Represents (call world c s).0 (spec_call c v).0 × ((call world c s).1 ≡ (spec_call c v).1)
unfolding call mark_page_visited update_page_status check_page_status get_page_content_hash
    db_update spec_call
call-Represents world (mark now url depth) s v q h r =
    rw (db_update_from-Settles world 10 0 (mark_page now url depth) s q h)
      (mark_page-Represents now url depth s v r)
call-Represents world (update url e) s v q h r =
    rw (db_update_from-Settles world 10 0 (put_page url e) s q h)
      (put_page-Represents url e s v r, refl)
call-Represents world (check url) s v q h r =
    (r, ap (λ o. found (page_answer o)) (r url) ∙ ap found (page_answer-known (v url)))
call-Represents world (content_hash url) s v q h r =
    (r, ap (λ o. hash (hash_of (page_answer o))) (r url) ∙ ap hash (hash_of_at (v url)))

-- The store refines the map: for every history of calls of `PageStore` whose transactions commit
-- after at most nine conflicts, and in which no other goroutine writes, the answers are those of the
-- map from URLs to values that the store stands for.
pub answers-spec_answers :
    (cs : List ((ℕ → TxnWorld) × Call)) (s : BadgerStore) (v : Visited)
    → AllSettle cs
    → Represents s v
    → answers cs s ≡ spec_answers cs v
unfolding answers spec_answers
answers-spec_answers [] s v h r = refl
answers-spec_answers ((world, c) ∷ cs) s v h r =
    let one = call-Represents world c s v h.0.0 h.0.1 r in
    let rest = answers-spec_answers cs (call world c s).0 (spec_call c v).0 h.1 one.0 in cc
