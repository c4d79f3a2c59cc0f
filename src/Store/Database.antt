-- ===== src/Store/Database.antt =====
-- pkg/storage/badger_store.go over Badger's tables: the prefix of a key says which of two tables it
-- belongs to, and a value is empty, no JSON of an entry, or an entry.
use Prim.Native.String.{String}
use text.Mathlib.Text.{◌==◌ as str_eq}
use doc_scraper.Prelude.{
  ℕ, zero, suc, ◌+◌, Bool, true, false, List, [], length, Option, none, some, if◌then◌else◌,
}
use doc_scraper.Prelude.Int.{ℤ}
use doc_scraper.Prelude.Assoc.{lookup, insert}
use doc_scraper.Store.Entries.{
  PageStatus, pending, success, not_found, db_error, ImageStatus, image_not_found, image_db_error,
  PageDbEntry, ImageDbEntry,
}

pub data Stored {ℓ} (E : Type ℓ) : Type ℓ where
  empty_value undecodable : Stored E
  entry : E → Stored E

-- `BadgerStore`
pub record BadgerStore : Type 0 where
  pub pages : List (String × Stored PageDbEntry)
  pub images : List (String × Stored ImageDbEntry)
  pub key_count : ℕ

abbrev pub max_conflict_retries : ℕ
max_conflict_retries = 10

-- How one transaction ends.
pub data TxnEnd : Type 0 where
  commits conflicts fails : TxnEnd

-- What other goroutines do before an attempt, and how its transaction ends.
pub record TxnWorld : Type 0 where
  pub others : BadgerStore → BadgerStore
  pub outcome : TxnEnd

-- The loop of `dbUpdate`, with the attempts left. The function reads the database as it is then, and
-- none is an error.
unfoldable pub db_update_from {ℓ} :
    {A : Type ℓ}
    → (ℕ → TxnWorld)
    → ℕ
    → ℕ
    → (BadgerStore → BadgerStore × A)
    → BadgerStore
    → BadgerStore × Option A
db_update_from world zero attempt f s = (s, none)
db_update_from world (suc left) attempt f s =
    let found = (world attempt).others s in
    elim (world attempt).outcome [
      | commits ↦ ((f found).0, some (f found).1)
      | conflicts ↦ db_update_from world left (attempt + 1) f found
      | fails ↦ (found, none)
    ]

-- `dbUpdate`
unfoldable pub db_update {ℓ} :
    {A : Type ℓ}
    → (ℕ → TxnWorld)
    → (BadgerStore → BadgerStore × A)
    → BadgerStore
    → BadgerStore × Option A
unfolding db_update_from
db_update world f s = db_update_from world max_conflict_retries 0 f s

unfoldable pub is_found {ℓ} : {A : Type ℓ} → Option A → Bool
is_found none = false
is_found (some a) = true

abbrev pub pending_entry : ℕ → ℤ → PageDbEntry
pending_entry now depth = record {
  status = pending;
  error_type = "";
  processed_at = 0;
  last_attempt = now;
  depth = depth;
  content_hash = "";
}

-- The transaction of `MarkPageVisited`, and the count of a key that is new.
unfoldable pub mark_page : ℕ → String → ℤ → BadgerStore → BadgerStore × Bool
unfolding is_found
mark_page now url depth s = if is_found (lookup url s.pages) then (s, false) else (
  record s {
    pages = insert url (entry (pending_entry now depth)) s.pages;
    key_count = s.key_count + 1;
  },
  true,
)

-- `MarkPageVisited`; the answer says whether the URL was added.
unfoldable pub mark_page_visited :
    (ℕ → TxnWorld) → ℕ → String → ℤ → BadgerStore → BadgerStore × Option Bool
unfolding db_update mark_page
mark_page_visited world now url depth s = db_update world (mark_page now url depth) s

-- What a value says of a page: one that does not decode counts as pending.
unfoldable pub page_answer : Option (Stored PageDbEntry) → PageStatus × Option PageDbEntry
page_answer none = (not_found, none)
page_answer (some empty_value) = (pending, none)
page_answer (some undecodable) = (pending, none)
page_answer (some (entry e)) = (e.status, some e)

-- `CheckPageStatus`; the Bool says whether the read succeeds.
unfoldable pub check_page_status : Bool → BadgerStore → String → PageStatus × Option PageDbEntry
unfolding page_answer
check_page_status read_ok s url =
    if read_ok then page_answer (lookup url s.pages) else (db_error, none)

-- The transaction of `UpdatePageStatus`, and the count of a key that is new.
unfoldable pub put_page : String → PageDbEntry → BadgerStore → BadgerStore × Unit {0}
unfolding is_found
put_page url e s = (
  record s {
    pages = insert url (entry e) s.pages;
    key_count = if is_found (lookup url s.pages) then s.key_count else s.key_count + 1;
  },
  tt,
)

-- `UpdatePageStatus`
unfoldable pub update_page_status :
    (ℕ → TxnWorld) → String → PageDbEntry → BadgerStore → BadgerStore × Option (Unit {0})
unfolding db_update put_page
update_page_status world url e s = db_update world (put_page url e) s

-- The hash in an entry of a page that succeeded.
unfoldable pub hash_of : PageStatus × Option PageDbEntry → Option String
hash_of (success, some e) = if str_eq e.content_hash "" then none else some e.content_hash
hash_of (status, e) = none

-- `GetPageContentHash` of a database that can be read.
unfoldable pub get_page_content_hash : BadgerStore → String → Option String
unfolding hash_of check_page_status
get_page_content_hash s url = hash_of (check_page_status true s url)

-- What a value says of an image: one that does not decode counts as not found.
unfoldable pub image_answer : Option (Stored ImageDbEntry) → ImageStatus × Option ImageDbEntry
image_answer none = (image_not_found, none)
image_answer (some empty_value) = (image_not_found, none)
image_answer (some undecodable) = (image_not_found, none)
image_answer (some (entry e)) = (e.status, some e)

-- `CheckImageStatus`
unfoldable pub check_image_status : Bool → BadgerStore → String → ImageStatus × Option ImageDbEntry
unfolding image_answer
check_image_status read_ok s url =
    if read_ok then image_answer (lookup url s.images) else (image_db_error, none)

-- The transaction of `UpdateImageStatus`, and the count of a key that is new.
unfoldable pub put_image : String → ImageDbEntry → BadgerStore → BadgerStore × Unit {0}
unfolding is_found
put_image url e s = (
  record s {
    images = insert url (entry e) s.images;
    key_count = if is_found (lookup url s.images) then s.key_count else s.key_count + 1;
  },
  tt,
)

-- `UpdateImageStatus`
unfoldable pub update_image_status :
    (ℕ → TxnWorld) → String → ImageDbEntry → BadgerStore → BadgerStore × Option (Unit {0})
unfolding db_update put_image
update_image_status world url e s = db_update world (put_image url e) s

-- `GetVisitedCount`
unfoldable pub get_visited_count : BadgerStore → ℕ
get_visited_count s = s.key_count

-- `countKeys`
unfoldable pub count_keys : BadgerStore → ℕ
count_keys s = length s.pages + length s.images

-- `NewBadgerStoreAt` over what the directory holds. A fresh crawl removes it first, which may fail;
-- on a resume the keys are counted, unless that fails.
unfoldable pub new_badger_store_at : Bool → Bool → Bool → BadgerStore → BadgerStore
unfolding count_keys
new_badger_store_at resume remove_ok count_ok disk =
    let kept = record disk { key_count = 0 } in
    if resume
    then (if count_ok then record kept { key_count = count_keys disk } else kept)
    else if remove_ok
    then record { pages = []; images = []; key_count = 0 }
    else kept
