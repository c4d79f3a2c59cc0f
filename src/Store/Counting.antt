-- ===== src/Store/Counting.antt =====
-- The key counter of pkg/storage/badger_store.go agrees with the database.
use Prim.Native.String.{String}
use doc_scraper.Prelude.{
  ℕ, zero, suc, ◌+◌, Bool, true, false, List, [], ◌∷◌, length, Option, none, some, ◌≡◌, refl, arith,
  if◌then◌else◌, Bool-cases, inl, inr,
}
use doc_scraper.Prelude.Int.{ℤ}
use doc_scraper.Prelude.Assoc.{lookup, insert, UniqueKeys, insert-UniqueKeys}
use doc_scraper.Store.Entries.{PageDbEntry, ImageDbEntry}
use doc_scraper.Store.Database.{
  BadgerStore, Stored, TxnWorld, TxnEnd, commits, conflicts, fails, db_update_from, db_update,
  is_found, pending_entry, mark_page, put_page, put_image, mark_page_visited, update_page_status,
  update_image_status, count_keys, get_visited_count, new_badger_store_at,
}

-- No key stands twice in a table, and the counter holds the number of keys.
pub record CountsKeys (s : BadgerStore) : Type 0 where
  pub pages_unique : UniqueKeys s.pages
  pub images_unique : UniqueKeys s.images
  pub counted : s.key_count ≡ count_keys s

pub length-insert {ℓ} :
    {V : Type ℓ} (k : String) (v : V) (m : List (String × V))
    → length (insert k v m) ≡ (if is_found (lookup k m) then length m else suc (length m))
unfolding insert lookup is_found
length-insert k v [] = refl
length-insert k v ((j, w) ∷ m) = ground (arith, length-insert k v m)

mark_page-CountsKeys :
    (now : ℕ) (url : String) (depth : ℤ) (s : BadgerStore)
    → CountsKeys s
    → CountsKeys (mark_page now url depth s).0
unfolding mark_page count_keys
mark_page-CountsKeys now url depth s c = elim (Bool-cases (is_found (lookup url s.pages))) [
  | inl e ↦ rw (e, mark_page) c
  | inr e ↦
      rw (e, mark_page)
        record {
          pages_unique =
              insert-UniqueKeys url (Stored.entry (pending_entry now depth)) s.pages c.pages_unique;
          images_unique = c.images_unique;
          counted = ground (
            arith,
            length-insert url (Stored.entry (pending_entry now depth)) s.pages,
            c.counted,
          );
        }
]

put_page-CountsKeys :
    (url : String) (e : PageDbEntry) (s : BadgerStore)
    → CountsKeys s
    → CountsKeys (put_page url e s).0
unfolding put_page count_keys
put_page-CountsKeys url e s c = record {
  pages_unique = insert-UniqueKeys url (Stored.entry e) s.pages c.pages_unique;
  images_unique = c.images_unique;
  counted = ground (arith, length-insert url (Stored.entry e) s.pages, c.counted);
}

put_image-CountsKeys :
    (url : String) (e : ImageDbEntry) (s : BadgerStore)
    → CountsKeys s
    → CountsKeys (put_image url e s).0
unfolding put_image count_keys
put_image-CountsKeys url e s c = record {
  pages_unique = c.pages_unique;
  images_unique = insert-UniqueKeys url (Stored.entry e) s.images c.images_unique;
  counted = ground (arith, length-insert url (Stored.entry e) s.images, c.counted);
}

-- What a transaction and the other goroutines keep, the loop around the transaction keeps.
pub db_update_from-keeps {ℓ κ} :
    {A : Type ℓ} (P : BadgerStore → Type κ) (world : ℕ → TxnWorld) (left attempt : ℕ)
    (f : BadgerStore → BadgerStore × A) (s : BadgerStore)
    → ((k : ℕ) (t : BadgerStore) → P t → P ((world k).others t))
    → ((t : BadgerStore) → P t → P (f t).0)
    → P s
    → P (db_update_from world left attempt f s).0
unfolding db_update_from
db_update_from-keeps P world zero attempt f s hw hf p = p
db_update_from-keeps {A = A} P world (suc left) attempt f s hw hf p =
    let found = hw attempt s p in
    elim (world attempt).outcome
      as (λ o.
        P
          (elim o as (λ (_ : TxnEnd). BadgerStore × Option A) [
            | commits ↦ ((f ((world attempt).others s)).0, some (f ((world attempt).others s)).1)
            | conflicts ↦ db_update_from world left (attempt + 1) f ((world attempt).others s)
            | fails ↦ ((world attempt).others s, none)
          ]).0) [
            | commits ↦ hf ((world attempt).others s) found
            | conflicts ↦
                db_update_from-keeps P world left (attempt + 1) f ((world attempt).others s) hw hf
                  found
            | fails ↦ found
          ]

-- One call of a goroutine, as it changes the store.
pub data Write : Type 0 where
  mark : ℕ → String → ℤ → Write
  update_page : String → PageDbEntry → Write
  update_image : String → ImageDbEntry → Write

unfoldable pub write : (ℕ → TxnWorld) → Write → BadgerStore → BadgerStore
unfolding mark_page_visited update_page_status update_image_status
write world (mark now url depth) s = (mark_page_visited world now url depth s).0
write world (update_page url e) s = (update_page_status world url e s).0
write world (update_image url e) s = (update_image_status world url e s).0

pub write-CountsKeys :
    (world : ℕ → TxnWorld) (w : Write) (s : BadgerStore)
    → ((k : ℕ) (t : BadgerStore) → CountsKeys t → CountsKeys ((world k).others t))
    → CountsKeys s
    → CountsKeys (write world w s)
unfolding write mark_page_visited update_page_status update_image_status db_update
write-CountsKeys world (mark now url depth) s hw c =
    db_update_from-keeps CountsKeys world 10 0 (mark_page now url depth) s hw
      (λ t ct. mark_page-CountsKeys now url depth t ct) c
write-CountsKeys world (update_page url e) s hw c =
    db_update_from-keeps CountsKeys world 10 0 (put_page url e) s hw
      (λ t ct. put_page-CountsKeys url e t ct) c
write-CountsKeys world (update_image url e) s hw c =
    db_update_from-keeps CountsKeys world 10 0 (put_image url e) s hw
      (λ t ct. put_image-CountsKeys url e t ct) c

-- The calls of a crawl, one after another, each with what happens around its transaction.
unfoldable pub write_all : List ((ℕ → TxnWorld) × Write) → BadgerStore → BadgerStore
unfolding write
write_all [] s = s
write_all ((world, w) ∷ ws) s = write_all ws (write world w s)

abbrev pub OthersCount : List ((ℕ → TxnWorld) × Write) → Type 0
OthersCount [] = Unit
OthersCount ((world, w) ∷ ws) =
    ((k : ℕ) (t : BadgerStore) → CountsKeys t → CountsKeys ((world k).others t)) × OthersCount ws

write_all-CountsKeys :
    (ws : List ((ℕ → TxnWorld) × Write)) (s : BadgerStore)
    → OthersCount ws
    → CountsKeys s
    → CountsKeys (write_all ws s)
unfolding write_all
write_all-CountsKeys [] s h c = c
write_all-CountsKeys ((world, w) ∷ ws) s h c =
    write_all-CountsKeys ws (write world w s) h.1 (write-CountsKeys world w s h.0 c)

open-CountsKeys :
    (resume : Bool) (disk : BadgerStore)
    → UniqueKeys disk.pages
    → UniqueKeys disk.images
    → CountsKeys (new_badger_store_at resume true true disk)
unfolding new_badger_store_at count_keys
open-CountsKeys true disk p i = record { pages_unique = p; images_unique = i; counted = refl }
open-CountsKeys false disk p i = record { pages_unique = tt; images_unique = tt; counted = refl }

-- From a database opened with no failed removal or count, of tables with unique keys, every history
-- of marks, page updates and image updates leaves `GetVisitedCount` at the number of keys: whatever
-- conflicts and failures their transactions meet, if what other goroutines do in between keeps that.
pub get_visited_count-count_keys :
    (resume : Bool) (disk : BadgerStore) (ws : List ((ℕ → TxnWorld) × Write))
    → UniqueKeys disk.pages
    → UniqueKeys disk.images
    → OthersCount ws
    → get_visited_count (write_all ws (new_badger_store_at resume true true disk))
      ≡ count_keys (write_all ws (new_badger_store_at resume true true disk))
unfolding get_visited_count
get_visited_count-count_keys resume disk ws p i h =
    (write_all-CountsKeys ws (new_badger_store_at resume true true disk) h
      (open-CountsKeys resume disk p i)).counted
