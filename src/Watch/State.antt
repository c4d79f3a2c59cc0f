-- ===== src/Watch/State.antt =====
-- pkg/watch/state.go. A time is a number of nanoseconds; `none` in place of the sites is Go's nil
-- map, which can be read and not written.
use Prim.Native.String.{String}
use doc_scraper.Prelude.{
  ℕ, Bool, true, false, not, ◌&&◌, List, [], ◌∷◌, Option, none, some, if◌then◌else◌,
}
use doc_scraper.Prelude.Int.{ℤ, pos, ◌+ℤ◌, ltz}
use doc_scraper.Prelude.Assoc.{lookup, insert}

-- Fifteen minutes.
abbrev pub failed_retry_delay : ℤ
failed_retry_delay = pos 900000000000

pub record SiteState : Type 0 where
  pub last_run_time : ℕ
  pub last_run_success : Bool
  pub pages_saved : ℤ
  pub pages_unchanged : ℤ
  pub pages_failed : ℤ
  pub error_message : String

pub record WatchState : Type 0 where
  pub sites : Option (List (String × SiteState))
  pub updated_at : ℕ

-- `StateManager`; `disk` is the text of the state file.
pub record StateManager : Type 0 where
  pub state : WatchState
  pub disk : Option String

pub record PageCounts : Type 0 where
  pub saved : ℤ
  pub unchanged : ℤ
  pub failed : ℤ

-- `NewStateManager`
unfoldable pub new_state_manager : Option String → StateManager
new_state_manager disk = record { state = record { sites = some []; updated_at = 0 }; disk = disk }

-- What the text of a state file says of the sites: nothing, null, or these.
pub data SitesField : Type 0 where
  absent null : SitesField
  given : List (String × SiteState) → SitesField

-- What `Load` finds. A text that is no JSON changes nothing; in one whose fields do not all have
-- their types, the fields before the bad one are taken over.
pub data FileRead : Type 0 where
  missing unreadable unparsable : FileRead
  mistyped : SitesField → FileRead
  parsed : SitesField → ℕ → FileRead

unfoldable pub no_nil {ℓ} : {A : Type ℓ} → Option (List A) → List A
no_nil none = []
no_nil (some xs) = xs

unfoldable pub insert_all :
    List (String × SiteState) → List (String × SiteState) → List (String × SiteState)
insert_all [] old = old
insert_all ((k, s) ∷ new) old = insert_all new (insert k s old)

-- What `json.Unmarshal` leaves in the map: a JSON object is added to the map that is there.
unfoldable pub decode_sites :
    SitesField → Option (List (String × SiteState)) → Option (List (String × SiteState))
unfolding no_nil insert_all
decode_sites absent old = old
decode_sites null old = none
decode_sites (given new) old = some (insert_all new (no_nil old))

-- `Load`; the Bool says whether it returns no error.
unfoldable pub load : FileRead → StateManager → StateManager × Bool
unfolding decode_sites no_nil
load missing m = (record m { state = record { sites = some []; updated_at = 0 } }, true)
load unreadable m = (m, false)
load unparsable m = (m, false)
load (mistyped field) m =
    (record m { state = record (m.state) { sites = decode_sites field m.state.sites } }, false)
load (parsed field time) m = (
  record m {
    state = record { sites = some (no_nil (decode_sites field m.state.sites)); updated_at = time };
  },
  true,
)

-- The steps of a write to disk: `marshal` is json.MarshalIndent, where none is an error. A write that
-- fails is one that could not open the file:
-- what a write leaves that fails halfway is not modelled.
pub record Io : Type 0 where
  pub mkdir_ok : Bool
  pub marshal : WatchState → Option String
  pub write_ok : Bool

-- `Save`
unfoldable pub save : Io → ℕ → StateManager → StateManager × Bool
save io now m =
    let stamped = record m { state = record (m.state) { updated_at = now } } in
    if not io.mkdir_ok then (stamped, false) else elim (io.marshal stamped.state) [
      | none ↦ (stamped, false)
      | some text ↦
          if io.write_ok then (record stamped { disk = some text }, true) else (stamped, false)
    ]

-- `GetSiteState`
unfoldable pub get_site_state : StateManager → String → Option SiteState
unfolding no_nil
get_site_state m site = lookup site (no_nil m.state.sites)

-- `UpdateSiteState`; a write to a nil map panics, which is `none`.
unfoldable pub update_site_state :
    StateManager → ℕ → String → Bool → PageCounts → String → Option StateManager
update_site_state m now site success counts msg = elim m.state.sites [
  | none ↦ none
  | some sites ↦
      let s : SiteState = record {
        last_run_time = now;
        last_run_success = success;
        pages_saved = counts.saved;
        pages_unchanged = counts.unchanged;
        pages_failed = counts.failed;
        error_message = msg;
      } in
      some (record m { state = record (m.state) { sites = some (insert site s sites) } })
]

-- `nextRun`
unfoldable pub next_run : SiteState → ℤ → ℤ
next_run s interval =
    pos s.last_run_time
    +ℤ (if not s.last_run_success && ltz failed_retry_delay interval
        then failed_retry_delay
        else interval)

unfoldable pub is_due : Option SiteState → ℤ → ℕ → Bool
unfolding next_run
is_due none interval now = true
is_due (some s) interval now = not (ltz (pos now) (next_run s interval))

-- `ShouldRun`
unfoldable pub should_run : StateManager → String → ℤ → ℕ → Bool
unfolding is_due
should_run m site interval now = is_due (get_site_state m site) interval now

unfoldable pub run_time : Option SiteState → ℤ → ℕ → ℤ
unfolding next_run
run_time none interval now = pos now
run_time (some s) interval now = next_run s interval

-- `GetNextRunTime`
unfoldable pub get_next_run_time : StateManager → String → ℤ → ℕ → ℤ
unfolding run_time
get_next_run_time m site interval now = run_time (get_site_state m site) interval now
