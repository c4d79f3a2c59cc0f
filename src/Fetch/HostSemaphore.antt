-- ===== src/Fetch/HostSemaphore.antt =====
-- pkg/fetch/hostsemaphore.go, over any weighted semaphore. Each critical section is one step, and so
-- are the grant that Acquire waits for and the semaphore's release outside the lock. An entry also
-- counts the goroutines that stand at it: waiting for a permit, holding one, and giving one back. That
-- count goes with the entry when it is evicted; Fetch.HostPermits has one that does not.
use Prim.Native.String.{String}
use doc_scraper.Prelude.{
  ℕ, ◌+◌, ◌-◌, Bool, not, ◌&&◌, List, [], ◌∷◌, length, Option, none, some, ◌==◌, if◌then◌else◌,
}
use doc_scraper.Prelude.Int.{ℤ, pos, pos_part, ◌+ℤ◌, ◌-ℤ◌, lez}
use doc_scraper.Prelude.Assoc.{lookup, insert}
use doc_scraper.Semaphore.{Semaphore}

-- The default for an interval or a limit that is not positive; five minutes in nanoseconds.
abbrev pub default_interval : ℤ
default_interval = pos 300000000000

unfoldable pub effective_interval : ℤ → ℤ
effective_interval d = if lez d (pos 0) then default_interval else d

-- The limit of `NewHostSemaphorePool`.
unfoldable pub effective_limit : ℤ → ℕ
effective_limit n = if lez n (pos 0) then 2 else pos_part n

module _ (x : Semaphore) where
  open x use {Sem, new_weighted, try_acquire, release}

  -- `hostEntry`; a time of 0 is Go's zero time.
  pub record HostEntry : Type 0 where
    pub sem : Sem
    pub active_count : ℤ
    pub last_release : ℕ
    pub waiting : ℕ
    pub holding : ℕ
    pub releasing : ℕ

  pub record Pool : Type 0 where
    pub entries : List (String × HostEntry)
    pub limit : ℕ

  -- `NewHostSemaphorePool`
  unfoldable pub new_pool : ℤ → Pool
  unfolding effective_limit
  new_pool max_per_host = record { entries = []; limit = effective_limit max_per_host }

  unfoldable pub entry_or_new : Pool → Option HostEntry → HostEntry
  entry_or_new p (some e) = e
  entry_or_new p none = record {
    sem = new_weighted p.limit;
    active_count = pos 0;
    last_release = 0;
    waiting = 0;
    holding = 0;
    releasing = 0;
  }

  unfoldable pub put : Pool → String → HostEntry → Pool
  put p host e = record p { entries = insert host e p.entries }

  -- The first critical section of `Acquire`.
  unfoldable pub begin_acquire : Pool → String → Pool
  unfolding entry_or_new put
  begin_acquire p host =
      let e = entry_or_new p (lookup host p.entries) in
      put p host (record e { active_count = e.active_count +ℤ pos 1; waiting = e.waiting + 1 })

  unfoldable pub granted : Pool → String → HostEntry → Option Sem → Pool
  unfolding put
  granted p host e none = p
  granted p host e (some s) =
      put p host (record e { sem = s; waiting = e.waiting - 1; holding = e.holding + 1 })

  -- `entry.sem.Acquire` succeeds for a goroutine that waits.
  unfoldable pub grant : Pool → String → Pool
  unfolding granted
  grant p host = elim (lookup host p.entries) [
    | none ↦ p
    | some e ↦ if e.waiting == 0 then p else granted p host e (try_acquire e.sem 1)
  ]

  -- The second critical section of `Acquire`, when the context ends first.
  unfoldable pub give_up : Pool → String → Pool
  unfolding put
  give_up p host = elim (lookup host p.entries) [
    | none ↦ p
    | some e ↦
        if e.waiting == 0
        then p
        else put p host
            (record e { active_count = e.active_count -ℤ pos 1; waiting = e.waiting - 1 })
  ]

  -- The critical section of `Release`, which must follow a successful Acquire.
  unfoldable pub begin_release : Pool → ℕ → String → Pool
  unfolding put
  begin_release p now host = elim (lookup host p.entries) [
    | none ↦ p
    | some e ↦
        if e.holding == 0
        then p
        else put p host (record e {
          active_count = e.active_count -ℤ pos 1;
          last_release = now;
          holding = e.holding - 1;
          releasing = e.releasing + 1;
        })
  ]

  -- `entry.sem.Release(1)`
  unfoldable pub end_release : Pool → String → Pool
  unfolding put
  end_release p host = elim (lookup host p.entries) [
    | none ↦ p
    | some e ↦
        if e.releasing == 0
        then p
        else put p host (record e { sem = release e.sem 1; releasing = e.releasing - 1 })
  ]

  -- The condition of `evictIdle`.
  unfoldable pub is_idle : ℕ → ℤ → HostEntry → Bool
  is_idle now max_idle e =
      (lez e.active_count (pos 0) && lez (pos 0) e.active_count)
      && not (e.last_release == 0)
      && lez max_idle (pos now -ℤ pos e.last_release)

  unfoldable pub evict_entries : ℕ → ℤ → List (String × HostEntry) → List (String × HostEntry)
  evict_entries now max_idle [] = []
  evict_entries now max_idle ((host, e) ∷ es) =
      if is_idle now max_idle e
      then evict_entries now max_idle es
      else (host, e) ∷ evict_entries now max_idle es

  -- `evictIdle`
  unfoldable pub evict_idle : Pool → ℕ → ℤ → Pool
  unfolding evict_entries
  evict_idle p now max_idle = record p { entries = evict_entries now max_idle p.entries }

  -- One tick of `RunEviction`.
  unfoldable pub eviction_tick : Pool → ℕ → ℤ → Pool
  unfolding effective_interval evict_idle
  eviction_tick p now interval = evict_idle p now (effective_interval interval)

  -- `HostSemaphorePool.Len`
  unfoldable pub len : Pool → ℕ
  len p = length p.entries
