-- ===== src/Fetch/HostPermits.antt =====
-- The permits of a host that are out, counted by those who take and return them and not by the pool of
-- pkg/fetch/hostsemaphore.go, over any interleaving of its callers and its evictions.
pub mod Limit
use Prim.Native.String.{String}
use text.Mathlib.Text.{◌==◌ as str_eq}
use text.Mathlib.TextEquality.{eq_iff}
use doc_scraper.Prelude.{
  ℕ, ◌+◌, ◌-◌, ◌≤◌, ◌≡◌, refl, Bool, true, false, ◌&&◌, List, [], ◌∷◌, Option, none, some, ◌==◌,
  if◌then◌else◌, arith, Bool-cases, Option-cases, inl, inr, ◌∙◌, sym,
}
use doc_scraper.Prelude.Int.{ℤ}
use doc_scraper.Prelude.Assoc.{lookup, lookup-insert, UniqueKeys, insert-UniqueKeys}
use doc_scraper.Prelude.Sort.{All}
use doc_scraper.Store.Database.{is_found}
use doc_scraper.Semaphore.{Semaphore}
use doc_scraper.Fetch.HostSemaphore.{
  HostEntry, Pool, new_pool, entry_or_new, put, begin_acquire, granted, grant, give_up,
  begin_release, end_release, is_idle, evict_entries, evict_idle, eviction_tick, effective_limit,
  effective_interval,
}
use doc_scraper.Fetch.HostLimit.{IsFit, Inv, found-IsFit}
use doc_scraper.Fetch.HostHistory.{
  Event, acquires, grants, gives_up, returns, releases, ticks, step, step-Inv, step-limit,
}

module _ (x : Semaphore) where
  -- The pool, and how many permits of each host its callers have been granted and have not released.
  pub record Counted : Type 0 where
    pub pool : Pool x
    pub permits : String → ℕ

  unfoldable pub add_permit : String → (String → ℕ) → String → ℕ
  add_permit host permits asked = if str_eq host asked then permits asked + 1 else permits asked

  unfoldable pub drop_permit : String → (String → ℕ) → String → ℕ
  drop_permit host permits asked = if str_eq host asked then permits asked - 1 else permits asked

  -- Whether a goroutine that waits at the host's entry gets its permit.
  unfoldable pub is_granted : Pool x → String → Bool
  unfolding is_found
  is_granted p host = elim (lookup host p.entries) [
    | none ↦ false
    | some e ↦ if e.waiting == 0 then false else is_found (x.try_acquire e.sem 1)
  ]

  -- Release is called by one who was granted a permit.
  unfoldable pub counted_step : Counted → Event → Counted
  counted_step c (acquires host) = record c { pool = step x c.pool (acquires host) }
  counted_step c (gives_up host) = record c { pool = step x c.pool (gives_up host) }
  counted_step c (returns host) = record c { pool = step x c.pool (returns host) }
  counted_step c (ticks now interval) = record c { pool = step x c.pool (ticks now interval) }
  counted_step c (grants host) = record {
    pool = step x c.pool (grants host);
    permits = if is_granted c.pool host then add_permit host c.permits else c.permits;
  }
  counted_step c (releases now host) =
      if c.permits host == 0
      then c
      else record { pool = step x c.pool (releases now host); permits = drop_permit host c.permits }

  unfoldable pub counted_run : Counted → List Event → Counted
  counted_run c [] = c
  counted_run c (e ∷ es) = counted_run (counted_step c e) es

  abbrev pub held_at : Option (HostEntry x) → ℕ
  held_at none = 0
  held_at (some e) = e.holding

  abbrev pub held_for : String → Pool x → ℕ
  held_for host p = held_at (lookup host p.entries)

  pub put-held :
      (p : Pool x) (host asked : String) (e : HostEntry x)
      → held_for asked (put x p host e)
        ≡ (if str_eq host asked then e.holding else held_for asked p)
  unfolding put
  put-held p host asked e = ground (arith, lookup-insert host asked e p.entries)

  pub same-held :
      (p : Pool x) (host asked : String) (e : HostEntry x)
      → e.holding ≡ held_for host p
      → held_for asked (put x p host e) ≡ held_for asked p
  same-held p host asked e h = elim (Bool-cases (str_eq host asked)) [
    | inl s ↦ put-held p host asked e ∙ rw s (rw (← (eq_iff host asked).0 s) h)
    | inr s ↦ put-held p host asked e ∙ rw s refl
  ]

  pub new-held : (p : Pool x) (o : Option (HostEntry x)) → (entry_or_new x p o).holding ≡ held_at o
  unfolding entry_or_new
  new-held p none = refl
  new-held p (some e) = refl

  evict-none :
      (now : ℕ) (max_idle : ℤ) (host : String) (es : List (String × HostEntry x))
      → lookup host es ≡ none
      → lookup host (evict_entries x now max_idle es) ≡ none
  unfolding evict_entries lookup
  evict-none now max_idle host [] h = h
  evict-none now max_idle host ((k, d) ∷ es) h = elim (Bool-cases (str_eq k host)) [
    | inl s ↦ absurd (let z : some d ≡ none = rw (s, lookup) at h in cc)
    | inr s ↦
        let rest = evict-none now max_idle host es (rw (s, lookup) at h) in
        elim (Bool-cases (is_idle x now max_idle d)) [
          | inl i ↦ rw (i, evict_entries) rest
          | inr i ↦ rw (i, evict_entries) (rw (s, lookup) rest)
        ]
  ]

  pub evict-UniqueKeys :
      (now : ℕ) (max_idle : ℤ) (es : List (String × HostEntry x))
      → UniqueKeys es
      → UniqueKeys (evict_entries x now max_idle es)
  unfolding evict_entries
  evict-UniqueKeys now max_idle [] u = tt
  evict-UniqueKeys now max_idle ((k, d) ∷ es) u = elim (Bool-cases (is_idle x now max_idle d)) [
    | inl i ↦ rw (i, evict_entries) (evict-UniqueKeys now max_idle es u.1)
    | inr i ↦
        rw (i, evict_entries)
          (evict-none now max_idle k es u.0, evict-UniqueKeys now max_idle es u.1)
  ]

  -- An idle entry has no permit out.
  idle-held :
      (limit now : ℕ) (max_idle : ℤ) (e : HostEntry x)
      → IsFit x limit e
      → is_idle x now max_idle e ≡ true
      → e.holding ≡ 0
  unfolding is_idle
  idle-held limit now max_idle e fit i = ground (arith, fit.counted, i)

  pub evict-held :
      (limit now : ℕ) (max_idle : ℤ) (host : String) (es : List (String × HostEntry x))
      → UniqueKeys es
      → All (λ (h : String × HostEntry x). IsFit x limit h.1) es
      → held_at (lookup host (evict_entries x now max_idle es)) ≡ held_at (lookup host es)
  unfolding evict_entries lookup
  evict-held limit now max_idle host [] u a = refl
  evict-held limit now max_idle host ((k, d) ∷ es) u a =
      let rest = evict-held limit now max_idle host es u.1 a.1 in
      elim (Bool-cases (is_idle x now max_idle d)) [
        | inl i ↦ elim (Bool-cases (str_eq k host)) [
          | inl s ↦
              let gone : lookup host es ≡ none = rw (← (eq_iff k host).0 s) u.0 in
              rw (i, s, evict_entries, lookup)
                (rest ∙ (rw gone refl ∙ sym (idle-held limit now max_idle d a.0 i)))
          | inr s ↦ rw (i, s, evict_entries, lookup) rest
        ]
        | inr i ↦ elim (Bool-cases (str_eq k host)) [
          | inl s ↦ rw (i, evict_entries) (rw (s, lookup) refl)
          | inr s ↦ rw (i, evict_entries) (rw (s, lookup) rest)
        ]
      ]
