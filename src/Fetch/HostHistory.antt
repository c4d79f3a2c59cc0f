-- ===== src/Fetch/HostHistory.antt =====
-- The host pool over any interleaving of its callers and its evictions.
use Prim.Native.String.{String}
use text.Mathlib.Text.{◌==◌ as str_eq}
use text.Mathlib.TextPositions.{eq_refl}
use doc_scraper.Prelude.{
  ℕ, ◌+◌, ◌-◌, ◌<◌, ◌≡◌, refl, false, List, [], ◌∷◌, some, ◌==◌, arith, Bool-cases, Option-cases,
  inl, inr, ◌∙◌,
}
use doc_scraper.Prelude.Int.{ℤ}
use doc_scraper.Prelude.Assoc.{lookup, lookup-insert}
use doc_scraper.Semaphore.{Semaphore}
use doc_scraper.Fetch.HostSemaphore.{
  HostEntry, Pool, put, begin_acquire, granted, grant, give_up, begin_release, end_release, is_idle,
  evict_entries, evict_idle, eviction_tick, effective_interval,
}
use doc_scraper.Fetch.HostLimit.{
  IsFit, Inv, found-IsFit, begin_acquire-Inv, grant-Inv, give_up-Inv, begin_release-Inv,
  end_release-Inv, evict_idle-Inv,
}

-- What one goroutine does next, or the eviction's ticker.
pub data Event : Type 0 where
  acquires grants gives_up returns : String → Event
  releases : ℕ → String → Event
  ticks : ℕ → ℤ → Event

module _ (x : Semaphore) where
  open x use {try_acquire, held, size, refused}

  unfoldable pub step : Pool x → Event → Pool x
  step p (acquires host) = begin_acquire x p host
  step p (grants host) = grant x p host
  step p (gives_up host) = give_up x p host
  step p (returns host) = end_release x p host
  step p (releases now host) = begin_release x p now host
  step p (ticks now interval) = eviction_tick x p now interval

  unfoldable pub run : Pool x → List Event → Pool x
  run p [] = p
  run p (e ∷ es) = run (step p e) es

  pub step-Inv : (p : Pool x) (e : Event) → Inv x p → Inv x (step p e)
  unfolding step
  step-Inv p (acquires host) v = begin_acquire-Inv x p host v
  step-Inv p (grants host) v = grant-Inv x p host v
  step-Inv p (gives_up host) v = give_up-Inv x p host v
  step-Inv p (returns host) v = end_release-Inv x p host v
  step-Inv p (releases now host) v = begin_release-Inv x p now host v
  step-Inv p (ticks now interval) v =
      unfold eviction_tick in evict_idle-Inv x p now (effective_interval interval) v

  run-Inv : (p : Pool x) (es : List Event) → Inv x p → Inv x (run p es)
  unfolding run
  run-Inv p [] v = v
  run-Inv p (e ∷ es) v = run-Inv (step p e) es (step-Inv p e v)

  pub step-limit : (p : Pool x) (e : Event) → (step p e).limit ≡ p.limit
  unfolding step begin_acquire grant granted give_up end_release begin_release eviction_tick put
  step-limit p (acquires host) = refl
  step-limit p (grants host) = ground arith
  step-limit p (gives_up host) = ground arith
  step-limit p (returns host) = ground arith
  step-limit p (releases now host) = ground arith
  step-limit p (ticks now interval) = refl

  run-limit : (p : Pool x) (es : List Event) → (run p es).limit ≡ p.limit
  unfolding run
  run-limit p [] = refl
  run-limit p (e ∷ es) = run-limit (step p e) es ∙ step-limit p e

  in_use :
      (limit now : ℕ) (max_idle : ℤ) (e : HostEntry x)
      → IsFit x limit e
      → 0 < e.waiting + e.holding
      → is_idle x now max_idle e ≡ false
  unfolding is_idle
  in_use limit now max_idle e fit b = rw (fit.counted) (ground (arith, b))

  evict_entries-found :
      (now : ℕ) (max_idle : ℤ) (host : String) (e : HostEntry x) (es : List (String × HostEntry x))
      → is_idle x now max_idle e ≡ false
      → lookup host es ≡ some e
      → lookup host (evict_entries x now max_idle es) ≡ some e
  unfolding evict_entries lookup
  evict_entries-found now max_idle host e [] b f = f
  evict_entries-found now max_idle host e ((k, d) ∷ es) b f =
      elim (Bool-cases (is_idle x now max_idle d)) [
        | inl i ↦ rw i (evict_entries-found now max_idle host e es b (ground (arith, i, b, f)))
        | inr i ↦ elim (Bool-cases (str_eq k host)) [
          | inl s ↦ rw (i, lookup) (ground (arith, s, f))
          | inr s ↦
              rw (i, lookup)
                (rw s (evict_entries-found now max_idle host e es b (ground (arith, s, f))))
        ]
      ]

  -- In a pool whose entries count right, an eviction leaves every entry alone at which a goroutine
  -- waits or holds a permit.
  pub evict_idle-busy :
      (p : Pool x) (now : ℕ) (max_idle : ℤ) (host : String) (e : HostEntry x)
      → Inv x p
      → lookup host p.entries ≡ some e
      → 0 < e.waiting + e.holding
      → lookup host (evict_idle x p now max_idle).entries ≡ some e
  unfolding evict_idle
  evict_idle-busy p now max_idle host e v h b =
      evict_entries-found now max_idle host e p.entries
        (in_use p.limit now max_idle e (found-IsFit x p host e v h) b) h

  granted_entry :
      (p : Pool x) (host : String) (e : HostEntry x) (s : x.Sem)
      → lookup host p.entries ≡ some e
      → try_acquire e.sem 1 ≡ some s
      → 0 < e.waiting
      → lookup host (grant x p host).entries
        ≡ some (record e { sem = s; waiting = e.waiting - 1; holding = e.holding + 1 })
  unfolding grant granted put
  granted_entry p host e s h got w =
      let busy : (e.waiting == 0) ≡ false = ground (arith, w) in
      rw (h, busy, got, grant) (rw (lookup-insert host host _ p.entries, eq_refl host))

  -- In a pool whose entries count right, while fewer permits of a host are out than the limit, a
  -- goroutine that waits for one can be served.
  pub grant_available :
      (p : Pool x) (host : String) (e : HostEntry x)
      → Inv x p
      → lookup host p.entries ≡ some e
      → 0 < e.waiting
      → e.holding + e.releasing < p.limit
      → (d : HostEntry x) × (lookup host (grant x p host).entries ≡ some d)
        × (d.holding ≡ e.holding + 1)
        × (d.waiting + 1 ≡ e.waiting)
  grant_available p host e v h w room =
      let fit = found-IsFit x p host e v h in
      elim (Option-cases (try_acquire e.sem 1)) [
        | inl n ↦ absurd (omega (arith, refused e.sem 1 n, fit.out, fit.sized))
        | inr (s, got) ↦ (
          record e { sem = s; waiting = e.waiting - 1; holding = e.holding + 1 },
          granted_entry p host e s h got w,
          refl,
          omega arith,
        )
      ]
