-- ===== src/Fetch/HostPermits/Limit.antt =====
-- The callers of the pool in pkg/fetch/hostsemaphore.go never have more permits of a host than its limit.
use Prim.Native.String.{String}
use text.Mathlib.Text.{◌==◌ as str_eq}
use text.Mathlib.TextEquality.{eq_iff}
use doc_scraper.Prelude.{
  ℕ, ◌+◌, ◌-◌, ◌≤◌, ◌≡◌, refl, true, false, ◌&&◌, List, [], ◌∷◌, Option, none, some, ◌==◌,
  if◌then◌else◌, arith, Bool-cases, Option-cases, inl, inr, ◌∙◌, sym,
}
use doc_scraper.Prelude.Int.{ℤ}
use doc_scraper.Prelude.Assoc.{lookup, UniqueKeys, insert-UniqueKeys}
use doc_scraper.Store.Database.{is_found}
use doc_scraper.Semaphore.{Semaphore}
use doc_scraper.Fetch.HostSemaphore.{
  HostEntry, Pool, new_pool, put, begin_acquire, granted, grant, give_up, begin_release,
  end_release, evict_idle, eviction_tick, effective_limit, effective_interval,
}
use doc_scraper.Fetch.HostLimit.{IsFit, Inv, found-IsFit}
use doc_scraper.Fetch.HostHistory.{
  Event, acquires, grants, gives_up, returns, releases, ticks, step, step-Inv, step-limit,
}
use doc_scraper.Fetch.HostPermits.{
  Counted, add_permit, drop_permit, counted_step, counted_run, held_at, held_for, put-held,
  same-held, new-held, evict-UniqueKeys, evict-held, is_granted,
}

module _ (x : Semaphore) where
  -- What the callers count is what the entries hold, each host has one entry, and the entries are fit.
  record Agrees (c : Counted x) : Type 0 where
    same : (host : String) → c.permits host ≡ held_for x host c.pool
    unique : UniqueKeys c.pool.entries
    fit : Inv x c.pool

  step-UniqueKeys :
      (p : Pool x) (e : Event) → UniqueKeys p.entries → UniqueKeys (step x p e).entries
  unfolding step begin_acquire grant granted give_up end_release begin_release eviction_tick
      evict_idle put
  step-UniqueKeys p (acquires host) u = insert-UniqueKeys host _ p.entries u
  step-UniqueKeys p (ticks now interval) u =
      evict-UniqueKeys x now (effective_interval interval) p.entries u
  step-UniqueKeys p (grants host) u = elim (Option-cases (lookup host p.entries)) [
    | inl n ↦ rw (n, grant) u
    | inr (e, h) ↦ elim (Bool-cases (e.waiting == 0)) [
      | inl z ↦ rw (h, z, grant) u
      | inr z ↦ elim (Option-cases (x.try_acquire e.sem 1)) [
        | inl g ↦ rw (h, z, g, grant, granted) u
        | inr (s, g) ↦ rw (h, z, g, grant, granted) (insert-UniqueKeys host _ p.entries u)
      ]
    ]
  ]
  step-UniqueKeys p (gives_up host) u = elim (Option-cases (lookup host p.entries)) [
    | inl n ↦ rw (n, give_up) u
    | inr (e, h) ↦ elim (Bool-cases (e.waiting == 0)) [
      | inl z ↦ rw (h, z, give_up) u
      | inr z ↦ rw (h, z, give_up) (insert-UniqueKeys host _ p.entries u)
    ]
  ]
  step-UniqueKeys p (returns host) u = elim (Option-cases (lookup host p.entries)) [
    | inl n ↦ rw (n, end_release) u
    | inr (e, h) ↦ elim (Bool-cases (e.releasing == 0)) [
      | inl z ↦ rw (h, z, end_release) u
      | inr z ↦ rw (h, z, end_release) (insert-UniqueKeys host _ p.entries u)
    ]
  ]
  step-UniqueKeys p (releases now host) u = elim (Option-cases (lookup host p.entries)) [
    | inl n ↦ rw (n, begin_release) u
    | inr (e, h) ↦ elim (Bool-cases (e.holding == 0)) [
      | inl z ↦ rw (h, z, begin_release) u
      | inr z ↦ rw (h, z, begin_release) (insert-UniqueKeys host _ p.entries u)
    ]
  ]

  grant-held :
      (p : Pool x) (host asked : String)
      → held_for x asked (grant x p host) ≡ (
          if is_granted x p host && str_eq host asked
          then held_for x asked p + 1
          else held_for x asked p)
  unfolding grant granted is_granted is_found
  grant-held p host asked = elim (Option-cases (lookup host p.entries)) [
    | inl n ↦ rw (n, grant, is_granted) refl
    | inr (e, h) ↦ elim (Bool-cases (e.waiting == 0)) [
      | inl z ↦ rw (h, z, grant, is_granted) refl
      | inr z ↦ elim (Option-cases (x.try_acquire e.sem 1)) [
        | inl g ↦ rw (h, z, g, grant, granted, is_granted) refl
        | inr (s, g) ↦
            rw (h, z, g, grant, granted, is_granted)
              (more asked e (record e { sem = s; waiting = e.waiting - 1; holding = e.holding + 1 })
                h refl)
      ]
    ]
  ]
    where
      more :
          (asked : String) (e d : HostEntry x)
          → lookup host p.entries ≡ some e
          → d.holding ≡ e.holding + 1
          → held_for x asked (put x p host d)
            ≡ (if str_eq host asked then held_for x asked p + 1 else held_for x asked p)
      more asked e d h k = elim (Bool-cases (str_eq host asked)) [
        | inl s ↦ put-held x p host asked d ∙ rw s (rw (← (eq_iff host asked).0 s, h) k)
        | inr s ↦ put-held x p host asked d ∙ rw s refl
      ]

  give_up-held :
      (p : Pool x) (host asked : String) → held_for x asked (give_up x p host) ≡ held_for x asked p
  unfolding give_up
  give_up-held p host asked = elim (Option-cases (lookup host p.entries)) [
    | inl n ↦ rw (n, give_up) refl
    | inr (e, h) ↦ elim (Bool-cases (e.waiting == 0)) [
      | inl z ↦ rw (h, z, give_up) refl
      | inr z ↦ rw (h, z, give_up) (same-held x p host asked _ (rw h refl))
    ]
  ]

  end_release-held :
      (p : Pool x) (host asked : String)
      → held_for x asked (end_release x p host) ≡ held_for x asked p
  unfolding end_release
  end_release-held p host asked = elim (Option-cases (lookup host p.entries)) [
    | inl n ↦ rw (n, end_release) refl
    | inr (e, h) ↦ elim (Bool-cases (e.releasing == 0)) [
      | inl z ↦ rw (h, z, end_release) refl
      | inr z ↦ rw (h, z, end_release) (same-held x p host asked _ (rw h refl))
    ]
  ]

  less_held :
      (p : Pool x) (host asked : String) (e d : HostEntry x)
      → lookup host p.entries ≡ some e
      → d.holding ≡ e.holding - 1
      → held_for x asked (put x p host d)
        ≡ (if str_eq host asked then held_for x asked p - 1 else held_for x asked p)
  less_held p host asked e d h k = elim (Bool-cases (str_eq host asked)) [
    | inl s ↦ put-held x p host asked d ∙ rw s (rw (← (eq_iff host asked).0 s, h) k)
    | inr s ↦ put-held x p host asked d ∙ rw s refl
  ]

  begin_release-held :
      (p : Pool x) (now : ℕ) (host asked : String)
      → (held_for x host p == 0) ≡ false
      → held_for x asked (begin_release x p now host)
        ≡ (if str_eq host asked then held_for x asked p - 1 else held_for x asked p)
  unfolding begin_release
  begin_release-held p now host asked b = elim (Option-cases (lookup host p.entries)) [
    | inl n ↦ absurd (let z : true ≡ false = rw n at b in cc z)
    | inr (e, h) ↦
        let z : (e.holding == 0) ≡ false = rw h at b in
        rw (h, z, begin_release) (less_held p host asked e _ h refl)
  ]

  step-Agrees : (c : Counted x) (e : Event) → Agrees c → Agrees (counted_step x c e)
  unfolding counted_step add_permit drop_permit
  step-Agrees c (acquires host) a = record {
    same = λ asked.
        a.same asked
        ∙ sym (
            unfold step in
            unfold begin_acquire in
            same-held x c.pool host asked _ (new-held x c.pool (lookup host c.pool.entries)));
    unique = step-UniqueKeys c.pool (acquires host) a.unique;
    fit = step-Inv x c.pool (acquires host) a.fit;
  }
  step-Agrees c (gives_up host) a = record {
    same = λ asked. a.same asked ∙ sym (unfold step in give_up-held c.pool host asked);
    unique = step-UniqueKeys c.pool (gives_up host) a.unique;
    fit = step-Inv x c.pool (gives_up host) a.fit;
  }
  step-Agrees c (returns host) a = record {
    same = λ asked. a.same asked ∙ sym (unfold step in end_release-held c.pool host asked);
    unique = step-UniqueKeys c.pool (returns host) a.unique;
    fit = step-Inv x c.pool (returns host) a.fit;
  }
  step-Agrees c (ticks now interval) a = record {
    same = λ asked.
        a.same asked
        ∙ sym (
            unfold step in
            unfold eviction_tick in
            unfold evict_idle in
            evict-held x c.pool.limit now (effective_interval interval) asked c.pool.entries
              a.unique a.fit);
    unique = step-UniqueKeys c.pool (ticks now interval) a.unique;
    fit = step-Inv x c.pool (ticks now interval) a.fit;
  }
  step-Agrees c (grants host) a = record {
    same = λ asked. unfold step in ground (arith, grant-held c.pool host asked, a.same asked);
    unique = step-UniqueKeys c.pool (grants host) a.unique;
    fit = step-Inv x c.pool (grants host) a.fit;
  }
  step-Agrees c (releases now host) a = elim (Bool-cases (c.permits host == 0)) [
    | inl z ↦ rw z a
    | inr z ↦ rw z (record {
      same = λ asked.
          unfold step in
          ground
            (arith, begin_release-held c.pool now host asked (rw (a.same host) at z), a.same asked);
      unique = step-UniqueKeys c.pool (releases now host) a.unique;
      fit = step-Inv x c.pool (releases now host) a.fit;
    })
  ]

  run-Agrees : (c : Counted x) (es : List Event) → Agrees c → Agrees (counted_run x c es)
  unfolding counted_run
  run-Agrees c [] a = a
  run-Agrees c (e ∷ es) a = run-Agrees (counted_step x c e) es (step-Agrees c e a)

  counted_step-limit : (c : Counted x) (e : Event) → (counted_step x c e).pool.limit ≡ c.pool.limit
  unfolding counted_step
  counted_step-limit c (acquires host) = step-limit x c.pool (acquires host)
  counted_step-limit c (gives_up host) = step-limit x c.pool (gives_up host)
  counted_step-limit c (returns host) = step-limit x c.pool (returns host)
  counted_step-limit c (ticks now interval) = step-limit x c.pool (ticks now interval)
  counted_step-limit c (grants host) = step-limit x c.pool (grants host)
  counted_step-limit c (releases now host) = ground (arith, step-limit x c.pool (releases now host))

  counted_run-limit :
      (c : Counted x) (es : List Event) → (counted_run x c es).pool.limit ≡ c.pool.limit
  unfolding counted_run
  counted_run-limit c [] = refl
  counted_run-limit c (e ∷ es) = counted_run-limit (counted_step x c e) es ∙ counted_step-limit c e

  -- A new pool, of which no permit is out.
  abbrev pub all_free : ℤ → Counted x
  all_free max_per_host = record { pool = new_pool x max_per_host; permits = λ host. 0 }

  held_at-le :
      (limit : ℕ) (o : Option (HostEntry x))
      → ((e : HostEntry x) → o ≡ some e → IsFit x limit e)
      → held_at x o ≤ limit
  held_at-le limit none f = omega arith
  held_at-le limit (some e) f = let fit = f e refl in omega (arith, fit.bounded)

  -- However callers and evictions interleave, the permits of a host that were granted and not released
  -- are never more than the pool's limit, the configured number, or 2 where that is not positive; they
  -- are counted outside of the pool, so that an entry that is evicted takes none of them along.
  pub permits-le-limit :
      (max_per_host : ℤ) (es : List Event) (host : String)
      → (counted_run x (all_free max_per_host) es).permits host ≤ effective_limit max_per_host
  unfolding new_pool
  permits-le-limit max_per_host es host =
      let start = all_free max_per_host in
      let end = counted_run x start es in
      let a =
        run-Agrees start es (record { same = λ h. unfold lookup in refl; unique = tt; fit = tt }) in
      let le =
        held_at-le end.pool.limit (lookup host end.pool.entries)
          (λ e h. found-IsFit x end.pool host e a.fit h) in
      omega (arith, le, a.same host, counted_run-limit start es)
