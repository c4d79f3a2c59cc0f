-- ===== src/Fetch/HostLimit.antt =====
-- No host has more permits out than the limit, and an eviction takes no entry that is in use.
use Prim.Native.String.{String}
use doc_scraper.Prelude.{
  ℕ, ◌+◌, ◌-◌, ◌≤◌, ◌≡◌, refl, false, List, [], ◌∷◌, Option, none, some, ◌==◌, if◌then◌else◌, arith,
  Bool-cases, Option-cases, inl, inr, ◌∙◌,
}
use doc_scraper.Prelude.Int.{ℤ, pos, ◌+ℤ◌, ◌-ℤ◌}
use doc_scraper.Prelude.Assoc.{lookup, insert-All, lookup-All}
use doc_scraper.Prelude.Sort.{All}
use doc_scraper.Semaphore.{Semaphore}
use doc_scraper.Fetch.HostSemaphore.{
  HostEntry, Pool, entry_or_new, put, begin_acquire, granted, grant, give_up, begin_release,
  end_release, is_idle, evict_entries, evict_idle,
}

one_more : (z : ℤ) (n m : ℕ) → z ≡ pos n → m ≡ n + 1 → z +ℤ pos 1 ≡ pos m
unfolding ◌+ℤ◌
one_more z n m e h = rw e (ground (arith, h))

one_less : (z : ℤ) (n m : ℕ) → z ≡ pos n → n ≡ m + 1 → z -ℤ pos 1 ≡ pos m
unfolding ◌-ℤ◌
one_less z n m e h = rw e (ground (arith, h))

module _ (x : Semaphore) where
  open x use {Sem, held, size, held-new_weighted, acquired, released}

  -- The count is of those who wait and those who hold; the semaphore has out what is held and what
  -- is on its way back, which is no more than the limit.
  pub record IsFit (limit : ℕ) (e : HostEntry x) : Type 0 where
    pub counted : e.active_count ≡ pos (e.waiting + e.holding)
    pub out : held e.sem ≡ e.holding + e.releasing
    pub sized : size e.sem ≡ limit
    pub bounded : e.holding + e.releasing ≤ limit

  abbrev pub Inv : Pool x → Type 0
  Inv p = All (λ (h : String × HostEntry x). IsFit p.limit h.1) p.entries

  entry_or_new-IsFit :
      (p : Pool x) (o : Option (HostEntry x))
      → ((e : HostEntry x) → o ≡ some e → IsFit p.limit e)
      → IsFit p.limit (entry_or_new x p o)
  unfolding entry_or_new
  entry_or_new-IsFit p (some e) f = f e refl
  entry_or_new-IsFit p none f =
      let h = held-new_weighted p.limit in
      record { counted = ground arith; out = omega (arith, h); sized = h.0; bounded = omega arith }

  put-Inv :
      (p : Pool x) (host : String) (e : HostEntry x)
      → Inv p
      → IsFit p.limit e
      → Inv (put x p host e)
  unfolding put
  put-Inv p host e v f =
      insert-All (λ (h : String × HostEntry x). IsFit p.limit h.1) host e p.entries f v

  pub found-IsFit :
      (p : Pool x) (host : String) (e : HostEntry x)
      → Inv p
      → lookup host p.entries ≡ some e
      → IsFit p.limit e
  found-IsFit p host e v f =
      lookup-All (λ (h : String × HostEntry x). IsFit p.limit h.1) host e p.entries v f

  pub begin_acquire-Inv : (p : Pool x) (host : String) → Inv p → Inv (begin_acquire x p host)
  unfolding begin_acquire
  begin_acquire-Inv p host v =
      let e = entry_or_new x p (lookup host p.entries) in
      let f = entry_or_new-IsFit p (lookup host p.entries) (λ e h. found-IsFit p host e v h) in
      put-Inv p host _ v (record {
        counted = one_more e.active_count (e.waiting + e.holding) _ f.counted (omega arith);
        out = f.out;
        sized = f.sized;
        bounded = f.bounded;
      })

  granted-Inv :
      (p : Pool x) (host : String) (e : HostEntry x) (o : Option Sem)
      → Inv p
      → IsFit p.limit e
      → x.try_acquire e.sem 1 ≡ o
      → (e.waiting == 0) ≡ false
      → Inv (granted x p host e o)
  unfolding granted
  granted-Inv p host e none v f a w = v
  granted-Inv p host e (some s) v f a w =
      let got = acquired e.sem s 1 a in
      put-Inv p host _ v (record {
        counted = ground (arith, f.counted, w);
        out = omega (arith, got, f.out);
        sized = got.2 ∙ f.sized;
        bounded = omega (arith, got, f.out, f.sized);
      })

  pub grant-Inv : (p : Pool x) (host : String) → Inv p → Inv (grant x p host)
  unfolding grant
  grant-Inv p host v = elim (Option-cases (lookup host p.entries)) [
    | inl n ↦ rw (n, grant) v
    | inr (e, h) ↦ rw (h, grant) (go e (found-IsFit p host e v h))
  ]
    where
      go :
          (e : HostEntry x)
          → IsFit p.limit e
          → Inv (if e.waiting == 0 then p else granted x p host e (x.try_acquire e.sem 1))
      go e f = elim (Bool-cases (e.waiting == 0)) [
        | inl z ↦ rw z v
        | inr z ↦ rw z (granted-Inv p host e (x.try_acquire e.sem 1) v f refl z)
      ]

  pub give_up-Inv : (p : Pool x) (host : String) → Inv p → Inv (give_up x p host)
  unfolding give_up
  give_up-Inv p host v = elim (Option-cases (lookup host p.entries)) [
    | inl n ↦ rw (n, give_up) v
    | inr (e, h) ↦ rw (h, give_up) (go e (found-IsFit p host e v h))
  ]
    where
      fit :
          (e : HostEntry x)
          → IsFit p.limit e
          → (e.waiting == 0) ≡ false
          → IsFit p.limit
              (record e { active_count = e.active_count -ℤ pos 1; waiting = e.waiting - 1 })
      fit e f z = record {
        counted = one_less e.active_count (e.waiting + e.holding) _ f.counted (ground arith);
        out = f.out;
        sized = f.sized;
        bounded = f.bounded;
      }

      go :
          (e : HostEntry x)
          → IsFit p.limit e
          → Inv (
              if e.waiting == 0
              then p
              else put x p host
                  (record e { active_count = e.active_count -ℤ pos 1; waiting = e.waiting - 1 }))
      go e f = elim (Bool-cases (e.waiting == 0)) [
        | inl z ↦ rw z v
        | inr z ↦ rw z (put-Inv p host _ v (fit e f z))
      ]

  begin_release-IsFit :
      (p : Pool x) (now : ℕ) (e : HostEntry x)
      → IsFit p.limit e
      → (e.holding == 0) ≡ false
      → IsFit p.limit (record e {
        active_count = e.active_count -ℤ pos 1;
        last_release = now;
        holding = e.holding - 1;
        releasing = e.releasing + 1;
      })
  begin_release-IsFit p now e f z = record {
    counted = one_less e.active_count (e.waiting + e.holding) _ f.counted (ground arith);
    out = ground (arith, f.out, z);
    sized = f.sized;
    bounded = ground (arith, f.bounded, z);
  }

  pub begin_release-Inv :
      (p : Pool x) (now : ℕ) (host : String) → Inv p → Inv (begin_release x p now host)
  unfolding begin_release
  begin_release-Inv p now host v = elim (Option-cases (lookup host p.entries)) [
    | inl n ↦ rw (n, begin_release) v
    | inr (e, h) ↦ elim (Bool-cases (e.holding == 0)) [
      | inl z ↦ rw (h, z, begin_release) v
      | inr z ↦
          rw (h, z, begin_release)
            (put-Inv p host _ v (begin_release-IsFit p now e (found-IsFit p host e v h) z))
    ]
  ]

  end_release-IsFit :
      (p : Pool x) (e : HostEntry x)
      → IsFit p.limit e
      → (e.releasing == 0) ≡ false
      → IsFit p.limit (record e { sem = x.release e.sem 1; releasing = e.releasing - 1 })
  end_release-IsFit p e f z =
      let r = released e.sem 1 (ground (arith, f.out, z)) in
      record {
        counted = f.counted;
        out = ground (arith, r, f.out, z);
        sized = r.1 ∙ f.sized;
        bounded = ground (arith, f.bounded, z);
      }

  pub end_release-Inv : (p : Pool x) (host : String) → Inv p → Inv (end_release x p host)
  unfolding end_release
  end_release-Inv p host v = elim (Option-cases (lookup host p.entries)) [
    | inl n ↦ rw (n, end_release) v
    | inr (e, h) ↦ elim (Bool-cases (e.releasing == 0)) [
      | inl z ↦ rw (h, z, end_release) v
      | inr z ↦
          rw (h, z, end_release)
            (put-Inv p host _ v (end_release-IsFit p e (found-IsFit p host e v h) z))
    ]
  ]

  evict_entries-All :
      (P : String × HostEntry x → Type 0) (now : ℕ) (max_idle : ℤ)
      (es : List (String × HostEntry x))
      → All P es
      → All P (evict_entries x now max_idle es)
  unfolding evict_entries
  evict_entries-All P now max_idle [] a = tt
  evict_entries-All P now max_idle ((h, e) ∷ es) a = elim (Bool-cases (is_idle x now max_idle e)) [
    | inl i ↦ rw (i, evict_entries) (evict_entries-All P now max_idle es a.1)
    | inr i ↦ rw (i, evict_entries) (a.0, evict_entries-All P now max_idle es a.1)
  ]

  pub evict_idle-Inv :
      (p : Pool x) (now : ℕ) (max_idle : ℤ) → Inv p → Inv (evict_idle x p now max_idle)
  unfolding evict_idle
  evict_idle-Inv p now max_idle v = evict_entries-All _ now max_idle p.entries v
