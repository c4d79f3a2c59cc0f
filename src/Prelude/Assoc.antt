-- ===== src/Prelude/Assoc.antt =====
-- Go's `map[string]V` as an association list with one entry for a key.
use Prim.Native.String.{String}
use text.Mathlib.Text.{◌==◌}
use text.Mathlib.TextEquality.{eq_iff}
use mathlib.Core.Path.{◌≡◌, refl, subst}
use mathlib.Core.Logic.{inl, inr}
use mathlib.Core.Option.{Option, none, some}
use mathlib.Core.List.{List, [], ◌∷◌}
use native.Mathlib.Omega.{arith}
use doc_scraper.Prelude.Tests.{if◌then◌else◌, Bool-cases}
use doc_scraper.Prelude.Sort.{All, All-map}
use text.Mathlib.TextPositions.{eq_refl}

module _ {ℓ} {V : Type ℓ} where
  -- `v, ok := m[k]`
  unfoldable pub lookup : String → List (String × V) → Option V
  lookup key [] = none
  lookup key ((held, value) ∷ rest) = if held == key then some value else lookup key rest

  -- `m[k] = v`
  unfoldable pub insert : String → V → List (String × V) → List (String × V)
  insert key value [] = (key, value) ∷ []
  insert key value ((held, old) ∷ rest) =
      if held == key then (key, value) ∷ rest else (held, old) ∷ insert key value rest

  -- `delete(m, k)`
  unfoldable pub delete : String → List (String × V) → List (String × V)
  delete key [] = []
  delete key ((held, old) ∷ rest) =
      if held == key then delete key rest else (held, old) ∷ delete key rest

  -- A key finds what was stored for it last.
  pub lookup-insert :
      (key asked : String) (value : V) (entries : List (String × V))
      → lookup asked (insert key value entries)
        ≡ (if key == asked then some value else lookup asked entries)
  unfolding insert lookup
  lookup-insert key asked value [] = refl
  lookup-insert key asked value ((held, old) ∷ rest) = ground (
    arith,
    lookup-insert key asked value rest,
    eq_iff key asked,
    eq_iff held asked,
    eq_iff held key,
  )

  -- A key that was deleted finds nothing.
  pub lookup-delete :
      (key asked : String) (entries : List (String × V))
      → lookup asked (delete key entries) ≡ (if key == asked then none else lookup asked entries)
  unfolding delete lookup
  lookup-delete key asked [] = ground arith
  lookup-delete key asked ((held, old) ∷ rest) =
      ground
        (arith, lookup-delete key asked rest, eq_iff key asked, eq_iff held asked, eq_iff held key)

  -- No key has two entries.
  abbrev pub UniqueKeys : List (String × V) → Type ℓ
  UniqueKeys [] = Unit
  UniqueKeys ((k, v) ∷ m) = (lookup k m ≡ none) × UniqueKeys m

  pub insert-UniqueKeys :
      (k : String) (v : V) (m : List (String × V)) → UniqueKeys m → UniqueKeys (insert k v m)
  unfolding insert
  insert-UniqueKeys k v [] u = (unfold lookup in refl, tt)
  insert-UniqueKeys k v ((j, w) ∷ m) u = elim (Bool-cases (j == k)) [
    | inl e ↦ rw (e, insert) (rw (← (eq_iff j k).0 e) u.0, u.1)
    | inr e ↦
        rw (e, insert)
          (
            ground (arith, lookup-insert k j v m, eq_iff k j, eq_iff j k, u.0),
            insert-UniqueKeys k v m u.1,
          )
  ]

  pub delete-UniqueKeys :
      (k : String) (m : List (String × V)) → UniqueKeys m → UniqueKeys (delete k m)
  unfolding delete
  delete-UniqueKeys k [] u = tt
  delete-UniqueKeys k ((j, w) ∷ m) u = elim (Bool-cases (j == k)) [
    | inl e ↦ rw (e, delete) (delete-UniqueKeys k m u.1)
    | inr e ↦
        rw (e, delete)
          (
            ground (arith, lookup-delete k j m, eq_iff k j, eq_iff j k, u.0),
            delete-UniqueKeys k m u.1,
          )
  ]

  module _ {κ} (P : String × V → Type κ) where
    pub insert-All :
        (k : String) (v : V) (m : List (String × V)) → P (k, v) → All P m → All P (insert k v m)
    unfolding insert
    insert-All k v [] p a = (p, tt)
    insert-All k v ((j, w) ∷ m) p a = elim (Bool-cases (j == k)) [
      | inl e ↦ rw (e, insert) (p, a.1)
      | inr e ↦ rw (e, insert) (a.0, insert-All k v m p a.1)
    ]

    pub delete-All : (k : String) (m : List (String × V)) → All P m → All P (delete k m)
    unfolding delete
    delete-All k [] a = tt
    delete-All k ((j, w) ∷ m) a = elim (Bool-cases (j == k)) [
      | inl e ↦ rw (e, delete) (delete-All k m a.1)
      | inr e ↦ rw (e, delete) (a.0, delete-All k m a.1)
    ]

    pub lookup-All :
        (k : String) (v : V) (m : List (String × V)) → All P m → lookup k m ≡ some v → P (k, v)
    unfolding lookup
    lookup-All k v [] a h = absurd (cc h)
    lookup-All k v ((j, w) ∷ m) a h = elim (Bool-cases (j == k)) [
      | inl e ↦ subst P (ground (arith, eq_iff j k)) a.0
      | inr e ↦ lookup-All k v m a.1 (ground arith)
    ]

  -- An entry of a map with unique keys is what its key finds.
  pub entries_found :
      (m : List (String × V)) → UniqueKeys m → All (λ (e : String × V). lookup e.0 m ≡ some e.1) m
  unfolding lookup
  entries_found [] u = tt
  entries_found ((k, v) ∷ m) u = (
    rw (eq_refl k),
    All-map (λ (e : String × V). lookup e.0 m ≡ some e.1)
        (λ (e : String × V). lookup e.0 ((k, v) ∷ m) ≡ some e.1) m
        (λ e h. ground (arith, eq_iff k e.0, u.0, h)) (entries_found m u.1),
  )
