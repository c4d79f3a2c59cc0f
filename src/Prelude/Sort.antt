-- ===== src/Prelude/Sort.antt =====
-- `sort.Slice` with the caller's comparison: an insertion sort, and what holds of the result.
use mathlib.Core.List.{Perm}
use mathlib.Core.List.Perm
use Prim.Native.Nat.{ℕ, zero, suc, ◌+◌, ◌≤◌}
use mathlib.Core.Path.{◌≡◌, refl}
use mathlib.Core.Bool.{Bool, true, false}
use mathlib.Core.Logic.{inl, inr}
use mathlib.Core.List.{List, [], ◌∷◌, ◌++◌}
use native.Mathlib.Omega.{arith}
use doc_scraper.Prelude.Lists.{length, take, drop}
use doc_scraper.Prelude.Tests.{if◌then◌else◌, Bool-cases}

module _ {ℓ κ} {A : Type ℓ} (P : A → Type κ) where
  abbrev pub All : List A → Type κ
  All [] = Unit
  All (x ∷ xs) = P x × All xs

  pub All-append : (xs ys : List A) → All xs → All ys → All (xs ++ ys)
  All-append [] ys hx hy = hy
  All-append (x ∷ xs) ys hx hy = (hx.0, All-append xs ys hx.1 hy)

module _ {ℓ} {A : Type ℓ} (p : A → Bool) where
  -- How many elements pass a test.
  abbrev pub count_if : List A → ℕ
  count_if [] = 0
  count_if (x ∷ xs) = if p x then suc (count_if xs) else count_if xs

  pub count_if-append : (xs ys : List A) → count_if (xs ++ ys) ≡ count_if xs + count_if ys
  count_if-append [] ys = omega arith
  count_if-append (x ∷ xs) ys = ground (arith, count_if-append xs ys)

  pub count_if-le-length : (xs : List A) → count_if xs ≤ length xs
  count_if-le-length [] = omega arith
  count_if-le-length (x ∷ xs) = ground (arith, count_if-le-length xs)

  pub count_if_none : (xs : List A) → All (λ x. p x ≡ false) xs → count_if xs ≡ 0
  count_if_none [] h = omega arith
  count_if_none (x ∷ xs) h = ground (arith, h.0, count_if_none xs h.1)

module _ {ℓ} {A : Type ℓ} (less : A → A → Bool) where
  unfoldable pub insert_by : A → List A → List A
  insert_by x [] = x ∷ []
  insert_by x (y ∷ ys) = if less x y then x ∷ y ∷ ys else y ∷ insert_by x ys

  unfoldable pub sort_by : List A → List A
  unfolding insert_by
  sort_by [] = []
  sort_by (x ∷ xs) = insert_by x (sort_by xs)

  insert_by-perm : (x : A) (ys : List A) → Perm (insert_by x ys) (x ∷ ys)
  unfolding insert_by
  insert_by-perm x [] = Perm.refl (x ∷ [])
  insert_by-perm x (y ∷ ys) = elim (Bool-cases (less x y)) [
    | inl e ↦ rw (e, insert_by) (Perm.refl (x ∷ y ∷ ys))
    | inr e ↦ rw (e, insert_by) (Perm.trans (Perm.cons y (insert_by-perm x ys)) (Perm.swap x y ys))
  ]

  -- Sorting rearranges.
  pub sort_by-perm : (xs : List A) → Perm (sort_by xs) xs
  unfolding sort_by
  sort_by-perm [] = Perm.refl []
  sort_by-perm (x ∷ xs) = Perm.trans (insert_by-perm x (sort_by xs)) (Perm.cons x (sort_by-perm xs))

  count_if-insert_by :
      (p : A → Bool) (x : A) (ys : List A) → count_if p (insert_by x ys) ≡ count_if p (x ∷ ys)
  unfolding insert_by
  count_if-insert_by p x [] = refl
  count_if-insert_by p x (y ∷ ys) = ground (arith, count_if-insert_by p x ys)

  pub count_if-sort_by : (p : A → Bool) (xs : List A) → count_if p (sort_by xs) ≡ count_if p xs
  unfolding sort_by
  count_if-sort_by p [] = refl
  count_if-sort_by p (x ∷ xs) =
      ground (arith, count_if-insert_by p x (sort_by xs), count_if-sort_by p xs)

  module _ {κ} (P : A → Type κ) where
    pub insert_by-All : (x : A) (ys : List A) → P x → All P ys → All P (insert_by x ys)
    unfolding insert_by
    insert_by-All x [] p ps = (p, ps)
    insert_by-All x (y ∷ ys) p ps = elim (Bool-cases (less x y)) [
      | inl e ↦ rw (e, insert_by) (p, ps)
      | inr e ↦ rw (e, insert_by) (ps.0, insert_by-All x ys p ps.1)
    ]

    All-insert_by : (x : A) (ys : List A) → All P (insert_by x ys) → P x × All P ys
    unfolding insert_by
    All-insert_by x [] ps = ps
    All-insert_by x (y ∷ ys) ps = elim (Bool-cases (less x y)) [
      | inl e ↦ rw (e, insert_by) at ps
      | inr e ↦
          let qs : P y × All P (insert_by x ys) = rw (e, insert_by) at ps in
          let rest = All-insert_by x ys qs.1 in (rest.0, (qs.0, rest.1))
    ]

    pub All-sort_by : (xs : List A) → All P (sort_by xs) → All P xs
    unfolding sort_by
    All-sort_by [] ps = ps
    All-sort_by (x ∷ xs) ps =
        let split = All-insert_by x (sort_by xs) ps in (split.0, All-sort_by xs split.1)

    pub sort_by-All : (xs : List A) → All P xs → All P (sort_by xs)
    unfolding sort_by
    sort_by-All [] ps = ps
    sort_by-All (x ∷ xs) ps = insert_by-All x (sort_by xs) ps.0 (sort_by-All xs ps.1)

-- The keys rise along the list.
abbrev pub Rises {ℓ} : {A : Type ℓ} → (A → ℕ) → List A → Type 0
Rises key [] = Unit
Rises key (x ∷ xs) = All (λ y. key x ≤ key y) xs × Rises key xs

pub All-map {ℓ κ μ} :
    {A : Type ℓ} (P : A → Type κ) (Q : A → Type μ) (xs : List A)
    → ((x : A) → P x → Q x)
    → All P xs
    → All Q xs
All-map P Q [] f h = tt
All-map P Q (x ∷ xs) f h = (f x h.0, All-map P Q xs f h.1)

pub All-tt {ℓ} : {A : Type ℓ} (xs : List A) → All (λ (x : A). Unit {0}) xs
All-tt [] = tt
All-tt (x ∷ xs) = (tt, All-tt xs)

pub All-zip {ℓ κ μ} :
    {A : Type ℓ} (P : A → Type κ) (Q : A → Type μ) (xs : List A)
    → All P xs
    → All Q xs
    → All (λ x. P x × Q x) xs
All-zip P Q [] h k = tt
All-zip P Q (x ∷ xs) h k = ((h.0, k.0), All-zip P Q xs h.1 k.1)

pub All-drop {ℓ κ} :
    {A : Type ℓ} (P : A → Type κ) (n : ℕ) (xs : List A) → All P xs → All P (drop n xs)
All-drop P zero xs h = h
All-drop P (suc n) [] h = tt
All-drop P (suc n) (x ∷ xs) h = All-drop P n xs h.1

pub All-take {ℓ κ} :
    {A : Type ℓ} (P : A → Type κ) (n : ℕ) (xs : List A) → All P xs → All P (take n xs)
All-take P zero xs h = tt
All-take P (suc n) [] h = tt
All-take P (suc n) (x ∷ xs) h = (h.0, All-take P n xs h.1)

-- A comparison that respects a key puts the keys in order.
module _ {ℓ} {A : Type ℓ} (less : A → A → Bool) (key : A → ℕ)
    (yes_le : (a b : A) → less a b ≡ true → key a ≤ key b)
    (no_le : (a b : A) → less a b ≡ false → key b ≤ key a) where
  insert_by-Rises : (x : A) (ys : List A) → Rises key ys → Rises key (insert_by less x ys)
  unfolding insert_by
  insert_by-Rises x [] r = (tt, tt)
  insert_by-Rises x (y ∷ ys) r = elim (Bool-cases (less x y)) [
    | inl e ↦
        rw (e, insert_by)
          (
            (
              yes_le x y e,
              All-map (λ z. key y ≤ key z) (λ z. key x ≤ key z) ys
                  (λ z h. omega (arith, yes_le x y e)) r.0,
            ),
            r,
          )
    | inr e ↦
        rw (e, insert_by)
          (insert_by-All less (λ z. key y ≤ key z) x ys (no_le x y e) r.0, insert_by-Rises x ys r.1)
  ]

  pub sort_by-Rises : (xs : List A) → Rises key (sort_by less xs)
  unfolding sort_by
  sort_by-Rises [] = tt
  sort_by-Rises (x ∷ xs) = insert_by-Rises x (sort_by less xs) (sort_by-Rises xs)

-- In rising order, what stands in front is at most what stands behind.
pub Rises-split {ℓ} :
    {A : Type ℓ} (key : A → ℕ) (n : ℕ) (xs : List A)
    → Rises key xs
    → All (λ y. All (λ d. key d ≤ key y) (take n xs)) (drop n xs)
Rises-split key zero xs r = All-tt xs
Rises-split key (suc n) [] r = tt
Rises-split key (suc n) (x ∷ xs) r =
    All-zip (λ y. key x ≤ key y) (λ y. All (λ d. key d ≤ key y) (take n xs)) (drop n xs)
      (All-drop (λ y. key x ≤ key y) n xs r.0) (Rises-split key n xs r.1)
