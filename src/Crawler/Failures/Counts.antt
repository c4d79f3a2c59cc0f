-- ===== src/Crawler/Failures/Counts.antt =====
-- What the tally of a crawl's failures counts, and how its snapshot reports it.
use Prim.Native.String.{String}
use text.Mathlib.Text.{◌==◌ as str_eq}
use text.Mathlib.TextEquality.{eq_iff}
use doc_scraper.Prelude.{
  ℕ, suc, ◌+◌, ◌<◌, ◌^◌, ◌≡◌, refl, ◌≢◌, Bool, true, false, List, [], ◌∷◌, map, Option, none, some,
  arith, if◌then◌else◌, Bool-cases, inl, inr, ap, ◌∙◌,
}
use doc_scraper.Prelude.Int.{ℤ, pos, ◌+ℤ◌, i64, i64-plus}
use doc_scraper.Prelude.Assoc.{
  lookup, lookup-insert, UniqueKeys, insert-UniqueKeys, insert-All, lookup-All,
}
use doc_scraper.Prelude.Sort.{All, insert_by, sort_by, sort_by-All}
use doc_scraper.Errors.{Error}
use doc_scraper.Crawler.Failures.{
  FailureClass, FailureTally, count_in, count, entry_for, record_failure, more_frequent, snapshot,
}

-- One failed page: its URL, its error and its class.
abbrev pub Failure : Type 0
Failure = String × Error × String

-- The tally after a crawl's failures.
unfoldable pub tally : FailureTally → List Failure → FailureTally
tally t [] = t
tally t ((u, e, c) ∷ fs) = tally (record_failure t u e c) fs

abbrev pub empty_tally : FailureTally
empty_tally = record { classes = []; noindex = pos 0 }

-- How many failures are of a class.
unfoldable pub occurrences : String → List Failure → ℕ
occurrences class [] = 0
occurrences class ((u, e, c) ∷ fs) =
    if str_eq c class then suc (occurrences class fs) else occurrences class fs

count_of : Option FailureClass → ℤ
count_of none = pos 0
count_of (some c) = c.count

-- The tally's entries are named by their keys, one to a class.
record IsTally (t : FailureTally) : Type 0 where
  keyed : All (λ (e : String × FailureClass). e.1.class ≡ e.0) t.classes
  unique : UniqueKeys t.classes

entry_for-class :
    (o : Option FailureClass) (u : String) (e : Error) (c : String)
    → ((f : FailureClass) → o ≡ some f → f.class ≡ c)
    → (entry_for o u e c).class ≡ c
unfolding entry_for
entry_for-class none u e c h = refl
entry_for-class (some f) u e c h = h f refl

record_failure-IsTally :
    (t : FailureTally) (u : String) (e : Error) (c : String)
    → IsTally t
    → IsTally (record_failure t u e c)
unfolding record_failure
record_failure-IsTally t u e c v = record {
  keyed =
      insert-All (λ (x : String × FailureClass). x.1.class ≡ x.0) c _ t.classes
        (entry_for-class (lookup c t.classes) u e c (λ f h.
          lookup-All (λ (x : String × FailureClass). x.1.class ≡ x.0) c f t.classes v.keyed h))
        v.keyed;
  unique = insert-UniqueKeys c _ t.classes v.unique;
}

count_of-if :
    (b : Bool) (x : FailureClass) (o : Option FailureClass)
    → count_of (if b then some x else o) ≡ (if b then x.count else count_of o)
unfolding count_of
count_of-if true x o = refl
count_of-if false x o = refl

entry_for-count :
    (o : Option FailureClass) (u : String) (e : Error) (c : String)
    → (entry_for o u e c).count ≡ count_of o
unfolding entry_for count_of
entry_for-count none u e c = refl
entry_for-count (some f) u e c = refl

count_of-record :
    (t : FailureTally) (u : String) (e : Error) (c class : String)
    → count_of (lookup class (record_failure t u e c).classes) ≡ (
        if str_eq c class
        then i64 (count_of (lookup c t.classes) +ℤ pos 1)
        else count_of (lookup class t.classes))
unfolding record_failure
count_of-record t u e c class =
    rw (lookup-insert c class, count_of-if (str_eq c class), entry_for-count)

-- The class's entry counts the failures of that class.
tally-count_of :
    (t : FailureTally) (fs : List Failure) (class : String) (n : ℕ)
    → count_of (lookup class t.classes) ≡ pos n
    → n + occurrences class fs < 2 ^ 63
    → count_of (lookup class (tally t fs).classes) ≡ pos (n + occurrences class fs)
unfolding tally occurrences
tally-count_of t [] class n h b = ground (arith, h)
tally-count_of t ((u, e, c) ∷ fs) class n h b = elim (Bool-cases (str_eq c class)) [
  | inl hit ↦
      let here : c ≡ class = (eq_iff c class).0 hit in
      let step : count_of (lookup class (record_failure t u e c).classes) ≡ pos (n + 1) =
        rw (count_of-record, hit, here, h) (i64-plus (pos n) (pos 1) refl refl (ground arith)) in
      ground (arith, tally-count_of (record_failure t u e c) fs class (n + 1) step)
  | inr miss ↦
      let step : count_of (lookup class (record_failure t u e c).classes) ≡ pos n =
        rw (count_of-record, miss) h in
      ground (arith, tally-count_of (record_failure t u e c) fs class n step)
]

tally-IsTally : (t : FailureTally) (fs : List Failure) → IsTally t → IsTally (tally t fs)
unfolding tally
tally-IsTally t [] v = v
tally-IsTally t ((u, e, c) ∷ fs) v =
    tally-IsTally (record_failure t u e c) fs (record_failure-IsTally t u e c v)

-- Classes with different names.
abbrev IsApart : List FailureClass → Type 0
IsApart [] = Unit {0}
IsApart (c ∷ cs) = All (λ (d : FailureClass). d.class ≢ c.class) cs × IsApart cs

abbrev values : List (String × FailureClass) → List FailureClass
values = map (λ (e : String × FailureClass). e.1)

not_found-All :
    (k : String) (m : List (String × FailureClass))
    → All (λ (e : String × FailureClass). e.1.class ≡ e.0) m
    → lookup k m ≡ none
    → All (λ (d : FailureClass). d.class ≢ k) (values m)
unfolding lookup
not_found-All k [] a h = tt
not_found-All k ((j, c) ∷ m) a h = elim (Bool-cases (str_eq j k)) [
  | inl e ↦ absurd (ground arith)
  | inr e ↦ ((λ q. ground (arith, eq_iff j k, a.0, q)), not_found-All k m a.1 (ground arith))
]

values-IsApart :
    (m : List (String × FailureClass))
    → All (λ (e : String × FailureClass). e.1.class ≡ e.0) m
    → UniqueKeys m
    → IsApart (values m)
values-IsApart [] a u = tt
values-IsApart ((k, c) ∷ m) a u = (rw a.0 (not_found-All k m a.1 u.0), values-IsApart m a.1 u.1)

count_in-values :
    (class : String) (m : List (String × FailureClass))
    → All (λ (e : String × FailureClass). e.1.class ≡ e.0) m
    → count_in class (values m) ≡ count_of (lookup class m)
unfolding count_in count_of lookup
count_in-values class [] a = refl
count_in-values class ((k, c) ∷ m) a = ground (arith, a.0, count_in-values class m a.1)

count_in-insert_by :
    (less : FailureClass → FailureClass → Bool) (class : String) (x : FailureClass)
    (ys : List FailureClass)
    → All (λ (d : FailureClass). d.class ≢ x.class) ys
    → count_in class (insert_by less x ys) ≡ count_in class (x ∷ ys)
unfolding count_in insert_by
count_in-insert_by less class x [] a = refl
count_in-insert_by less class x (y ∷ ys) a =
    ground (
      arith,
      a.0,
      eq_iff x.class class,
      eq_iff y.class class,
      count_in-insert_by less class x ys a.1,
    )

count_in-cons :
    (class : String) (x : FailureClass) (xs ys : List FailureClass)
    → count_in class xs ≡ count_in class ys
    → count_in class (x ∷ xs) ≡ count_in class (x ∷ ys)
unfolding count_in
count_in-cons class x xs ys h = rw h

count_in-sort_by :
    (less : FailureClass → FailureClass → Bool) (class : String) (xs : List FailureClass)
    → IsApart xs
    → count_in class (sort_by less xs) ≡ count_in class xs
unfolding sort_by
count_in-sort_by less class [] a = refl
count_in-sort_by less class (x ∷ xs) a =
    count_in-insert_by less class x (sort_by less xs)
      (sort_by-All less (λ (d : FailureClass). d.class ≢ x.class) xs a.0)
    ∙ count_in-cons class x (sort_by less xs) xs (count_in-sort_by less class xs a.1)

-- Whatever pages a crawl fails on, in whatever order, the count that its summary reports for a
-- class is the number of failures of that class (below 2 ^ 63).
pub count-snapshot-tally :
    (fs : List Failure) (class : String)
    → occurrences class fs < 2 ^ 63
    → count (snapshot (tally empty_tally fs)) class ≡ pos (occurrences class fs)
unfolding count snapshot
count-snapshot-tally fs class b =
    let v = tally-IsTally empty_tally fs (record { keyed = tt; unique = tt }) in
    count_in-sort_by more_frequent class (values (tally empty_tally fs).classes)
      (values-IsApart (tally empty_tally fs).classes v.keyed v.unique)
    ∙ count_in-values class (tally empty_tally fs).classes v.keyed
    ∙ tally-count_of empty_tally fs class 0 (unfold count_of lookup in refl) (omega arith)
    ∙ ap pos (omega arith)
