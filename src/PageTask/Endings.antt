-- ===== src/PageTask/Endings.antt =====
-- How properties of a page task's state pass through its steps: a rule for each way that
-- processSinglePageTask in pkg/crawler/crawler.go puts steps together.
use doc_scraper.Prelude.{Option, none, some, Bool-cases, inl, inr}
use doc_scraper.Errors.{Error}
use doc_scraper.PageTask.State.{
  Task, Step, PageWorld, Ends, goes_on, returns, panicked, M, ◌>>=◌, ◌>>◌, modify, note_error,
  enter, check_error,
}

-- From states with `P`, a step goes on in states with `Q`, returns in states with `R` and panics in
-- states with `X`.
abbrev pub EndsIn :
    {A : Type 0} → (Task → Type 0) → (Task → Type 0) → (Task → Type 0) → Task × Ends A → Type 0
EndsIn Q R X r = let (t, e) = r in elim e [ goes_on a ↦ Q t | returns ↦ R t | panicked ↦ X t ]

abbrev pub Leads :
    {A : Type 0}
    → (Task → Type 0)
    → (Task → Type 0)
    → (Task → Type 0)
    → (Task → Type 0)
    → M A
    → Type 0
Leads P Q R X m = (t : Task) → P t → EndsIn Q R X (m t)

module _ (R X : Task → Type 0) where
  bind_result :
      {A B : Type 0} (Q S : Task → Type 0) (f : A → M B) (r : Task × Ends A)
      → EndsIn Q R X r
      → ((a : A) → Leads Q S R X (f a))
      → EndsIn S R X ((◌>>=◌ (λ (t : Task). r) f) r.0)
  bind_result Q S f (t, goes_on a) h k = k a t h
  bind_result Q S f (t, returns) h k = h
  bind_result Q S f (t, panicked) h k = h

  pub bind_lem :
      {A B : Type 0} (P Q S : Task → Type 0) (m : M A) (f : A → M B)
      → Leads P Q R X m
      → ((a : A) → Leads Q S R X (f a))
      → Leads P S R X (m >>= f)
  bind_lem P Q S m f h k t p = bind_result Q S f (m t) (h t p) k

  pub then_lem :
      {B : Type 0} (P Q S : Task → Type 0) (m : M (Unit {0})) (n : M B)
      → Leads P Q R X m
      → Leads Q S R X n
      → Leads P S R X (m >> n)
  then_lem P Q S m n h k = bind_lem P Q S m (λ _. n) h (λ _. k)

  pub enter_lem :
      (P : Task → Type 0) (world : PageWorld) (step : Step)
      → ((t : Task) → P t → X t)
      → Leads P P R X (enter world step)
  enter_lem P world step x t p = elim (Bool-cases (world.panics step)) [
    | inl e ↦ rw (e, enter) (x t p)
    | inr e ↦ rw (e, enter) p
  ]

  pub check_error_lem :
      (P : Task → Type 0) (err : Option Error)
      → ((e : Error) (t : Task) → P t → R (note_error e t))
      → Leads P P R X (check_error err)
  check_error_lem P none r t p = p
  check_error_lem P (some e) r t p = r e t p

  pub modify_lem :
      (P Q : Task → Type 0) (f : Task → Task)
      → ((t : Task) → P t → Q (f t))
      → Leads P Q R X (modify f)
  modify_lem P Q f h t p = h t p

  pub weaken_lem :
      {A : Type 0} (P Q S : Task → Type 0) (m : M A)
      → Leads P Q R X m
      → ((t : Task) → Q t → S t)
      → Leads P S R X m
  weaken_lem P Q S m h k t p = weaken_result Q S (m t) (h t p) k
    where
      weaken_result :
          {A : Type 0} (Q S : Task → Type 0) (r : Task × Ends A)
          → EndsIn Q R X r
          → ((t : Task) → Q t → S t)
          → EndsIn S R X r
      weaken_result Q S (t, goes_on a) h k = k t h
      weaken_result Q S (t, returns) h k = h
      weaken_result Q S (t, panicked) h k = h
