-- ===== src/Semaphore.antt =====
-- The weighted semaphore of golang.org/x/sync, which the code calls and does not contain: its
-- documented operations as an interface, and a counting semaphore that meets it.
use doc_scraper.Prelude.{
  ℕ, ◌+◌, ◌-◌, ◌≤◌, ◌<◌, ◌≡◌, refl, Option, none, some, arith, leb, if◌then◌else◌,
}

-- `try_acquire` is what a grant does: TryAcquire makes it at once, Acquire waits for it. `held` is
-- the weight that is out.
pub record Semaphore : Type 1 where
  pub Sem : Type 0
  pub new_weighted : ℕ → Sem
  pub try_acquire : Sem → ℕ → Option Sem
  pub release : Sem → ℕ → Sem
  pub size : Sem → ℕ
  pub held : Sem → ℕ
  pub held-new_weighted : (n : ℕ) → (size (new_weighted n) ≡ n) × (held (new_weighted n) ≡ 0)
  pub acquired :
      (s t : Sem) (n : ℕ)
      → try_acquire s n ≡ some t
      → (held t ≡ held s + n) × (held t ≤ size t) × (size t ≡ size s)
  pub refused : (s : Sem) (n : ℕ) → try_acquire s n ≡ none → size s < held s + n
  pub released :
      (s : Sem) (n : ℕ)
      → n ≤ held s
      → (held (release s n) + n ≡ held s) × (size (release s n) ≡ size s)

pub record Counting : Type 0 where
  pub limit : ℕ
  pub out : ℕ

abbrev pub count_acquire : Counting → ℕ → Option Counting
count_acquire s n = if leb (s.out + n) s.limit then some (record s { out = s.out + n }) else none

pub count_acquired :
    (s t : Counting) (n : ℕ)
    → count_acquire s n ≡ some t
    → (t.out ≡ s.out + n) × (t.out ≤ t.limit) × (t.limit ≡ s.limit)
count_acquired s t n h = ground arith

pub count_refused : (s : Counting) (n : ℕ) → count_acquire s n ≡ none → s.limit < s.out + n
count_refused s n h = ground arith

pub count_released :
    (s : Counting) (n : ℕ) → n ≤ s.out → (s.out - n + n ≡ s.out) × (s.limit ≡ s.limit)
count_released s n h = (omega arith, refl)

-- A semaphore that counts meets the interface.
abbrev pub counting : Semaphore
counting = record {
  Sem = Counting;
  new_weighted = λ n. record { limit = n; out = 0 };
  try_acquire = count_acquire;
  release = λ s n. record s { out = s.out - n };
  size = λ s. s.limit;
  held = λ s. s.out;
  held-new_weighted = λ n. (refl, refl);
  acquired = count_acquired;
  refused = count_refused;
  released = count_released;
}
