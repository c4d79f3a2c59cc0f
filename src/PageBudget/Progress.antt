-- ===== src/PageBudget/Progress.antt =====
-- The attribute scanner reads every byte at most once: its loops end.
use doc_scraper.Prelude.{
  ℕ, zero, suc, ◌+◌, ◌<◌, ◌≤◌, ◌≡◌, refl, Bool, true, false, [], ◌∷◌, some, length, drop, arith,
  ◌∙◌, ◌==◌, if◌then◌else◌, Bool-cases, inl, inr, length-drop,
}
use doc_scraper.Prelude.Text.{Bytes}
use doc_scraper.PageBudget.Attrs.{
  is_space, skip_space, skip_name, skip_key, skip_quoted, skip_unquoted, skip_value,
  skip_attr_value, next_attr, has_key, attrs_from, count_attrs,
}

skip_space-le : (s : Bytes) → length (skip_space s) ≤ length s
unfolding skip_space
skip_space-le [] = omega arith
skip_space-le (c ∷ s) = ground (arith, skip_space-le s)

skip_name-le : (s : Bytes) → length (skip_name s) ≤ length s
unfolding skip_name
skip_name-le [] = omega arith
skip_name-le (c ∷ s) = ground (arith, skip_name-le s)

skip_key-le : (b : Bool) (s : Bytes) → length (skip_key b s) ≤ length s
unfolding skip_key
skip_key-le b [] = omega arith
skip_key-le b (c ∷ s) = ground (arith, skip_key-le false s)

skip_quoted-le : (q : ℕ) (s : Bytes) → length (skip_quoted q s) ≤ length s
unfolding skip_quoted
skip_quoted-le q [] = omega arith
skip_quoted-le q (c ∷ s) = ground (arith, skip_quoted-le q s)

skip_unquoted-le : (s : Bytes) → length (skip_unquoted s) ≤ length s
unfolding skip_unquoted
skip_unquoted-le [] = omega arith
skip_unquoted-le (c ∷ s) = ground (arith, skip_unquoted-le s)

skip_value-le : (s : Bytes) → length (skip_value s) ≤ length s
unfolding skip_value
skip_value-le [] = omega arith
skip_value-le (c ∷ s) = ground (arith, skip_quoted-le c s, skip_unquoted-le s)

skip_attr_value-le : (s : Bytes) → length (skip_attr_value s) ≤ length s
unfolding skip_attr_value
skip_attr_value-le [] = omega arith
skip_attr_value-le (c ∷ s) = ground (arith, skip_value-le (skip_space s), skip_space-le s)

-- No space is in front.
abbrev pub Starts : Bytes → Type 0
Starts [] = Unit {0}
Starts (c ∷ s) = is_space c ≡ false

pub skip_space-Starts : (s : Bytes) → Starts (skip_space s)
unfolding skip_space
skip_space-Starts [] = tt
skip_space-Starts (c ∷ s) = elim (Bool-cases (is_space c)) [
  | inl e ↦ rw (e, skip_space) (skip_space-Starts s)
  | inr e ↦ rw (e, skip_space) e
]

-- From a slash on, a round steps over the slash.
slash_round :
    (c : ℕ) (s : Bytes)
    → is_space c ≡ false
    → c ≡ b'/'
    → skip_attr_value (skip_space (skip_key true (c ∷ s))) ≡ s
unfolding skip_attr_value skip_key skip_space
slash_round c s h e = ground arith

key_round :
    (c : ℕ) (s : Bytes)
    → is_space c ≡ false
    → (c == b'>') ≡ false
    → (c == b'/') ≡ false
    → skip_key true (c ∷ s) ≡ skip_key false s
unfolding skip_key
key_round c s h g k = ground arith

-- A round of the scanner reads a byte.
pub next_attr-lt :
    (c : ℕ) (s : Bytes)
    → is_space c ≡ false
    → (c == b'>') ≡ false
    → length (next_attr (c ∷ s)) < length (c ∷ s)
unfolding next_attr
next_attr-lt c s h g = elim (Bool-cases (c == b'/')) [
  | inl e ↦ rw (slash_round c s h (ground arith)) (omega (arith, skip_space-le s))
  | inr e ↦ rw (key_round c s h g e) (
      omega (
        arith,
        skip_space-le (skip_attr_value (skip_space (skip_key false s))),
        skip_attr_value-le (skip_space (skip_key false s)),
        skip_space-le (skip_key false s),
        skip_key-le false s,
      ))
]

pub next_attr-Starts : (s : Bytes) → Starts (next_attr s)
unfolding next_attr
next_attr-Starts s = skip_space-Starts (skip_attr_value (skip_space (skip_key true s)))

pub attrs_from_step :
    (f n c : ℕ) (s : Bytes)
    → (c == b'>') ≡ false
    → attrs_from (suc f) n (c ∷ s)
      ≡ attrs_from f (if has_key (c ∷ s) then n + 1 else n) (next_attr (c ∷ s))
unfolding attrs_from
attrs_from_step f n c s e = rw e

attrs_from_total :
    (f n : ℕ) (s : Bytes)
    → length s < f
    → Starts s
    → (k : ℕ) × (attrs_from f n s ≡ some k) × (k ≤ n + length s)
unfolding attrs_from
attrs_from_total zero n s h st = absurd (omega arith)
attrs_from_total (suc f) n [] h st = (n, refl, omega arith)
attrs_from_total (suc f) n (c ∷ s) h st = elim (Bool-cases (c == b'>')) [
  | inl e ↦ (n, rw (e, attrs_from), omega arith)
  | inr e ↦
      let shorter = next_attr-lt c s st e in
      let m = if has_key (c ∷ s) then n + 1 else n in
      let (k, done, small) =
        attrs_from_total f m (next_attr (c ∷ s)) (omega (arith, shorter))
          (next_attr-Starts (c ∷ s)) in
      (k, attrs_from_step f n c s e ∙ done, ground (arith, small, shorter))
]

-- The scan of a tag always ends within its fuel, and counts no more attributes than the tag has
-- bytes.
pub count_attrs_total : (raw : Bytes) → (k : ℕ) × (count_attrs raw ≡ some k) × (k ≤ length raw)
unfolding count_attrs
count_attrs_total raw =
    let s = skip_space (skip_name (drop 1 raw)) in
    let short : length s ≤ length raw = omega (
      arith,
      skip_space-le (skip_name (drop 1 raw)),
      skip_name-le (drop 1 raw),
      length-drop 1 raw,
    ) in
    let (k, done, small) =
      attrs_from_total (suc (length raw)) 0 s (omega (arith, short))
        (skip_space-Starts (skip_name (drop 1 raw))) in
    (k, done, omega (arith, small, short))
