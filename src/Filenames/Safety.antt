-- ===== src/Filenames/Safety.antt =====
-- What a sanitized name is not.
use doc_scraper.Prelude.{
  ℕ, ◌≤◌, ◌≡◌, ◌≢◌, refl, Bool, true, false, ◌&&◌, [], ◌∷◌, map, length, take, ltb, ◌==◌, arith,
  length-take, Bool-cases, inl, inr,
}
use doc_scraper.Prelude.Text.{Bytes}
use doc_scraper.Prelude.Sort.{All, All-take}
use doc_scraper.Filenames.{
  is_invalid, max_filename_length, replaced, starts_with_underscore, collapse, trim_left, put_front,
  trim_right, trim, is_filler, is_dot, untitled, shortened, or_untitled, sanitize_filename,
}

-- A byte that a file name may hold on any system: no control character, and none of < > : " / \ | ? *.
abbrev pub IsValid : ℕ → Type 0
IsValid c =
    (32 ≤ c)
    × (c ≢ b'<')
    × (c ≢ b'>')
    × (c ≢ b':')
    × (c ≢ 34)
    × (c ≢ b'/')
    × (c ≢ 92)
    × (c ≢ b'|')
    × (c ≢ b'?')
    × (c ≢ b'*')

replaced-IsValid : (c : ℕ) → IsValid (replaced c)
unfolding replaced is_invalid
replaced-IsValid c = ground arith

map-All : (s : Bytes) → All IsValid (map replaced s)
map-All [] = tt
map-All (c ∷ s) = (replaced-IsValid c, map-All s)

collapse-All : (s : Bytes) → All IsValid s → All IsValid (collapse s)
unfolding collapse
collapse-All [] h = tt
collapse-All (c ∷ s) h = elim (Bool-cases (c == 95 && starts_with_underscore (collapse s))) [
  | inl e ↦ rw (e, collapse) (collapse-All s h.1)
  | inr e ↦ rw (e, collapse) (h.0, collapse-All s h.1)
]

module _ (cut : ℕ → Bool) where
  trim_left-All : (s : Bytes) → All IsValid s → All IsValid (trim_left cut s)
  unfolding trim_left
  trim_left-All [] h = tt
  trim_left-All (c ∷ s) h = elim (Bool-cases (cut c)) [
    | inl e ↦ rw (e, trim_left) (trim_left-All s h.1)
    | inr e ↦ rw (e, trim_left) h
  ]

  put_front-All : (c : ℕ) (s : Bytes) → IsValid c → All IsValid s → All IsValid (put_front cut c s)
  unfolding put_front
  put_front-All c [] v h = elim (Bool-cases (cut c)) [
    | inl e ↦ rw (e, put_front) tt
    | inr e ↦ rw (e, put_front) (v, tt)
  ]
  put_front-All c (d ∷ s) v h = (v, h)

  trim_right-All : (s : Bytes) → All IsValid s → All IsValid (trim_right cut s)
  unfolding trim_right
  trim_right-All [] h = tt
  trim_right-All (c ∷ s) h = put_front-All c (trim_right cut s) h.0 (trim_right-All s h.1)

  trim-All : (s : Bytes) → All IsValid s → All IsValid (trim cut s)
  unfolding trim
  trim-All s h = trim_right-All (trim_left cut s) (trim_left-All s h)

  length-put_front : (c : ℕ) (s : Bytes) → length (put_front cut c s) ≤ length (c ∷ s)
  unfolding put_front
  length-put_front c [] = ground arith
  length-put_front c (d ∷ s) = omega arith

  length-trim_left : (s : Bytes) → length (trim_left cut s) ≤ length s
  unfolding trim_left
  length-trim_left [] = omega arith
  length-trim_left (c ∷ s) = ground (arith, length-trim_left s)

  length-trim_right : (s : Bytes) → length (trim_right cut s) ≤ length s
  unfolding trim_right
  length-trim_right [] = omega arith
  length-trim_right (c ∷ s) =
      omega (arith, length-trim_right s, length-put_front c (trim_right cut s))

  length-trim : (s : Bytes) → length (trim cut s) ≤ length s
  unfolding trim
  length-trim s = omega (arith, length-trim_left s, length-trim_right (trim_left cut s))

  -- A text of bytes that are all cut is cut away.
  trim_left_gone : (s : Bytes) → All (λ c. cut c ≡ true) s → trim_left cut s ≡ []
  unfolding trim_left
  trim_left_gone [] h = refl
  trim_left_gone (c ∷ s) h = rw (h.0, trim_left) (trim_left_gone s h.1)

  trim_gone : (s : Bytes) → All (λ c. cut c ≡ true) s → trim cut s ≡ []
  unfolding trim trim_right
  trim_gone s h = rw (trim_left_gone s h) refl

not_longer : (n k : ℕ) → ltb n k ≡ false → k ≤ n
not_longer n k e = ground (arith, e)

length-shortened : (s : Bytes) → length (shortened s) ≤ max_filename_length
unfolding shortened
length-shortened s = elim (Bool-cases (ltb max_filename_length (length s))) [
  | inl e ↦ rw (e, shortened) (omega (arith, length-trim is_filler (take 100 s), length-take 100 s))
  | inr e ↦ rw (e, shortened) (not_longer max_filename_length (length s) e)
]

shortened-All : (s : Bytes) → All IsValid s → All IsValid (shortened s)
unfolding shortened
shortened-All s h = elim (Bool-cases (ltb max_filename_length (length s))) [
  | inl e ↦
      rw (e, shortened) (trim-All is_filler (take 100 s) (All-take IsValid max_filename_length s h))
  | inr e ↦ rw (e, shortened) h
]

-- Every byte is a dot, as in `.` and `..`.
abbrev pub IsDots : Bytes → Type 0
IsDots = All (λ c. is_dot c ≡ true)

-- A name that can stand as one component of a path.
pub record IsSafe (s : Bytes) : Type 0 where
  pub short : length s ≤ max_filename_length
  pub valid : All IsValid s
  pub named : ¬ IsDots s

untitled-IsSafe : IsSafe untitled
unfolding replaced is_invalid is_dot
untitled-IsSafe = record { short = omega arith; valid = map-All untitled; named = λ h. cc h.0 }

or_untitled-IsSafe :
    (t s : Bytes)
    → length s ≤ max_filename_length
    → All IsValid s
    → (IsDots s → t ≡ [])
    → IsSafe (or_untitled t s)
unfolding or_untitled
or_untitled-IsSafe [] s l v d = untitled-IsSafe
or_untitled-IsSafe (c ∷ rest) s l v d = record { short = l; valid = v; named = λ h. cc (d h) }

-- Whatever the name, the sanitized one is a component of a path that stays in its directory: at most
-- a hundred bytes, no separator or other forbidden character, and neither empty nor dots alone.
pub sanitize_filename-IsSafe : (name : Bytes) → IsSafe (sanitize_filename name)
unfolding sanitize_filename
sanitize_filename-IsSafe name =
    let t = trim is_filler (collapse (map replaced name)) in
    or_untitled-IsSafe (trim is_dot (shortened t)) (shortened t) (length-shortened t)
      (shortened-All t (
        trim-All is_filler (collapse (map replaced name))
          (collapse-All (map replaced name) (map-All name))))
      (trim_gone is_dot (shortened t))
