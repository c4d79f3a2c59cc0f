-- ===== src/Chunk/Merging.antt =====
-- Merging tiny parts keeps the text, and the bound on a part.
use doc_scraper.Prelude.{
  ◌≤◌, ◌≡◌, refl, true, false, map, if◌then◌else◌, ◌&&◌, List, [], ◌∷◌, ◌++◌, length, ◌==◌,
  append_assoc, arith, length-append, Bool-cases, inl, inr, ap, ◌∙◌,
}
use doc_scraper.Prelude.Text.{Bytes}
use doc_scraper.Prelude.Sort.{All}
use doc_scraper.Chunk.Lines.{hard_max_bytes}
use doc_scraper.Chunk.Parts.{
  joined, fits, is_tiny, absorb, goes_forward, advance, merge_from, newest_last, cleaned, merge_all,
  merge_tiny_parts, blank,
}

abbrev pub IsBounded : Bytes → Type 0
IsBounded p = length p ≤ hard_max_bytes

joined-IsBounded : (a b : Bytes) → fits a b ≡ true → IsBounded (joined a b)
unfolding fits joined
joined-IsBounded a b h = ground (arith, h, length-append a (blank ++ b))

absorb-All :
    (out : List Bytes) (p : Bytes) → All IsBounded out → IsBounded p → All IsBounded (absorb out p)
unfolding absorb
absorb-All [] p h b = (b, tt)
absorb-All (o ∷ os) p h b = elim (Bool-cases (fits o p)) [
  | inl e ↦ elim (Bool-cases (is_tiny p)) [
    | inl f ↦ rw (e, f, absorb) (joined-IsBounded o p e, h.1)
    | inr f ↦ rw (f, absorb) (b, h)
  ]
  | inr e ↦ elim (Bool-cases (is_tiny p)) [
    | inl f ↦ rw (e, f, absorb) (b, h)
    | inr f ↦ rw (f, absorb) (b, h)
  ]
]

goes_forward-fits : (out : List Bytes) (p q : Bytes) → goes_forward out p q ≡ true → fits p q ≡ true
unfolding goes_forward
goes_forward-fits [] p q h = ground (arith, h)
goes_forward-fits (o ∷ os) p q h = ground (arith, h)

merge_from-All :
    (out : List Bytes) (p : Bytes) (rest : List Bytes)
    → All IsBounded out
    → IsBounded p
    → All IsBounded rest
    → All IsBounded (merge_from out p rest)
unfolding merge_from advance
merge_from-All out p [] h b r = absorb-All out p h b
merge_from-All out p (q ∷ rest) h b r = elim (Bool-cases (goes_forward out p q)) [
  | inl e ↦
      rw (e, merge_from, advance)
        (merge_from-All out (joined p q) rest h (joined-IsBounded p q (goes_forward-fits out p q e))
          r.1)
  | inr e ↦
      rw (e, merge_from, advance)
        (merge_from-All (absorb out p) q rest (absorb-All out p h b) r.0 r.1)
]

newest_last-All :
    (os done : List Bytes)
    → All IsBounded os
    → All IsBounded done
    → All IsBounded (newest_last os done)
unfolding newest_last
newest_last-All [] done h d = d
newest_last-All (o ∷ os) done h d = newest_last-All os (o ∷ done) h.1 (h.0, d)

module _ (trim : Bytes → Bytes) (length-trim : (p : Bytes) → length (trim p) ≤ length p) where
  cleaned-All : (ps : List Bytes) → All IsBounded ps → All IsBounded (cleaned trim ps)
  unfolding cleaned
  cleaned-All [] h = tt
  cleaned-All (p ∷ ps) h = elim (Bool-cases (length (trim p) == 0)) [
    | inl e ↦ rw (e, cleaned) (cleaned-All ps h.1)
    | inr e ↦ rw (e, cleaned) (omega (arith, length-trim p, h.0), cleaned-All ps h.1)
  ]

  merge_all-All : (ps : List Bytes) → All IsBounded ps → All IsBounded (merge_all trim ps)
  unfolding merge_all
  merge_all-All [] h = tt
  merge_all-All (p ∷ ps) h =
      newest_last-All (merge_from [] p ps) [] (merge_from-All [] p ps tt h.0 h.1) tt

  -- Where trimming lengthens no text, merging never makes a part that is over the hard limit: if
  -- the parts fit, so do the merged ones.
  pub merge_tiny_parts-All :
      (ps : List Bytes) → All IsBounded ps → All IsBounded (merge_tiny_parts trim ps)
  unfolding merge_tiny_parts
  merge_tiny_parts-All ps h = merge_all-All (cleaned trim ps) (cleaned-All ps h)

-- The parts as one text, each with a blank line behind it.
abbrev pub spread : List Bytes → Bytes
spread [] = []
spread (p ∷ ps) = p ++ (blank ++ spread ps)

spread-joined : (a b : Bytes) (ps : List Bytes) → spread (joined a b ∷ ps) ≡ spread (a ∷ b ∷ ps)
unfolding joined
spread-joined a b ps = append_assoc a (blank ++ b) (blank ++ spread ps)

spread-newest_last :
    (os : List Bytes) (d e : List Bytes)
    → spread d ≡ spread e
    → spread (newest_last os d) ≡ spread (newest_last os e)
unfolding newest_last
spread-newest_last [] d e h = h
spread-newest_last (o ∷ os) d e h =
    spread-newest_last os (o ∷ d) (o ∷ e) (ap (λ t. o ++ (blank ++ t)) h)

spread-absorb :
    (out : List Bytes) (p : Bytes) (d : List Bytes)
    → spread (newest_last (absorb out p) d) ≡ spread (newest_last out (p ∷ d))
unfolding absorb newest_last
spread-absorb [] p d = refl
spread-absorb (o ∷ os) p d = elim (Bool-cases (is_tiny p && fits o p)) [
  | inl e ↦
      rw (e, absorb, newest_last)
        (spread-newest_last os (joined o p ∷ d) (o ∷ p ∷ d) (spread-joined o p d))
  | inr e ↦ rw (e, absorb, newest_last) refl
]

spread-merge_from :
    (out : List Bytes) (p : Bytes) (rest : List Bytes)
    → spread (newest_last (merge_from out p rest) []) ≡ spread (newest_last out (p ∷ rest))
unfolding merge_from advance
spread-merge_from out p [] = spread-absorb out p []
spread-merge_from out p (q ∷ rest) = elim (Bool-cases (goes_forward out p q)) [
  | inl e ↦
      rw (e, merge_from, advance)
        (spread-merge_from out (joined p q) rest
          ∙ spread-newest_last out (joined p q ∷ rest) (p ∷ q ∷ rest) (spread-joined p q rest))
  | inr e ↦
      rw (e, merge_from, advance)
        (spread-merge_from (absorb out p) q rest ∙ spread-absorb out p (q ∷ rest))
]

spread-merge_all : (trim : Bytes → Bytes) (ps : List Bytes) → spread (merge_all trim ps) ≡ spread ps
unfolding merge_all newest_last
spread-merge_all trim [] = refl
spread-merge_all trim (p ∷ ps) = spread-merge_from [] p ps

-- The texts of the list that are not empty, in their order.
unfoldable pub texts : List Bytes → List Bytes
texts [] = []
texts ([] ∷ ps) = texts ps
texts ((c ∷ p) ∷ ps) = (c ∷ p) ∷ texts ps

text_kept :
    (t : Bytes) (ps qs : List Bytes)
    → ps ≡ texts qs
    → (if length t == 0 then ps else t ∷ ps) ≡ texts (t ∷ qs)
unfolding texts
text_kept [] ps qs h = h
text_kept (c ∷ t) ps qs h =
    let some_text : (length (c ∷ t) == 0) ≡ false = ground arith in
    rw some_text (ap (λ l. (c ∷ t) ∷ l) h)

cleaned-texts : (trim : Bytes → Bytes) (ps : List Bytes) → cleaned trim ps ≡ texts (map trim ps)
unfolding cleaned texts
cleaned-texts trim [] = refl
cleaned-texts trim (p ∷ ps) =
    text_kept (trim p) (cleaned trim ps) (map trim ps) (cleaned-texts trim ps)

-- Merging moves boundaries between parts and nothing else: read with a blank line behind each part,
-- the merged parts are the text of the trimmed parts that are not blank, in their order.
pub spread-merge_tiny_parts :
    (trim : Bytes → Bytes) (ps : List Bytes)
    → spread (merge_tiny_parts trim ps) ≡ spread (texts (map trim ps))
unfolding merge_tiny_parts
spread-merge_tiny_parts trim ps =
    spread-merge_all trim (cleaned trim ps) ∙ ap spread (cleaned-texts trim ps)
