-- ===== src/Chunk/Folding.antt =====
-- Folding keeps every line of a page in its place.
use doc_scraper.Prelude.{
  ◌≡◌, refl, List, [], ◌∷◌, ◌++◌, Bool-cases, inl, inr, ap, ◌∙◌, append_assoc,
}
use doc_scraper.Prelude.Text.{Bytes}
use doc_scraper.Chunk.Parts.{Section, is_umbrella, fold_from, fold_umbrella_sections}

-- The lines of all sections, in order.
abbrev pub all_lines : List Section → List Bytes
all_lines [] = []
all_lines (s ∷ ss) = s.lines ++ all_lines ss

module _ (trim : Bytes → Bytes) where
  all_lines-fold_from :
      (s : Section) (rest : List Section)
      → all_lines (fold_from trim s rest) ≡ s.lines ++ all_lines rest
  unfolding fold_from
  all_lines-fold_from s [] = refl
  all_lines-fold_from s (next ∷ rest) = elim (Bool-cases (is_umbrella trim s next)) [
    | inl e ↦
        rw (e, fold_from)
          (all_lines-fold_from (record next { lines = s.lines ++ next.lines }) rest
            ∙ append_assoc s.lines next.lines (all_lines rest))
    | inr e ↦ rw (e, fold_from) (ap (λ t. s.lines ++ t) (all_lines-fold_from next rest))
  ]

  -- Folding heading-only sections into their children loses no line of the page, adds none, and keeps
  -- their order.
  pub all_lines-fold_umbrella_sections :
      (ss : List Section) → all_lines (fold_umbrella_sections trim ss) ≡ all_lines ss
  unfolding fold_umbrella_sections
  all_lines-fold_umbrella_sections [] = refl
  all_lines-fold_umbrella_sections (s ∷ ss) = all_lines-fold_from s ss
