-- ===== src/Tests/Chunk.antt =====
-- Folding, merging and grouping on examples. No line here has space around it to trim.
use doc_scraper.Prelude.{◌≤◌, ◌≡◌, List, [], ◌∷◌, length, map, arith}
use doc_scraper.Prelude.Text.{Bytes}
use doc_scraper.Chunk.Parts.{Section, merge_tiny_parts}
use doc_scraper.Chunk.Merging.{spread, texts, spread-merge_tiny_parts}
use doc_scraper.Chunk.Units.{atomic_units}
use doc_scraper.Chunk.Kept.{unit_lines, solid, solid-atomic_units}

abbrev as_is : Bytes → Bytes
as_is p = p

abbrev heading : Bytes
heading = 35 ∷ 32 ∷ 97 ∷ []

abbrev fence : Bytes
fence = 96 ∷ 96 ∷ 96 ∷ []

abbrev parts : List Bytes
parts = heading ∷ [] ∷ fence ∷ []

abbrev sections : List Section
sections =
    record { path = "A" ∷ []; anchor = "a"; lines = heading ∷ [] }
    ∷ record { path = "A" ∷ "B" ∷ []; anchor = "b"; lines = fence ∷ [] }
    ∷ []

as_is_short : (p : Bytes) → length (as_is p) ≤ length p
as_is_short p = omega arith

spread-merge_tiny_parts_example :
    spread (merge_tiny_parts as_is parts) ≡ spread (texts (map as_is parts))
spread-merge_tiny_parts_example = spread-merge_tiny_parts as_is parts

solid-atomic_units_example :
    solid as_is (unit_lines (atomic_units as_is (fence ∷ heading ∷ [] ∷ fence ∷ heading ∷ [])))
    ≡ solid as_is (fence ∷ heading ∷ [] ∷ fence ∷ heading ∷ [])
solid-atomic_units_example = solid-atomic_units as_is (fence ∷ heading ∷ [] ∷ fence ∷ heading ∷ [])
