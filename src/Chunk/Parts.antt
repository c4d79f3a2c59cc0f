-- ===== src/Chunk/Parts.antt =====
-- Sections and their parts in pkg/chunk/chunk.go. `trim` is strings.TrimSpace. A list that the code
-- fills from the front stands newest first.
use Prim.Native.String.{String}
use text.Mathlib.Text.{◌==◌ as str_eq}
use doc_scraper.Prelude.{
  ℕ, ◌+◌, Bool, true, false, ◌&&◌, not, List, [], ◌∷◌, ◌++◌, leb, ltb, ◌==◌, length, if◌then◌else◌,
}
use doc_scraper.Prelude.Text.{Bytes}
use doc_scraper.Chunk.Lines.{hard_max_bytes, min_chunk_bytes}

pub record Section : Type 0 where
  pub path : List String
  pub anchor : String
  pub lines : List Bytes

-- `pathExtends`
unfoldable pub path_extends : List String → List String → Bool
path_extends [] parent = false
path_extends (c ∷ child) [] = true
path_extends (c ∷ child) (p ∷ parent) = str_eq c p && path_extends child parent

-- The blank line between two parts.
abbrev pub blank : Bytes
blank = 10 ∷ 10 ∷ []

-- One part behind another.
unfoldable pub joined : Bytes → Bytes → Bytes
joined a b = a ++ (blank ++ b)

unfoldable pub fits : Bytes → Bytes → Bool
fits a b = leb (length a + 2 + length b) hard_max_bytes

unfoldable pub is_tiny : Bytes → Bool
is_tiny p = ltb (length p) min_chunk_bytes

-- What `out` is after a part that no later part takes: it grows the last part, or is a new one.
unfoldable pub absorb : List Bytes → Bytes → List Bytes
unfolding joined fits is_tiny
absorb [] p = p ∷ []
absorb (o ∷ os) p = if is_tiny p && fits o p then joined o p ∷ os else p ∷ o ∷ os

-- Whether a part is held back, to stand in front of the next one.
unfoldable pub goes_forward : List Bytes → Bytes → Bytes → Bool
unfolding fits is_tiny
goes_forward [] p q = is_tiny p && fits p q
goes_forward (o ∷ os) p q = is_tiny p && not (fits o p) && fits p q

-- One round of the loop, with a part behind: what `out` and the next part are.
unfoldable pub advance : List Bytes → Bytes → Bytes → List Bytes × Bytes
unfolding absorb goes_forward joined
advance out p q = if goes_forward out p q then (out, joined p q) else (absorb out p, q)

unfoldable pub merge_from : List Bytes → Bytes → List Bytes → List Bytes
unfolding advance absorb
merge_from out p [] = absorb out p
merge_from out p (q ∷ rest) = let (out', q') = advance out p q in merge_from out' q' rest

unfoldable pub newest_last : List Bytes → List Bytes → List Bytes
newest_last [] done = done
newest_last (o ∷ os) done = newest_last os (o ∷ done)

module _ (trim : Bytes → Bytes) where
  -- The loop that cleans the parts: blank ones go.
  unfoldable pub cleaned : List Bytes → List Bytes
  cleaned [] = []
  cleaned (p ∷ ps) = if length (trim p) == 0 then cleaned ps else trim p ∷ cleaned ps

  unfoldable pub merge_all : List Bytes → List Bytes
  unfolding merge_from newest_last
  merge_all [] = []
  merge_all (p ∷ ps) = newest_last (merge_from [] p ps) []

  -- `mergeTinyParts`
  unfoldable pub merge_tiny_parts : List Bytes → List Bytes
  unfolding merge_all cleaned
  merge_tiny_parts parts = merge_all (cleaned parts)

  unfoldable pub size_of : List Bytes → ℕ
  size_of [] = 0
  size_of (l ∷ ls) = length (trim l) + size_of ls

  -- `section.size`
  unfoldable pub section_size : Section → ℕ
  unfolding size_of
  section_size s = size_of s.lines

  unfoldable pub has_path : List String → Bool
  has_path [] = false
  has_path (p ∷ ps) = true

  -- The condition of `foldUmbrellaSections`.
  unfoldable pub is_umbrella : Section → Section → Bool
  unfolding section_size has_path path_extends
  is_umbrella s next =
      has_path s.path && ltb (section_size s) min_chunk_bytes && path_extends next.path s.path

  unfoldable pub fold_from : Section → List Section → List Section
  unfolding is_umbrella
  fold_from s [] = s ∷ []
  fold_from s (next ∷ rest) = elim (is_umbrella s next) [
    | true ↦ fold_from (record next { lines = s.lines ++ next.lines }) rest
    | false ↦ s ∷ fold_from next rest
  ]

  -- `foldUmbrellaSections`
  unfoldable pub fold_umbrella_sections : List Section → List Section
  unfolding fold_from
  fold_umbrella_sections [] = []
  fold_umbrella_sections (s ∷ ss) = fold_from s ss
