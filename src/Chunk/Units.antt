-- ===== src/Chunk/Units.antt =====
-- `atomicUnits` of pkg/chunk/chunk.go: paragraphs and whole fenced code blocks. `trim` is
-- strings.TrimSpace.
use doc_scraper.Prelude.{
  ℕ, Bool, true, false, ◌&&◌, not, List, [], ◌∷◌, ◌++◌, length, ◌==◌, if◌then◌else◌,
}
use doc_scraper.Prelude.Text.{Bytes}
use doc_scraper.Chunk.Lines.{structural_text, fence_token}

-- `unit`
pub record LineUnit : Type 0 where
  pub lines : List Bytes
  pub fenced : Bool
  pub opener : Bytes
  pub fence_ch : ℕ

abbrev pub no_unit : LineUnit
no_unit = record { lines = []; fenced = false; opener = []; fence_ch = 0 }

-- `units` and `cur`
pub record Grouping : Type 0 where
  pub units : List LineUnit
  pub cur : LineUnit

unfoldable pub is_nil {ℓ} : {A : Type ℓ} → List A → Bool
is_nil [] = true
is_nil (x ∷ xs) = false

unfoldable pub head_or_zero : Bytes → ℕ
head_or_zero [] = 0
head_or_zero (c ∷ s) = c

-- `flush`
unfoldable pub flush_unit : Grouping → Grouping
unfolding is_nil
flush_unit g = record {
  units = if is_nil g.cur.lines then g.units else g.units ++ (g.cur ∷ []);
  cur = no_unit;
}

unfoldable pub grow : Grouping → Bytes → Grouping
grow g line = record g { cur = record (g.cur) { lines = g.cur.lines ++ (line ∷ []) } }

module _ (trim : Bytes → Bytes) where
  unfoldable pub is_blank : Bytes → Bool
  is_blank line = length (trim line) == 0

  -- Whether a line ends the code block that is open.
  unfoldable pub closes : LineUnit → Bytes × Bool → Bool
  unfolding is_nil head_or_zero is_blank
  closes u (trimmed, structural) =
      let (tok, rest) = fence_token trimmed in
      structural && not (is_nil tok) && (head_or_zero tok == u.fence_ch) && is_blank rest

  -- Whether a line opens a code block.
  unfoldable pub opens : Bytes × Bool → Bool
  unfolding is_nil
  opens (trimmed, structural) = structural && not (is_nil (fence_token trimmed).0)

  unfoldable pub fence_unit : Bytes → LineUnit
  unfolding head_or_zero
  fence_unit line = record {
    lines = line ∷ [];
    fenced = true;
    opener = line;
    fence_ch = head_or_zero (fence_token (structural_text line).0).0;
  }

  -- One round of the loop.
  unfoldable pub take_line : Grouping → Bytes → Grouping
  unfolding closes opens flush_unit grow fence_unit
  take_line g line =
      if g.cur.fenced
      then (if closes g.cur (structural_text line) then flush_unit (grow g line) else grow g line)
      else if opens (structural_text line)
      then record (flush_unit g) { cur = fence_unit line }
      else if is_blank line
      then flush_unit g
      else grow g line

  unfoldable pub take_lines : Grouping → List Bytes → Grouping
  unfolding take_line
  take_lines g [] = g
  take_lines g (line ∷ lines) = take_lines (take_line g line) lines

  -- `atomicUnits`
  unfoldable pub atomic_units : List Bytes → List LineUnit
  unfolding take_lines flush_unit
  atomic_units lines = (flush_unit (take_lines (record { units = []; cur = no_unit }) lines)).units
