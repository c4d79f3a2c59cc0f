-- ===== src/Chunk/Kept.antt =====
-- Grouping the lines of a section into units keeps every line that is not blank.
use doc_scraper.Prelude.{
  ◌≡◌, refl, Bool, true, false, List, [], ◌∷◌, ◌++◌, append_assoc, append-nil, Bool-cases, inl, inr,
  ap, sym, ◌∙◌, arith, if◌then◌else◌,
}
use doc_scraper.Prelude.Text.{Bytes}
use doc_scraper.Chunk.Lines.{structural_text}
use doc_scraper.Chunk.Units.{
  LineUnit, no_unit, Grouping, is_nil, flush_unit, grow, is_blank, closes, opens, take_line,
  take_lines, atomic_units,
}

-- The lines of all units, in order.
abbrev pub unit_lines : List LineUnit → List Bytes
unit_lines [] = []
unit_lines (u ∷ us) = u.lines ++ unit_lines us

abbrev grouped : Grouping → List Bytes
grouped g = unit_lines g.units ++ g.cur.lines

unit_lines-append : (us vs : List LineUnit) → unit_lines (us ++ vs) ≡ unit_lines us ++ unit_lines vs
unit_lines-append [] vs = refl
unit_lines-append (u ∷ us) vs =
    ap (λ t. u.lines ++ t) (unit_lines-append us vs)
    ∙ sym (append_assoc u.lines (unit_lines us) (unit_lines vs))

nil_lem : (ls : List Bytes) → is_nil ls ≡ true → ls ≡ []
unfolding is_nil
nil_lem [] h = refl
nil_lem (l ∷ ls) h = absurd (cc h)

-- The units after a flush have the lines of the unit that was open.
unit_lines-flush_unit : (g : Grouping) → unit_lines (flush_unit g).units ≡ grouped g
unfolding flush_unit
unit_lines-flush_unit g = elim (Bool-cases (is_nil g.cur.lines)) [
  | inl e ↦ rw (e, flush_unit, nil_lem g.cur.lines e) (sym (append-nil (unit_lines g.units)))
  | inr e ↦
      rw (e, flush_unit)
        (unit_lines-append g.units (g.cur ∷ [])
          ∙ ap (λ t. unit_lines g.units ++ t) (append-nil g.cur.lines))
]

grouped-flush_unit : (g : Grouping) → grouped (flush_unit g) ≡ grouped g
unfolding flush_unit
grouped-flush_unit g = append-nil (unit_lines (flush_unit g).units) ∙ unit_lines-flush_unit g

grouped-grow : (g : Grouping) (line : Bytes) → grouped (grow g line) ≡ grouped g ++ (line ∷ [])
unfolding grow
grouped-grow g line = sym (append_assoc (unit_lines g.units) g.cur.lines (line ∷ []))

-- What holds of both branches of a test holds of the test.
either_way :
    (P : Grouping → Type 0) (b : Bool) {x y : Grouping}
    → (b ≡ true → P x)
    → P y
    → P (if b then x else y)
either_way P true f h = f refl
either_way P false f h = h

module _ (trim : Bytes → Bytes) where
  -- The lines that are not blank.
  abbrev pub solid : List Bytes → List Bytes
  solid [] = []
  solid (l ∷ ls) = if is_blank trim l then solid ls else l ∷ solid ls

  solid-append : (xs ys : List Bytes) → solid (xs ++ ys) ≡ solid xs ++ solid ys
  solid-append [] ys = refl
  solid-append (x ∷ xs) ys = ground (arith, solid-append xs ys)

  solid_blank :
      (xs : List Bytes) (line : Bytes)
      → is_blank trim line ≡ true
      → solid (xs ++ (line ∷ [])) ≡ solid xs
  solid_blank [] line b = rw b refl
  solid_blank (x ∷ xs) line b = rw (solid_blank xs line b) refl

  grouped-take_line :
      (g : Grouping) (line : Bytes)
      → solid (grouped (take_line trim g line)) ≡ solid (grouped g ++ (line ∷ []))
  unfolding take_line
  grouped-take_line g line =
      let P = λ (h : Grouping). solid (grouped h) ≡ solid (grouped g ++ (line ∷ [])) in
      either_way P g.cur.fenced
        (λ e.
          either_way P (closes trim g.cur (structural_text line))
            (λ f. ap solid (grouped-flush_unit (grow g line) ∙ grouped-grow g line))
            (ap solid (grouped-grow g line)))
        (either_way P (opens trim (structural_text line))
          (λ f. ap (λ t. solid (t ++ (line ∷ []))) (unit_lines-flush_unit g))
          (either_way P (is_blank trim line)
            (λ b. ap solid (grouped-flush_unit g) ∙ sym (solid_blank (grouped g) line b))
            (ap solid (grouped-grow g line))))

  grouped-take_lines :
      (g : Grouping) (lines : List Bytes)
      → solid (grouped (take_lines trim g lines)) ≡ solid (grouped g) ++ solid lines
  unfolding take_lines
  grouped-take_lines g [] = sym (append-nil (solid (grouped g)))
  grouped-take_lines g (line ∷ lines) =
      grouped-take_lines (take_line trim g line) lines
      ∙ ap (λ t. t ++ solid lines) (grouped-take_line g line ∙ solid-append (grouped g) (line ∷ []))
      ∙ append_assoc (solid (grouped g)) (solid (line ∷ [])) (solid lines)
      ∙ ap (λ t. solid (grouped g) ++ t) (sym (solid-append (line ∷ []) lines))

  -- The lines of a section that are not blank are those of its units, in the same order: grouping into
  -- paragraphs and code blocks loses none, adds none and repeats none.
  pub solid-atomic_units :
      (lines : List Bytes) → solid (unit_lines (atomic_units trim lines)) ≡ solid lines
  unfolding atomic_units
  solid-atomic_units lines =
      let start : Grouping = record { units = []; cur = no_unit } in
      ap solid (unit_lines-flush_unit (take_lines trim start lines))
      ∙ grouped-take_lines start lines
