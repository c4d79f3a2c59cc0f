-- ===== src/Tests/PageBudget.antt =====
-- Tags and budgets on examples.
use doc_scraper.Prelude.{ℕ, ◌≤◌, ◌≡◌, refl, false, List, [], ◌∷◌, some, length}
use doc_scraper.Prelude.Text.{Bytes}
use doc_scraper.Prelude.Sort.{All}
use doc_scraper.Semaphore.{counting}
use doc_scraper.PageBudget.Attrs.{count_attrs, is_space, ends_key}
use doc_scraper.PageBudget.Progress.{count_attrs_total}
use doc_scraper.PageBudget.Tags.{
  Attr, bare, quoted, unquoted, tag_bytes, IsName, IsAttr, count_attrs-tag_bytes,
}
use doc_scraper.PageBudget.Ledger.{
  Ledger, Event, reserves, releases, run, Inv, opened, run-opened-Inv,
}

-- <p id="x" a=b d>
abbrev attributes : List Attr
attributes =
    quoted (b'i' ∷ b'd' ∷ []) (b'x' ∷ []) ∷ unquoted (b'a' ∷ []) (b'b' ∷ []) ∷ bare (b'd' ∷ []) ∷ []

abbrev name : Bytes
name = b'p' ∷ []

name-IsName : IsName name
unfolding is_space
name-IsName = (refl, tt)

attributes-IsAttr : All IsAttr attributes
unfolding is_space ends_key
attributes-IsAttr = (
  (((λ e. cc e), (refl, (refl, tt))), (refl, tt)),
  ((((λ e. cc e), (refl, tt)), (refl, refl, (refl, tt))), (((λ e. cc e), (refl, tt)), tt)),
)

count_attrs-tag_bytes_example : count_attrs (tag_bytes name attributes) ≡ some 3
count_attrs-tag_bytes_example = count_attrs-tag_bytes name attributes name-IsName attributes-IsAttr

-- A tag that ends early.
abbrev cut : Bytes
cut = b'<' ∷ b'p' ∷ b' ' ∷ b'a' ∷ []

count_attrs_total_example : (k : ℕ) × (count_attrs cut ≡ some k) × (k ≤ length cut)
count_attrs_total_example = count_attrs_total cut

abbrev uses : List (Event counting)
uses = reserves 4 false ∷ reserves 9 false ∷ reserves 3 false ∷ releases 1 ∷ releases 1 ∷ []

run-opened-Inv_example : Inv counting (run counting (opened counting 10) uses)
run-opened-Inv_example = run-opened-Inv counting 10 uses

abbrev taken : Ledger counting
taken = run counting (opened counting 10) (reserves 4 false ∷ [])
