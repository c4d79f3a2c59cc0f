-- ===== src/Chunk/Lines.antt =====
-- The lines of a page in pkg/chunk/chunk.go: which may carry block structure, and which open or close
-- a fenced code block.
use doc_scraper.Prelude.{
  ℕ, suc, Bool, true, false, ◌||◌, [], ◌∷◌, leb, ltb, ◌==◌, take, drop, if◌then◌else◌,
}
use doc_scraper.Prelude.Text.{Bytes}

abbrev pub target_max_bytes : ℕ
target_max_bytes = 2048

abbrev pub hard_max_bytes : ℕ
hard_max_bytes = 6144

abbrev pub min_chunk_bytes : ℕ
min_chunk_bytes = 256

abbrev pub max_indent : ℕ
max_indent = 3

-- The length of the run of a byte at the start.
unfoldable pub run_length : ℕ → Bytes → ℕ
run_length b [] = 0
run_length b (c ∷ s) = if c == b then suc (run_length b s) else 0

unfoldable pub starts_with_tab : Bytes → Bool
starts_with_tab [] = false
starts_with_tab (c ∷ s) = c == 9

-- `structuralText`
unfoldable pub structural_text : Bytes → Bytes × Bool
unfolding run_length starts_with_tab
structural_text line =
    let n = run_length 32 line in
    if ltb max_indent n || starts_with_tab (drop n line) then (line, false) else (drop n line, true)

-- `fenceToken`; 96 is the backtick, 126 the tilde.
unfoldable pub fence_token : Bytes → Bytes × Bytes
unfolding run_length
fence_token s =
    let ticks = run_length 96 s in
    let tildes = run_length 126 s in
    if leb 3 ticks
    then (take ticks s, drop ticks s)
    else if leb 3 tildes
    then (take tildes s, drop tildes s)
    else ([], [])
