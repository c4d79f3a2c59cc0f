-- ===== src/Filenames.antt =====
-- `SanitizeFilename` of pkg/utils/sanitize.go, on the bytes of a name.
pub mod Safety
use doc_scraper.Prelude.{
  ℕ, Bool, true, false, ◌&&◌, ◌||◌, List, [], ◌∷◌, map, length, take, ltb, ◌==◌, if◌then◌else◌,
}
use doc_scraper.Prelude.Text.{Bytes}

-- `invalidFilenameChars`: below a space, or one of < > : " / \ | ? *.
unfoldable pub is_invalid : ℕ → Bool
is_invalid c =
    ltb c 32
    || c == 60
    || c == 62
    || c == 58
    || c == 34
    || c == 47
    || c == 92
    || c == 124
    || c == 63
    || c == 42

abbrev pub max_filename_length : ℕ
max_filename_length = 100

-- 95 is the underscore.
unfoldable pub replaced : ℕ → ℕ
unfolding is_invalid
replaced c = if is_invalid c then 95 else c

unfoldable pub starts_with_underscore : Bytes → Bool
starts_with_underscore [] = false
starts_with_underscore (c ∷ s) = c == 95

-- `consecutiveUnderscores` replaced by one.
unfoldable pub collapse : Bytes → Bytes
unfolding starts_with_underscore
collapse [] = []
collapse (c ∷ s) =
    let rest = collapse s in if c == 95 && starts_with_underscore rest then rest else c ∷ rest

module _ (cut : ℕ → Bool) where
  unfoldable pub trim_left : Bytes → Bytes
  trim_left [] = []
  trim_left (c ∷ s) = if cut c then trim_left s else c ∷ s

  -- A byte that is cut goes where nothing is left behind it.
  unfoldable pub put_front : ℕ → Bytes → Bytes
  put_front c [] = if cut c then [] else c ∷ []
  put_front c (d ∷ s) = c ∷ d ∷ s

  unfoldable pub trim_right : Bytes → Bytes
  unfolding put_front
  trim_right [] = []
  trim_right (c ∷ s) = put_front c (trim_right s)

  -- `strings.Trim`
  unfoldable pub trim : Bytes → Bytes
  unfolding trim_left trim_right
  trim s = trim_right (trim_left s)

-- The cut sets `_ ` and `.`.
unfoldable pub is_filler : ℕ → Bool
is_filler c = c == 95 || c == 32

unfoldable pub is_dot : ℕ → Bool
is_dot c = c == 46

-- "untitled"
abbrev pub untitled : Bytes
untitled = b'u' ∷ b'n' ∷ b't' ∷ b'i' ∷ b't' ∷ b'l' ∷ b'e' ∷ b'd' ∷ []

unfoldable pub shortened : Bytes → Bytes
unfolding trim is_filler
shortened s =
    if ltb max_filename_length (length s) then trim is_filler (take max_filename_length s) else s

unfoldable pub or_untitled : Bytes → Bytes → Bytes
or_untitled [] s = untitled
or_untitled (c ∷ rest) s = s

-- `SanitizeFilename`. A name without a byte is one of dots alone.
unfoldable pub sanitize_filename : Bytes → Bytes
unfolding replaced collapse trim is_filler is_dot shortened or_untitled
sanitize_filename name =
    let s = shortened (trim is_filler (collapse (map replaced name))) in
    or_untitled (trim is_dot s) s
