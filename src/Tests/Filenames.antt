-- ===== src/Tests/Filenames.antt =====
-- A hostile name.
use doc_scraper.Prelude.{[], ◌∷◌}
use doc_scraper.Filenames.{sanitize_filename}
use doc_scraper.Filenames.Safety.{IsSafe, sanitize_filename-IsSafe}

-- "../..", which becomes ".._.."
sanitize_filename-IsSafe_example :
    IsSafe (sanitize_filename (b'.' ∷ b'.' ∷ b'/' ∷ b'.' ∷ b'.' ∷ []))
sanitize_filename-IsSafe_example = sanitize_filename-IsSafe (b'.' ∷ b'.' ∷ b'/' ∷ b'.' ∷ b'.' ∷ [])
