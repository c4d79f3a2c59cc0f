-- ===== src/Store/Entries.antt =====
-- pkg/models/models.go and pkg/models/status.go: what the database holds of a page or an image. A time
-- is a number, and 0 is Go's zero time.
use Prim.Native.String.{String}
use doc_scraper.Prelude.{ℕ}
use doc_scraper.Prelude.Int.{ℤ}

-- `odd` is any further text that a database holds in place of a status.
pub data PageStatus : Type 0 where
  unset pending success failure not_found db_error : PageStatus
  odd : String → PageStatus

pub data ImageStatus : Type 0 where
  image_unset image_pending image_success image_failure image_skipped : ImageStatus
  image_not_found image_db_error : ImageStatus
  image_odd : String → ImageStatus

pub record WorkItem : Type 0 where
  pub url : String
  pub depth : ℤ

pub record PageDbEntry : Type 0 where
  pub status : PageStatus
  pub error_type : String
  pub processed_at : ℕ
  pub last_attempt : ℕ
  pub depth : ℤ
  pub content_hash : String

pub record ImageDbEntry : Type 0 where
  pub status : ImageStatus
  pub local_path : String
  pub caption : String
  pub error_type : String
  pub last_attempt : ℕ
