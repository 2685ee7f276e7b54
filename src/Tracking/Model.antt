-- ===== src/Tracking/Model.antt =====
-- services/tracking-service/internal/model/status_history.go
use trackflow.Prelude.{ℕ, Option}
use trackflow.Text.{Text}

-- An instant; 0 is Go's zero time.
abbrev pub Time : Type 0
Time = ℕ

-- `metadata` is the JSON text, and empty for nil.
pub record StatusHistoryItem : Type 0 where
  pub id : Text
  pub order_id : Text
  pub status : Text
  pub source : Text
  pub comment : Option Text
  pub metadata : Text
  pub created_at : Time

pub record UpdateStatusInput : Type 0 where
  pub status : Text
  pub source : Text
  pub comment : Text
  pub metadata : Text
