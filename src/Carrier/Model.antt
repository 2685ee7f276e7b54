-- ===== src/Carrier/Model.antt =====
-- services/carrier-sync-service/internal/model.
use trackflow.Prelude.{ℕ}
use trackflow.Text.{Text}

-- An instant is a number of nanoseconds, and 0 is Go's zero time.
pub record StatusUpdate : Type 0 where
  pub order_id : Text
  pub external_status : Text
  pub updated_at : ℕ
