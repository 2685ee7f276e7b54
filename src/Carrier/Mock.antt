-- ===== src/Carrier/Mock.antt =====
-- services/carrier-sync-service/internal/client/mock.go, and buildCarrierClientFromEnv of
-- cmd/server/main.go. The state is the cursor, which the lock guards, beside the rest `X`; the
-- context and the clock are parameters. The cursor, an int, is taken not to wrap. An instant is a number of nanoseconds, at least two
-- minutes. The quoting of %q leaves a text as it is.
pub mod Accepted
use trackflow.Prelude.{
  ℕ, zero, suc, ◌-◌, ◌*◌, ◌%◌, List, [], ◌∷◌, ◌++◌, Option, none, some, Result, ok, err, ltb, ◌==◌,
  if◌then◌else◌,
}
use trackflow.Prelude.Action.{Action}
use trackflow.Text.{Text, text, text_eq, trim_space, to_lower}
use trackflow.Environment.{Environment, get_env}
use trackflow.Carrier.Model.{StatusUpdate}
use trackflow.Carrier.Service.{CarrierClient}

abbrev pub mock_order_ids : List Text
mock_order_ids =
    text "e1111111-1111-1111-1111-111111111111"
    ∷ text "e2222222-2222-2222-2222-222222222222"
    ∷ text "e3333333-3333-3333-3333-333333333333"
    ∷ text "e4444444-4444-4444-4444-444444444444"
    ∷ text "e5555555-5555-5555-5555-555555555555"
    ∷ []

abbrev pub mock_statuses : List Text
mock_statuses = text "created" ∷ text "assigned" ∷ text "in_transit" ∷ text "delivered" ∷ []

-- Indexing; the indices below are within bounds.
unfoldable pub item_at : List Text → ℕ → Text
item_at [] n = []
item_at (item ∷ items) zero = item
item_at (item ∷ items) (suc n) = item_at items n

pub record Surroundings (X : Type 0) : Type 0 where
  pub cancelled : X → Option Text
  pub now : X → ℕ × X

unfoldable pub clamped : ℕ → ℕ
clamped limit = if limit == 0 then 1 else if ltb 20 limit then 20 else limit

-- The update at a cursor.
unfoldable pub mock_update : ℕ → ℕ → StatusUpdate
unfolding item_at
mock_update now cursor = record {
  order_id = item_at mock_order_ids (cursor % 5);
  external_status = item_at mock_statuses (cursor % 4);
  updated_at = now - cursor % 120 * 1_000_000_000;
}

-- The loop, with the rounds that are left.
unfoldable pub mock_updates : ℕ → ℕ → ℕ → List StatusUpdate × ℕ
unfolding mock_update
mock_updates now cursor zero = ([], cursor)
mock_updates now cursor (suc rounds) =
    let (updates, after) = mock_updates now (suc cursor) rounds in
    (mock_update now cursor ∷ updates, after)

module _ {X : Type 0} (around : Surroundings X) where
  unfoldable pub fetch_status_updates : ℕ → Action (ℕ × X) Text (List StatusUpdate)
  unfolding mock_updates clamped
  fetch_status_updates limit (cursor, x) = elim (around.cancelled x) [
    | some e ↦ (err e, (cursor, x))
    | none ↦
        let (now, later) = around.now x in
        let (updates, after) = mock_updates now cursor (clamped limit) in
        (ok updates, (after, later))
  ]

  unfoldable pub mock_client : CarrierClient (ℕ × X)
  unfolding fetch_status_updates
  mock_client = record { fetch_status_updates = fetch_status_updates }

  unfoldable pub build_carrier_client_from_env : Environment → Result Text (CarrierClient (ℕ × X))
  unfolding mock_client get_env
  build_carrier_client_from_env getenv =
      let mode =
        to_lower (trim_space (get_env getenv (text "CARRIER_CLIENT_MODE") (text "mock"))) in
      if text_eq mode (text "mock")
      then ok mock_client
      else err
          (text "unsupported CARRIER_CLIENT_MODE=\"" ++ (mode ++ text "\", only mock is supported"))
