-- ===== src/Database.antt =====
-- The PostgreSQL tables of migrations/postgres/000001_schema_v1.up.sql, a session of
-- database/sql with them, and transactions. What the server decides itself (which texts are
-- UUIDs or JSON, how it rounds, which ids it draws) is the parameter `Postgres`. A fault is an error that any call
-- may return for a reason outside the tables; the k-th call of a session takes the k-th entry of
-- `faults`.
pub mod Orders
pub mod Statements
pub mod Transactions
use trackflow.Prelude.{
  ℤ, Float, ℕ, suc, Bool, List, [], ◌∷◌, Option, none, some, Result, ok, err, if◌then◌else◌, leb,
  true, false, ◌==◌, ◌&&◌,
}
use trackflow.Prelude.Action.{Action}
use trackflow.Text.{Text, text, text_eq, contains}
use trackflow.Prelude.{ℤ, Float}

pub record Postgres : Type 0 where
  -- `$1::uuid`, in canonical form.
  pub parse_uuid : Text → Option Text
  -- `$1::jsonb`, as the server prints it.
  pub parse_json : Text → Option Text
  -- The assignment of a float64 to a column NUMERIC(precision, scale), in units of its last digit;
  -- none where it overflows.
  pub to_numeric : (precision scale : ℕ) → Float → Option ℤ
  -- gen_random_uuid(): the k-th id that is drawn.
  pub new_id : ℕ → Text

pub record AddressRow : Type 0 where
  pub id : Text
  pub city : Text
  pub street : Text
  pub house : Text
  pub apartment : Option Text
  pub lat : ℤ
  pub lng : ℤ

pub record OrderRow : Type 0 where
  pub id : Text
  pub customer_id : Text
  pub pickup_address_id : Text
  pub dropoff_address_id : Text
  pub weight_kg : ℤ
  pub distance_km : ℤ
  pub service_level : Text
  pub status : Text
  pub idempotency_key : Text
  pub last_status_at : ℕ
  pub created_at : ℕ
  pub updated_at : ℕ

pub record CourierRow : Type 0 where
  pub id : Text
  pub is_active : Bool

pub record AssignmentRow : Type 0 where
  pub id : Text
  pub order_id : Text
  pub courier_id : Text
  pub assigned_at : ℕ
  pub assigned_by : Option Text
  pub comment : Option Text

pub record HistoryRow : Type 0 where
  pub id : Text
  pub order_id : Text
  pub status : Text
  pub source : Text
  pub comment : Option Text
  pub metadata : Option Text
  pub created_at : ℕ

-- A new row stands last in its table.
pub record Database : Type 0 where
  pub addresses : List AddressRow
  pub orders : List OrderRow
  pub couriers : List CourierRow
  pub assignments : List AssignmentRow
  pub history : List HistoryRow

-- What the server or the driver reports, with the constraint where one is violated. Where a call is
-- unacknowledged, the connection was lost or a deadline has passed after the server had acted on it.
pub data Fault : Type 0 where
  failed : Text → Fault
  server : (code constraint what : Text) → Fault
  unacknowledged : Text → Fault

-- sql.ErrNoRows, or another error.
pub data DriverError : Type 0 where
  no_rows : DriverError
  fault : Fault → DriverError

pub record Session : Type 0 where
  pub database : Database
  pub faults : List (Option Fault)
  pub now : ℕ
  pub drawn : ℕ

abbrev pub Statement : Type 0 → Type 0
Statement A = Action Session DriverError A

-- The error that the next call meets, and the session behind that call.
next_fault : List (Option Fault) → Option Fault
next_fault [] = none
next_fault (f ∷ fs) = f

later_faults : List (Option Fault) → List (Option Fault)
later_faults [] = []
later_faults (f ∷ fs) = fs

abbrev unless_fault : {A : Type 0} → Option Fault → Statement A → Statement A
unless_fault none statement s = statement s
unless_fault (some f) statement s = (err (fault f), s)

-- The session behind a call, as the call's statement finds it.
unfoldable pub behind : Session → Session
unfolding later_faults
behind s = record s { faults = later_faults s.faults }

-- A call of the driver.
unfoldable pub execute : {A : Type 0} → Statement A → Statement A
unfolding next_fault behind
execute statement s = unless_fault (next_fault s.faults) statement (behind s)

unfoldable pub find_order : Text → List OrderRow → Option OrderRow
find_order id [] = none
find_order id (row ∷ rows) = if text_eq row.id id then some row else find_order id rows

-- UPDATE orders SET … WHERE id = ….
unfoldable pub update_order : Text → (OrderRow → OrderRow) → List OrderRow → List OrderRow
update_order id change [] = []
update_order id change (row ∷ rows) =
    (if text_eq row.id id then change row else row) ∷ update_order id change rows

-- The error of a cast, SQLSTATE 22P02.
unfoldable pub bad_cast : Text → DriverError
bad_cast what = fault (server (text "22P02") [] what)

-- NULLIF(…, '').
abbrev pub null_if_empty : Text → Option Text
null_if_empty [] = none
null_if_empty (c ∷ s) = some (c ∷ s)

-- `$1::uuid`.
unfoldable pub cast_uuid : Postgres → Text → Statement Text
unfolding bad_cast
cast_uuid pg value s = elim (pg.parse_uuid value) [
  | none ↦ (err (bad_cast (text "invalid input syntax for type uuid")), s)
  | some id ↦ (ok id, s)
]

-- `btrim(…) = ''`.
unfoldable pub is_blank : Text → Bool
is_blank [] = true
is_blank (c ∷ s) = c == b' ' && is_blank s

unfoldable pub is_blank_option : Option Text → Bool
is_blank_option none = false
is_blank_option (some s) = is_blank s

-- A check constraint that is violated, SQLSTATE 23514.
unfoldable pub check : Bool → Text → Statement (Unit {0})
check true constraint s = (ok tt, s)
check false constraint s =
    (err (fault (server (text "23514") constraint (text "check constraint violated"))), s)

-- `last_status_at >= created_at`, where last_status_at becomes NOW().
unfoldable pub not_before_created : Option OrderRow → ℕ → Bool
not_before_created none now = true
not_before_created (some row) now = leb row.created_at now

-- gen_random_uuid().
unfoldable pub draw_id : Postgres → Statement Text
draw_id pg s = (ok (pg.new_id s.drawn), record s { drawn = suc s.drawn })

-- The labels of order_status_t, status_source_t and service_level_t.
abbrev pub order_statuses : List Text
order_statuses =
    text "created" ∷ text "assigned" ∷ text "in_transit" ∷ text "delivered" ∷ text "cancelled" ∷ []

abbrev pub status_sources : List Text
status_sources = text "system" ∷ text "courier" ∷ text "manager" ∷ text "carrier_sync" ∷ []

abbrev pub service_levels : List Text
service_levels = text "standard" ∷ text "express" ∷ []

-- `$2::order_status_t` and the like.
unfoldable pub cast_enum : List Text → Text → Statement Text
cast_enum labels value s =
    if contains labels value
    then (ok value, s)
    else (err (bad_cast (text "invalid input value for enum")), s)
