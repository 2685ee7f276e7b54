-- ===== src/Tests/Orders.antt =====
-- An order, its tables, and a tracking service beside them.
use trackflow.Prelude.{ℕ, suc, [], ◌∷◌, none, some, ok, err, pos, if◌then◌else◌, true}
use trackflow.Text.{Text, text, to_lower}
use trackflow.Text.Uuid.{is_uuid}
use trackflow.Database.{Postgres, OrderRow, Session}
use trackflow.Tracking.Error.{external}
use trackflow.Tracking.Model.{UpdateStatusInput}
use trackflow.Tracking.Service.{Notifier, TrackingService}
use trackflow.Tracking.Repository.{TrackingRepository}
use trackflow.Tracking.Handler.{Request, value, eof}
use trackflow.Tracking.Cache.{RedisClient, TimelineJson, nil}
use trackflow.Tracking.Wiring.{wire}

abbrev pub order_id : Text
order_id = text "11111111-1111-4111-8111-111111111111"

-- A server that reads every UUID and every JSON text.
abbrev pub pg : Postgres
pg = record {
  parse_uuid = λ v. if is_uuid v then some (to_lower v) else none;
  parse_json = λ v. some v;
  to_numeric = λ precision scale x. some x;
  new_id = λ n. n ∷ [];
}

abbrev pub order_in : Text → OrderRow
order_in status = record {
  id = order_id;
  customer_id = text "c";
  pickup_address_id = text "p";
  dropoff_address_id = text "d";
  weight_kg = pos 100;
  distance_km = pos 0;
  service_level = text "standard";
  status = status;
  idempotency_key = text "k";
  last_status_at = 1;
  created_at = 1;
  updated_at = 1;
}

abbrev pub session_of : Text → Session
session_of status = record {
  database = record {
    addresses = [];
    orders = order_in status ∷ [];
    couriers = [];
    assignments = [];
    history = [];
  };
  faults = [];
  now = 100;
  drawn = 7;
}

abbrev pub assigned : Session
assigned = session_of (text "assigned")

abbrev pub delivered : Session
delivered = session_of (text "delivered")

abbrev pub repo : TrackingRepository
repo = record { has_db = true }

-- The rest of the state counts the calls of Redis and of the notification service.
abbrev pub redis : RedisClient ℕ
redis = record {
  read = λ key n. (err nil, suc n);
  write = λ key payload ttl n. (ok tt, suc n);
  delete = λ key n. (ok tt, suc n);
}

abbrev pub json : TimelineJson
json = record { marshal = λ items. []; unmarshal = λ payload. none }

abbrev pub notifier : Notifier ℕ
notifier = record { notify_status_changed = λ item n. (err (external (text "refused")), suc n) }

abbrev pub input : UpdateStatusInput
input = record {
  status = text " In_Transit";
  source = text "courier";
  comment = text "on the way ";
  metadata = [];
}

abbrev pub request : Request
request = record {
  method = text "POST";
  path_order_id = order_id;
  path_id = [];
  limit = [];
  body = record { first = value input; next = eof };
}

abbrev pub service : TrackingService (Session × ℕ)
service = wire pg repo notifier json (pos 5) (some redis)
