-- ===== src/Tests/Order.antt =====
-- order-service at one creation and one assignment.
use trackflow.Prelude.{
  ◌≡◌, Option, Result, if◌then◌else◌, [], ◌∷◌, none, some, ok, err, refl, pos, true, if◌then◌else◌,
}
use trackflow.Text.{Text, text, text_eq}
use trackflow.Text.Laws.{text_eq_refl}
use trackflow.Database.{Postgres, Session}
use trackflow.Tracking.Handler.{value, eof}
use trackflow.Tracking.Cache.{RedisClient, RedisError, nil, delete_order, with_client}
use trackflow.Order.Model.{Order, AddressInput, CreateOrderInput, AssignOrderInput}
use trackflow.Order.Repository.{OrderRepository, create_order, assign_order}
use trackflow.Order.Repository.Creation.{Created, create_order-Created}
use trackflow.Order.Repository.Assignment.{Assigned, assign_order-Assigned}
use trackflow.Order.Cache.{OrderJson, get_order_by_id, set_order}
use trackflow.Order.Cache.Roundtrip.{KeepsValues, set_order-get_order_by_id}
use trackflow.Order.Handler.{Request}
use trackflow.Tests.Orders.{order_id, session_of}

-- A server that takes every text for an id, every number and every JSON text.
abbrev pub server : Postgres
server = record {
  parse_uuid = λ v. some v;
  parse_json = λ v. some v;
  to_numeric = λ precision scale x. some (pos 5);
  new_id = λ n. n ∷ [];
}

abbrev pub orders : OrderRepository
orders = record { has_db = true }

abbrev pub address : Text → AddressInput
address street = record {
  city = text "Riga";
  street = street;
  house = text "1";
  apartment = [];
  lat = pos 0;
  lng = pos 0;
}

abbrev pub order_input : CreateOrderInput
order_input = record {
  customer_id = order_id;
  pickup_address = address (text "A");
  dropoff_address = address (text "B ");
  weight_kg = pos 1;
  distance_km = pos 0;
  service_level = text "";
}

abbrev assignment : AssignOrderInput
assignment = record { courier_id = text "c7"; assigned_by = text "Ann"; comment = [] }

-- The order stands at created, and its courier is there.
abbrev pub waiting : Session
waiting =
    let s = session_of (text "created") in
    record s {
      database = record (s.database) {
        couriers = record { id = text "c7"; is_active = true } ∷ [];
      };
    }

create_order-Created_example :
    Created server order_input
      (text "k2")
      waiting
      (create_order server orders order_input (text "k2") waiting)
create_order-Created_example = create_order-Created server order_input (text "k2") orders waiting

assign_order-Assigned_example :
    Assigned server order_id assignment waiting
      (assign_order server orders order_id assignment waiting)
assign_order-Assigned_example = assign_order-Assigned server order_id assignment orders waiting

-- A store with one place, which the last call filled or emptied.
abbrev read_place : Text → Option (Text × Text) → Result RedisError Text
read_place key none = err nil
read_place key (some (k, v)) = if text_eq k key then ok v else err nil

abbrev pub store : RedisClient (Option (Text × Text))
store = record {
  read = λ key st. (read_place key st, st);
  write = λ key payload ttl st. (ok tt, some (key, payload));
  delete = λ key st. (ok tt, none);
}

abbrev order : Order
order = record {
  id = order_id;
  customer_id = text "c";
  status = text "created";
  created_at = 1;
  updated_at = 1;
}

abbrev pub json : OrderJson
json = record { marshal = λ o. o.id; unmarshal = λ payload. some (record order { id = payload }) }

store-KeepsValues : KeepsValues store
store-KeepsValues = record {
  written = λ key payload ttl st h. rw (text_eq_refl key) refl;
  deleted = λ key st h. refl;
}

stored : (set_order json (some store) order (pos 5) none).0 ≡ ok tt
unfolding set_order with_client
stored = refl

removed : (delete_order (some store) order_id none).0 ≡ ok tt
unfolding delete_order with_client
removed = refl

set_order-get_order_by_id_example :
    ((get_order_by_id json
        (some store)
        order_id
        (set_order json (some store) order (pos 5) none).1).0
      ≡ ok (some order))
    × ((get_order_by_id json (some store) order_id (delete_order (some store) order_id none).1).0
        ≡ ok none)
set_order-get_order_by_id_example =
    set_order-get_order_by_id json store store-KeepsValues order (pos 5) none none refl refl stored
      removed

abbrev pub request : Request
request = record {
  method = text "POST";
  path_id = [];
  limit = [];
  idempotency_key = text " k2";
  create_body = record { first = value order_input; next = eof };
  assign_body = record { first = eof; next = eof };
}
