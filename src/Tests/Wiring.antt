-- ===== src/Tests/Wiring.antt =====
-- A creation through order-service, a status update through tracking-service, and both through the
-- gateway in front of them.
use trackflow.Prelude.{[], none, some, pos, refl, true, false, Option, ℕ}
use trackflow.Text.{Text}
use trackflow.Database.{Session}
use trackflow.Order.Service.{OrderService}
use trackflow.Order.Wiring.{wire}
use trackflow.Gateway.Proxy.{GatewayProxy, orders_collection, update_order_status, upstream_request}
use trackflow.System.Passage.{Network, answer_lost, remote}
use trackflow.System.Passage.Creation.{
  Wire, Settled, order_server, received, orders_collection-Settled,
}
use trackflow.System.Passage.Moving as Moving
use trackflow.System.Passage.Moving.{update_order_status-Settled}
use trackflow.Gateway.Validation.{json_object}
use trackflow.Tests.Orders as Orders
use trackflow.Tests.Order as OrderTests
use trackflow.Tests.Order.{server, orders, json, store, waiting}
use trackflow.Tests.Gateway as GatewayTests
use trackflow.Tests.Gateway.{formats, service_url, posted}

abbrev service : OrderService (Session × Option (Text × Text))
service = wire json server orders (some store) (pos 5)

-- The body is decoded as the request of the tests, and the answer is lost.
abbrev wires : Wire
wires = record {
  read = λ request. OrderTests.request;
  header = λ response. [];
  encode = λ payload. [];
}

abbrev network : Network
network = record {
  prepares = λ method url. true;
  fate = λ request. answer_lost;
  loss = record {
    is_deadline_exceeded = true;
    is_net_timeout = false;
    context_deadline_exceeded = false;
  };
}

abbrev proxy : GatewayProxy (Session × Option (Text × Text))
proxy = record {
  client = some (remote network (order_server wires service));
  timeout = pos 0;
  order_base = some service_url;
  tracking_base = none;
}

orders_collection-Settled_example :
    let request = upstream_request formats proxy [] GatewayTests.request service_url in
    let (result, after) = orders_collection formats proxy [] GatewayTests.request (waiting, none) in
    Settled server network formats [] wires request
      (received wires request)
      waiting.database
      result
      after.0.database
orders_collection-Settled_example =
    orders_collection-Settled json server orders (some store) (pos 5) wires network formats proxy []
      GatewayTests.request service_url (waiting, none) refl refl posted

-- The status update of the tests, whose answer is lost.
abbrev tracking_wires : Moving.Wire
tracking_wires = record {
  read = λ request. Orders.request;
  header = λ response. [];
  encode = λ payload. [];
}

abbrev tracking_proxy : GatewayProxy (Session × ℕ)
tracking_proxy = record {
  client = some (remote network (Moving.status_server tracking_wires Orders.service));
  timeout = pos 0;
  order_base = none;
  tracking_base = some service_url;
}

update_order_status-Settled_example :
    let request =
      upstream_request formats tracking_proxy [] GatewayTests.update_request service_url in
    let (result, after) =
      update_order_status formats tracking_proxy []
        (λ metadata. json_object)
        GatewayTests.update_request
        (Orders.assigned, 0) in
    Moving.Settled Orders.pg network formats [] tracking_wires request Orders.assigned result
      after.0.database
update_order_status-Settled_example =
    update_order_status-Settled Orders.pg Orders.repo Orders.notifier Orders.json (pos 5)
      (some Orders.redis) tracking_wires network formats tracking_proxy [] (λ metadata. json_object)
      GatewayTests.update_request service_url (Orders.assigned, 0) refl refl
