-- ===== src/Tests/OkxTests.antt =====
-- The theorems on the client of OKX, at one order and its answers.
use keen_trader.Base.{◌++◌, ◌≡◌, refl, ◌+◌, true, false, none, [], ◌∷◌}
use keen_trader.Base.Int.{pos}
use keen_trader.Base.Text.{AString, codes, str_eq}
use keen_trader.Base.Map.{insert, lookup, member}
use keen_trader.Base.Decimal.{decimal, int_text}
use keen_trader.Objects.Constant.{Direction, Offset, Exchange, OrderType, Product, OptionType}
use keen_trader.Objects.Market.{ContractData}
use keen_trader.Objects.Trading.{OrderRequest, CancelRequest}
use keen_trader.Oms.Engine.{OmsEvent}
use keen_trader.Exchanges.Received.{received}
use keen_trader.Exchanges.Okx.Names.{ordertype_kt2okx, side_of, direction_kt2okx}
use keen_trader.Exchanges.Okx.State.{OkxExchange, Env, order_packet, events_of}
use keen_trader.Exchanges.Okx.Client
use keen_trader.Exchanges.Okx.Client.{new_exchange}
use keen_trader.Exchanges.Okx.Send
use keen_trader.Exchanges.Okx.Private
use keen_trader.Exchanges.Okx.Account
use keen_trader.Exchanges.Okx.Orders.{
  submitted, IsPlaceable, IsRefusal, rejected, on_packet-send_order, IsAnswer,
  cancel_order-send_order,
}
use keen_trader.Exchanges.Okx.Updates.{on_orders_stops}
use keen_trader.Tests.Names.{names}
use keen_trader.Tests.Samples.{units}
use keen_trader.Tests.BinanceSamples.{floats}
use keen_trader.Tests.JsonSamples.{Value, text, arr, obj, items_of, fields_of, json}

abbrev env : Env
env = record {
  now = 17000;
  utc_text = λ t. codes "1970-01-01 00:00:17";
  local_text = λ t. codes "1970-01-01 08:00:17";
  hmac_base64 = λ secret msg. codes "c2ln";
  names = names;
  floats = floats;
  print10 = int_text;
  dump = λ id op args. id ++ op;
}

abbrev btc : AString
btc = codes "BTC-USDT-SWAP"

abbrev btc_contract : ContractData
btc_contract = record {
  symbol = btc;
  exchange = Exchange.okx;
  name = btc;
  inst_id_code = pos 10458;
  product = Product.swap;
  size = units 1;
  pricetick = units 1;
  min_volume = units 1;
  max_volume = pos 0;
  stop_supported = false;
  history_data = true;
  net_position = true;
  option_strike = pos 0;
  option_underlying = [];
  option_type = OptionType.none;
  option_listed = 0;
  option_expiry = 0;
  option_portfolio = [];
  option_index = [];
  exchange_name = codes "OKX";
  kt_symbol = codes "BTC-USDT-SWAP.OKX";
}

-- A client that knows one contract.
abbrev client : OkxExchange
client = record new_exchange {
  symbol_contract_map = (btc, btc_contract) ∷ [];
  name_contract_map = (btc, btc_contract) ∷ [];
}

abbrev sell : OrderRequest
sell = record {
  symbol = btc;
  exchange = Exchange.okx;
  direction = Direction.short;
  type = OrderType.limit;
  volume = units 2;
  price = units 30;
  offset = Offset.open_position;
  reference = [];
  exchange_name = codes "OKX";
  kt_symbol = codes "BTC-USDT-SWAP.OKX";
}

sell-IsPlaceable : IsPlaceable sell btc_contract client
unfolding ordertype_kt2okx Client.get_contract_by_symbol lookup str_eq side_of direction_kt2okx
sell-IsPlaceable = record {
  type = codes "limit";
  typed = refl;
  known = refl;
  named = refl;
  sided = refl;
}

-- The result for an order that the exchange has refused.
abbrev refusal : AString → Value
refusal orderid = obj (
    fields_of (
      (codes "clOrdId", text orderid)
      ∷ (codes "sCode", text (codes "51008"))
      ∷ (codes "sMsg", text (codes "Insufficient balance"))
      ∷ []))

refusal-IsRefusal : (orderid : AString) → IsRefusal json orderid (refusal orderid)
unfolding str_eq
refusal-IsRefusal orderid = record {
  code = codes "51008";
  coded = refl;
  failed = refl;
  same = refl;
  msg = codes "Insufficient balance";
  told = refl;
}

-- The answer of the exchange with that result.
abbrev answer : AString → Value
answer orderid = obj (
    fields_of (
      (codes "code", text (codes "0"))
      ∷ (codes "data", arr (items_of (refusal orderid ∷ [])))
      ∷ (codes "id", text (codes "1"))
      ∷ (codes "op", text (codes "order"))
      ∷ []))

answer-IsAnswer : (orderid : AString) → IsAnswer json (answer orderid) (refusal orderid)
unfolding str_eq
answer-IsAnswer orderid = record {
  no_event = refl;
  has_op = refl;
  op_text = refl;
  op = refl;
  has_code = refl;
  code = refl;
  has_data = refl;
  data_array = refl;
  results = refl;
}

on_packet-send_order_example :
    let o = submitted env sell client in
    let y = (Send.send_order env sell client).1 in
    let (r, z, os) = Private.on_packet env json (answer o.orderid) y in
    (z ≡ record y { orders = insert o.orderid (rejected o) y.orders })
    × (received (events_of os) ≡ OmsEvent.order (rejected o) ∷ [])
on_packet-send_order_example =
    let id = (submitted env sell client).orderid in
    on_packet-send_order env json sell btc_contract client (answer id) (refusal id) sell-IsPlaceable
      (answer-IsAnswer id) (refusal-IsRefusal id)

abbrev cancel_sell : CancelRequest
cancel_sell = record {
  orderid = (submitted env sell client).orderid;
  symbol = btc;
  exchange = Exchange.okx;
  kt_symbol = codes "BTC-USDT-SWAP.OKX";
}

not_local : member (submitted env sell client).orderid client.local_orderids ≡ false
unfolding member new_exchange
not_local = refl

cancel_order-send_order_example :
    let o = submitted env sell client in
    let y = (Send.send_order env sell client).1 in
    let args = insert (codes "ordId") o.orderid (Send.with_contract btc_contract []) in
    let id = decimal (client.private_api.reqid + 1 + 1) in
    ((Send.cancel_order cancel_sell y).2 ≡ order_packet id (codes "cancel-order") args ∷ [])
    × (lookup (codes "clOrdId") args ≡ none)
cancel_order-send_order_example =
    cancel_order-send_order env sell btc_contract client cancel_sell sell-IsPlaceable refl refl
      not_local

-- An update without a fill, and one with.
abbrev update : AString → Value
update filled = obj (
    fields_of (
      (codes "instId", text btc)
      ∷ (codes "ordId", text (codes "312"))
      ∷ (codes "ordType", text (codes "limit"))
      ∷ (codes "side", text (codes "sell"))
      ∷ (codes "px", text (codes "30"))
      ∷ (codes "sz", text (codes "2"))
      ∷ (codes "accFillSz", text filled)
      ∷ (codes "state", text (codes "live"))
      ∷ (codes "cTime", text (codes "1"))
      ∷ (codes "fillSz", text filled)
      ∷ []))

on_orders_stops_example :
    Account.on_orders env json (update (codes "0") ∷ update (codes "1") ∷ []) client
    ≡ Account.on_orders env json (update (codes "0") ∷ []) client
unfolding str_eq
on_orders_stops_example =
    on_orders_stops env json (update (codes "0")) (text (codes "0")) (update (codes "1") ∷ [])
      client refl refl
