-- ===== src/Tests/BinanceTests.antt =====
-- The theorems on the client of Binance, at a client that knows one contract.
use keen_trader.Base.{
  ◌+◌, ◌%◌, ◌/◌, ◌≡◌, ◌≢◌, refl, sym, subst, true, false, none, some, List, [], ◌∷◌, map, arith,
}
use keen_trader.Base.Int.{pos}
use keen_trader.Base.Text.{AString, codes, str_eq, str_lt}
use keen_trader.Base.Decimal.{digits_from}
use keen_trader.Cta.Rounding.{round_to}
use keen_trader.Objects.Names.{create_order_data, order_post_init, contract_post_init}
use keen_trader.Base.Lists.{All}
use keen_trader.Base.Map.{Map, lookup, insert}
use keen_trader.Objects.Constant.{
  OrderType, Direction, Status, Offset, Exchange, fak, rfq, long, net,
}
use keen_trader.Objects.Trading.{OrderData}
use keen_trader.Oms.Engine.{OmsEvent, init, get_order}
use keen_trader.Oms.Engine
use keen_trader.Oms.Consistent.{init-IsConsistent}
use keen_trader.Exchanges.Base.{write_log}
use keen_trader.Exchanges.Base
use keen_trader.Exchanges.Received.{received}
use keen_trader.Exchanges.Binance.Names.{order_type_of, direction_of, status_of}
use keen_trader.Exchanges.Binance.State.{
  BinanceLinearExchange, Env, M, event, events_of, for_each, Output,
}
use keen_trader.Exchanges.Binance.State
use keen_trader.Exchanges.Binance.Linear.{new_exchange}
use keen_trader.Exchanges.Binance.Linear
use keen_trader.Exchanges.Binance.Trade
use keen_trader.Exchanges.Binance.Md
use keen_trader.Exchanges.Binance.User
use keen_trader.Exchanges.Binance.Rest
use keen_trader.Exchanges.Binance.Run.{
  Input, run, ids_of, subscribe, send_order, on_query_contract, md_connected,
}
use keen_trader.Exchanges.Binance.Distinct.{Distinct, ids-Distinct}
use keen_trader.Exchanges.Binance.Rejects.{IsError, rejected, submitted, run_rejects}
use keen_trader.Exchanges.Binance.Reconnect.{run_never_resubscribes}
use keen_trader.Exchanges.Binance.Lost.{IsOneSided, on_order_loses_trade, on_account_one_sided}
use keen_trader.Exchanges.Binance.Readback.{on_order-place_params, Repeats, IsReadBack}
use keen_trader.Exchanges.Binance.Stream.{keeps, timers, timers_ask}
use keen_trader.Tests.Names.{names}
use keen_trader.Tests.Samples.{units}
use keen_trader.Tests.JsonSamples.{obj, num, fields_of, Value, json, text}
use keen_trader.Tests.BinanceSamples.{
  env, btc, btc_contract, client, buy_limit, btc_subscription, refusal, contracts, fill, balances,
  object,
}

-- Two orders, with a subscription between them.
abbrev two_orders : List (Env × Input Value)
two_orders =
    (env, send_order buy_limit)
    ∷ (env, subscribe btc_subscription)
    ∷ (env, send_order buy_limit)
    ∷ []

two_orders_ids :
    ids_of json two_orders client
    ≡ codes "BINANCE.2311142213201" ∷ codes "BINANCE.2311142213202" ∷ []
unfolding ids_of Trade.send_order Md.subscribe State.◌>>=◌ State.gets State.if_found State.modify
    State.pure State.skip State.emit State.emit_all State.or_throw Linear.on_order
    Linear.get_contract_by_symbol lookup insert str_eq str_lt round_to create_order_data
    order_post_init digits_from
two_orders_ids = refl

ids-Distinct_example : Distinct (ids_of json two_orders client)
ids-Distinct_example = ids-Distinct json two_orders client (refl, (refl, (refl, tt)))

sent : (Trade.send_order env buy_limit client).0 ≡ some (codes "BINANCE.2311142213201")
unfolding Trade.send_order State.◌>>=◌ State.gets State.if_found State.modify State.pure State.emit
    State.emit_all State.or_throw Linear.on_order Linear.get_contract_by_symbol lookup insert str_eq
    str_lt round_to create_order_data order_post_init digits_from
sent = refl

first_request : (Trade.send_order env buy_limit client).1.trade_api.reqid ≡ 1
unfolding Trade.send_order State.◌>>=◌ State.gets State.if_found State.modify State.pure State.emit
    State.emit_all State.or_throw Linear.on_order Linear.get_contract_by_symbol lookup insert str_eq
    str_lt round_to create_order_data order_post_init digits_from
first_request = refl

refusal-IsError : IsError json 1 refusal
unfolding str_eq
refusal-IsError = record {
  number = refl;
  failed = refl;
  code = pos 2019;
  code_read = refl;
  msg = codes "Margin";
  msg_read = refl;
}

known : Linear.get_contract_by_symbol client buy_limit.symbol ≡ some btc_contract
unfolding Linear.get_contract_by_symbol lookup str_eq
known = refl

-- A subscription comes between the order and its refusal.
abbrev between : List (Env × Input Value)
between = (env, subscribe btc_subscription) ∷ (env, md_connected) ∷ []

run_rejects_example :
    let o = rejected (submitted env buy_limit client) in
    let z = run json between (Trade.send_order env buy_limit client).1 in
    let (r, w, os) = Trade.on_packet json refusal z in
    let t = Engine.run names (received (events_of os)) init in
    (w ≡ record z { orders = insert o.orderid o z.orders })
    × (received (events_of os) ≡ OmsEvent.order o ∷ [])
    × (get_order t o.kt_orderid ≡ some o)
    × (lookup o.kt_orderid t.active_orders ≡ none)
run_rejects_example =
    run_rejects json env buy_limit btc_contract client (codes "BINANCE.2311142213201") between
      refusal names init known sent
      (subst (λ n. IsError json n refusal) (sym first_request) refusal-IsError) init-IsConsistent

-- A new client that reads the contracts and subscribes to one.
abbrev subscribed : List (Env × Input Value)
subscribed = (env, on_query_contract contracts) ∷ (env, subscribe btc_subscription) ∷ []

subscribed_test :
    (run json subscribed (new_exchange true)).md_api.subscribed ≡ (btc, btc_subscription) ∷ []
unfolding run Md.subscribe Rest.on_query_contract State.for_each Linear.on_contract
    Linear.new_exchange State.◌>>=◌ State.gets State.if_found State.modify State.pure State.emit
    State.emit_all State.or_throw State.skip State.log Linear.get_contract_by_symbol lookup insert
    str_eq str_lt contract_post_init
subscribed_test = refl

run_never_resubscribes_example :
    let x = run json subscribed (new_exchange true) in
    Md.on_connected env x
    ≡ (some tt, x, map event (write_log x.base.exchange_name (codes "MD API connected")))
run_never_resubscribes_example = run_never_resubscribes json env subscribed true

abbrev sent_params : Map AString
sent_params =
    (codes "apiKey", [])
    ∷ (codes "newClientOrderId", codes "7")
    ∷ (codes "positionSide", codes "LONG")
    ∷ (codes "price", codes "3000")
    ∷ (codes "quantity", codes "200")
    ∷ (codes "side", codes "BUY")
    ∷ (codes "symbol", codes "BTCUSDT")
    ∷ (codes "timeInForce", codes "IOC")
    ∷ (codes "type", codes "LIMIT")
    ∷ []

placed : (Trade.place_params env buy_limit btc_contract (codes "7") client).0 ≡ some sent_params
unfolding Trade.place_params State.◌>>=◌ State.gets State.or_throw lookup insert str_eq str_lt
    round_to digits_from
placed = refl

fak-ne-rfq : fak ≢ rfq
fak-ne-rfq e = cc

long-ne-net : long ≢ net
long-ne-net e = cc

-- An update that repeats these, partly filled.
abbrev repeated : Value
repeated = obj (
    fields_of (
      (codes "E", num (pos 1700000000456))
      ∷ (
        codes "o",
        obj (
            fields_of (
              (codes "c", text (codes "7"))
              ∷ (codes "s", text (codes "BTCUSDT"))
              ∷ (codes "S", text (codes "BUY"))
              ∷ (codes "o", text (codes "LIMIT"))
              ∷ (codes "f", text (codes "IOC"))
              ∷ (codes "X", text (codes "PARTIALLY_FILLED"))
              ∷ [])),
      )
      ∷ []))

repeated-Repeats : Repeats env json sent_params repeated
unfolding lookup str_eq
repeated-Repeats = record {
  has_order = refl;
  id = refl;
  symbol = refl;
  side = refl;
  type = refl;
  tif = refl;
  status = codes "PARTIALLY_FILLED";
  status_read = refl;
  time = pos 1700000000456;
  time_read = refl;
}

named : Linear.get_contract_by_name client btc_contract.name ≡ some btc_contract
unfolding Linear.get_contract_by_name lookup str_eq
named = refl

on_order-place_params_example :
    IsReadBack env json buy_limit btc_contract
      (codes "7")
      (User.on_order env json repeated client).1
on_order-place_params_example =
    on_order-place_params env json buy_limit btc_contract (codes "7") client client sent_params
      repeated fak-ne-rfq long-ne-net placed repeated-Repeats named

-- A client with a stream that has been kept 599 times.
abbrev streaming : BinanceLinearExchange
streaming = record client {
  rest_api = record client.rest_api { user_stream_key = codes "key"; keep_alive_count = 599 };
}

timers_ask_example :
    let (r, y, os) = timers 1800 streaming in
    (r ≡ some tt)
    × (y.rest_api.keep_alive_count ≡ (599 + 1800) % 600)
    × (os ≡ keeps (codes "key") ((599 + 1800) / 600))
timers_ask_example = timers_ask 1800 streaming refl (omega arith)

abbrev filled : OrderData
filled = record {
  symbol = btc;
  exchange = Exchange.binance;
  orderid = codes "2311142213201";
  type = OrderType.fak;
  direction = Direction.long;
  offset = Offset.none;
  price = units 30;
  volume = units 2;
  traded = units 2;
  status = Status.all_traded;
  datetime = env.now;
  reference = [];
  exchange_name = codes "BINANCE";
  kt_symbol = codes "BTCUSDT_SWAP.BINANCE";
  kt_orderid = codes "BINANCE.2311142213201";
}

fill_read :
    (User.order_of env json fill
      (json.at fill (codes "o"))
      (order_type_of (codes "LIMIT") (codes "IOC"))
      btc_contract
      client).0
    ≡ some filled
unfolding User.order_of State.◌>>=◌ State.gets State.pure State.or_throw order_type_of direction_of
    status_of lookup str_eq order_post_init
fill_read = refl

abbrev fill_order : Value
fill_order = json.at fill (codes "o")

fill_fields :
    (json.contains fill (codes "o") ≡ true)
    × (json.value_text fill_order (codes "o") [] ≡ some (codes "LIMIT"))
    × (json.value_text fill_order (codes "f") (codes "GTC") ≡ some (codes "IOC"))
    × (json.value_text fill_order (codes "s") [] ≡ some (codes "BTCUSDT"))
    × (json.contains fill_order (codes "t") ≡ true)
    × (json.is_string (json.at fill_order (codes "t")) ≡ false)
unfolding str_eq
fill_fields = (refl, refl, refl, refl, refl, refl)

on_order_loses_trade_example :
    let (r, y, os) = User.on_order env json fill client in
    (y ≡ record client { orders = insert filled.orderid filled client.orders })
    × (os ≡ map event (Base.on_order filled))
on_order_loses_trade_example =
    on_order_loses_trade env json fill (codes "LIMIT") (codes "IOC") (codes "BTCUSDT") btc_contract
      filled client fill_fields.0 fill_fields.1 fill_fields.2 fill_fields.3 named fill_read
      fill_fields.4 fill_fields.5

abbrev account : Value
account = json.at balances (codes "a")

abbrev balance : Value
balance = object ((codes "a", text (codes "USDT")) ∷ (codes "wb", text (codes "122.5")) ∷ [])

account_fields :
    (json.contains balances (codes "a") ≡ true)
    × (User.array_at env json account (codes "B") ≡ balance ∷ [])
    × (json.value_text balance (codes "a") [] ≡ some (codes "USDT"))
    × (json.contains balance (codes "wb") ≡ true)
    × (json.is_number (json.at balance (codes "wb")) ≡ false)
unfolding str_eq User.array_at
account_fields = (refl, refl, refl, refl, refl)

long_sided : All (IsOneSided env json) (User.array_at env json account (codes "P"))
unfolding str_eq User.array_at
long_sided = (record { ps = codes "LONG"; read = refl; one_sided = refl }, tt)

on_account_one_sided_example :
    let (r, y, os) =
      for_each (User.array_at env json account (codes "B")) (User.on_balance env json) client in
    ((User.on_account env json balances client).1 ≡ y)
    × ((User.on_account env json balances client).2 ≡ os)
on_account_one_sided_example =
    on_account_one_sided env json balances client account_fields.0 long_sided
