-- ===== src/Exchanges/Binance/Trade.antt =====
-- core/exchange/binance_linear_exchange.cpp: `BinanceTradeApi`, which sends and cancels orders over a
-- socket, matches the answers by the number of the request, and signs what it sends.
use keen_trader.Base.{
  ℕ, ◌+◌, ◌*◌, ◌/◌, Bool, true, false, Option, none, some, List, [], ◌++◌, if◌then◌else◌,
}
use keen_trader.Base.Int.{pos, ltb_ℤ, zero_float}
use keen_trader.Base.Text.{AString, codes, is_empty, str_eq}
use keen_trader.Base.Map.{Map, insert}
use keen_trader.Base.IdMap.{find_int, insert_id}
use keen_trader.Base.Decimal.{decimal, int_text}
use keen_trader.Objects.Constant.{Direction, OrderType, Status}
use keen_trader.Objects.Market.{Float, ContractData}
use keen_trader.Objects.Trading.{OrderData, OrderRequest, CancelRequest}
use keen_trader.Objects.Names.{create_order_data}
use keen_trader.Cta.Rounding.{round_to}
use keen_trader.Exchanges.Json.{JsonApi}
use keen_trader.Exchanges.Utils.{hex_str, sort_items, join_items}
use keen_trader.Exchanges.Binance.Names.{side_of, type_of, tif_of}
use keen_trader.Exchanges.Binance.State.{
  BinanceLinearExchange, BinanceTradeApi, Callback, on_send_order, on_cancel_order, Env, M,
  order_packet, emit, modify, gets, log, ◌>>=◌, ◌>>◌, pure, skip, or_throw, if_found,
}
use keen_trader.Exchanges.Binance.Linear

abbrev pub with_trade :
    (BinanceTradeApi → BinanceTradeApi) → BinanceLinearExchange → BinanceLinearExchange
with_trade f x = record x { trade_api = f x.trade_api }

abbrev pub position_side : Direction → AString
position_side Direction.long = codes "LONG"
position_side _ = codes "SHORT"

abbrev pub is_stop : OrderType → Bool
is_stop OrderType.stop = true
is_stop _ = false

-- Rounding to a step, where there is one.
unfoldable pub on_step : Float → Float → Option Float
on_step value step = if ltb_ℤ zero_float step then round_to value step else some value

module _ (env : Env) where
  unfoldable pub signature_of : Option (List ℕ) → AString
  signature_of none = []
  signature_of (some mac) = hex_str mac

  unfoldable pub payload_of : Map AString → AString
  payload_of params = join_items (λ v. v) (sort_items params)

  -- `time(nullptr) * 1000` as a text.
  abbrev pub timestamp : AString
  timestamp = decimal (env.now / 1000 * 1000)

  unfoldable pub sign : AString → Map AString → Map AString
  unfolding signature_of payload_of
  sign secret params =
      let stamped = insert (codes "timestamp") timestamp params in
      insert (codes "signature") (signature_of (env.hmac secret (payload_of stamped))) stamped

  -- The parameters that every order has, and the side of the position in hedge mode.
  unfoldable pub base_params :
      AString → Bool → OrderRequest → ContractData → AString → Float → Map AString
  unfolding side_of type_of
  base_params key hedge_mode req contract orderid qty =
      let params = insert (codes "type") (type_of req.type) (
        insert (codes "newClientOrderId") orderid (
          insert (codes "quantity") (env.floats.print qty) (
            insert (codes "side") (side_of req.direction)
              (insert (codes "symbol") contract.name (insert (codes "apiKey") key []))))) in
      if hedge_mode
      then insert (codes "positionSide") (position_side req.direction) params
      else params

  abbrev pub with_param : AString → Option Float → Map AString → Option (Map AString)
  with_param key none params = none
  with_param key (some value) params = some (insert key (env.floats.print value) params)

  -- Stop orders include the stop price.
  unfoldable pub stop_params : OrderRequest → ContractData → Map AString → Option (Map AString)
  unfolding on_step
  stop_params req contract params =
      if is_stop req.type
      then with_param (codes "stopPrice") (on_step req.price contract.pricetick) params
      else some params

  -- LIMIT-like orders include the time in force and the price.
  unfoldable pub limit_params : OrderRequest → ContractData → Map AString → Option (Map AString)
  unfolding on_step type_of tif_of
  limit_params req contract params =
      if str_eq (type_of req.type) (codes "LIMIT")
      then with_param (codes "price") (on_step req.price contract.pricetick)
          (insert (codes "timeInForce") (tif_of req.type) params)
      else some params

  unfoldable pub new_prefix : AString → AString
  new_prefix order_prefix = if is_empty order_prefix then env.compact_date env.now else order_prefix

  -- A new order id: the date of the first order and the number of this one.
  unfoldable pub next_orderid : M AString
  unfolding new_prefix
  next_orderid = do
    modify (
        with_trade λ t. record t {
          order_prefix = new_prefix t.order_prefix;
          order_count = t.order_count + 1;
        })
    gets λ x. x.trade_api.order_prefix ++ decimal x.trade_api.order_count

  unfoldable pub place_params : OrderRequest → ContractData → AString → M (Map AString)
  unfolding base_params stop_params limit_params on_step
  place_params req contract orderid = do
    key ← gets λ x. x.trade_api.key
    hedge_mode ← gets λ x. x.hedge_mode
    qty ← or_throw (on_step req.volume contract.min_volume)
    params ←
        or_throw (stop_params req contract (base_params key hedge_mode req contract orderid qty))
    or_throw (limit_params req contract params)

  -- The number of a request, with the callback for its answer.
  unfoldable pub new_request : Callback → M ℕ
  new_request callback = do
    modify (
        with_trade λ t. record t {
          reqid = t.reqid + 1;
          reqid_callback_map = insert_id (t.reqid + 1) callback t.reqid_callback_map;
        })
    gets λ x. x.trade_api.reqid

  -- The callback and the order are kept under the number.
  unfoldable pub register_order : OrderData → M ℕ
  unfolding new_request
  register_order order = do
    reqid ← new_request on_send_order
    modify (with_trade λ t. record t { reqid_order_map = insert_id reqid order t.reqid_order_map })
    pure reqid

  -- From the submitting order on: it is put, and the request sent.
  unfoldable pub place_order : OrderRequest → ContractData → OrderData → M AString
  unfolding place_params register_order sign
  place_order req contract order = do
    Linear.on_order order
    params ← place_params req contract order.orderid
    secret ← gets λ x. x.trade_api.secret
    reqid ← register_order order
    emit (order_packet reqid (codes "order.place") (sign secret params))
    pure order.kt_orderid

  unfoldable pub send_known_order : OrderRequest → ContractData → M AString
  unfolding next_orderid place_order
  send_known_order req contract = do
    orderid ← next_orderid
    exchange_name ← gets λ x. x.base.exchange_name
    place_order req contract (create_order_data env.names req orderid exchange_name)

  unfoldable pub send_order : OrderRequest → M AString
  unfolding send_known_order
  send_order req = do
    found ← gets λ x. Linear.get_contract_by_symbol x req.symbol
    if_found found (log (codes "Failed to send order, symbol not found: " ++ req.symbol) >> pure [])
        (send_known_order req)

  unfoldable pub cancel_known_order : CancelRequest → ContractData → M (Unit {0})
  unfolding new_request sign
  cancel_known_order req contract = do
    key ← gets λ x. x.trade_api.key
    let params =
        insert (codes "origClientOrderId") req.orderid
          (insert (codes "symbol") contract.name (insert (codes "apiKey") key []))
    secret ← gets λ x. x.trade_api.secret
    reqid ← new_request on_cancel_order
    emit (order_packet reqid (codes "order.cancel") (sign secret params))

  unfoldable pub cancel_order : CancelRequest → M (Unit {0})
  unfolding cancel_known_order
  cancel_order req = do
    found ← gets λ x. Linear.get_contract_by_symbol x req.symbol
    if_found found (log (codes "Failed to cancel order, symbol not found: " ++ req.symbol))
        (cancel_known_order req)

module _ {J : Type 0} (api : JsonApi J) where
  -- The log of an error in an answer.
  unfoldable pub log_error : AString → J → M (Unit {0})
  log_error what packet = do
    let error = api.at packet (codes "error")
    code ← or_throw (api.value_int error (codes "code") (pos 0))
    msg ← or_throw (api.value_text error (codes "msg") [])
    log (what ++ codes " rejected, code: " ++ int_text code ++ codes ", message: " ++ msg)

  unfoldable pub reject : OrderData → M (Unit {0})
  reject order = Linear.on_order (record order { status = Status.rejected })

  unfoldable pub answer_send_order : J → M (Unit {0})
  unfolding log_error reject
  answer_send_order packet =
      let rejected : M (Unit {0}) = do
        log_error (codes "Order") packet
        id ← or_throw (api.value_int packet (codes "id") (pos 0))
        found ← gets λ x. find_int id x.trade_api.reqid_order_map
        if_found found skip reject
      in if api.contains packet (codes "error") then rejected else skip

  unfoldable pub answer_cancel_order : J → M (Unit {0})
  unfolding log_error
  answer_cancel_order packet =
      if api.contains packet (codes "error") then log_error (codes "Cancel") packet else skip

  unfoldable pub run_callback : Callback → J → M (Unit {0})
  unfolding answer_send_order answer_cancel_order
  run_callback on_send_order packet = answer_send_order packet
  run_callback on_cancel_order packet = answer_cancel_order packet

  unfoldable pub on_packet : J → M (Unit {0})
  unfolding run_callback
  on_packet packet = do
    id ← or_throw (api.value_int packet (codes "id") (pos 0))
    found ← gets λ x. find_int id x.trade_api.reqid_callback_map
    if_found found skip (λ callback. run_callback callback packet)
