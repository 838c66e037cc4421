-- ===== src/Exchanges/Binance/Rest/Answers.antt =====
-- core/exchange/binance_linear_exchange.cpp: `BinanceRestApi`, the handlers of answers on the account, the
-- positions, the orders, the time and the user stream.
use keen_trader.Base.{◌*◌, ◌/◌, none, some, List, [], ◌++◌, if◌then◌else◌}
use keen_trader.Base.Int.{pos, ◌-ℤ◌, zero_float}
use keen_trader.Base.Text.{codes, str_eq}
use keen_trader.Base.Decimal.{int_text}
use keen_trader.Objects.Constant.{Exchange, Direction, Offset, OrderType, one_way, hedge}
use keen_trader.Objects.Market.{Float, ContractData}
use keen_trader.Objects.Names.{order_post_init}
use keen_trader.Exchanges.Base
use keen_trader.Exchanges.Json.{JsonApi, json_to_float}
use keen_trader.Exchanges.Binance.Names.{order_type_of, status_of}
use keen_trader.Exchanges.Binance.State.{
  Env, M, connect_user, emit, modify, gets, log, put_events, for_each, ◌>>=◌, ◌>>◌, skip, or_throw,
  if_found,
}
use keen_trader.Exchanges.Binance.Linear
use keen_trader.Exchanges.Binance.Linear.{rest_set_position_mode}
use keen_trader.Exchanges.Binance.User.{account_of, position_of, array_at}
use keen_trader.Exchanges.Binance.Rest.Requests.{
  with_rest, query_contract, real_user_host, testnet_user_host,
}

module _ (env : Env) where
  module _ {J : Type 0} (api : JsonApi J) where
    abbrev float : J → Float
    float = json_to_float api env.floats

    unfoldable pub on_asset : J → M (Unit {0})
    unfolding json_to_float
    on_asset asset = do
      exchange_name ← gets λ x. x.base.exchange_name
      accountid ← or_throw (api.value_text asset (codes "asset") [])
      put_events (
          Base.on_account (
            account_of env api exchange_name accountid
              (float (api.at asset (codes "walletBalance")))
              (float (api.at asset (codes "maintMargin")))))

    unfoldable pub on_query_account : J → M (Unit {0})
    unfolding on_asset array_at
    on_query_account packet = do
      for_each (array_at env api packet (codes "assets")) on_asset
      log (codes "Account data received")

    unfoldable pub position_with : J → ContractData → M (Unit {0})
    position_with d contract = do
      exchange_name ← gets λ x. x.base.exchange_name
      amount ← or_throw (api.value_text d (codes "positionAmt") (codes "0"))
      volume ← or_throw (env.floats.stof amount)
      price ← or_throw (api.value_float d (codes "entryPrice") zero_float)
      pnl ← or_throw (api.value_float d (codes "unRealizedProfit") zero_float)
      put_events (Base.on_position (position_of env api exchange_name contract volume price pnl))

    unfoldable pub on_one_position : J → M (Unit {0})
    unfolding position_with
    on_one_position d = do
      name ← or_throw (api.value_text d (codes "symbol") [])
      found ← gets λ x. Linear.get_contract_by_name x name
      if_found found skip (position_with d)

    -- The values of an array.
    abbrev array_items : J → List J
    array_items packet = if api.is_array packet then api.items packet else []

    unfoldable pub on_query_position : J → M (Unit {0})
    unfolding on_one_position
    on_query_position packet = do
      for_each (array_items packet) on_one_position
      log (codes "Position data received")

    -- The offset is kept in an `int`, which is taken to hold it.
    unfoldable pub on_query_time : J → M (Unit {0})
    unfolding query_contract rest_set_position_mode
    on_query_time packet = do
      server_time ← or_throw (api.value_int packet (codes "serverTime") (pos 0))
      let offset = pos (env.now / 1000 * 1000) -ℤ server_time
      modify (with_rest λ r. record r { time_offset = offset })
      log (codes "Server time updated, local offset: " ++ int_text offset ++ codes "ms")
      hedge_mode ← gets λ x. x.rest_api.hedge_mode
      rest_set_position_mode (if hedge_mode then hedge else one_way)
      query_contract

    -- The direction is never set: it is what the memory held, `unset`.
    unfoldable pub order_with : Direction → J → OrderType → ContractData → M (Unit {0})
    order_with unset d type contract = do
      exchange_name ← gets λ x. x.base.exchange_name
      orderid ← or_throw (api.value_text d (codes "clientOrderId") [])
      price ← or_throw (api.value_float d (codes "price") zero_float)
      volume ← or_throw (api.value_float d (codes "origQty") zero_float)
      traded ← or_throw (api.value_float d (codes "executedQty") zero_float)
      status ← or_throw (api.value_text d (codes "status") [])
      Linear.on_order (
          order_post_init env.names (record {
            symbol = contract.symbol;
            exchange = Exchange.binance;
            orderid = orderid;
            type = type;
            direction = unset;
            offset = Offset.none;
            price = price;
            volume = volume;
            traded = traded;
            status = status_of status;
            datetime = env.now;
            reference = [];
            exchange_name = exchange_name;
            kt_symbol = [];
            kt_orderid = [];
          }))

    unfoldable pub on_open_order : Direction → J → M (Unit {0})
    unfolding order_with
    on_open_order unset d = do
      type ← or_throw (api.value_text d (codes "type") [])
      tif ← or_throw (api.value_text d (codes "timeInForce") (codes "GTC"))
      name ← or_throw (api.value_text d (codes "symbol") [])
      by_symbol ← gets λ x. Linear.get_contract_by_symbol x (name ++ codes "_SWAP")
      by_name ← gets λ x. Linear.get_contract_by_name x name
      if_found by_symbol (if_found by_name skip (order_with unset d (order_type_of type tif)))
          (order_with unset d (order_type_of type tif))

    unfoldable pub on_query_order : Direction → J → M (Unit {0})
    unfolding on_open_order
    on_query_order unset packet =
        if api.is_array packet
        then for_each (api.items packet) (on_open_order unset) >> log (codes "Order data received")
        else skip

    unfoldable pub on_start_user_stream : J → M (Unit {0})
    on_start_user_stream packet =
        let key = api.at packet (codes "listenKey") in
        let started : M (Unit {0}) = do
          text ← or_throw (if api.is_string key then some (api.string_of key) else none)
          modify (with_rest λ r. record r { user_stream_key = text; keep_alive_count = 0 })
          server ← gets λ x. x.rest_api.server
          emit (
              connect_user (
                (if str_eq server (codes "REAL") then real_user_host else testnet_user_host)
                ++ text))
        in if api.contains packet (codes "listenKey") then started else skip
