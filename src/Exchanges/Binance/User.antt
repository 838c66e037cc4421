-- ===== src/Exchanges/Binance/User.antt =====
-- core/exchange/binance_linear_exchange.cpp: `BinanceUserApi`, which turns the account's messages into
-- balances, positions, orders and trades.
use keen_trader.Base.{◌&&◌, none, some, List, [], if◌then◌else◌}
use keen_trader.Base.Int.{ℤ, pos, ltb_ℤ, leb_ℤ, pos_part, zero_float, is_nonzero, ◌-ℤ◌}
use keen_trader.Base.Text.{AString, codes, str_eq}
use keen_trader.Objects.Constant.{Exchange, Direction, Offset, OrderType}
use keen_trader.Objects.Market.{Float, DateTime, ContractData}
use keen_trader.Objects.Trading.{OrderData, TradeData, PositionData, AccountData}
use keen_trader.Objects.Names.{
  account_post_init, position_post_init, order_post_init, trade_post_init,
}
use keen_trader.Cta.Rounding.{round_to}
use keen_trader.Exchanges.Base
use keen_trader.Exchanges.Json.{JsonApi, json_to_float}
use keen_trader.Exchanges.Binance.Names.{order_type_of, direction_of, status_of}
use keen_trader.Exchanges.Binance.State.{
  Env, M, request, stop_user, emit, gets, log, put_events, for_each, ◌>>=◌, ◌>>◌, pure, skip,
  or_throw, if_found,
}
use keen_trader.Exchanges.Binance.Linear

-- `BinanceRestApi::start_user_stream`
unfoldable pub start_user_stream : M (Unit {0})
start_user_stream =
    emit
      (request (record { method = codes "POST"; path = codes "/fapi/v1/listenKey"; params = [] }))

unfoldable pub on_disconnected : M (Unit {0})
unfolding start_user_stream
on_disconnected = do log (codes "User API disconnected"); start_user_stream

unfoldable pub on_listen_key_expired : M (Unit {0})
on_listen_key_expired = do log (codes "Listen key expired"); emit stop_user

-- The time of a message, or the present where it has none.
abbrev pub time_or : DateTime → ℤ → DateTime
time_or now ts = if ltb_ℤ (pos 0) ts then pos_part ts else now

module _ (env : Env) {J : Type 0} (api : JsonApi J) where
  abbrev float : J → Float
  float = json_to_float api env.floats

  -- The items of an array under a key, if there is one.
  unfoldable pub array_at : J → AString → List J
  array_at j key =
      if api.contains j key && api.is_array (api.at j key) then api.items (api.at j key) else []

  abbrev pub account_of : AString → AString → Float → Float → AccountData
  account_of exchange_name accountid balance frozen = account_post_init (record {
    accountid = accountid;
    balance = balance;
    frozen = frozen;
    available = zero_float;
    exchange_name = exchange_name;
    kt_accountid = [];
  })

  -- The conversion of a number that `value` gives is that number.
  unfoldable pub on_balance : J → M (Unit {0})
  on_balance acc = do
    exchange_name ← gets λ x. x.base.exchange_name
    accountid ← or_throw (api.value_text acc (codes "a") [])
    balance ← or_throw (api.value_float acc (codes "wb") zero_float)
    cw ← or_throw (api.value_float acc (codes "cw") zero_float)
    if is_nonzero balance
        then put_events
            (Base.on_account (account_of exchange_name accountid balance (balance -ℤ cw)))
        else skip

  abbrev pub position_of : AString → ContractData → Float → Float → Float → PositionData
  position_of exchange_name contract volume price pnl = position_post_init env.names (record {
    symbol = contract.symbol;
    exchange = Exchange.binance;
    direction = Direction.net;
    volume = volume;
    frozen = zero_float;
    price = price;
    pnl = pnl;
    yd_volume = zero_float;
    exchange_name = exchange_name;
    kt_symbol = [];
    kt_positionid = [];
  })

  unfoldable pub position_with : J → ContractData → M (Unit {0})
  unfolding json_to_float
  position_with p contract = do
    exchange_name ← gets λ x. x.base.exchange_name
    let volume = if api.contains p (codes "pa") then float (api.at p (codes "pa")) else zero_float
    price ← or_throw (api.value_float p (codes "ep") zero_float)
    pnl ← or_throw (api.value_float p (codes "up") zero_float)
    put_events (Base.on_position (position_of exchange_name contract volume price pnl))

  unfoldable pub on_one_position : J → M (Unit {0})
  unfolding position_with
  on_one_position p = do
    ps ← or_throw (api.value_text p (codes "ps") [])
    let both : M (Unit {0}) = do
      name ← or_throw (api.value_text p (codes "s") [])
      found ← gets λ x. Linear.get_contract_by_name x name
      if_found found skip (position_with p)
    if str_eq ps (codes "BOTH") then both else skip

  unfoldable pub on_account : J → M (Unit {0})
  unfolding array_at on_balance on_one_position
  on_account packet =
      let a = api.at packet (codes "a") in
      if api.contains packet (codes "a")
      then for_each (array_at a (codes "B")) on_balance
        >> for_each (array_at a (codes "P")) on_one_position
      else skip

  -- The fields of an order that the message has.
  unfoldable pub order_of : J → J → OrderType → ContractData → M OrderData
  unfolding json_to_float
  order_of packet ord type contract = do
    exchange_name ← gets λ x. x.base.exchange_name
    orderid ← or_throw (api.value_text ord (codes "c") [])
    side ← or_throw (api.value_text ord (codes "S") [])
    status ← or_throw (api.value_text ord (codes "X") [])
    evt ← or_throw (api.value_int packet (codes "E") (pos 0))
    pure (
        order_post_init env.names (record {
          symbol = contract.symbol;
          exchange = Exchange.binance;
          orderid = orderid;
          type = type;
          direction = direction_of side;
          offset = Offset.none;
          price = float (api.at ord (codes "p"));
          volume = float (api.at ord (codes "q"));
          traded = float (api.at ord (codes "z"));
          status = status_of status;
          datetime = time_or env.now evt;
          reference = [];
          exchange_name = exchange_name;
          kt_symbol = [];
          kt_orderid = [];
        }))

  unfoldable pub trade_of : J → OrderData → Float → M TradeData
  unfolding json_to_float
  trade_of ord order volume = do
    exchange_name ← gets λ x. x.base.exchange_name
    tradeid ← or_throw (api.value_text ord (codes "t") [])
    ttime ← or_throw (api.value_int ord (codes "T") (pos 0))
    pure (
        trade_post_init env.names (record {
          symbol = order.symbol;
          exchange = order.exchange;
          orderid = order.orderid;
          tradeid = tradeid;
          direction = order.direction;
          offset = Offset.none;
          price = float (api.at ord (codes "L"));
          volume = volume;
          datetime = time_or env.now ttime;
          exchange_name = exchange_name;
          kt_symbol = [];
          kt_orderid = [];
          kt_tradeid = [];
        }))

  -- The part of the message that is a trade.
  unfoldable pub on_fill : J → OrderData → ContractData → M (Unit {0})
  unfolding json_to_float trade_of
  on_fill ord order contract = do
    trade_volume ← or_throw (round_to (float (api.at ord (codes "l"))) contract.min_volume)
    if leb_ℤ trade_volume zero_float
        then skip
        else trade_of ord order trade_volume >>= λ trade. put_events (Base.on_trade trade)

  unfoldable pub order_with : J → J → OrderType → ContractData → M (Unit {0})
  unfolding order_of on_fill
  order_with packet ord type contract = do
    order ← order_of packet ord type contract
    Linear.on_order order
    on_fill ord order contract

  unfoldable pub on_order : J → M (Unit {0})
  unfolding order_with
  on_order packet =
      let ord = api.at packet (codes "o") in
      let known : M (Unit {0}) = do
        type ← or_throw (api.value_text ord (codes "o") [])
        tif ← or_throw (api.value_text ord (codes "f") (codes "GTC"))
        name ← or_throw (api.value_text ord (codes "s") [])
        found ← gets λ x. Linear.get_contract_by_name x name
        if_found found skip (order_with packet ord (order_type_of type tif))
      in if api.contains packet (codes "o") then known else skip

  unfoldable pub dispatch : AString → J → M (Unit {0})
  unfolding on_account on_order on_listen_key_expired
  dispatch evt packet =
      if str_eq evt (codes "ACCOUNT_UPDATE")
      then on_account packet
      else if str_eq evt (codes "ORDER_TRADE_UPDATE")
      then on_order packet
      else if str_eq evt (codes "listenKeyExpired")
      then on_listen_key_expired
      else skip

  unfoldable pub on_packet : J → M (Unit {0})
  unfolding dispatch
  on_packet packet =
      let e = api.at packet (codes "e") in
      if api.contains packet (codes "e")
      then or_throw (if api.is_string e then some (api.string_of e) else none)
        >>= (λ evt. dispatch evt packet)
      else skip
