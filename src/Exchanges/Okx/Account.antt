-- ===== src/Exchanges/Okx/Account.antt =====
-- core/exchange/okx_exchange.cpp: what the private API tells of orders, balances and positions.
use keen_trader.Base.{none, List, [], ◌∷◌, if◌then◌else◌}
use keen_trader.Base.Int.{zero_float, ◌-ℤ◌}
use keen_trader.Base.Text.{AString, codes}
use keen_trader.Objects.Constant.{Exchange, Direction}
use keen_trader.Objects.Market.{Float}
use keen_trader.Objects.Trading.{OrderData, TradeData, PositionData, AccountData}
use keen_trader.Objects.Names.{account_post_init, position_post_init, trade_post_init}
use keen_trader.Exchanges.Base
use keen_trader.Exchanges.Handler.{◌>>=◌, ◌>>◌, pure, gets, or_throw, if_found, skip, for_each}
use keen_trader.Exchanges.Json.{JsonApi, json_to_float, field, field_text, is_text}
use keen_trader.Exchanges.Okx.State.{Env, M, put_events}
use keen_trader.Exchanges.Okx.Client
use keen_trader.Exchanges.Okx.Client.{time_of}

module _ (env : Env) {J : Type 0} (api : JsonApi J) where
  abbrev float : J → Float
  float = json_to_float api env.floats

  -- The volume of a trade: the step of the contract is used only where there is no contract, which is
  -- undefined behaviour.
  unfoldable pub trade_volume : J → AString → M Float
  unfolding json_to_float
  trade_volume filled symbol = do
    found ← gets λ x. Client.get_contract_by_symbol x symbol
    if_found found (or_throw none) (λ contract. pure (float filled))

  unfoldable pub trade_of : J → OrderData → Float → M TradeData
  unfolding json_to_float
  trade_of d order volume = do
    exchange_name ← gets λ x. x.base.exchange_name
    tradeid ← or_throw (field_text api d (codes "tradeId"))
    price ← or_throw (field api d (codes "fillPx"))
    time ← or_throw (field_text api d (codes "uTime"))
    pure (
        trade_post_init env.names (record {
          symbol = order.symbol;
          exchange = order.exchange;
          orderid = order.orderid;
          tradeid = tradeid;
          direction = order.direction;
          offset = order.offset;
          price = float price;
          volume = volume;
          datetime = time_of time;
          exchange_name = exchange_name;
          kt_symbol = [];
          kt_orderid = [];
          kt_tradeid = [];
        }))

  unfoldable pub on_fill : J → J → OrderData → M (Unit {0})
  unfolding trade_volume trade_of
  on_fill filled d order = do
    volume ← trade_volume filled order.symbol
    trade ← trade_of d order volume
    put_events (Base.on_trade trade)

  -- The orders of a message, up to the first that has no fill.
  unfoldable pub on_orders : List J → M (Unit {0})
  unfolding on_fill
  on_orders [] = skip
  on_orders (d ∷ ds) = do
    order ← Client.parse_order_data env api d
    Client.on_order order
    filled ← or_throw (field api d (codes "fillSz"))
    if is_text api filled (codes "0") then skip else on_fill filled d order >> on_orders ds

  unfoldable pub on_order : J → M (Unit {0})
  unfolding on_orders
  on_order packet = do
    data_ ← or_throw (field api packet (codes "data"))
    on_orders (api.items data_)

  abbrev pub account_of : AString → AString → Float → Float → AccountData
  account_of exchange_name accountid balance available =
      let account = account_post_init (record {
        accountid = accountid;
        balance = balance;
        frozen = zero_float;
        available = zero_float;
        exchange_name = exchange_name;
        kt_accountid = [];
      }) in
      record account { available = available; frozen = balance -ℤ available }

  unfoldable pub on_detail : J → M (Unit {0})
  unfolding json_to_float
  on_detail detail = do
    exchange_name ← gets λ x. x.base.exchange_name
    accountid ← or_throw (field_text api detail (codes "ccy"))
    balance ← or_throw (field api detail (codes "eq"))
    let available =
        if api.contains detail (codes "availEq")
        then float (api.at detail (codes "availEq"))
        else zero_float
    put_events (Base.on_account (account_of exchange_name accountid (float balance) available))

  unfoldable pub on_accounts : List J → M (Unit {0})
  unfolding on_detail
  on_accounts [] = skip
  on_accounts (buf ∷ bufs) = do
    details ← or_throw (field api buf (codes "details"))
    for_each (api.items details) on_detail

  unfoldable pub on_account : J → M (Unit {0})
  unfolding on_accounts
  on_account packet = do
    data_ ← or_throw (field api packet (codes "data"))
    on_accounts (api.items data_)

  abbrev pub position_of : AString → AString → Float → Float → Float → PositionData
  position_of exchange_name symbol volume price pnl = position_post_init env.names (record {
    symbol = symbol;
    exchange = Exchange.okx;
    direction = Direction.net;
    volume = volume;
    frozen = zero_float;
    price = price;
    pnl = pnl;
    yd_volume = zero_float;
    exchange_name = exchange_name;
    kt_symbol = [];
    kt_positionid = [];
  })

  unfoldable pub on_one_position : J → M (Unit {0})
  unfolding json_to_float
  on_one_position d = do
    name ← or_throw (field_text api d (codes "instId"))
    found ← gets λ x. Client.get_contract_by_name x name
    volume ← or_throw (field api d (codes "pos"))
    price ← or_throw (field api d (codes "avgPx"))
    pnl ← or_throw (field api d (codes "upl"))
    contract ← or_throw found
    exchange_name ← gets λ x. x.base.exchange_name
    put_events (
        Base.on_position
          (position_of exchange_name contract.symbol (float volume) (float price) (float pnl)))

  unfoldable pub on_position : J → M (Unit {0})
  unfolding on_one_position
  on_position packet = do
    data_ ← or_throw (field api packet (codes "data"))
    for_each (api.items data_) on_one_position
