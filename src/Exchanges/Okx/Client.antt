-- ===== src/Exchanges/Okx/Client.antt =====
-- core/exchange/okx_exchange.cpp: `OkxExchange`, what the parts of the client share.
use keen_trader.Base.{Bool, true, false, Option, some, [], ◌∷◌, map, if◌then◌else◌}
use keen_trader.Base.Int.{ℤ, pos_part}
use keen_trader.Base.Text.{AString, codes, is_empty}
use keen_trader.Base.Map.{lookup, insert, add}
use keen_trader.Base.Decimal.{int_text}
use keen_trader.Objects.Constant.{Exchange, Offset, PositionMode, one_way, hedge}
use keen_trader.Objects.Market.{DateTime, ContractData}
use keen_trader.Objects.Trading.{OrderData}
use keen_trader.Objects.Names.{order_post_init}
use keen_trader.Exchanges.Base
use keen_trader.Exchanges.Crypto
use keen_trader.Exchanges.Crypto.{new_crypto_exchange}
use keen_trader.Exchanges.Handler.{◌>>=◌, ◌>>◌, pure, gets, modify, emit, or_throw}
use keen_trader.Exchanges.Json.{JsonApi, json_to_float, field, field_text}
use keen_trader.Exchanges.Utils.{atoll}
use keen_trader.Exchanges.Okx.Names.{product_okx2kt, order_type_of, direction_of, status_of}
use keen_trader.Exchanges.Okx.State.{
  OkxExchange, OkxRestApi, OkxWebsocketPrivateApi, Env, M, event, request, put_events,
}

unfoldable pub new_rest_api : OkxRestApi
new_rest_api = record {
  product_ready = [];
  key = [];
  secret = [];
  passphrase = [];
  hedge_mode = false;
  simulated = false;
  connect_time = 0;
}

unfoldable pub new_private_api : OkxWebsocketPrivateApi
new_private_api = record {
  key = [];
  secret = [];
  passphrase = [];
  reqid = 0;
  order_count = 0;
  connect_time = 0;
  reqid_order_map = [];
}

unfoldable pub new_exchange : OkxExchange
unfolding new_rest_api new_private_api
new_exchange = record {
  base = new_crypto_exchange (codes "OKX");
  orders = [];
  local_orderids = [];
  symbol_contract_map = [];
  name_contract_map = [];
  product_okx2kt = product_okx2kt;
  rest_api = new_rest_api;
  public_api = record { subscribed = []; ticks = [] };
  private_api = new_private_api;
  key = [];
  secret = [];
  passphrase = [];
  server = [];
  hedge_mode = false;
}

unfoldable pub on_order : OrderData → M (Unit {0})
on_order order = do
  modify λ x. record x { orders = insert order.orderid order x.orders }
  put_events (Base.on_order order)

unfoldable pub get_order : OkxExchange → AString → Option OrderData
get_order x orderid = lookup orderid x.orders

unfoldable pub on_contract : ContractData → M (Unit {0})
on_contract contract = do
  modify λ x. record x {
    symbol_contract_map = insert contract.symbol contract x.symbol_contract_map;
    name_contract_map = insert contract.name contract x.name_contract_map;
  }
  put_events (Base.on_contract contract)

unfoldable pub get_contract_by_symbol : OkxExchange → AString → Option ContractData
get_contract_by_symbol x symbol = lookup symbol x.symbol_contract_map

unfoldable pub get_contract_by_name : OkxExchange → AString → Option ContractData
get_contract_by_name x name = lookup name x.name_contract_map

abbrev mode_str : PositionMode → AString
mode_str hedge = codes "long_short_mode"
mode_str one_way = codes "net_mode"

-- `OkxRestApi::set_position_mode` and `OkxRestApi::set_leverage`
unfoldable pub rest_set_position_mode : PositionMode → M (Unit {0})
rest_set_position_mode mode = emit (
    request (record {
      method = codes "POST";
      path = codes "/api/v5/account/set-position-mode";
      body = (codes "posMode", mode_str mode) ∷ [];
    }))

unfoldable pub rest_set_leverage : AString → ℤ → M (Unit {0})
rest_set_leverage symbol leverage = emit (
    request (record {
      method = codes "POST";
      path = codes "/api/v5/account/set-leverage";
      body =
          (codes "instId", symbol)
          ∷ (codes "lever", int_text leverage)
          ∷ (codes "mgnMode", codes "cross")
          ∷ [];
    }))

-- A method of `CryptoExchange` on the base.
unfoldable pub on_base :
    (Crypto.CryptoExchange → Bool × Crypto.CryptoExchange × Base.Events) → M Bool
on_base f x =
    let (done, base, events) = f x.base in (some done, record x { base = base }, map event events)

unfoldable pub set_position_mode : PositionMode → M Bool
unfolding on_base rest_set_position_mode
set_position_mode mode = do
  done ← on_base (Crypto.set_position_mode mode)
  if done then rest_set_position_mode mode >> pure true else pure false

unfoldable pub set_leverage : AString → ℤ → M Bool
unfolding on_base rest_set_leverage
set_leverage symbol leverage = do
  done ← on_base (Crypto.set_leverage symbol leverage)
  if done then rest_set_leverage symbol leverage >> pure true else pure false

-- `DateTimeFromStringTime`, of a time after 1970.
abbrev pub time_of : AString → DateTime
time_of s = pos_part (atoll s)

module _ (env : Env) {J : Type 0} (api : JsonApi J) where
  -- The id of an order, which is the client's own where there is one.
  unfoldable pub order_id : J → M AString
  order_id data_ = do
    id ← or_throw (api.value_text data_ (codes "clOrdId") [])
    if is_empty id
        then or_throw (api.value_text data_ (codes "ordId") [])
        else modify (λ x. record x { local_orderids = add id x.local_orderids }) >> pure id

  unfoldable pub parse_order_data : J → M OrderData
  unfolding order_id json_to_float
  parse_order_data data_ = do
    name ← or_throw (field_text api data_ (codes "instId"))
    found ← gets λ x. get_contract_by_name x name
    orderid ← order_id data_
    contract ← or_throw found
    type ← or_throw (field_text api data_ (codes "ordType"))
    side ← or_throw (field_text api data_ (codes "side"))
    px ← or_throw (field api data_ (codes "px"))
    sz ← or_throw (field api data_ (codes "sz"))
    filled ← or_throw (field api data_ (codes "accFillSz"))
    state ← or_throw (field_text api data_ (codes "state"))
    time ← or_throw (field_text api data_ (codes "cTime"))
    exchange_name ← gets λ x. x.base.exchange_name
    pure (
        order_post_init env.names (record {
          symbol = contract.symbol;
          exchange = Exchange.okx;
          orderid = orderid;
          type = order_type_of type;
          direction = direction_of side;
          offset = Offset.none;
          price = json_to_float api env.floats px;
          volume = json_to_float api env.floats sz;
          traded = json_to_float api env.floats filled;
          status = status_of state;
          datetime = time_of time;
          reference = [];
          exchange_name = exchange_name;
          kt_symbol = [];
          kt_orderid = [];
        }))
