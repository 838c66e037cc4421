-- ===== src/Exchanges/Binance/Linear.antt =====
-- core/exchange/binance_linear_exchange.cpp: `BinanceLinearExchange` itself: orders and contracts, the
-- position mode and the leverages, and the requests of `BinanceRestApi` that they make.
use keen_trader.Base.{Bool, true, false, Option, some, [], ◌∷◌, map, if◌then◌else◌}
use keen_trader.Base.Int.{ℤ, pos}
use keen_trader.Base.Text.{AString, codes}
use keen_trader.Base.Map.{lookup, insert}
use keen_trader.Base.Decimal.{int_text}
use keen_trader.Objects.Constant.{PositionMode, one_way, hedge}
use keen_trader.Objects.Market.{ContractData}
use keen_trader.Objects.Trading.{OrderData}
use keen_trader.Exchanges.Base
use keen_trader.Exchanges.Crypto
use keen_trader.Exchanges.Crypto.{new_crypto_exchange}
use keen_trader.Exchanges.Binance.State.{
  BinanceLinearExchange, BinanceRestApi, BinanceMdApi, BinanceTradeApi, M, event, request, emit,
  modify, put_events, ◌>>=◌, ◌>>◌, pure,
}

-- The parts as their constructors leave them.
abbrev pub new_rest_api : BinanceRestApi
new_rest_api = record {
  key = [];
  secret = [];
  server = [];
  hedge_mode = false;
  user_stream_key = [];
  keep_alive_count = 0;
  time_offset = pos 0;
}

abbrev pub new_md_api : BinanceMdApi
new_md_api = record { subscribed = []; ticks = []; reqid = 0; kline_stream = false }

abbrev pub new_trade_api : BinanceTradeApi
new_trade_api = record {
  key = [];
  secret = [];
  server = [];
  order_count = 0;
  order_prefix = [];
  reqid = 0;
  reqid_callback_map = [];
  reqid_order_map = [];
}

-- The mode is not set until `connect`: it has the value that the memory has.
unfoldable pub new_exchange : Bool → BinanceLinearExchange
unfolding new_crypto_exchange
new_exchange hedge_mode = record {
  base = new_crypto_exchange (codes "BINANCE");
  orders = [];
  symbol_contract_map = [];
  name_contract_map = [];
  hedge_mode = hedge_mode;
  rest_api = new_rest_api;
  md_api = new_md_api;
  trade_api = new_trade_api;
}

unfoldable pub on_order : OrderData → M (Unit {0})
on_order order = do
  modify λ x. record x { orders = insert order.orderid order x.orders }
  put_events (Base.on_order order)

unfoldable pub get_order : BinanceLinearExchange → AString → Option OrderData
get_order x orderid = lookup orderid x.orders

unfoldable pub on_contract : ContractData → M (Unit {0})
on_contract contract = do
  modify λ x. record x {
    symbol_contract_map = insert contract.symbol contract x.symbol_contract_map;
    name_contract_map = insert contract.name contract x.name_contract_map;
  }
  put_events (Base.on_contract contract)

unfoldable pub get_contract_by_symbol : BinanceLinearExchange → AString → Option ContractData
get_contract_by_symbol x symbol = lookup symbol x.symbol_contract_map

unfoldable pub get_contract_by_name : BinanceLinearExchange → AString → Option ContractData
get_contract_by_name x name = lookup name x.name_contract_map

abbrev mode_str : PositionMode → AString
mode_str hedge = codes "true"
mode_str one_way = codes "false"

-- `BinanceRestApi::set_position_mode` and `BinanceRestApi::set_leverage`
unfoldable pub rest_set_position_mode : PositionMode → M (Unit {0})
rest_set_position_mode mode = emit (
    request (record {
      method = codes "POST";
      path = codes "/fapi/v1/positionSide/dual";
      params = (codes "dualSidePosition", mode_str mode) ∷ [];
    }))

unfoldable pub rest_set_leverage : AString → ℤ → M (Unit {0})
rest_set_leverage symbol leverage = emit (
    request (record {
      method = codes "POST";
      path = codes "/fapi/v1/leverage";
      params = (codes "leverage", int_text leverage) ∷ (codes "symbol", symbol) ∷ [];
    }))

-- A method of `CryptoExchange` on the base.
unfoldable pub on_base :
    (Crypto.CryptoExchange → Bool × Crypto.CryptoExchange × Base.Events) → M Bool
on_base f x =
    let (done, base, events) = f x.base in (some done, record x { base = base }, map event events)

unfoldable pub set_position_mode : PositionMode → M Bool
unfolding on_base rest_set_position_mode
set_position_mode mode = do
  done ← on_base (Crypto.set_position_mode mode)
  if done then rest_set_position_mode mode >> pure true else pure false

unfoldable pub set_leverage : AString → ℤ → M Bool
unfolding on_base rest_set_leverage
set_leverage symbol leverage = do
  done ← on_base (Crypto.set_leverage symbol leverage)
  if done then rest_set_leverage symbol leverage >> pure true else pure false
