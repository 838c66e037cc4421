-- ===== src/Tests/BinanceSamples.antt =====
-- A client of Binance that knows one contract, and its surroundings.
use keen_trader.Base.{true, some, List, [], ◌∷◌}
use keen_trader.Base.Int.{pos}
use keen_trader.Base.Text.{AString, codes}
use keen_trader.Objects.Constant.{Direction, Offset, Exchange, OrderType, Product, OptionType}
use keen_trader.Objects.Market.{ContractData}
use keen_trader.Objects.Trading.{OrderRequest, SubscribeRequest}
use keen_trader.Exchanges.Json.{FloatText}
use keen_trader.Exchanges.Binance.State.{BinanceLinearExchange, Env}
use keen_trader.Exchanges.Binance.Linear.{new_rest_api, new_md_api, new_trade_api}
use keen_trader.Base.Decimal.{int_text}
use keen_trader.Tests.Names.{names}
use keen_trader.Tests.Samples.{units, one}
use keen_trader.Tests.JsonSamples.{Value, num, text, arr, obj, items_of, fields_of}

abbrev pub floats : FloatText
floats = record { one = one; atof = λ s. pos 250; stof = λ s. some (pos 100); print = int_text }

abbrev pub env : Env
env = record {
  now = 1700000000123;
  compact_date = λ t. codes "231114221320";
  hmac = λ secret payload. some (10 ∷ 255 ∷ []);
  names = names;
  floats = floats;
}

abbrev pub btc : AString
btc = codes "BTCUSDT_SWAP"

abbrev pub btc_contract : ContractData
btc_contract = record {
  symbol = btc;
  exchange = Exchange.binance;
  name = codes "BTCUSDT";
  inst_id_code = pos 0;
  product = Product.swap;
  size = units 1;
  pricetick = units 1;
  min_volume = units 1;
  max_volume = units 9;
  stop_supported = true;
  history_data = true;
  net_position = true;
  option_strike = pos 0;
  option_underlying = [];
  option_type = OptionType.none;
  option_listed = 0;
  option_expiry = 0;
  option_portfolio = [];
  option_index = [];
  exchange_name = codes "BINANCE";
  kt_symbol = codes "BTCUSDT_SWAP.BINANCE";
}

abbrev pub client : BinanceLinearExchange
client = record {
  base = record {
    exchange_name = codes "BINANCE";
    position_mode = keen_trader.Objects.Constant.one_way;
    leverage_config = [];
  };
  orders = [];
  symbol_contract_map = (btc, btc_contract) ∷ [];
  name_contract_map = (codes "BTCUSDT", btc_contract) ∷ [];
  hedge_mode = true;
  rest_api = new_rest_api;
  md_api = new_md_api;
  trade_api = new_trade_api;
}

abbrev pub buy_limit : OrderRequest
buy_limit = record {
  symbol = btc;
  exchange = Exchange.binance;
  direction = Direction.long;
  type = OrderType.fak;
  volume = units 2;
  price = units 30;
  offset = Offset.none;
  reference = [];
  exchange_name = codes "BINANCE";
  kt_symbol = codes "BTCUSDT_SWAP.BINANCE";
}

abbrev pub btc_subscription : SubscribeRequest
btc_subscription = record {
  symbol = btc;
  exchange = Exchange.binance;
  kt_symbol = codes "BTCUSDT_SWAP.BINANCE";
}

abbrev pub object : List (AString × Value) → Value
object fs = obj (fields_of fs)

abbrev pub array : List Value → Value
array vs = arr (items_of vs)

-- A refusal of the first order.
abbrev pub refusal : Value
refusal = object (
    (codes "id", num (pos 1))
    ∷ (
      codes "error",
      object ((codes "code", num (pos 2019)) ∷ (codes "msg", text (codes "Margin")) ∷ []),
    )
    ∷ [])

-- The exchange's contracts.
abbrev pub contracts : Value
contracts =
    object
      ((codes "symbols", array (object ((codes "symbol", text (codes "BTCUSDT")) ∷ []) ∷ [])) ∷ [])

-- A fill whose trade id is a number.
abbrev pub fill : Value
fill = object (
    (codes "e", text (codes "ORDER_TRADE_UPDATE"))
    ∷ (
      codes "o",
      object (
          (codes "s", text (codes "BTCUSDT"))
          ∷ (codes "c", text (codes "2311142213201"))
          ∷ (codes "S", text (codes "BUY"))
          ∷ (codes "o", text (codes "LIMIT"))
          ∷ (codes "f", text (codes "IOC"))
          ∷ (codes "X", text (codes "FILLED"))
          ∷ (codes "p", num (units 30))
          ∷ (codes "q", num (units 2))
          ∷ (codes "z", num (units 2))
          ∷ (codes "l", num (units 2))
          ∷ (codes "t", num (pos 77))
          ∷ []),
    )
    ∷ [])

-- Balances as texts, and a position of the long side.
abbrev pub balances : Value
balances = object (
    (codes "e", text (codes "ACCOUNT_UPDATE"))
    ∷ (
      codes "a",
      object (
          (
            codes "B",
            array (
                object ((codes "a", text (codes "USDT")) ∷ (codes "wb", text (codes "122.5")) ∷ [])
                ∷ []),
          )
          ∷ (
            codes "P",
            array (
                object (
                  (codes "s", text (codes "BTCUSDT"))
                  ∷ (codes "ps", text (codes "LONG"))
                  ∷ (codes "pa", num (units 2))
                  ∷ [])
                ∷ []),
          )
          ∷ []),
    )
    ∷ [])
