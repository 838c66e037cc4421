-- ===== src/Exchanges/Binance/State.antt =====
-- core/exchange/binance_linear_exchange.h: the state of the client, its parts, and the calls that a
-- handler makes.
use keen_trader.Base.{ℕ, Bool, Option, List, [], ◌∷◌, map}
use keen_trader.Base.Int.{ℤ}
use keen_trader.Base.Text.{AString}
use keen_trader.Base.Map.{Map}
use keen_trader.Base.IdMap.{IdMap}
use keen_trader.Objects.Market.{DateTime, TickData, ContractData}
use keen_trader.Objects.Trading.{OrderData, SubscribeRequest}
use keen_trader.Objects.Names.{EnumNames}
use keen_trader.Events.Handlers.{Event}
use keen_trader.Exchanges.Base.{EventData, Events}
use keen_trader.Exchanges.Base
use keen_trader.Exchanges.Crypto.{CryptoExchange}
use keen_trader.Exchanges.Handler.{Handler}
unfoldable pub use keen_trader.Exchanges.Handler.{
  after, continue, ◌>>=◌, ◌>>◌, pure, gets, modify, emit, emit_all, or_throw, if_found, skip,
  for_each,
}
use keen_trader.Exchanges.Json.{FloatText}

pub record BinanceRestApi : Type 0 where
  pub key : AString
  pub secret : AString
  pub server : AString
  pub hedge_mode : Bool
  pub user_stream_key : AString
  pub keep_alive_count : ℕ
  pub time_offset : ℤ

pub record BinanceMdApi : Type 0 where
  pub subscribed : Map SubscribeRequest
  pub ticks : Map TickData
  pub reqid : ℕ
  pub kline_stream : Bool

-- What is bound in `reqid_callback_map`.
pub data Callback : Type 0 where
  on_send_order on_cancel_order : Callback

pub record BinanceTradeApi : Type 0 where
  pub key : AString
  pub secret : AString
  pub server : AString
  pub order_count : ℕ
  pub order_prefix : AString
  pub reqid : ℕ
  pub reqid_callback_map : IdMap Callback
  pub reqid_order_map : IdMap OrderData

-- The names of the exchange that the parts keep are copies of `base.exchange_name`.
pub record BinanceLinearExchange : Type 0 where
  pub base : CryptoExchange
  pub orders : Map OrderData
  pub symbol_contract_map : Map ContractData
  pub name_contract_map : Map ContractData
  pub hedge_mode : Bool
  pub rest_api : BinanceRestApi
  pub md_api : BinanceMdApi
  pub trade_api : BinanceTradeApi

pub record Request : Type 0 where
  pub method : AString
  pub path : AString
  pub params : Map AString

-- An event put, a request handed to the REST client, a packet of either socket, and what is asked of
-- the sockets themselves.
pub data Output : Type 0 where
  event : Event EventData → Output
  request : Request → Output
  subscribe_packet : ℕ → List AString → Output
  order_packet : ℕ → AString → Map AString → Output
  connect_rest : AString → Output
  connect_md : AString → Output
  connect_trade : AString → Output
  connect_user : AString → Output
  stop_rest stop_md stop_trade stop_user : Output

-- What a handler reads from its surroundings: the clock in milliseconds, `DateTimeToString` with
-- "%y%m%d%H%M%S", HMAC-SHA256 of OpenSSL, the names of the enumerators, and floats as texts.
pub record Env : Type 0 where
  pub now : DateTime
  pub compact_date : DateTime → AString
  pub hmac : AString → AString → Option (List ℕ)
  pub names : EnumNames
  pub floats : FloatText

abbrev pub Reply : Type 0 → Type 0
Reply A = Option A × BinanceLinearExchange × List Output

abbrev pub M : Type 0 → Type 0
M A = Handler BinanceLinearExchange Output A

abbrev pub put_events : Events → M (Unit {0})
put_events es = emit_all (map event es)

unfoldable pub log : AString → M (Unit {0})
log msg = do
  exchange_name ← gets λ x. x.base.exchange_name
  put_events (Base.write_log exchange_name msg)

-- The events among the outputs.
abbrev pub events_of : List Output → Events
events_of [] = []
events_of (event e ∷ os) = e ∷ events_of os
events_of (_ ∷ os) = events_of os
