-- ===== src/Exchanges/Okx/State.antt =====
-- core/exchange/okx_exchange.h: the state of the client of OKX and its parts, and what they send.
use keen_trader.Base.{ℕ, Bool, List, [], ◌∷◌, map}
use keen_trader.Base.Text.{AString}
use keen_trader.Base.Map.{Map, AStringSet}
use keen_trader.Base.IdMap.{IdMap}
use keen_trader.Objects.Constant.{Product}
use keen_trader.Objects.Market.{Float, DateTime, TickData, ContractData}
use keen_trader.Objects.Trading.{OrderData, SubscribeRequest}
use keen_trader.Objects.Names.{EnumNames}
use keen_trader.Events.Handlers.{Event}
use keen_trader.Exchanges.Base.{EventData, Events}
use keen_trader.Exchanges.Base
use keen_trader.Exchanges.Crypto.{CryptoExchange}
use keen_trader.Exchanges.Handler.{Handler, ◌>>=◌, gets, emit_all}
use keen_trader.Exchanges.Json.{FloatText}

-- `product_ready` holds the numbers of products.
pub record OkxRestApi : Type 0 where
  pub product_ready : IdMap (Unit {0})
  pub key : AString
  pub secret : AString
  pub passphrase : AString
  pub hedge_mode : Bool
  pub simulated : Bool
  pub connect_time : ℕ

pub record OkxWebsocketPublicApi : Type 0 where
  pub subscribed : Map SubscribeRequest
  pub ticks : Map TickData

pub record OkxWebsocketPrivateApi : Type 0 where
  pub key : AString
  pub secret : AString
  pub passphrase : AString
  pub reqid : ℕ
  pub order_count : ℕ
  pub connect_time : ℕ
  pub reqid_order_map : Map OrderData

-- `product_okx2kt` is the static table PRODUCT_OKX2KT, which `map[key]` extends.
pub record OkxExchange : Type 0 where
  pub base : CryptoExchange
  pub orders : Map OrderData
  pub local_orderids : AStringSet
  pub symbol_contract_map : Map ContractData
  pub name_contract_map : Map ContractData
  pub product_okx2kt : Map Product
  pub rest_api : OkxRestApi
  pub public_api : OkxWebsocketPublicApi
  pub private_api : OkxWebsocketPrivateApi
  pub key : AString
  pub secret : AString
  pub passphrase : AString
  pub server : AString
  pub hedge_mode : Bool

-- A request of the REST client, with the fields of its body.
pub record Request : Type 0 where
  pub method : AString
  pub path : AString
  pub body : Map AString

-- An event put, a request handed to the REST client, a packet of either socket, and what is asked of
-- the sockets themselves. A number in a packet is its decimal text.
pub data Output : Type 0 where
  event : Event EventData → Output
  request : Request → Output
  login_packet : Map AString → Output
  topics_packet : Output
  subscribe_packet : List AString → AString → Output
  order_packet : AString → AString → Map AString → Output
  connect_rest : AString → Output
  connect_public : AString → Output
  connect_private : AString → Output
  stop_rest stop_public stop_private : Output

-- What a handler reads from its surroundings: the clock in milliseconds, `DateTimeToString` in UTC and
-- in local time, HMAC-SHA256 with Base64, the names of the enumerators, floats as texts, `"%.10g"`, and a
-- packet as a text.
pub record Env : Type 0 where
  pub now : DateTime
  pub utc_text : DateTime → AString
  pub local_text : DateTime → AString
  pub hmac_base64 : AString → AString → AString
  pub names : EnumNames
  pub floats : FloatText
  pub print10 : Float → AString
  pub dump : AString → AString → Map AString → AString

abbrev pub M : Type 0 → Type 0
M A = Handler OkxExchange Output A

abbrev pub put_events : Events → M (Unit {0})
put_events es = emit_all (map event es)

unfoldable pub log : AString → M (Unit {0})
log msg = do
  exchange_name ← gets λ x. x.base.exchange_name
  put_events (Base.write_log exchange_name msg)

abbrev pub with_rest : (OkxRestApi → OkxRestApi) → OkxExchange → OkxExchange
with_rest f x = record x { rest_api = f x.rest_api }

abbrev pub with_public : (OkxWebsocketPublicApi → OkxWebsocketPublicApi) → OkxExchange → OkxExchange
with_public f x = record x { public_api = f x.public_api }

abbrev pub with_private :
    (OkxWebsocketPrivateApi → OkxWebsocketPrivateApi) → OkxExchange → OkxExchange
with_private f x = record x { private_api = f x.private_api }

-- The events among the outputs.
abbrev pub events_of : List Output → Events
events_of [] = []
events_of (event e ∷ os) = e ∷ events_of os
events_of (_ ∷ os) = events_of os
