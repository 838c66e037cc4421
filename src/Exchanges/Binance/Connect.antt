-- ===== src/Exchanges/Binance/Connect.antt =====
-- core/exchange/binance_linear_exchange.cpp: `connect` and `close` of the client and its parts. The proxy,
-- which is handed on to the network clients, is left out.
use keen_trader.Base.{Bool, true, Option, [], ◌∷◌, if◌then◌else◌}
use keen_trader.Base.Text.{AString, codes, str_eq}
use keen_trader.Exchanges.Json.{JsonApi}
use keen_trader.Exchanges.Binance.State.{
  M, connect_rest, connect_md, connect_trade, stop_rest, stop_user, stop_md, stop_trade, emit,
  emit_all, modify, log, or_throw, ◌>>=◌, ◌>>◌,
}
use keen_trader.Exchanges.Binance.Rest.{query_time, with_rest}
use keen_trader.Exchanges.Binance.Md.{with_md}
use keen_trader.Exchanges.Binance.Trade.{with_trade}

-- What `connect` reads of its setting.
pub record Setting : Type 0 where
  pub key : AString
  pub secret : AString
  pub server : AString
  pub hedge_mode : Bool

abbrev host : AString → AString → AString → AString
host server real testnet = if str_eq server (codes "REAL") then real else testnet

unfoldable pub connect_rest_api : Setting → M (Unit {0})
unfolding query_time
connect_rest_api s = do
  modify (
      with_rest λ r. record r {
        key = s.key;
        secret = s.secret;
        server = s.server;
        hedge_mode = s.hedge_mode;
      })
  emit (
      connect_rest
        (host s.server (codes "https://fapi.binance.com") (codes "https://demo-fapi.binance.com")))
  log (codes "REST API started")
  query_time

unfoldable pub connect_md_api : Setting → M (Unit {0})
connect_md_api s = do
  modify (with_md λ m. record m { kline_stream = true })
  emit (
      connect_md (
        host s.server (codes "wss://fstream.binance.com/stream")
          (codes "wss://fstream.binancefuture.com/stream")))
  log (codes "MD API started")

unfoldable pub connect_trade_api : Setting → M (Unit {0})
connect_trade_api s = do
  modify (with_trade λ t. record t { key = s.key; secret = s.secret; server = s.server })
  emit (
      connect_trade (
        host s.server (codes "wss://ws-fapi.binance.com/ws-fapi/v1")
          (codes "wss://testnet.binancefuture.com/ws-fapi/v1")))
  log (codes "Trade API started")

unfoldable pub connect_with : Setting → M (Unit {0})
unfolding connect_rest_api connect_md_api connect_trade_api
connect_with s = do
  modify λ x. record x { hedge_mode = s.hedge_mode }
  connect_rest_api s
  connect_md_api s
  connect_trade_api s

unfoldable pub close : M (Unit {0})
close = emit_all (stop_rest ∷ stop_user ∷ stop_md ∷ stop_trade ∷ [])

-- `setting.value("hedge_mode", false)` reads a Boolean: `none` is an exception.
unfoldable pub connect : {J : Type 0} → JsonApi J → (J → Option Bool) → J → M (Unit {0})
unfolding connect_with
connect api hedge_of setting = do
  key ← or_throw (api.value_text setting (codes "api_key") [])
  secret ← or_throw (api.value_text setting (codes "secret_key") [])
  server ← or_throw (api.value_text setting (codes "server") [])
  hedge_mode ← or_throw (hedge_of setting)
  connect_with (record { key = key; secret = secret; server = server; hedge_mode = hedge_mode })
