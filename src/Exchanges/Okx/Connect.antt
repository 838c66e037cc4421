-- ===== src/Exchanges/Okx/Connect.antt =====
-- core/exchange/okx_exchange.cpp: `connect` and `close` of the client. The proxy, which is handed on to the
-- network clients, is left out.
use keen_trader.Base.{◌/◌, ◌||◌, Bool, Option, [], ◌∷◌, if◌then◌else◌}
use keen_trader.Base.Text.{AString, codes, str_eq}
use keen_trader.Objects.Constant.{one_way, hedge}
use keen_trader.Exchanges.Handler.{◌>>=◌, ◌>>◌, modify, emit, emit_all, or_throw}
use keen_trader.Exchanges.Json.{JsonApi}
use keen_trader.Exchanges.Okx.State.{
  Env, M, connect_rest, stop_rest, stop_public, stop_private, log, with_rest,
}
use keen_trader.Exchanges.Okx.Client.{rest_set_position_mode}
use keen_trader.Exchanges.Okx.Rest.{query_time, query_contract, host}

-- What `connect` reads of its setting.
pub record Setting : Type 0 where
  pub key : AString
  pub secret : AString
  pub passphrase : AString
  pub server : AString
  pub hedge_mode : Bool

unfoldable pub connect_rest_api : Env → Setting → M (Unit {0})
unfolding query_time rest_set_position_mode query_contract
connect_rest_api env s = do
  modify (
      with_rest λ r. record r {
        key = s.key;
        secret = s.secret;
        passphrase = s.passphrase;
        hedge_mode = s.hedge_mode;
        simulated = str_eq s.server (codes "DEMO") || r.simulated;
        connect_time = env.now / 1000;
      })
  url ← or_throw (
      host (codes "https://www.okx.com") (codes "https://aws.okx.com") (codes "https://www.okx.com")
        s.server)
  emit (connect_rest url)
  log (codes "REST API started")
  query_time
  rest_set_position_mode (if s.hedge_mode then hedge else one_way)
  query_contract

unfoldable pub connect_with : Env → Setting → M (Unit {0})
unfolding connect_rest_api
connect_with env s = do
  modify λ x. record x {
    key = s.key;
    secret = s.secret;
    passphrase = s.passphrase;
    server = s.server;
    hedge_mode = s.hedge_mode;
  }
  connect_rest_api env s

-- `setting.value("hedge_mode", false)` reads a Boolean: `none` is an exception.
unfoldable pub connect : {J : Type 0} → Env → JsonApi J → (J → Option Bool) → J → M (Unit {0})
unfolding connect_with
connect env api hedge_of setting = do
  key ← or_throw (api.value_text setting (codes "api_key") [])
  secret ← or_throw (api.value_text setting (codes "secret_key") [])
  passphrase ← or_throw (api.value_text setting (codes "passphrase") [])
  server ← or_throw (api.value_text setting (codes "server") [])
  hedge_mode ← or_throw (hedge_of setting)
  connect_with env (record {
    key = key;
    secret = secret;
    passphrase = passphrase;
    server = server;
    hedge_mode = hedge_mode;
  })

unfoldable pub close : M (Unit {0})
close = emit_all (stop_rest ∷ stop_public ∷ stop_private ∷ [])
