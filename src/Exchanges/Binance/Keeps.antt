-- ===== src/Exchanges/Binance/Keeps.antt =====
-- core/exchange/binance_linear_exchange.cpp: predicates on the client that every call keeps, from what
-- keeps them in the few places that change the state.
use keen_trader.Base.{Bool, true}
use keen_trader.Base.Text.{AString}
use keen_trader.Objects.Trading.{SubscribeRequest}
use keen_trader.Exchanges.Keeps.{Keeps, keeps_rules, Keeps-modify, Keeps-bind}
use keen_trader.Exchanges.Binance.State.{
  BinanceLinearExchange, BinanceRestApi, BinanceMdApi, Output, Env, log,
}
use keen_trader.Exchanges.Binance.Trade
use keen_trader.Exchanges.Binance.Md
use keen_trader.Exchanges.Binance.Rest
use keen_trader.Exchanges.Binance.Connect

pub Keeps-log : {P : BinanceLinearExchange → Type 0} (msg : AString) → Keeps P (log msg)
unfolding log
Keeps-log msg = search keeps_rules

-- A subscription changes the market data only.
pub Keeps-subscribe :
    {P : BinanceLinearExchange → Type 0}
    → ((f : BinanceMdApi → BinanceMdApi) (x : BinanceLinearExchange) → P x → P (Md.with_md f x))
    → (env : Env) (req : SubscribeRequest) → Keeps P (Md.subscribe env req)
unfolding Md.subscribe Md.subscribe_new
Keeps-subscribe k env req =
    search
      (
        keeps_rules,
        Keeps-log,
        λ (f : BinanceMdApi → BinanceMdApi). Keeps-modify {O = Output} (Md.with_md f) (k f),
      )
      depth 24

-- Connecting changes settings only.
pub Keeps-connect :
    {P : BinanceLinearExchange → Type 0}
    → ((f : BinanceRestApi → BinanceRestApi) (x : BinanceLinearExchange)
        → P x
        → P (Rest.with_rest f x))
    → ((x : BinanceLinearExchange) → P x → P (Md.with_md (λ m. record m { kline_stream = true }) x))
    → ((key secret server : AString) (x : BinanceLinearExchange)
        → P x
        → P (Trade.with_trade (λ t. record t { key = key; secret = secret; server = server }) x))
    → ((h : Bool) (x : BinanceLinearExchange) → P x → P (record x { hedge_mode = h }))
    → (setting : Connect.Setting) → Keeps P (Connect.connect_with setting)
unfolding Connect.connect_with
Keeps-connect rest md trade mode setting =
    Keeps-bind _ _ (Keeps-modify _ (mode setting.hedge_mode)) λ _.
      Keeps-bind _ _
        (Keeps-bind _ _ (Keeps-modify _ (rest _)) λ _. search (keeps_rules, Keeps-log) depth 24)
        λ _.
          Keeps-bind _ _
            (Keeps-bind _ _ (Keeps-modify _ md) λ _. search (keeps_rules, Keeps-log) depth 24)
            λ _.
              Keeps-bind _ _ (Keeps-modify _ (trade setting.key setting.secret setting.server))
                λ _. search (keeps_rules, Keeps-log) depth 24
