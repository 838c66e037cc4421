-- ===== src/Exchanges/Binance/Md.antt =====
-- core/exchange/binance_linear_exchange.cpp: `BinanceMdApi`, the subscriptions and the ticks that the
-- market data of the exchange keeps up to date.
use keen_trader.Base.{ℕ, suc, ◌+◌, Bool, not, ◌&&◌, List, [], ◌∷◌, ◌++◌, if◌then◌else◌, is_some}
use keen_trader.Base.Int.{ℤ, pos, ltb_ℤ, pos_part}
use keen_trader.Base.Text.{AString, codes, is_empty, str_eq, has_byte, before_first, after_first}
use keen_trader.Base.Map.{lookup, insert, map_values}
use keen_trader.Objects.Market.{Float, TickData, ContractData}
use keen_trader.Objects.Trading.{SubscribeRequest}
use keen_trader.Objects.Names.{tick_post_init}
use keen_trader.Exchanges.Base
use keen_trader.Exchanges.Json.{JsonApi, json_to_float}
use keen_trader.Exchanges.Ticks.{blank_tick, set_bid, set_ask}
use keen_trader.Exchanges.Utils.{str_to_lower, str_to_upper, atoll}
use keen_trader.Exchanges.Binance.State.{
  BinanceLinearExchange, BinanceMdApi, Env, M, subscribe_packet, emit, modify, gets, log,
  put_events, for_each, ◌>>=◌, ◌>>◌, pure, skip, or_throw, if_found,
}
use keen_trader.Exchanges.Binance.Linear

abbrev pub with_md : (BinanceMdApi → BinanceMdApi) → BinanceLinearExchange → BinanceLinearExchange
with_md f x = record x { md_api = f x.md_api }

module _ (env : Env) where
  abbrev pub new_tick : SubscribeRequest → ContractData → AString → TickData
  new_tick req contract exchange_name =
      tick_post_init env.names
        (blank_tick req.symbol req.exchange contract.name env.now exchange_name)

  unfoldable pub channels_of : AString → Bool → List AString
  channels_of name kline_stream =
      (name ++ codes "@ticker")
      ∷ (name ++ codes "@depth10")
      ∷ (if kline_stream then (name ++ codes "@kline_1m") ∷ [] else [])

  unfoldable pub subscribe_new : SubscribeRequest → ContractData → M (Unit {0})
  unfolding channels_of
  subscribe_new req contract = do
    exchange_name ← gets λ x. x.base.exchange_name
    modify (
        with_md λ m. record m {
          subscribed = insert req.symbol req m.subscribed;
          ticks = insert req.symbol (new_tick req contract exchange_name) m.ticks;
          reqid = m.reqid + 1;
        })
    md ← gets λ x. x.md_api
    emit (subscribe_packet md.reqid (channels_of (str_to_lower contract.name) md.kline_stream))

  unfoldable pub subscribe : SubscribeRequest → M (Unit {0})
  unfolding subscribe_new
  subscribe req = do
    found ← gets λ x. Linear.get_contract_by_symbol x req.symbol
    tick ← gets λ x. lookup req.symbol x.md_api.ticks
    if_found found (log (codes "Failed to subscribe data, symbol not found: " ++ req.symbol))
        (λ contract. if is_some tick then skip else subscribe_new req contract)

  unfoldable pub on_connected : M (Unit {0})
  unfolding subscribe
  on_connected = do
    log (codes "MD API connected")
    subscribed ← gets λ x. x.md_api.subscribed
    for_each (map_values subscribed) subscribe

  module _ {J : Type 0} (api : JsonApi J) where
    abbrev float : J → Float
    float = json_to_float api env.floats

    -- The time of an event in milliseconds, or zero.
    unfoldable pub event_time : J → ℤ
    event_time packet =
        let e = api.at packet (codes "E") in
        if api.contains packet (codes "E")
        then (if api.is_number e
            then api.int_of e
            else if api.is_string e
            then atoll (api.string_of e)
            else pos 0)
        else pos 0

    unfoldable pub stamp : J → TickData → TickData
    unfolding event_time
    stamp packet t =
        let ts = event_time packet in
        if ltb_ℤ (pos 0) ts then record t { datetime = pos_part ts } else t

    unfoldable pub ticker : J → TickData → TickData
    unfolding stamp json_to_float
    ticker d t = stamp d (record t {
      volume = float (api.at d (codes "v"));
      turnover = float (api.at d (codes "q"));
      open_price = float (api.at d (codes "o"));
      high_price = float (api.at d (codes "h"));
      low_price = float (api.at d (codes "l"));
      last_price = float (api.at d (codes "c"));
    })

    -- The levels of one side, from the level `i` on.
    unfoldable pub set_levels :
        (ℕ → Float → Float → TickData → TickData) → ℕ → List J → TickData → TickData
    unfolding json_to_float
    set_levels set i [] t = t
    set_levels set i (row ∷ rows) t =
        set_levels set (suc i) rows (set i (float (api.index row 0)) (float (api.index row 1)) t)

    unfoldable pub set_side : (ℕ → Float → Float → TickData → TickData) → J → TickData → TickData
    unfolding set_levels
    set_side set rows t = if api.is_array rows then set_levels set 0 (api.items rows) t else t

    unfoldable pub depth : J → TickData → M TickData
    unfolding set_side stamp set_bid set_ask
    depth d t = do
      bids ← or_throw (api.value_array d (codes "b"))
      asks ← or_throw (api.value_array d (codes "a"))
      pure (stamp d (set_side set_ask asks (set_side set_bid bids t)))

    -- The tick of the table is changed, and a copy of it put.
    unfoldable pub store_tick : AString → TickData → M (Unit {0})
    store_tick symbol t = do
      modify (with_md λ m. record m { ticks = insert symbol t m.ticks })
      put_events (Base.on_tick t)

    unfoldable pub on_channel : AString → J → AString → TickData → M (Unit {0})
    unfolding ticker depth store_tick
    on_channel channel d symbol t =
        if str_eq channel (codes "ticker")
        then store_tick symbol (ticker d t)
        else if str_eq channel (codes "depth10")
        then depth d t >>= store_tick symbol
        else skip

    unfoldable pub on_stream : AString → J → M (Unit {0})
    unfolding on_channel
    on_stream stream d = do
      found ← gets λ x. Linear.get_contract_by_name x (str_to_upper (before_first b'@' stream))
      if_found found skip (λ contract. do
        tick ← gets λ x. lookup contract.symbol x.md_api.ticks
        if_found tick skip (on_channel (after_first b'@' stream) d contract.symbol))

    unfoldable pub on_packet : J → M (Unit {0})
    unfolding on_stream
    on_packet packet =
        let known : M (Unit {0}) = do
          stream ← or_throw (api.value_text packet (codes "stream") [])
          if not (is_empty stream) && api.contains packet (codes "data") && has_byte b'@' stream
              then on_stream stream (api.at packet (codes "data"))
              else skip
        in if api.contains packet (codes "stream") then known else skip
