-- ===== src/Exchanges/Okx/Public.antt =====
-- core/exchange/okx_exchange.cpp: `OkxWebsocketPublicApi`, the subscriptions and the ticks that the market
-- data of the exchange keeps up to date.
use keen_trader.Base.{ℕ, none, some, List, [], ◌∷◌, ◌++◌, if◌then◌else◌}
use keen_trader.Base.Int.{ltb_ℤ, ◌-ℤ◌, zero_float}
use keen_trader.Base.Text.{AString, codes, str_eq}
use keen_trader.Base.Map.{lookup, insert, map_values, found_or}
use keen_trader.Base.Decimal.{int_text}
use keen_trader.Objects.Constant.{Exchange}
use keen_trader.Objects.Market.{Float, TickData, ContractData}
use keen_trader.Objects.Trading.{SubscribeRequest}
use keen_trader.Objects.Names.{tick_post_init}
use keen_trader.Exchanges.Base
use keen_trader.Exchanges.Handler.{
  ◌>>=◌, ◌>>◌, gets, modify, emit, or_throw, if_found, skip, for_each,
}
use keen_trader.Exchanges.Json.{JsonApi, json_to_float, field, field_text, text_of, nth}
use keen_trader.Exchanges.Ticks.{blank_tick, set_bid, set_ask}
use keen_trader.Exchanges.Okx.State.{
  OkxExchange, Env, M, subscribe_packet, put_events, log, with_public,
}
use keen_trader.Exchanges.Okx.Client
use keen_trader.Exchanges.Okx.Client.{time_of}

module _ (env : Env) where
  abbrev pub new_tick : SubscribeRequest → ContractData → AString → TickData
  new_tick req contract exchange_name =
      tick_post_init env.names
        (blank_tick req.symbol req.exchange contract.name env.now exchange_name)

  unfoldable pub subscribe_known : SubscribeRequest → ContractData → M (Unit {0})
  subscribe_known req contract = do
    exchange_name ← gets λ x. x.base.exchange_name
    modify (
        with_public λ p. record p {
          subscribed = insert req.symbol req p.subscribed;
          ticks = insert req.symbol (new_tick req contract exchange_name) p.ticks;
        })
    emit (subscribe_packet (codes "tickers" ∷ codes "books5" ∷ []) contract.name)

  unfoldable pub subscribe : SubscribeRequest → M (Unit {0})
  unfolding subscribe_known
  subscribe req = do
    found ← gets λ x. Client.get_contract_by_symbol x req.symbol
    if_found found (log (codes "Failed to subscribe data, symbol not found: " ++ req.symbol))
        (subscribe_known req)

  unfoldable pub on_connected : M (Unit {0})
  unfolding subscribe
  on_connected = do
    log (codes "Websocket Public API connection successful")
    subscribed ← gets λ x. x.public_api.subscribed
    for_each (map_values subscribed) subscribe

  module _ {J : Type 0} (api : JsonApi J) where
    abbrev float : J → Float
    float = json_to_float api env.floats

    -- `ticks[symbol]`, which makes a tick of defaults for a symbol that has none. The exchange of one is
    -- not set there: it stands as the first.
    abbrev tick_for : AString → OkxExchange → TickData
    tick_for symbol x =
        found_or (blank_tick [] Exchange.cffex [] 0 []) (lookup symbol x.public_api.ticks)

    -- A change of the tick in its place.
    unfoldable pub change_tick : AString → (TickData → TickData) → M (Unit {0})
    change_tick symbol f =
        modify λ x.
          with_public (λ p. record p { ticks = insert symbol (f (tick_for symbol x)) p.ticks }) x

    -- The time of the tick, and the event.
    unfoldable pub stamp_tick : J → AString → M (Unit {0})
    unfolding change_tick
    stamp_tick d symbol = do
      ts ← or_throw (field_text api d (codes "ts"))
      change_tick symbol λ t. record t { datetime = time_of ts }
      tick ← gets (tick_for symbol)
      put_events (Base.on_tick tick)

    -- One entry of `on_ticker`.
    unfoldable pub on_one_ticker : J → M (Unit {0})
    unfolding json_to_float change_tick stamp_tick
    on_one_ticker d = do
      symbol ← or_throw (field_text api d (codes "instId"))
      volume ← or_throw (field api d (codes "vol24h"))
      last ← or_throw (field api d (codes "last"))
      opened ← or_throw (field api d (codes "open24h"))
      high ← or_throw (field api d (codes "high24h"))
      low ← or_throw (field api d (codes "low24h"))
      turnover ← or_throw (field api d (codes "volCcy24h"))
      change_tick symbol λ t. record t {
        last_price = float last;
        open_price = float opened;
        high_price = float high;
        low_price = float low;
        last_volume = if ltb_ℤ zero_float t.volume then float volume -ℤ t.volume else zero_float;
        volume = float volume;
        turnover = float turnover;
      }
      stamp_tick d symbol

    unfoldable pub on_ticker : List J → M (Unit {0})
    unfolding on_one_ticker
    on_ticker data_ = for_each data_ on_one_ticker

    -- Levels of one side, which `set` stores with a price and a volume.
    unfoldable pub set_levels :
        (ℕ → Float → Float → TickData → TickData) → AString → List J → List ℕ → M (Unit {0})
    unfolding nth json_to_float change_tick
    set_levels set symbol levels is = for_each is λ i. do
      level ← or_throw (nth api levels i)
      price ← or_throw (nth api (api.items level) 0)
      volume ← or_throw (nth api (api.items level) 1)
      change_tick symbol (set i (float price) (float volume))

    abbrev five : List ℕ
    five = 0 ∷ 1 ∷ 2 ∷ 3 ∷ 4 ∷ []

    -- One entry of `on_depth`.
    unfoldable pub on_one_depth : J → M (Unit {0})
    unfolding set_levels stamp_tick
    on_one_depth d = do
      symbol ← or_throw (field_text api d (codes "instId"))
      bids ← or_throw (field api d (codes "bids"))
      asks ← or_throw (field api d (codes "asks"))
      set_levels set_bid symbol (api.items bids) five
      set_levels set_ask symbol (api.items asks) five
      stamp_tick d symbol

    unfoldable pub on_depth : List J → M (Unit {0})
    unfolding on_one_depth
    on_depth data_ = for_each data_ on_one_depth

    -- The callbacks of the channels.
    unfoldable pub dispatch : AString → List J → M (Unit {0})
    unfolding on_ticker on_depth
    dispatch channel data_ =
        if str_eq channel (codes "tickers")
        then on_ticker data_
        else if str_eq channel (codes "books5")
        then on_depth data_
        else skip

    -- A packet with an event: answers to subscriptions, and errors.
    unfoldable pub on_event : J → M (Unit {0})
    on_event packet = do
      event ← or_throw (text_of api (api.at packet (codes "event")))
      let failed : M (Unit {0}) = do
        code ← or_throw (field api packet (codes "code"))
        number ← or_throw (if api.is_number code then some (api.int_of code) else none)
        msg ← or_throw (field_text api packet (codes "message"))
        log (
            codes "Websocket Public API request exception, status code: "
            ++ int_text number
            ++ codes ", information: "
            ++ msg)
      if str_eq event (codes "subscribe")
          then skip
          else if str_eq event (codes "error")
          then failed
          else skip

    unfoldable pub on_packet : J → M (Unit {0})
    unfolding on_event dispatch
    on_packet packet =
        let update : M (Unit {0}) = do
          arg ← or_throw (field api packet (codes "arg"))
          channel ← or_throw (field_text api arg (codes "channel"))
          data_ ← or_throw (field api packet (codes "data"))
          dispatch channel (api.items data_)
        in if api.contains packet (codes "event") then on_event packet else update
