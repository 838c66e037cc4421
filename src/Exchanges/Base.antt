-- ===== src/Exchanges/Base.antt =====
-- core/engine/exchange.cpp: `BaseExchange`. A method gives the events that it puts, in their order.
-- The event types are those of core/event/event.cpp.
use keen_trader.Base.{List, [], ◌∷◌, ◌++◌}
use keen_trader.Base.Text.{AString, codes}
use keen_trader.Objects.Market.{TickData, ContractData}
use keen_trader.Objects.Trading.{OrderData, TradeData, PositionData, AccountData, QuoteData}
use keen_trader.Events.Handlers.{Event}

-- The level and the time of a log keep their defaults.
pub record LogData : Type 0 where
  pub msg : AString
  pub exchange_name : AString

-- What the `std::any` of an event holds.
pub data EventData : Type 0 where
  tick : TickData → EventData
  trade : TradeData → EventData
  order : OrderData → EventData
  position : PositionData → EventData
  account : AccountData → EventData
  quote : QuoteData → EventData
  log : LogData → EventData
  contract : ContractData → EventData

abbrev pub Events : Type 0
Events = List (Event EventData)

abbrev pub event_tick : AString
event_tick = codes "eTick."

abbrev pub event_trade : AString
event_trade = codes "eTrade."

abbrev pub event_order : AString
event_order = codes "eOrder."

abbrev pub event_position : AString
event_position = codes "ePosition."

abbrev pub event_account : AString
event_account = codes "eAccount."

abbrev pub event_quote : AString
event_quote = codes "eQuote."

abbrev pub event_contract : AString
event_contract = codes "eContract."

abbrev pub event_log : AString
event_log = codes "eLog."

unfoldable pub on_event : AString → EventData → Event EventData
on_event type d = record { type = type; payload = d }

unfoldable pub on_tick : TickData → Events
unfolding on_event
on_tick t = on_event event_tick (tick t) ∷ on_event (event_tick ++ t.kt_symbol) (tick t) ∷ []

unfoldable pub on_trade : TradeData → Events
unfolding on_event
on_trade t = on_event event_trade (trade t) ∷ on_event (event_trade ++ t.kt_symbol) (trade t) ∷ []

unfoldable pub on_order : OrderData → Events
unfolding on_event
on_order o = on_event event_order (order o) ∷ on_event (event_order ++ o.kt_orderid) (order o) ∷ []

unfoldable pub on_position : PositionData → Events
unfolding on_event
on_position p =
    on_event event_position (position p)
    ∷ on_event (event_position ++ p.kt_symbol) (position p)
    ∷ []

unfoldable pub on_account : AccountData → Events
unfolding on_event
on_account a =
    on_event event_account (account a) ∷ on_event (event_account ++ a.kt_accountid) (account a) ∷ []

unfoldable pub on_quote : QuoteData → Events
unfolding on_event
on_quote q = on_event event_quote (quote q) ∷ on_event (event_quote ++ q.kt_symbol) (quote q) ∷ []

unfoldable pub on_log : LogData → Events
unfolding on_event
on_log l = on_event event_log (log l) ∷ []

unfoldable pub on_contract : ContractData → Events
unfolding on_event
on_contract c = on_event event_contract (contract c) ∷ []

unfoldable pub write_log : AString → AString → Events
unfolding on_log
write_log exchange_name msg = on_log (record {
  msg = codes "Exchange [" ++ exchange_name ++ codes "]: " ++ msg;
  exchange_name = exchange_name;
})
