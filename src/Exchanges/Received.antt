-- ===== src/Exchanges/Received.antt =====
-- core/engine/engine.cpp and core/engine/exchange.cpp: what `OmsEngine` gets of the events that an
-- exchange puts, by the event types that `register_event` registers.
use keen_trader.Base.{◌≡◌, refl, false, List, [], ◌∷◌, ◌++◌, if◌then◌else◌, arith}
use keen_trader.Base.Text.{AString, str_eq, str_eq_refl, is_empty}
use keen_trader.Objects.Market.{TickData, ContractData}
use keen_trader.Objects.Trading.{OrderData, TradeData, PositionData, AccountData, QuoteData}
use mathlib.Core.List.{append_assoc}
use keen_trader.Oms.Engine.{OmsEvent}
use keen_trader.Exchanges.Base.{
  EventData, Events, event_tick, event_trade, event_order, event_position, event_account,
  event_quote, event_contract, on_tick, on_trade, on_order, on_position, on_account, on_quote,
  on_contract, write_log,
}

abbrev pub when : AString → AString → OmsEvent → List OmsEvent
when type wanted event = if str_eq type wanted then event ∷ [] else []

-- The handler that is registered for a type. One that gets data of another type throws and changes nothing.
unfoldable pub handle : EventData → AString → List OmsEvent
handle (EventData.tick d) type = when type event_tick (OmsEvent.tick d)
handle (EventData.order d) type = when type event_order (OmsEvent.order d)
handle (EventData.trade d) type = when type event_trade (OmsEvent.trade d)
handle (EventData.position d) type = when type event_position (OmsEvent.position d)
handle (EventData.account d) type = when type event_account (OmsEvent.account d)
handle (EventData.contract d) type = when type event_contract (OmsEvent.contract d)
handle (EventData.quote d) type = when type event_quote (OmsEvent.quote d)
handle (EventData.log d) type = []

unfoldable pub received : Events → List OmsEvent
unfolding handle
received [] = []
received (e ∷ es) = handle e.payload e.type ++ received es

longer : (type key : AString) → is_empty key ≡ false → str_eq (type ++ key) type ≡ false
unfolding str_eq
longer [] [] h = cc
longer [] (c ∷ key) h = refl
longer (c ∷ type) key h = ground (arith, longer type key)

-- Of the two events for a datum the second has a longer type.
pub once :
    (type key : AString) (event : OmsEvent)
    → is_empty key ≡ false
    → when type type event ++ (when (type ++ key) type event ++ []) ≡ event ∷ []
once type key event h = rw (str_eq_refl type, longer type key h) refl

-- What `OmsEngine` gets of each method of `BaseExchange`: a datum with a key once, though two events are put for it, and nothing of a log.
pub received-methods :
    (t : TickData) (r : TradeData) (o : OrderData) (p : PositionData) (a : AccountData)
    (q : QuoteData) (c : ContractData) (name msg : AString)
    → is_empty t.kt_symbol ≡ false
    → is_empty r.kt_symbol ≡ false
    → is_empty o.kt_orderid ≡ false
    → is_empty p.kt_symbol ≡ false
    → is_empty a.kt_accountid ≡ false
    → is_empty q.kt_symbol ≡ false
    → (received (on_tick t) ≡ OmsEvent.tick t ∷ [])
      × (received (on_trade r) ≡ OmsEvent.trade r ∷ [])
      × (received (on_order o) ≡ OmsEvent.order o ∷ [])
      × (received (on_position p) ≡ OmsEvent.position p ∷ [])
      × (received (on_account a) ≡ OmsEvent.account a ∷ [])
      × (received (on_quote q) ≡ OmsEvent.quote q ∷ [])
      × (received (on_contract c) ≡ OmsEvent.contract c ∷ [])
      × (received (write_log name msg) ≡ [])
unfolding received on_tick on_trade on_order on_position on_account on_quote on_contract write_log
received-methods t r o p a q c name msg ht hr ho hp ha hq = (
  once event_tick t.kt_symbol (OmsEvent.tick t) ht,
  once event_trade r.kt_symbol (OmsEvent.trade r) hr,
  once event_order o.kt_orderid (OmsEvent.order o) ho,
  once event_position p.kt_symbol (OmsEvent.position p) hp,
  once event_account a.kt_accountid (OmsEvent.account a) ha,
  once event_quote q.kt_symbol (OmsEvent.quote q) hq,
  rw (str_eq_refl event_contract) refl,
  refl,
)

pub received-append : (es fs : Events) → received (es ++ fs) ≡ received es ++ received fs
unfolding received
received-append [] fs = refl
received-append (e ∷ es) fs = simp (received-append es fs, append_assoc)
