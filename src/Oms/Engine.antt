-- ===== src/Oms/Engine.antt =====
-- core/engine/engine.h and core/engine/engine.cpp: the state of `OmsEngine`, its event handlers and its queries. The converters
-- hold a pointer to the engine and call its `get_contract`: they read the contracts as they are at the time.
use keen_trader.Base.{ℕ, Bool, true, Option, none, some, List, [], ◌∷◌, if◌then◌else◌}
use keen_trader.Base.Text.{AString, str_eq, is_empty}
use keen_trader.Base.Lists.{select}
use keen_trader.Base.Map.{Map, lookup, insert, erase, contains, map_values}
use keen_trader.Objects.Market.{TickData, ContractData}
use keen_trader.Objects.Trading.{
  OrderData, TradeData, PositionData, AccountData, QuoteData, OrderRequest,
}
use keen_trader.Objects.Names.{EnumNames, is_active, quote_is_active}
use keen_trader.Converter.Dispatch.{OffsetConverter, new_converter}
use keen_trader.Converter.Dispatch

pub record OmsEngine : Type 0 where
  pub ticks : Map TickData
  pub orders : Map OrderData
  pub trades : Map TradeData
  pub positions : Map PositionData
  pub accounts : Map AccountData
  pub contracts : Map ContractData
  pub quotes : Map QuoteData
  pub active_orders : Map OrderData
  pub active_quotes : Map QuoteData
  pub offset_converters : Map OffsetConverter

abbrev pub init : OmsEngine
init = record {
  ticks = [];
  orders = [];
  trades = [];
  positions = [];
  accounts = [];
  contracts = [];
  quotes = [];
  active_orders = [];
  active_quotes = [];
  offset_converters = [];
}

unfoldable pub get_contract : OmsEngine → AString → Option ContractData
get_contract s kt_symbol = lookup kt_symbol s.contracts

-- A method of the converter for an exchange, where there is one.
unfoldable pub with_converter :
    AString → (OffsetConverter → OffsetConverter) → OmsEngine → OmsEngine
with_converter exchange_name f s = elim (lookup exchange_name s.offset_converters) [
  | none ↦ s
  | some c ↦ record s { offset_converters = insert exchange_name (f c) s.offset_converters }
]

unfoldable pub process_tick_event : TickData → OmsEngine → OmsEngine
process_tick_event tick s = record s { ticks = insert tick.kt_symbol tick s.ticks }

unfoldable pub store_order : OrderData → OmsEngine → OmsEngine
store_order order s = record s {
  orders = insert order.kt_orderid order s.orders;
  active_orders =
      if is_active order
      then insert order.kt_orderid order s.active_orders
      else if contains order.kt_orderid s.active_orders
      then erase order.kt_orderid s.active_orders
      else s.active_orders;
}

unfoldable pub process_order_event : OrderData → OmsEngine → OmsEngine
unfolding store_order with_converter
process_order_event order s =
    with_converter order.exchange_name (Dispatch.converter_update_order (get_contract s) order)
      (store_order order s)

unfoldable pub store_trade : TradeData → OmsEngine → OmsEngine
store_trade trade s = record s { trades = insert trade.kt_tradeid trade s.trades }

unfoldable pub process_trade_event : TradeData → OmsEngine → OmsEngine
unfolding store_trade with_converter
process_trade_event trade s =
    with_converter trade.exchange_name (Dispatch.converter_update_trade (get_contract s) trade)
      (store_trade trade s)

unfoldable pub store_position : PositionData → OmsEngine → OmsEngine
store_position position s = record s {
  positions = insert position.kt_positionid position s.positions;
}

unfoldable pub process_position_event : PositionData → OmsEngine → OmsEngine
unfolding store_position with_converter
process_position_event position s =
    with_converter position.exchange_name
      (Dispatch.converter_update_position (get_contract s) position) (store_position position s)

unfoldable pub process_account_event : AccountData → OmsEngine → OmsEngine
process_account_event account s = record s {
  accounts = insert account.kt_accountid account s.accounts;
}

unfoldable pub process_contract_event : ContractData → OmsEngine → OmsEngine
process_contract_event contract s = record s {
  contracts = insert contract.kt_symbol contract s.contracts;
  offset_converters =
      if contains contract.exchange_name s.offset_converters
      then insert contract.exchange_name new_converter s.offset_converters
      else s.offset_converters;
}

unfoldable pub process_quote_event : QuoteData → OmsEngine → OmsEngine
process_quote_event quote s = record s {
  quotes = insert quote.kt_quoteid quote s.quotes;
  active_quotes =
      if quote_is_active quote
      then insert quote.kt_quoteid quote s.active_quotes
      else if contains quote.kt_quoteid s.active_quotes
      then erase quote.kt_quoteid s.active_quotes
      else s.active_quotes;
}

-- The events for which `register_event` registers a handler, each with its data, and the calls of
-- `update_order_request` between them.
pub data OmsEvent : Type 0 where
  tick : TickData → OmsEvent
  order : OrderData → OmsEvent
  trade : TradeData → OmsEvent
  position : PositionData → OmsEvent
  account : AccountData → OmsEvent
  contract : ContractData → OmsEvent
  quote : QuoteData → OmsEvent
  order_request : OrderRequest → AString → AString → OmsEvent

unfoldable pub update_order_request :
    EnumNames → OrderRequest → AString → AString → OmsEngine → OmsEngine
unfolding with_converter
update_order_request names req kt_orderid exchange_name s =
    with_converter exchange_name
      (Dispatch.converter_update_order_request (get_contract s) names req kt_orderid) s

unfoldable pub convert_order_request :
    ℕ → OrderRequest → AString → Bool → Bool → OmsEngine → List OrderRequest × OmsEngine
convert_order_request one req exchange_name lock net s =
    elim (lookup exchange_name s.offset_converters) [
      | none ↦ (req ∷ [], s)
      | some c ↦
          let (reqs, c') = Dispatch.convert_order_request (get_contract s) one req lock net c in
          (reqs, record s { offset_converters = insert exchange_name c' s.offset_converters })
    ]

-- What `add_function` binds for the trade engine: the last argument of the call is not passed on, a literal 4 is.
unfoldable pub bound_convert_order_request :
    ℕ → OrderRequest → AString → Bool → Bool → OmsEngine → List OrderRequest × OmsEngine
unfolding convert_order_request
bound_convert_order_request one req exchange_name lock net s =
    convert_order_request one req exchange_name lock true s

module _ (names : EnumNames) where
  unfoldable pub step : OmsEvent → OmsEngine → OmsEngine
  unfolding process_tick_event process_order_event process_trade_event process_position_event
      process_account_event process_contract_event process_quote_event update_order_request
  step (tick d) s = process_tick_event d s
  step (order d) s = process_order_event d s
  step (trade d) s = process_trade_event d s
  step (position d) s = process_position_event d s
  step (account d) s = process_account_event d s
  step (contract d) s = process_contract_event d s
  step (quote d) s = process_quote_event d s
  step (order_request req kt_orderid name) s = update_order_request names req kt_orderid name s

  unfoldable pub run : List OmsEvent → OmsEngine → OmsEngine
  run [] s = s
  run (e ∷ es) s = run es (step e s)

unfoldable pub get_tick : OmsEngine → AString → Option TickData
get_tick s kt_symbol = lookup kt_symbol s.ticks

unfoldable pub get_order : OmsEngine → AString → Option OrderData
get_order s kt_orderid = lookup kt_orderid s.orders

unfoldable pub get_trade : OmsEngine → AString → Option TradeData
get_trade s kt_tradeid = lookup kt_tradeid s.trades

unfoldable pub get_position : OmsEngine → AString → Option PositionData
get_position s kt_positionid = lookup kt_positionid s.positions

unfoldable pub get_account : OmsEngine → AString → Option AccountData
get_account s kt_accountid = lookup kt_accountid s.accounts

unfoldable pub get_quote : OmsEngine → AString → Option QuoteData
get_quote s kt_quoteid = lookup kt_quoteid s.quotes

unfoldable pub get_all_active_orders : OmsEngine → AString → List OrderData
get_all_active_orders s kt_symbol =
    if is_empty kt_symbol
    then map_values s.active_orders
    else select (λ o. str_eq o.kt_symbol kt_symbol) (map_values s.active_orders)

unfoldable pub get_all_active_quotes : OmsEngine → AString → List QuoteData
get_all_active_quotes s kt_symbol =
    if is_empty kt_symbol
    then map_values s.active_quotes
    else select (λ q. str_eq q.kt_symbol kt_symbol) (map_values s.active_quotes)
