-- ===== src/Cta/Objects.antt =====
-- app/cta_strategy/base.h, app/cta_strategy/template.h and app/cta_strategy/engine.h: stop orders, strategies and the state of `CtaEngine`. A pointer to a strategy is its address in `objects`; strategies are never deleted.
use keen_trader.Base.{ℕ, Bool, false, Option, none, some, List, [], if◌then◌else◌, ◌==◌}
use keen_trader.Base.Int.{zero_float}
use keen_trader.Base.Text.{AString}
use keen_trader.Base.Map.{Map, AStringSet, lookup}
use keen_trader.Objects.Constant.{
  Direction, Offset, Status, submitting, not_traded, part_traded, all_traded, rejected,
}
use keen_trader.Objects.Market.{Float, DateTime, TickData}
use keen_trader.Objects.Trading.{
  OrderData, TradeData, OrderRequest, CancelRequest, SubscribeRequest,
}
use keen_trader.Oms.Engine.{OmsEngine}

pub data StopOrderStatus : Type 0 where
  waiting cancelled triggered : StopOrderStatus

-- `STOP_STATUS_MAP`
unfoldable pub stop_status_map : Status → StopOrderStatus
stop_status_map submitting = waiting
stop_status_map not_traded = waiting
stop_status_map part_traded = triggered
stop_status_map all_traded = triggered
stop_status_map Status.cancelled = cancelled
stop_status_map rejected = cancelled

pub record StopOrder : Type 0 where
  pub kt_symbol : AString
  pub direction : Direction
  pub offset : Offset
  pub price : Float
  pub volume : Float
  pub stop_orderid : AString
  pub strategy_name : AString
  pub datetime : DateTime
  pub lock : Bool
  pub net : Bool
  pub kt_orderids : List AString
  pub status : StopOrderStatus

pub record CtaTemplate : Type 0 where
  pub class_name : AString
  pub strategy_name : AString
  pub kt_symbol : AString
  pub inited : Bool
  pub trading : Bool
  pub position : Float

-- The constructor.
abbrev pub new_strategy : AString → AString → AString → CtaTemplate
new_strategy class_name strategy_name kt_symbol = record {
  class_name = class_name;
  strategy_name = strategy_name;
  kt_symbol = kt_symbol;
  inited = false;
  trading = false;
  position = zero_float;
}

pub data Message : Type 0 where
  contract_not_found order_not_found : AString → Message
  duplicate_name class_not_found no_exchange_suffix : AString → Message
  already_inited starts_init subscription_failed init_completed : AString → Message
  not_inited already_started removal_failed : AString → Message

-- What the engine does to the outside, in order: calls of the strategies' methods, of the trade engine, events and files.
pub data Output : Type 0 where
  on_init on_start on_stop : ℕ → Output
  on_tick : ℕ → TickData → Output
  on_order : ℕ → OrderData → Output
  on_trade : ℕ → TradeData → Output
  on_stop_order : ℕ → StopOrder → Output
  send_order : OrderRequest → AString → Output
  cancel_order : CancelRequest → AString → Output
  subscribe : SubscribeRequest → AString → Output
  stop_order_event : StopOrder → Output
  strategy_event : ℕ → Output
  log : Message → Output
  save_setting : Output

-- A value of `strategy_setting`; `setting` is the text of the JSON value.
pub record StrategySetting : Type 0 where
  pub class_name : AString
  pub kt_symbol : AString
  pub setting : AString

-- `oms` is what the engine asks the trade engine for, `sent` counts the requests that exchanges got, and
-- `dangling` is set when the code has used an erased entry of a map: from there on its behaviour is undefined.
pub record CtaEngine : Type 0 where
  pub objects : ℕ → CtaTemplate
  pub allocated : ℕ
  pub classes : AStringSet
  pub strategies : Map ℕ
  pub symbol_strategy_map : Map (List ℕ)
  pub orderid_strategy_map : Map ℕ
  pub strategy_orderid_map : Map AStringSet
  pub stop_order_count : ℕ
  pub stop_orders : Map StopOrder
  pub kt_tradeids : AStringSet
  pub strategy_setting : Map StrategySetting
  pub oms : OmsEngine
  pub sent : ℕ
  pub dangling : Bool

-- `*strategy = f(*strategy)`
unfoldable pub update_object : ℕ → (CtaTemplate → CtaTemplate) → CtaEngine → CtaEngine
update_object a f s = record s { objects = λ b. if b == a then f (s.objects a) else s.objects b }

-- `map[key]` on a map of collections, which makes an empty one.
abbrev pub or_empty : {A : Type 0} → Option (List A) → List A
or_empty none = []
or_empty (some xs) = xs

abbrev pub orderids_of : AString → CtaEngine → AStringSet
orderids_of name s = or_empty (lookup name s.strategy_orderid_map)
