-- ===== src/Tests/CtaTests.antt =====
-- The theorems on strategies and their engine, at concrete states.
use keen_trader.Base.{ℕ, ◌≡◌, ◌+◌, ◌++◌, inl, inr, refl, arith, some, true, false, List, [], ◌∷◌}
use keen_trader.Base.Int.{pos, negsuc, ◌+ℤ◌, ◌-ℤ◌, trunc, zero_float}
use keen_trader.Base.Text.{AString, codes, str_eq}
use keen_trader.Base.Lists.{All}
use keen_trader.Base.Map.{lookup}
use keen_trader.Objects.Constant.{Direction, Offset, OrderType}
use keen_trader.Objects.Market.{Float, TickData}
use keen_trader.Objects.Trading.{OrderRequest}
use keen_trader.Oms.Engine
use keen_trader.Oms.Engine.{get_contract, bound_convert_order_request}
use keen_trader.Cta.Calls.{OrderCall, send, live}
use keen_trader.Cta.TargetPos.{
  TargetPosTemplate, new_template, set_target_pos, send_new_order, pos_change, order_prices,
}
use keen_trader.Cta.Targets.{
  run_never_sends, send_new_order_moves, set_target_pos_ignored, MovesToTarget, TargetEvent, run,
  tick, flags, target,
}
use keen_trader.Cta.Objects.{
  CtaEngine, StopOrder, orderids_of, on_stop, strategy_event, send_order, on_stop_order,
  stop_order_event, cancelled, triggered, new_strategy,
}
use keen_trader.Cta.Send.{send_server_order}
use keen_trader.Cta.StopOrders.{
  stop_orderid_of, new_stop_order, send_local_stop_order, cancel_local_stop_order, check_one,
}
use keen_trader.Cta.Positions.{run_trades_position, run_trades, distinct, bought, sold}
use keen_trader.Cta.Orders.{starts_with}
use keen_trader.Cta.Sent.{send_server_order-IsRelated, IsRelated}
use keen_trader.Cta.Stops.{
  cancel-send_local_stop_order, check_one_triggers, IsDropped, IsSent, IsTriggerPrice, IsLimitOrder,
}
use keen_trader.Cta.Tracked.{IsTracked}
use keen_trader.Cta.Strategies.{stop_strategy}
use keen_trader.Cta.Stopped.{stop_strategy_cancels, cancels_of}
use keen_trader.Cta.Rounding.{round_to, round_to-IsRounding, IsRounding}
use keen_trader.Cta.Histories.{
  Operation, send_local, trade, stop, perform_all, perform_all-IsTracked,
}
use keen_trader.Tests.Names.{names}
use keen_trader.Tests.Samples.{one, rb, rb_contract, trade_of, tick_at, units}

-- The engine answers each order with one id.
abbrev answer : OrderCall → List AString
answer c = codes "CTP.1" ∷ []

abbrev events : List TargetEvent
events = flags true true ∷ tick (tick_at 60000 (units 35) (units 5)) ∷ target (units 3) ∷ []

run_never_sends_example :
    (s' : TargetPosTemplate) × (run answer live one events (new_template one) ≡ some (s', []))
run_never_sends_example = run_never_sends answer live one events

-- A trading strategy, short two, that wants to be long three.
abbrev short_two : TargetPosTemplate
short_two = record (new_template one) {
  trading = true;
  position = negsuc 199;
  target_pos = units 3;
  last_tick = some (tick_at 60000 (units 35) (units 5));
}

send_new_order_moves_example :
    (s' : TargetPosTemplate) × (c : OrderCall) × (send_new_order answer live one short_two
      ≡ some (s', send c ∷ []))
    × MovesToTarget short_two.position (pos_change one short_two) c
unfolding pos_change ◌-ℤ◌ trunc order_prices
send_new_order_moves_example = send_new_order_moves answer one short_two refl refl refl refl

abbrev under_way : TargetPosTemplate
under_way = record short_two { active_orderids = codes "CTP.1" ∷ [] }

set_target_pos_ignored_example :
    set_target_pos answer live one (units 1) under_way
    ≡ some (record under_way { target_pos = units 1 }, [])
set_target_pos_ignored_example =
    set_target_pos_ignored answer one (units 1) under_way (codes "CTP.1") [] refl (inl refl)

round_to-IsRounding_example :
    (r : Float) × (round_to (pos 3549) (units 1) ≡ some r) × IsRounding (pos 3549) (units 1) r
round_to-IsRounding_example = round_to-IsRounding (pos 3549) (units 1) (ground arith) (ground arith)

-- One strategy that is registered and trades, with one order.
abbrev engine : CtaEngine
engine = record {
  objects =
      λ a. record (new_strategy (codes "Turtle") (codes "t1") rb) { inited = true; trading = true };
  allocated = 1;
  classes = codes "Turtle" ∷ [];
  strategies = (codes "t1", 0) ∷ [];
  symbol_strategy_map = (rb, 0 ∷ []) ∷ [];
  orderid_strategy_map = (codes "CTP.1", 0) ∷ [];
  strategy_orderid_map = (codes "t1", codes "CTP.1" ∷ []) ∷ [];
  stop_order_count = 0;
  stop_orders = [];
  kt_tradeids = [];
  strategy_setting = [];
  oms = record Engine.init { contracts = (rb, rb_contract) ∷ [] };
  sent = 0;
  dangling = false;
}

-- The exchange takes every request.
abbrev reply : ℕ → OrderRequest → AString → AString
reply n req name = codes "CTP.2"

run_trades_position_example :
    let t =
      trade_of (codes "CTP.1") (codes "CTP.7") Direction.long Offset.open_position (units 2) in
    let ts = t ∷ t ∷ [] in
    ((run_trades ts engine).objects 0).position
    ≡ zero_float
      +ℤ bought engine.orderid_strategy_map 0 (distinct [] ts)
      -ℤ sold engine.orderid_strategy_map 0 (distinct [] ts)
run_trades_position_example =
    let t =
      trade_of (codes "CTP.1") (codes "CTP.7") Direction.long Offset.open_position (units 2) in
    run_trades_position 0 (t ∷ t ∷ []) engine

send_server_order-IsRelated_example :
    let r =
      send_server_order names reply one 0 rb_contract Direction.long Offset.open_position
        (units 35)
        (units 2)
        OrderType.limit
        false
        false
        engine in
    All (IsRelated 0 r.1) r.0
send_server_order-IsRelated_example =
    send_server_order-IsRelated names reply one 0 rb_contract Direction.long Offset.open_position
      (units 35) (units 2) OrderType.limit false false engine

cancel-send_local_stop_order_example :
    let id = stop_orderid_of (0 + 1) in
    let sent =
      send_local_stop_order 0 Direction.short Offset.close_position
        (units 30)
        (units 2)
        false
        false
        engine in
    (sent.0 ≡ id ∷ [])
    × (r : StopOrder) × (s' : CtaEngine) × IsSent
        (engine.objects 0)
        id
        Direction.short
        Offset.close_position
        (units 30)
        (units 2)
        r
    × (sent.2 ≡ on_stop_order 0 r ∷ stop_order_event r ∷ [])
    × (cancel_local_stop_order id sent.1
        ≡ some (
          s',
          on_stop_order 0 (record r { status = cancelled })
              ∷ stop_order_event (record r { status = cancelled })
              ∷ [],
        ))
    × IsDropped id (codes "t1") engine s'
unfolding lookup str_eq
cancel-send_local_stop_order_example =
    cancel-send_local_stop_order 0 Direction.short Offset.close_position (units 30) (units 2) false
      false engine refl

no_stops-IsTracked : IsTracked engine
unfolding lookup
no_stops-IsTracked k o h = absurd (cc h)

abbrev with_stop : CtaEngine
with_stop =
    (send_local_stop_order 0 Direction.short Offset.close_position (units 30) (units 2) false false
      engine).1

stop_strategy_cancels_example :
    (s' : CtaEngine) × (stop_strategy names (codes "t1") engine
      ≡ some (
        s',
        on_stop 0 ∷ cancels_of names (orderids_of (codes "t1") engine) engine.oms
            ++ strategy_event 0 ∷ [],
      ))
    × ((s'.objects 0).trading ≡ false)
    × (s'.stop_orders ≡ engine.stop_orders)
    × (s'.dangling ≡ engine.dangling)
    × (orderids_of (codes "t1") s' ≡ orderids_of (codes "t1") engine)
unfolding lookup str_eq starts_with
stop_strategy_cancels_example =
    stop_strategy_cancels names (codes "t1") 0 engine refl refl refl (refl, tt)

abbrev sell_stop : StopOrder
sell_stop =
    new_stop_order (engine.objects 0) (stop_orderid_of 1) Direction.short Offset.close_position
      (units 30) (units 2) false false

abbrev low_tick : TickData
low_tick = tick_at 60000 (units 29) (units 5)

check_one_triggers_example :
    (p : Float) × (r : OrderRequest) × (s' : CtaEngine) × IsTriggerPrice low_tick Direction.short p
    × IsLimitOrder rb_contract sell_stop p r
    × (let id = reply with_stop.sent r rb_contract.exchange_name in
        let ended = record sell_stop { status = triggered; kt_orderids = id ∷ [] } in
        (check_one names reply one low_tick sell_stop with_stop
          ≡ some (
            s',
            send_order r rb_contract.exchange_name
                ∷ on_stop_order 0 ended
                ∷ stop_order_event ended
                ∷ [],
          ))
        × (lookup id s'.orderid_strategy_map ≡ some 0))
    × IsDropped (stop_orderid_of 1) (codes "t1") with_stop s'
unfolding new_stop_order lookup str_eq get_contract send_local_stop_order
check_one_triggers_example =
    check_one_triggers names reply one 0 low_tick sell_stop rb_contract with_stop refl
      (inr (refl, ground arith)) refl refl refl (λ r. refl)

-- A stop order, a trade, and the end of the strategy.
abbrev session : List Operation
session =
    send_local 0 Direction.short Offset.close_position (units 30) (units 2) false false
    ∷ trade (trade_of (codes "CTP.1") (codes "CTP.7") Direction.long Offset.open_position (units 2))
    ∷ stop (codes "t1")
    ∷ []

perform_all-IsTracked_example :
    (s' : CtaEngine) × (perform_all names reply one session engine ≡ some s') × IsTracked s'
unfolding lookup str_eq
perform_all-IsTracked_example =
    perform_all-IsTracked names reply one session engine no_stops-IsTracked
      (refl, (tt, ((0, refl), tt)))
