-- ===== src/Tests/OmsTests.antt =====
-- The theorems on `OmsEngine`, at concrete histories.
use keen_trader.Base.{◌≡◌, none, true, List, [], ◌∷◌}
use keen_trader.Base.Map.{lookup}
use keen_trader.Base.{keep_if}
use keen_trader.Objects.Constant.{Direction, Offset}
use keen_trader.Objects.Names.{is_active, quote_is_active}
use keen_trader.Oms.Engine.{
  OmsEvent, init, run, convert_order_request, get_tick, get_order, get_trade, get_position,
  get_account, get_contract, get_quote, order, contract, trade,
}
use keen_trader.Oms.History.{
  run_getters, run_active, latest, pick_tick, pick_order, pick_trade, pick_position, pick_account,
  pick_contract, pick_quote,
}
use keen_trader.Oms.Converters.{run_never_converts}
use keen_trader.Base.Text.{codes}
use keen_trader.Tests.Names.{names}
use keen_trader.Tests.Samples.{one, rb_contract, order_of, trade_of, request_of, units}

-- A contract, an order of it and a trade of the order.
abbrev day : List OmsEvent
day =
    contract rb_contract
    ∷ order (order_of (codes "CTP.1") Direction.long Offset.open_position (units 2))
    ∷ trade (trade_of (codes "CTP.1") (codes "CTP.7") Direction.long Offset.open_position (units 1))
    ∷ []

run_never_converts_example :
    let s = run names day init in
    convert_order_request one
      (request_of Direction.short Offset.close_position (units 1))
      (codes "CTP")
      true
      true
      s
    ≡ (request_of Direction.short Offset.close_position (units 1) ∷ [], s)
run_never_converts_example =
    run_never_converts names day one (request_of Direction.short Offset.close_position (units 1))
      (codes "CTP") true true

run_getters_example :
    let s = run names day init in
    let k = codes "CTP.1" in
    (get_tick s k ≡ latest pick_tick k day none)
    × (get_order s k ≡ latest pick_order k day none)
    × (get_trade s k ≡ latest pick_trade k day none)
    × (get_position s k ≡ latest pick_position k day none)
    × (get_account s k ≡ latest pick_account k day none)
    × (get_contract s k ≡ latest pick_contract k day none)
    × (get_quote s k ≡ latest pick_quote k day none)
run_getters_example = run_getters names day (codes "CTP.1")

run_active_example :
    let s = run names day init in
    let k = codes "CTP.1" in
    (lookup k s.active_orders ≡ keep_if is_active (latest pick_order k day none))
    × (lookup k s.active_quotes ≡ keep_if quote_is_active (latest pick_quote k day none))
run_active_example = run_active names day (codes "CTP.1")
