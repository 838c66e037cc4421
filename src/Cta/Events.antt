-- ===== src/Cta/Events.antt =====
-- app/cta_strategy/engine.cpp: the handlers of orders and trades.
use keen_trader.Base.{ℕ, false, not, ◌&&◌, none, some, List, [], ◌∷◌, ◌++◌, if◌then◌else◌}
use keen_trader.Base.Int.{◌+ℤ◌, ◌-ℤ◌}
use keen_trader.Base.Text.{AString}
use keen_trader.Base.Map.{lookup, insert, member, add, remove}
use keen_trader.Objects.Constant.{Direction, long, stop}
use keen_trader.Objects.Market.{Float}
use keen_trader.Objects.Trading.{OrderData, TradeData}
use keen_trader.Objects.Names.{is_active}
use keen_trader.Cta.Objects.{
  StopOrder, CtaEngine, Output, on_order, on_trade, on_stop_order, strategy_event, stop_status_map,
  update_object, orderids_of,
}

unfoldable pub signed_volume : Direction → Float → Float → Float
signed_volume long position volume = position +ℤ volume
signed_volume _ position volume = position -ℤ volume

-- A trade of an order of the strategy at an address.
unfoldable pub trade_of : TradeData → ℕ → CtaEngine → CtaEngine × List Output
unfolding update_object signed_volume
trade_of trade a s = (
  update_object a
      (λ t. record t { position = signed_volume trade.direction t.position trade.volume }) s,
  on_trade a trade ∷ strategy_event a ∷ [],
)

unfoldable pub process_trade_event : TradeData → CtaEngine → CtaEngine × List Output
unfolding trade_of
process_trade_event trade s =
    if member trade.kt_tradeid s.kt_tradeids
    then (s, [])
    else let seen = record s { kt_tradeids = add trade.kt_tradeid s.kt_tradeids } in
      elim (lookup trade.kt_orderid s.orderid_strategy_map) [
        | none ↦ (seen, [])
        | some a ↦ trade_of trade a seen
      ]

-- The stop order that stands for a server stop order.
unfoldable pub server_stop_order : OrderData → AString → StopOrder
unfolding stop_status_map
server_stop_order order strategy_name = record {
  kt_symbol = order.kt_symbol;
  direction = order.direction;
  offset = order.offset;
  price = order.price;
  volume = order.volume;
  stop_orderid = order.kt_orderid;
  strategy_name = strategy_name;
  datetime = order.datetime;
  lock = false;
  net = false;
  kt_orderids = order.kt_orderid ∷ [];
  status = stop_status_map order.status;
}

unfoldable pub order_of : OrderData → ℕ → CtaEngine → CtaEngine × List Output
unfolding server_stop_order
order_of order a s =
    let name = (s.objects a).strategy_name in
    let kt_orderids = orderids_of name s in
    (
      record s {
        strategy_orderid_map =
            insert name
              (if member order.kt_orderid kt_orderids && not (is_active order)
                then remove order.kt_orderid kt_orderids
                else kt_orderids)
              s.strategy_orderid_map;
      },
      elim order.type [ stop ↦ on_stop_order a (server_stop_order order name) ∷ [] | _ ↦ [] ]
          ++ on_order a order ∷ [],
    )

unfoldable pub process_order_event : OrderData → CtaEngine → CtaEngine × List Output
unfolding order_of
process_order_event order s = elim (lookup order.kt_orderid s.orderid_strategy_map) [
  | none ↦ (s, [])
  | some a ↦ order_of order a s
]
