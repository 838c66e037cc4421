-- ===== src/Cta/StopOrders.antt =====
-- app/cta_strategy/engine.cpp: local stop orders. An entry that is erased and then used is read as it was, and
-- the state records that the behaviour is undefined from there on.
use keen_trader.Base.{
  ℕ, ◌+◌, Bool, true, false, not, Option, none, some, List, [], ◌∷◌, ◌++◌, if◌then◌else◌,
}
use keen_trader.Base.Int.{leb_ℤ, is_nonzero}
use keen_trader.Base.Text.{AString, codes, dot, str_eq}
use keen_trader.Base.Decimal.{decimal}
use keen_trader.Base.Map.{Map, lookup, insert, erase, member, add, remove}
use keen_trader.Objects.Constant.{Direction, Offset, long, short}
use keen_trader.Objects.Market.{Float, TickData, ContractData}
use keen_trader.Objects.Trading.{OrderRequest}
use keen_trader.Objects.Names.{EnumNames}
use keen_trader.Oms.Engine.{get_contract}
use keen_trader.Cta.Objects.{
  StopOrder, CtaEngine, CtaTemplate, Output, on_stop_order, stop_order_event, orderids_of, waiting,
  triggered, cancelled,
}
use keen_trader.Cta.Send.{send_limit_order}

abbrev pub stoporder_prefix : AString
stoporder_prefix = codes "STOP"

unfoldable pub new_stop_order :
    CtaTemplate → AString → Direction → Offset → Float → Float → Bool → Bool → StopOrder
new_stop_order strategy stop_orderid direction offset price volume lock net = record {
  kt_symbol = strategy.kt_symbol;
  direction = direction;
  offset = offset;
  price = price;
  volume = volume;
  stop_orderid = stop_orderid;
  strategy_name = strategy.strategy_name;
  datetime = 0;
  lock = lock;
  net = net;
  kt_orderids = [];
  status = waiting;
}

unfoldable pub stop_orderid_of : ℕ → AString
stop_orderid_of count = stoporder_prefix ++ dot ∷ decimal count

unfoldable pub send_local_stop_order :
    ℕ
    → Direction
    → Offset
    → Float
    → Float
    → Bool
    → Bool
    → CtaEngine
    → (List AString) × CtaEngine × List Output
unfolding new_stop_order stop_orderid_of
send_local_stop_order a direction offset price volume lock net s =
    let count = s.stop_order_count + 1 in
    let stop_orderid = stop_orderid_of count in
    let name = (s.objects a).strategy_name in
    let stop_order =
      new_stop_order (s.objects a) stop_orderid direction offset price volume lock net in
    (
      stop_orderid ∷ [],
      record s {
        stop_order_count = count;
        stop_orders = insert stop_orderid stop_order s.stop_orders;
        strategy_orderid_map =
            insert name (add stop_orderid (orderids_of name s)) s.strategy_orderid_map;
      },
      on_stop_order a stop_order ∷ stop_order_event stop_order ∷ [],
    )

-- Both an erased stop order's id leaves the set of its strategy, and the erased entry is used.
unfoldable pub drop_stop_order : AString → AString → CtaEngine → CtaEngine
drop_stop_order stop_orderid name s =
    let kt_orderids = orderids_of name s in
    record s {
      stop_orders = erase stop_orderid s.stop_orders;
      strategy_orderid_map =
          insert name
            (if member stop_orderid kt_orderids
              then remove stop_orderid kt_orderids
              else kt_orderids)
            s.strategy_orderid_map;
      dangling = true;
    }

-- `none` is a strategy that is not there.
unfoldable pub cancel_stop_order :
    StopOrder → AString → CtaEngine → Option (CtaEngine × List Output)
unfolding drop_stop_order
cancel_stop_order stop_order stop_orderid s = elim (lookup stop_order.strategy_name s.strategies) [
  | none ↦ none
  | some a ↦
      let ended = record stop_order { status = cancelled } in
      some (
        drop_stop_order stop_orderid (s.objects a).strategy_name s,
        on_stop_order a ended ∷ stop_order_event ended ∷ [],
      )
]

unfoldable pub cancel_local_stop_order : AString → CtaEngine → Option (CtaEngine × List Output)
unfolding cancel_stop_order
cancel_local_stop_order stop_orderid s = elim (lookup stop_orderid s.stop_orders) [
  | none ↦ some (s, [])
  | some stop_order ↦ cancel_stop_order stop_order stop_orderid s
]

unfoldable pub is_triggered : TickData → StopOrder → Bool
is_triggered tick o = elim o.direction [
  | long ↦ leb_ℤ o.price tick.last_price
  | short ↦ leb_ℤ tick.last_price o.price
  | _ ↦ false
]

-- The price of the limit order for a stop order that triggered.
unfoldable pub trigger_price : TickData → Direction → Float
trigger_price tick long = if is_nonzero tick.limit_up then tick.limit_up else tick.ask_price_5
trigger_price tick _ = if is_nonzero tick.limit_down then tick.limit_down else tick.bid_price_5

unfoldable pub placed : ℕ → StopOrder → List AString → CtaEngine → CtaEngine × List Output
unfolding drop_stop_order
placed a stop_order [] s = (s, [])
placed a stop_order (id ∷ ids) s =
    let ended = record stop_order { status = triggered; kt_orderids = id ∷ ids } in
    (
      drop_stop_order stop_order.stop_orderid (s.objects a).strategy_name s,
      on_stop_order a ended ∷ stop_order_event ended ∷ [],
    )

module _ (names : EnumNames) (reply : ℕ → OrderRequest → AString → AString) (one : ℕ) where
  unfoldable pub place_order :
      TickData → ℕ → ContractData → StopOrder → CtaEngine → CtaEngine × List Output
  unfolding placed trigger_price
  place_order tick a contract stop_order s =
      let (kt_orderids, sent, out) =
        send_limit_order names reply one a contract stop_order.direction stop_order.offset
          (trigger_price tick stop_order.direction) stop_order.volume stop_order.lock stop_order.net
          s in
      let (s', later) = placed a stop_order kt_orderids sent in (s', out ++ later)

  -- `none` is a strategy or a contract that is not there.
  unfoldable pub trigger : TickData → StopOrder → CtaEngine → Option (CtaEngine × List Output)
  unfolding place_order
  trigger tick stop_order s = elim (lookup stop_order.strategy_name s.strategies) [
    | none ↦ none
    | some a ↦ elim (get_contract s.oms stop_order.kt_symbol) [
      | none ↦ none
      | some contract ↦ some (place_order tick a contract stop_order s)
    ]
  ]

  unfoldable pub check_one : TickData → StopOrder → CtaEngine → Option (CtaEngine × List Output)
  unfolding trigger is_triggered
  check_one tick o s =
      if not (str_eq o.kt_symbol tick.kt_symbol)
      then some (s, [])
      else if is_triggered tick o
      then trigger tick o s
      else some (s, [])

  unfoldable pub check_each :
      TickData → Map StopOrder → CtaEngine → Option (CtaEngine × List Output)
  unfolding check_one
  check_each tick [] s = some (s, [])
  check_each tick ((k, o) ∷ m) s = elim (check_one tick o s) [
    | none ↦ none
    | some (s', out) ↦ elim (check_each tick m s') [
      | none ↦ none
      | some (s'', later) ↦ some (s'', out ++ later)
    ]
  ]

  unfoldable pub check_stop_order : TickData → CtaEngine → Option (CtaEngine × List Output)
  unfolding check_each
  check_stop_order tick s = check_each tick s.stop_orders s
