-- ===== src/Cta/Stops.antt =====
-- app/cta_strategy/engine.cpp: what local stop orders do.
use keen_trader.Base.{
  ◌⊎◌, ℕ, ◌+◌, ◌≡◌, refl, ◌∙◌, Bool, true, false, none, some, List, [], ◌∷◌, if◌then◌else◌,
  Bool-cases, inl, inr,
}
use keen_trader.Base.Text.{AString, str_eq, str_eq_refl, str_eq_iff, is_empty}
use keen_trader.Base.Map.{
  lookup, member, remove, lookup-insert, lookup-erase, lookup-insert_self, lookup-erase_self,
  member-remove,
}
use keen_trader.Objects.Constant.{Direction, Offset, OrderType}
use keen_trader.Objects.Market.{Float, TickData, ContractData}
use keen_trader.Objects.Trading.{OrderRequest}
use keen_trader.Objects.Names.{EnumNames}
use keen_trader.Base.Int.{is_nonzero, ◌≤ℤ◌, le→leb_ℤ}
use keen_trader.Oms.Converters.{unconverted}
use keen_trader.Oms.Engine.{get_contract, bound_convert_order_request}
use keen_trader.Cta.Objects.{
  StopOrder, CtaEngine, CtaTemplate, waiting, on_stop_order, stop_order_event, send_order,
  orderids_of, cancelled, triggered,
}
use keen_trader.Cta.Send.{
  send_limit_order, send_server_order, send_each, answered, save_relation, original_request,
}
use keen_trader.Cta.StopOrders.{
  stop_orderid_of, new_stop_order, send_local_stop_order, drop_stop_order, cancel_stop_order,
  cancel_local_stop_order, is_triggered, trigger_price, placed, place_order, trigger, check_one,
}

not_in_removed :
    (k : AString) (l : List AString) → member k (if member k l then remove k l else l) ≡ false
not_in_removed k l = elim (Bool-cases (member k l)) [
  | inl there ↦ simp (there, member-remove, str_eq_refl)
  | inr absent ↦ rw (absent) absent
]

-- A stop order is gone from the state, from the set of its strategy as well, and no other is.
pub record IsDropped (k name : AString) (s s' : CtaEngine) : Type 0 where
  pub gone : lookup k s'.stop_orders ≡ none
  pub not_in_set : member k (orderids_of name s') ≡ false
  pub others : (j : AString) → str_eq k j ≡ false → lookup j s'.stop_orders ≡ lookup j s.stop_orders
  pub undefined : s'.dangling ≡ true

drop-IsDropped : (k name : AString) (s : CtaEngine) → IsDropped k name s (drop_stop_order k name s)
unfolding drop_stop_order
drop-IsDropped k name s = record {
  gone = lookup-erase_self k s.stop_orders;
  not_in_set = simp (lookup-insert_self) (not_in_removed k (orderids_of name s));
  others = λ j n. rw (lookup-erase k j s.stop_orders, n);
  undefined = refl;
}

pub cancel_found :
    (a : ℕ) (id : AString) (o : StopOrder) (s : CtaEngine)
    → lookup id s.stop_orders ≡ some o
    → lookup o.strategy_name s.strategies ≡ some a
    → let ended = record o { status = cancelled } in
      cancel_local_stop_order id s
      ≡ some (
        drop_stop_order id (s.objects a).strategy_name s,
        on_stop_order a ended ∷ stop_order_event ended ∷ [],
      )
unfolding cancel_local_stop_order cancel_stop_order
cancel_found a id o s e h = rw (cancel_local_stop_order, e, cancel_stop_order, h) refl

-- The stop order that a strategy sends, with the fields that it was sent with.
pub record IsSent (t : CtaTemplate) (id : AString) (d : Direction) (o : Offset)
    (price volume : Float) (r : StopOrder) : Type 0 where
  pub same_symbol : r.kt_symbol ≡ t.kt_symbol
  pub same_strategy : r.strategy_name ≡ t.strategy_name
  pub same_id : r.stop_orderid ≡ id
  pub same_direction : r.direction ≡ d
  pub same_offset : r.offset ≡ o
  pub same_price : r.price ≡ price
  pub same_volume : r.volume ≡ volume
  pub waits : r.status ≡ waiting

-- When a strategy sends a local stop order it is told of one waiting with the symbol, the direction, the offset, the price and the volume that it asked for. When it then cancels it by its id, that stop order is gone, the other stop orders are as before, and the strategy is told of the same stop order as cancelled, where the entry is read as it was before the code erased it: it erases the entry and then uses it, so its behaviour is undefined.
pub cancel-send_local_stop_order :
    (a : ℕ) (d : Direction) (o : Offset) (price volume : Float) (lock net : Bool) (s : CtaEngine)
    → lookup (s.objects a).strategy_name s.strategies ≡ some a
    → let id = stop_orderid_of (s.stop_order_count + 1) in
      let sent = send_local_stop_order a d o price volume lock net s in
      (sent.0 ≡ id ∷ [])
      × (r : StopOrder) × (s' : CtaEngine) × IsSent (s.objects a) id d o price volume r
      × (sent.2 ≡ on_stop_order a r ∷ stop_order_event r ∷ [])
      × (cancel_local_stop_order id sent.1
          ≡ some (
            s',
            on_stop_order a (record r { status = cancelled })
                ∷ stop_order_event (record r { status = cancelled })
                ∷ [],
          ))
      × IsDropped id (s.objects a).strategy_name s s'
unfolding send_local_stop_order new_stop_order
cancel-send_local_stop_order a d o price volume lock net s h =
    let name = (s.objects a).strategy_name in
    let id = stop_orderid_of (s.stop_order_count + 1) in
    let stop_order = new_stop_order (s.objects a) id d o price volume lock net in
    let sent = (send_local_stop_order a d o price volume lock net s).1 in
    let e = drop-IsDropped id name sent in
    (
      refl,
      stop_order,
      drop_stop_order id name sent,
      record {
        same_symbol = refl;
        same_strategy = refl;
        same_id = refl;
        same_direction = refl;
        same_offset = refl;
        same_price = refl;
        same_volume = refl;
        waits = refl;
      },
      refl,
      cancel_found a id stop_order sent (lookup-insert_self id stop_order s.stop_orders) h,
      record {
        gone = e.gone;
        not_in_set = e.not_in_set;
        others = λ j n. e.others j n ∙ rw (lookup-insert id j stop_order s.stop_orders, n);
        undefined = e.undefined;
      },
    )

-- The price that a stop order of a direction is placed at.
pub record IsTriggerPrice (tick : TickData) (d : Direction) (p : Float) : Type 0 where
  pub long_limit : d ≡ Direction.long → is_nonzero tick.limit_up ≡ true → p ≡ tick.limit_up
  pub long_free : d ≡ Direction.long → is_nonzero tick.limit_up ≡ false → p ≡ tick.ask_price_5
  pub short_limit : d ≡ Direction.short → is_nonzero tick.limit_down ≡ true → p ≡ tick.limit_down
  pub short_free : d ≡ Direction.short → is_nonzero tick.limit_down ≡ false → p ≡ tick.bid_price_5

trigger_price-IsTriggerPrice :
    (tick : TickData) (d : Direction) → IsTriggerPrice tick d (trigger_price tick d)
unfolding trigger_price
trigger_price-IsTriggerPrice tick d = record {
  long_limit = λ same on. rw (same, on) refl;
  long_free = λ same on. rw (same, on) refl;
  short_limit = λ same on. rw (same, on) refl;
  short_free = λ same on. rw (same, on) refl;
}

-- The price of the tick has reached the price of the stop order, from below for a long one.
abbrev pub HasReached : TickData → StopOrder → Type 0
HasReached tick o =
    ((o.direction ≡ Direction.long) × (o.price ≤ℤ tick.last_price))
    ⊎ ((o.direction ≡ Direction.short) × (tick.last_price ≤ℤ o.price))

reached : (tick : TickData) (o : StopOrder) → HasReached tick o → is_triggered tick o ≡ true
unfolding is_triggered
reached tick o (inl (up, h)) = rw up (le→leb_ℤ o.price tick.last_price h)
reached tick o (inr (down, h)) = rw down (le→leb_ℤ tick.last_price o.price h)

-- A limit order for the contract, with the direction, the offset and the volume of the stop order.
pub record IsLimitOrder (c : ContractData) (o : StopOrder) (p : Float) (r : OrderRequest)
    : Type 0 where
  pub same_symbol : r.symbol ≡ c.symbol
  pub same_exchange : r.exchange ≡ c.exchange
  pub same_direction : r.direction ≡ o.direction
  pub same_offset : r.offset ≡ o.offset
  pub same_volume : r.volume ≡ o.volume
  pub at_price : r.price ≡ p
  pub is_limit : r.type ≡ OrderType.limit

module _ (names : EnumNames) (reply : ℕ → OrderRequest → AString → AString) where
  send_limit_order_sends :
      (one a : ℕ) (c : ContractData) (o : StopOrder) (p : Float) (s : CtaEngine)
      → s.oms.offset_converters ≡ []
      → let r = original_request names c o.direction o.offset p o.volume OrderType.limit in
        let id = reply s.sent r c.exchange_name in
        is_empty id ≡ false
        → send_limit_order names reply one a c o.direction o.offset p o.volume o.lock o.net s ≡ (
          id ∷ [],
          answered names reply a c.exchange_name r id (record s { sent = s.sent + 1 }),
          send_order r c.exchange_name ∷ [],
        )
  unfolding send_limit_order send_server_order bound_convert_order_request send_each
  send_limit_order_sends one a c o p s none_yet taken =
      let r = original_request names c o.direction o.offset p o.volume OrderType.limit in
      rw (unconverted one r c.exchange_name o.lock true s.oms none_yet, taken) refl

  -- When a tick reaches the price of a waiting stop order of its symbol, from below for a long and from above for a short one, and its strategy is registered, its contract known and requests are not converted, one limit order of its direction, offset and volume is sent: at the limit price of its direction where the tick has one, and at the fifth level where not. When the exchange takes whatever it is sent, the stop order leaves the state and the set of its strategy, the others stay, the new order id is that of the strategy, and the strategy is told of the trigger with this id, where the entry is read as it was before the code erased it.
  pub check_one_triggers :
      (one a : ℕ) (tick : TickData) (o : StopOrder) (c : ContractData) (s : CtaEngine)
      → o.kt_symbol ≡ tick.kt_symbol
      → HasReached tick o
      → lookup o.strategy_name s.strategies ≡ some a
      → get_contract s.oms o.kt_symbol ≡ some c
      → s.oms.offset_converters ≡ []
      → ((r : OrderRequest) → is_empty (reply s.sent r c.exchange_name) ≡ false)
      → (p : Float) × (r : OrderRequest) × (s' : CtaEngine) × IsTriggerPrice tick o.direction p
        × IsLimitOrder c o p r
        × (let id = reply s.sent r c.exchange_name in
            let ended = record o { status = triggered; kt_orderids = id ∷ [] } in
            (check_one names reply one tick o s
              ≡ some (
                s',
                send_order r c.exchange_name ∷ on_stop_order a ended ∷ stop_order_event ended ∷ [],
              ))
            × (lookup id s'.orderid_strategy_map ≡ some a))
        × IsDropped o.stop_orderid (s.objects a).strategy_name s s'
  unfolding check_one trigger place_order placed drop_stop_order answered save_relation
      original_request
  check_one_triggers one a tick o c s same crossed there known none_yet taken =
      let p = trigger_price tick o.direction in
      let r = original_request names c o.direction o.offset p o.volume OrderType.limit in
      let id = reply s.sent r c.exchange_name in
      let name = (s.objects a).strategy_name in
      let s1 = answered names reply a c.exchange_name r id (record s { sent = s.sent + 1 }) in
      let k = (str_eq_iff o.kt_symbol tick.kt_symbol).1 same in
      let d = drop-IsDropped o.stop_orderid name s1 in
      let sends = send_limit_order_sends one a c o p s none_yet (taken r) in
      (
        p,
        r,
        drop_stop_order o.stop_orderid name s1,
        trigger_price-IsTriggerPrice tick o.direction,
        record {
          same_symbol = refl;
          same_exchange = refl;
          same_direction = refl;
          same_offset = refl;
          same_volume = refl;
          at_price = refl;
          is_limit = refl;
        },
        (
          rw (k, reached tick o crossed, trigger, there, known, place_order, sends, placed) refl,
          lookup-insert_self id a s.orderid_strategy_map,
        ),
        record {
          gone = d.gone;
          not_in_set = d.not_in_set;
          others = d.others;
          undefined = d.undefined;
        },
      )
