-- ===== src/Cta/Histories.antt =====
-- app/cta_strategy/engine.cpp: whole histories of the engine, and the local stop orders they leave.
use keen_trader.Base.{ℕ, ◌≡◌, refl, Bool, false, Option, none, some, List, [], ◌∷◌}
use keen_trader.Base.Text.{AString}
use keen_trader.Base.Lists.{All}
use keen_trader.Base.Map.{lookup}
use keen_trader.Objects.Constant.{Direction, Offset, OrderType}
use keen_trader.Objects.Market.{Float, ContractData}
use keen_trader.Objects.Trading.{OrderRequest, TradeData, OrderData}
use keen_trader.Objects.Names.{EnumNames}
use keen_trader.Cta.Objects.{CtaEngine, Output}
use keen_trader.Cta.Events.{process_trade_event, process_order_event}
use keen_trader.Cta.Send.{send_server_order}
use keen_trader.Cta.StopOrders.{stoporder_prefix, send_local_stop_order}
use keen_trader.Cta.Orders.{starts_with, cancel_by_id}
use keen_trader.Cta.Strategies.{start_strategy, init_strategy, stop_strategy}
use keen_trader.Cta.Tracked.{IsTracked, send_local_stop_order-IsTracked}
use keen_trader.Cta.Kept.{Keeps-IsTracked, process_trade_event-Keeps, process_order_event-Keeps}
use keen_trader.Cta.Ended.{
  Ends, send_server-Keeps, cancel_by_id-Ends, stop-Ends, start-Ends, init-Ends,
}

-- The calls of the engine that leave the set of strategies as it is.
pub data Operation : Type 0 where
  trade : TradeData → Operation
  order : OrderData → Operation
  send_server :
      ℕ → ContractData → Direction → Offset → Float → Float → OrderType → Bool → Bool → Operation
  send_local : ℕ → Direction → Offset → Float → Float → Bool → Bool → Operation
  cancel : AString → Operation
  start stop init : AString → Operation

module _ (names : EnumNames) (reply : ℕ → OrderRequest → AString → AString) (one : ℕ) where
  unfoldable pub perform : Operation → CtaEngine → Option (CtaEngine × List Output)
  perform (trade t) s = some (process_trade_event t s)
  perform (order o) s = some (process_order_event o s)
  perform (send_server a c d o price volume type lock net) s =
      let (ids, s', out) = send_server_order names reply one a c d o price volume type lock net s in
      some (s', out)
  perform (send_local a d o price volume lock net) s =
      let (ids, s', out) = send_local_stop_order a d o price volume lock net s in some (s', out)
  perform (cancel k) s = cancel_by_id names k s
  perform (start name) s = start_strategy name s
  perform (stop name) s = stop_strategy names name s
  perform (init name) s = init_strategy names name s

  unfoldable pub perform_all : List Operation → CtaEngine → Option CtaEngine
  unfolding perform
  perform_all [] s = some s
  perform_all (op ∷ ops) s = elim (perform op s) [
    | none ↦ none
    | some (s', out) ↦ perform_all ops s'
  ]

-- What an operation needs: a strategy that is registered, and order ids that are not those of stop orders.
abbrev pub IsAllowed : CtaEngine → Operation → Type 0
IsAllowed s (order o) = starts_with stoporder_prefix o.kt_orderid ≡ false
IsAllowed s (send_local a d o price volume lock net) =
    lookup (s.objects a).strategy_name s.strategies ≡ some a
IsAllowed s (start name) = (a : ℕ) × (lookup name s.strategies ≡ some a)
IsAllowed s (stop name) = (a : ℕ) × (lookup name s.strategies ≡ some a)
IsAllowed s (init name) = (a : ℕ) × (lookup name s.strategies ≡ some a)
IsAllowed s _ = Unit

-- The strategies and their names are as they were.
abbrev Frame : CtaEngine → CtaEngine → Type 0
Frame s s' =
    (s'.strategies ≡ s.strategies)
    × ((a : ℕ) → (s'.objects a).strategy_name ≡ (s.objects a).strategy_name)

still-IsAllowed :
    (s s' : CtaEngine) (op : Operation) → Frame s s' → IsAllowed s op → IsAllowed s' op
still-IsAllowed s s' (trade t) f h = h
still-IsAllowed s s' (order o) f h = h
still-IsAllowed s s' (send_server a c d o price volume type lock net) f h = h
still-IsAllowed s s' (send_local a d o price volume lock net) f h = rw (f.0, f.1 a) h
still-IsAllowed s s' (cancel k) f h = h
still-IsAllowed s s' (start name) f h = (h.0, rw (f.0) h.1)
still-IsAllowed s s' (stop name) f h = (h.0, rw (f.0) h.1)
still-IsAllowed s s' (init name) f h = (h.0, rw (f.0) h.1)

All-IsAllowed :
    (s s' : CtaEngine) (ops : List Operation)
    → Frame s s'
    → All (IsAllowed s) ops
    → All (IsAllowed s') ops
All-IsAllowed s s' [] f h = tt
All-IsAllowed s s' (op ∷ ops) f h = (still-IsAllowed s s' op f h.0, All-IsAllowed s s' ops f h.1)

-- A step that ends in a tracked state with the same strategies.
abbrev Performs : CtaEngine → Option (CtaEngine × List Output) → Type 0
Performs s r =
    (s' : CtaEngine) × (out : List Output) × (r ≡ some (s', out)) × IsTracked s' × Frame s s'

ended :
    (s : CtaEngine) (r : Option (CtaEngine × List Output)) → IsTracked s → Ends s r → Performs s r
ended s r tracked e =
    let (s', out, eq, c) = e in
    (s', out, eq, Keeps-IsTracked s s' c tracked, (c.strategies, c.names))

local-Frame :
    (a : ℕ) (d : Direction) (o : Offset) (price volume : Float) (lock net : Bool) (s : CtaEngine)
    → Frame s (send_local_stop_order a d o price volume lock net s).1
unfolding send_local_stop_order
local-Frame a d o price volume lock net s = (refl, λ b. refl)

module _ (names : EnumNames) (reply : ℕ → OrderRequest → AString → AString) (one : ℕ) where
  perform-Performs :
      (op : Operation) (s : CtaEngine)
      → IsTracked s
      → IsAllowed s op
      → Performs s (perform names reply one op s)
  unfolding perform
  perform-Performs (trade t) s tracked h = ended s _ tracked (
    (process_trade_event t s).0,
    (process_trade_event t s).1,
    refl,
    process_trade_event-Keeps t s,
  )
  perform-Performs (order o) s tracked h = ended s _ tracked (
    (process_order_event o s).0,
    (process_order_event o s).1,
    refl,
    process_order_event-Keeps o s h,
  )
  perform-Performs (send_server a c d o price volume type lock net) s tracked h =
      let r = send_server_order names reply one a c d o price volume type lock net s in
      ended s _ tracked
        (r.1, r.2, refl, send_server-Keeps names reply one a c d o price volume type lock net s)
  perform-Performs (send_local a d o price volume lock net) s tracked h =
      let r = send_local_stop_order a d o price volume lock net s in
      (
        r.1,
        r.2,
        refl,
        send_local_stop_order-IsTracked a d o price volume lock net s tracked h,
        local-Frame a d o price volume lock net s,
      )
  perform-Performs (cancel k) s tracked h = ended s _ tracked (cancel_by_id-Ends names k s tracked)
  perform-Performs (start name) s tracked h = ended s _ tracked (start-Ends names name h.0 s h.1)
  perform-Performs (stop name) s tracked h =
      ended s _ tracked (stop-Ends names name h.0 s h.1 tracked)
  perform-Performs (init name) s tracked h = ended s _ tracked (init-Ends names name h.0 s h.1)

  -- Every history of trades, orders, sent and cancelled orders and started, stopped and initialized strategies runs to its end, and leaves each local stop order tracked: its id has the prefix and is in the set of its strategy, which is registered. The strategies named are registered, and no order event has an id with the prefix of stop orders.
  pub perform_all-IsTracked :
      (ops : List Operation) (s : CtaEngine)
      → IsTracked s
      → All (IsAllowed s) ops
      → (s' : CtaEngine) × (perform_all names reply one ops s ≡ some s') × IsTracked s'
  unfolding perform_all
  perform_all-IsTracked [] s tracked h = (s, refl, tracked)
  perform_all-IsTracked (op ∷ ops) s tracked h =
      let (s', out, e, tracked', f) = perform-Performs op s tracked h.0 in
      let (s'', e', last) = perform_all-IsTracked ops s' tracked' (All-IsAllowed s s' ops f h.1) in
      (s'', rw (perform_all, e) e', last)
