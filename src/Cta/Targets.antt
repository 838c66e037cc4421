-- ===== src/Cta/Targets.antt =====
-- app/cta_strategy/template.cpp: what a target position strategy sends.
use keen_trader.Base.{
  ℕ, ◌≡◌, refl, ap, Bool, true, false, Option, none, some, List, [], ◌∷◌, ◌++◌, arith, Bool-cases,
  Option-cases, is_some, inl, inr, ◌⊎◌,
}
use keen_trader.Base.Int.{ℤ, zero_float, ltb_ℤ, is_nonzero, abs_ℤ, ◌≤ℤ◌, ◌<ℤ◌}
use keen_trader.Base.Text.{AString}
use keen_trader.Base.Map.{member}
use keen_trader.Objects.Constant.{Direction, Offset}
use keen_trader.Objects.Market.{Float, TickData, BarData}
use keen_trader.Objects.Trading.{OrderData}
use keen_trader.Objects.Names.{is_active}
use keen_trader.Cta.Calls.{EngineType, live, OrderCall, Call, send, buy, sell, short, cover}
use keen_trader.Cta.TargetPos.{
  TargetPosTemplate, new_template, on_tick, on_bar, on_order, check_order_finished, cancel_each,
  cancel_old_order, pos_change, order_prices, live_order, place, place_by, send_order,
  send_new_order, trade, set_target_pos,
}

-- What reaches a strategy: market data, its orders, its flags and its position from the engine, and its own targets.
pub data TargetEvent : Type 0 where
  tick : TickData → TargetEvent
  bar : BarData → TargetEvent
  order : OrderData → TargetEvent
  flags : Bool → Bool → TargetEvent
  traded : Float → TargetEvent
  target : ℤ → TargetEvent

-- The order is in the direction of the change, for no more than the change; a closing order is for no more than the position, which is on the other side.
pub record MovesToTarget (position : Float) (change : ℤ) (c : OrderCall) : Type 0 where
  pub positive : zero_float <ℤ c.volume
  pub no_overshoot : c.volume ≤ℤ abs_ℤ change
  pub side :
      ((c.direction ≡ Direction.long) × (zero_float <ℤ change))
      ⊎ ((c.direction ≡ Direction.short) × (change <ℤ zero_float))
  pub closing :
      (c.offset ≡ Offset.open_position)
      ⊎ ((c.offset ≡ Offset.close_position)
          × (c.volume ≤ℤ abs_ℤ position)
          × (((change <ℤ zero_float) × (zero_float <ℤ position))
              ⊎ ((zero_float <ℤ change) × (position <ℤ zero_float))))

live_order-MovesToTarget :
    (position : Float) (change : ℤ) (long_price short_price : Float)
    → is_nonzero change ≡ true
    → MovesToTarget position change (live_order position change long_price short_price)
unfolding live_order buy sell short cover abs_ℤ
live_order-MovesToTarget position change long_price short_price h = ground arith

no_active : (s : TargetPosTemplate) → s.active_orderids ≡ [] → check_order_finished s ≡ false
unfolding check_order_finished
no_active s e = rw e refl

some_active :
    (s : TargetPosTemplate) (o : AString) (os : List AString)
    → s.active_orderids ≡ o ∷ os
    → check_order_finished s ≡ true
unfolding check_order_finished
some_active s o os e = rw e refl

nothing_to_cancel : (s : TargetPosTemplate) → s.active_orderids ≡ [] → cancel_old_order s ≡ (s, [])
unfolding cancel_old_order cancel_each
nothing_to_cancel s e = rw e refl

priced :
    (up : Bool) (t : Option TickData) (b : Option BarData) (tick_add : ℤ)
    → (is_some t ≡ true) ⊎ (is_some b ≡ true)
    → (p : Float × Float) × (order_prices up t b tick_add ≡ some p)
unfolding order_prices
priced up (some t) b tick_add h = (_, refl)
priced up none (some b) tick_add h = (_, refl)
priced up none none tick_add (inl h) = absurd (cc h)
priced up none none tick_add (inr h) = absurd (cc h)

module _ (answer : OrderCall → List AString) where
  idle :
      (e : EngineType) (one : ℕ) (t : ℤ) (s : TargetPosTemplate)
      → s.active_orderids ≡ []
      → set_target_pos answer e one t s ≡ some (record s { target_pos = t }, [])
  unfolding set_target_pos trade
  idle e one t s none_active =
      let s' = record s { target_pos = t } in
      rw (no_active s' none_active) (ap some (nothing_to_cancel s' none_active))

  -- Called directly, with no order under way and a price at hand, `send_new_order` of a live strategy that trades sends exactly one order for a change of its position: in the direction of the change, for no more than the change, and closing no more than the position. `set_target_pos`, the only caller in the code, calls it only with orders under way, where it returns at once.
  pub send_new_order_moves :
      (one : ℕ) (s : TargetPosTemplate)
      → s.trading ≡ true
      → s.active_orderids ≡ []
      → is_nonzero (pos_change one s) ≡ true
      → is_some
          (order_prices (ltb_ℤ zero_float (pos_change one s)) s.last_tick s.last_bar s.tick_add)
        ≡ true
      → (s' : TargetPosTemplate) × (c : OrderCall) × (send_new_order answer live one s
          ≡ some (s', send c ∷ []))
        × MovesToTarget s.position (pos_change one s) c
  unfolding send_new_order place_by place send_order
  send_new_order_moves one s t a n p =
      let up = ltb_ℤ zero_float (pos_change one s) in
      elim (Option-cases (order_prices up s.last_tick s.last_bar s.tick_add)) [
        | inl nothing ↦ absurd (cc (ap is_some nothing))
        | inr (prices, e) ↦
            let c = live_order s.position (pos_change one s) prices.0 prices.1 in
            (
              (place answer c s).0,
              c,
              rw (n, e, place_by, no_active s a, place, send_order, t),
              live_order-MovesToTarget s.position (pos_change one s) prices.0 prices.1 n,
            )
      ]

  unfoldable pub step :
      EngineType → ℕ → TargetEvent → TargetPosTemplate → Option (TargetPosTemplate × List Call)
  step e one (tick t) s = some (on_tick t s, [])
  step e one (bar b) s = some (on_bar b s, [])
  step e one (order o) s = some (on_order o s, [])
  step e one (flags inited trading) s = some (record s { inited = inited; trading = trading }, [])
  step e one (traded position) s = some (record s { position = position }, [])
  step e one (target t) s = set_target_pos answer e one t s

  unfoldable pub run :
      EngineType → ℕ → List TargetEvent → TargetPosTemplate → Option (TargetPosTemplate × List Call)
  unfolding step
  run e one [] s = some (s, [])
  run e one (v ∷ vs) s = elim (step e one v s) [
    | none ↦ none
    | some (s', calls) ↦ elim (run e one vs s') [
      | none ↦ none
      | some (s'', later) ↦ some (s'', calls ++ later)
    ]
  ]

  on_order_none :
      (o : OrderData) (s : TargetPosTemplate)
      → s.active_orderids ≡ []
      → (on_order o s).active_orderids ≡ []
  unfolding on_order member
  on_order_none o s e = elim (Bool-cases (is_active o)) [
    | inl active ↦ rw active e
    | inr ended ↦ rw (ended, e) refl
  ]

  quiet :
      (e : EngineType) (one : ℕ) (v : TargetEvent) (s : TargetPosTemplate)
      → s.active_orderids ≡ []
      → (s' : TargetPosTemplate) × (step e one v s ≡ some (s', [])) × (s'.active_orderids ≡ [])
  unfolding step on_tick on_bar
  quiet e one (tick t) s h = (on_tick t s, refl, h)
  quiet e one (bar b) s h = (on_bar b s, refl, h)
  quiet e one (order o) s h = (on_order o s, refl, on_order_none o s h)
  quiet e one (flags inited trading) s h =
      (record s { inited = inited; trading = trading }, refl, h)
  quiet e one (traded position) s h = (record s { position = position }, refl, h)
  quiet e one (target t) s h = (record s { target_pos = t }, idle e one t s h, h)

  quiet_run :
      (e : EngineType) (one : ℕ) (vs : List TargetEvent) (s : TargetPosTemplate)
      → s.active_orderids ≡ []
      → (s' : TargetPosTemplate) × (run e one vs s ≡ some (s', [])) × (s'.active_orderids ≡ [])
  unfolding run
  quiet_run e one [] s h = (s, refl, h)
  quiet_run e one (v ∷ vs) s h =
      let (s', first, h') = quiet e one v s h in
      let (s'', later, h'') = quiet_run e one vs s' h' in (s'', rw (run, first, later), h'')

  -- A new target position strategy never sends and never cancels an order, live or in a backtest, whatever targets it is given, whatever the market data, the orders, the position and the flags that reach it, and whatever the engine would answer.
  pub run_never_sends :
      (e : EngineType) (one : ℕ) (vs : List TargetEvent)
      → (s' : TargetPosTemplate) × (run e one vs (new_template one) ≡ some (s', []))
  run_never_sends e one vs =
      let (s', done, h) = quiet_run e one vs (new_template one) refl in (s', done)

  -- A live strategy with an order under way sends and cancels nothing when it gets a new target, if it has seen a tick or a bar: the order for the old target stays.
  pub set_target_pos_ignored :
      (one : ℕ) (t : ℤ) (s : TargetPosTemplate) (o : AString) (os : List AString)
      → s.active_orderids ≡ o ∷ os
      → (is_some s.last_tick ≡ true) ⊎ (is_some s.last_bar ≡ true)
      → set_target_pos answer live one t s ≡ some (record s { target_pos = t }, [])
  unfolding set_target_pos trade send_new_order place_by order_prices
  set_target_pos_ignored one t s o os e seen =
      let s' = record s { target_pos = t } in
      elim (Bool-cases (is_nonzero (pos_change one s'))) [
        | inr same ↦ rw (some_active s' o os e, send_new_order, same)
        | inl moved ↦
            let up = ltb_ℤ zero_float (pos_change one s') in
            let (p, found) = priced up s.last_tick s.last_bar s.tick_add seen in
            rw
              (some_active s' o os e, send_new_order, moved, found, place_by, some_active s' o os e)
      ]
