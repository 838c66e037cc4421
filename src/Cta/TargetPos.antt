-- ===== src/Cta/TargetPos.antt =====
-- app/cta_strategy/template.h and app/cta_strategy/template.cpp: `TargetPosTemplate`, with the orders of `CtaTemplate` that it uses. What the engine's
-- `send_order` answers is a parameter; the calls of the engine are the output. A number `n` of type `int` is `n` times
-- `one`, the unit's 1.0.
use keen_trader.Base.{
  ℕ, Bool, true, false, not, Option, none, some, List, [], ◌∷◌, ◌++◌, if◌then◌else◌,
}
use keen_trader.Base.Int.{
  ℤ, pos, zero_float, ◌+ℤ◌, ◌-ℤ◌, ltb_ℤ, is_nonzero, min_ℤ, max_ℤ, abs_ℤ, trunc,
}
use keen_trader.Base.Text.{AString}
use keen_trader.Base.Map.{AStringSet, member, add, remove}
use keen_trader.Objects.Market.{Float, TickData, BarData}
use keen_trader.Objects.Trading.{OrderData}
use keen_trader.Objects.Names.{is_active}
use keen_trader.Cta.Calls.{
  EngineType, live, backtesting, OrderCall, Call, send, cancel, buy, sell, short, cover,
}

pub record TargetPosTemplate : Type 0 where
  pub inited : Bool
  pub trading : Bool
  pub position : Float
  pub tick_add : ℤ
  pub last_tick : Option TickData
  pub last_bar : Option BarData
  pub target_pos : ℤ
  pub active_orderids : AStringSet
  pub cancel_orderids : AStringSet

abbrev pub new_template : ℕ → TargetPosTemplate
new_template one = record {
  inited = false;
  trading = false;
  position = zero_float;
  tick_add = pos one;
  last_tick = none;
  last_bar = none;
  target_pos = zero_float;
  active_orderids = [];
  cancel_orderids = [];
}

unfoldable pub on_tick : TickData → TargetPosTemplate → TargetPosTemplate
on_tick tick s = record s { last_tick = some tick }

unfoldable pub on_bar : BarData → TargetPosTemplate → TargetPosTemplate
on_bar bar s = record s { last_bar = some bar }

unfoldable pub on_order : OrderData → TargetPosTemplate → TargetPosTemplate
on_order order s = if is_active order then s else record s {
  active_orderids =
      if member order.kt_orderid s.active_orderids
      then remove order.kt_orderid s.active_orderids
      else s.active_orderids;
  cancel_orderids =
      if member order.kt_orderid s.cancel_orderids
      then remove order.kt_orderid s.cancel_orderids
      else s.cancel_orderids;
}

-- `return active_orderids.size();`
unfoldable pub check_order_finished : TargetPosTemplate → Bool
check_order_finished s = elim s.active_orderids [ [] ↦ false | _ ↦ true ]

-- `CtaTemplate::cancel_order`
unfoldable pub cancel_order : Bool → AString → List Call
cancel_order trading kt_orderid = if trading then cancel kt_orderid ∷ [] else []

-- The loop over the active orders: the cancelled ones then, and the calls.
unfoldable pub cancel_each : Bool → AStringSet → AStringSet → AStringSet × List Call
unfolding cancel_order
cancel_each trading [] cancelled = (cancelled, [])
cancel_each trading (o ∷ os) cancelled =
    let skipped = cancel_each trading os cancelled in
    let rest = cancel_each trading os (add o cancelled) in
    if member o cancelled then skipped else (rest.0, cancel_order trading o ++ rest.1)

unfoldable pub cancel_old_order : TargetPosTemplate → TargetPosTemplate × List Call
unfolding cancel_each
cancel_old_order s =
    let (cancelled, calls) = cancel_each s.trading s.active_orderids s.cancel_orderids in
    (record s { cancel_orderids = cancelled }, calls)

-- `int pos_change = this->target_pos - this->pos`
unfoldable pub pos_change : ℕ → TargetPosTemplate → ℤ
pos_change one s = trunc one (s.target_pos -ℤ s.position)

unfoldable pub long_price_at : TickData → ℤ → Float
long_price_at tick tick_add =
    let price = tick.ask_price_1 +ℤ tick_add in
    if is_nonzero tick.limit_up then min_ℤ price tick.limit_up else price

unfoldable pub short_price_at : TickData → ℤ → Float
short_price_at tick tick_add =
    let price = tick.bid_price_1 -ℤ tick_add in
    if is_nonzero tick.limit_down then max_ℤ price tick.limit_down else price

-- The long and the short price; `none` reads a bar that is not there.
unfoldable pub order_prices : Bool → Option TickData → Option BarData → ℤ → Option (Float × Float)
unfolding long_price_at short_price_at
order_prices up (some tick) bar tick_add = some (
  if up then long_price_at tick tick_add else zero_float,
  if up then zero_float else short_price_at tick tick_add,
)
order_prices up none (some bar) tick_add = some (
  if up then bar.close_price +ℤ tick_add else zero_float,
  if up then zero_float else bar.close_price -ℤ tick_add,
)
order_prices up none none tick_add = none

unfoldable pub backtesting_order : ℤ → Float → Float → OrderCall
unfolding buy short
backtesting_order change long_price short_price =
    if ltb_ℤ zero_float change
    then buy long_price (abs_ℤ change)
    else short short_price (abs_ℤ change)

unfoldable pub live_order : Float → ℤ → Float → Float → OrderCall
unfolding buy short sell cover
live_order position change long_price short_price =
    if ltb_ℤ zero_float change
    then if ltb_ℤ position zero_float
      then if ltb_ℤ change (abs_ℤ position)
        then cover long_price change
        else cover long_price (abs_ℤ position)
      else buy long_price (abs_ℤ change)
    else if ltb_ℤ zero_float position
    then if ltb_ℤ (abs_ℤ change) position
      then sell short_price (abs_ℤ change)
      else sell short_price (abs_ℤ position)
    else short short_price (abs_ℤ change)

unfoldable pub add_all : List AString → AStringSet → AStringSet
add_all [] s = s
add_all (o ∷ os) s = add_all os (add o s)

module _ (answer : OrderCall → List AString) where
  -- `CtaTemplate::send_order`
  unfoldable pub send_order : Bool → OrderCall → List AString × List Call
  send_order trading call = if trading then (answer call, send call ∷ []) else ([], [])

  unfoldable pub place : OrderCall → TargetPosTemplate → TargetPosTemplate × List Call
  unfolding send_order add_all
  place call s =
      let (kt_orderids, calls) = send_order s.trading call in
      (record s { active_orderids = add_all kt_orderids s.active_orderids }, calls)

  unfoldable pub place_by :
      EngineType → ℤ → Float → Float → TargetPosTemplate → TargetPosTemplate × List Call
  unfolding place check_order_finished live_order backtesting_order
  place_by backtesting change long_price short_price s =
      place (backtesting_order change long_price short_price) s
  place_by live change long_price short_price s =
      if check_order_finished s
      then (s, [])
      else place (live_order s.position change long_price short_price) s

  unfoldable pub send_new_order :
      EngineType → ℕ → TargetPosTemplate → Option (TargetPosTemplate × List Call)
  unfolding place_by order_prices pos_change
  send_new_order engine one s =
      let change = pos_change one s in
      if not (is_nonzero change)
      then some (s, [])
      else elim (order_prices (ltb_ℤ zero_float change) s.last_tick s.last_bar s.tick_add) [
        | none ↦ none
        | some p ↦ some (place_by engine change p.0 p.1 s)
      ]

  unfoldable pub trade : EngineType → ℕ → TargetPosTemplate → Option (TargetPosTemplate × List Call)
  unfolding send_new_order cancel_old_order check_order_finished
  trade engine one s =
      if not (check_order_finished s)
      then some (cancel_old_order s)
      else send_new_order engine one s

  unfoldable pub set_target_pos :
      EngineType → ℕ → ℤ → TargetPosTemplate → Option (TargetPosTemplate × List Call)
  unfolding trade
  set_target_pos engine one target s = trade engine one (record s { target_pos = target })
