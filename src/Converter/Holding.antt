-- ===== src/Converter/Holding.antt =====
-- core/engine/converter.cpp: the state of `PositionHolding` and the methods that change it.
use keen_trader.Base.{Bool, true, false, List, [], ◌∷◌, if◌then◌else◌}
use keen_trader.Base.Int.{zero_float, ◌+ℤ◌, ◌-ℤ◌, ltb_ℤ, min_ℤ}
use keen_trader.Base.Text.{AString, dot, before_first, after_first}
use keen_trader.Base.Map.{Map, insert, erase, map_values}
use keen_trader.Objects.Constant.{
  Exchange, Direction, Offset, long, short, net, open_position, close_position, close_today,
  close_yesterday, shfe, ine,
}
use keen_trader.Objects.Market.{Float, ContractData}
use keen_trader.Objects.Trading.{OrderData, OrderRequest, TradeData, PositionData}
use keen_trader.Objects.Names.{EnumNames, is_active, create_order_data}

-- `long_pos`, `long_yd`, `long_td` and their frozen parts; the same for `short_`.
pub record Side : Type 0 where
  pub pos : Float
  pub yd : Float
  pub td : Float
  pub pos_frozen : Float
  pub yd_frozen : Float
  pub td_frozen : Float

pub record PositionHolding : Type 0 where
  pub kt_symbol : AString
  pub exchange : Exchange
  pub active_orders : Map OrderData
  pub long_side : Side
  pub short_side : Side

abbrev pub empty_side : Side
empty_side = record {
  pos = zero_float;
  yd = zero_float;
  td = zero_float;
  pos_frozen = zero_float;
  yd_frozen = zero_float;
  td_frozen = zero_float;
}

unfoldable pub init : ContractData → PositionHolding
init contract = record {
  kt_symbol = contract.kt_symbol;
  exchange = contract.exchange;
  active_orders = [];
  long_side = empty_side;
  short_side = empty_side;
}

unfoldable pub is_shfe_or_ine : Exchange → Bool
is_shfe_or_ine shfe = true
is_shfe_or_ine ine = true
is_shfe_or_ine _ = false

abbrev pub is_long : Direction → Bool
is_long long = true
is_long short = false
is_long net = false

abbrev pub is_open : Offset → Bool
is_open Offset.none = false
is_open open_position = true
is_open close_position = false
is_open close_today = false
is_open close_yesterday = false

unfoldable pub set_position : PositionData → Side → Side
set_position p s = record s { pos = p.volume; yd = p.yd_volume; td = p.volume -ℤ p.yd_volume }

unfoldable pub update_position : PositionData → PositionHolding → PositionHolding
unfolding set_position
update_position p h =
    if is_long p.direction
    then record h { long_side = set_position p h.long_side }
    else record h { short_side = set_position p h.short_side }

unfoldable pub sum_side_frozen : Side → Side
sum_side_frozen s =
    let td_frozen = min_ℤ s.td_frozen s.td in
    let yd_frozen = min_ℤ s.yd_frozen s.yd in
    record s { td_frozen = td_frozen; yd_frozen = yd_frozen; pos_frozen = td_frozen +ℤ yd_frozen }

unfoldable pub sum_pos_frozen : PositionHolding → PositionHolding
unfolding sum_side_frozen
sum_pos_frozen h = record h {
  long_side = sum_side_frozen h.long_side;
  short_side = sum_side_frozen h.short_side;
}

-- A `CLOSE` takes from today's position first, and from yesterday's what that does not cover.
unfoldable pub close_any_age : Float → Side → Side
close_any_age volume s =
    let td = s.td -ℤ volume in
    if ltb_ℤ td zero_float
    then record s { yd = s.yd +ℤ td; td = zero_float }
    else record s { td = td }

-- The branches of `update_trade` on a trade that closes.
unfoldable pub close_side : Exchange → Offset → Float → Side → Side
unfolding close_any_age
close_side ex Offset.none volume s = s
close_side ex open_position volume s = s
close_side ex close_today volume s = record s { td = s.td -ℤ volume }
close_side ex close_yesterday volume s = record s { yd = s.yd -ℤ volume }
close_side ex close_position volume s =
    if is_shfe_or_ine ex then record s { yd = s.yd -ℤ volume } else close_any_age volume s

unfoldable pub open_side : Float → Side → Side
open_side volume s = record s { td = s.td +ℤ volume }

unfoldable pub apply_trade : TradeData → PositionHolding → PositionHolding
unfolding close_side open_side
apply_trade t h =
    if is_long t.direction
    then if is_open t.offset
      then record h { long_side = open_side t.volume h.long_side }
      else record h { short_side = close_side t.exchange t.offset t.volume h.short_side }
    else if is_open t.offset
    then record h { short_side = open_side t.volume h.short_side }
    else record h { long_side = close_side t.exchange t.offset t.volume h.long_side }

abbrev pub sum_side : Side → Side
sum_side s = record s { pos = s.td +ℤ s.yd }

unfoldable pub update_trade : TradeData → PositionHolding → PositionHolding
unfolding apply_trade sum_pos_frozen
update_trade t h =
    let h' = apply_trade t h in
    sum_pos_frozen
      (record h' { long_side = sum_side h'.long_side; short_side = sum_side h'.short_side })

-- The branches of the loop of `calculate_frozen` on an order's offset.
unfoldable pub freeze : Offset → Float → Side → Side
freeze Offset.none frozen s = s
freeze open_position frozen s = s
freeze close_today frozen s = record s { td_frozen = s.td_frozen +ℤ frozen }
freeze close_yesterday frozen s = record s { yd_frozen = s.yd_frozen +ℤ frozen }
freeze close_position frozen s =
    let td_frozen = s.td_frozen +ℤ frozen in
    if ltb_ℤ s.td td_frozen
    then record s { yd_frozen = s.yd_frozen +ℤ (td_frozen -ℤ s.td); td_frozen = s.td }
    else record s { td_frozen = td_frozen }

unfoldable pub freeze_order : OrderData → PositionHolding → PositionHolding
unfolding freeze
freeze_order o h =
    let frozen = o.volume -ℤ o.traded in
    if is_open o.offset then h else elim o.direction [
      | long ↦ record h { short_side = freeze o.offset frozen h.short_side }
      | short ↦ record h { long_side = freeze o.offset frozen h.long_side }
      | net ↦ h
    ]

unfoldable pub freeze_orders : List OrderData → PositionHolding → PositionHolding
unfolding freeze_order
freeze_orders [] h = h
freeze_orders (o ∷ os) h = freeze_orders os (freeze_order o h)

abbrev pub clear_side : Side → Side
clear_side s = record s { pos_frozen = zero_float; yd_frozen = zero_float; td_frozen = zero_float }

unfoldable pub clear_frozen : PositionHolding → PositionHolding
clear_frozen h = record h {
  long_side = clear_side h.long_side;
  short_side = clear_side h.short_side;
}

unfoldable pub calculate_frozen : PositionHolding → PositionHolding
unfolding clear_frozen freeze_orders sum_pos_frozen
calculate_frozen h = sum_pos_frozen (freeze_orders (map_values h.active_orders) (clear_frozen h))

-- The first half of `update_order`.
unfoldable pub store_order : OrderData → PositionHolding → PositionHolding
store_order o h = record h {
  active_orders =
      if is_active o
      then insert o.kt_orderid o h.active_orders
      else erase o.kt_orderid h.active_orders;
}

unfoldable pub update_order : OrderData → PositionHolding → PositionHolding
unfolding calculate_frozen store_order
update_order o h = calculate_frozen (store_order o h)

unfoldable pub update_order_request :
    EnumNames → OrderRequest → AString → PositionHolding → PositionHolding
unfolding update_order
update_order_request names req kt_orderid h =
    update_order
      (create_order_data names req (after_first dot kt_orderid) (before_first dot kt_orderid)) h
