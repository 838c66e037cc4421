-- ===== src/Tests/ConverterTests.antt =====
-- The theorems on holdings and conversions, at concrete inputs.
use mathlib.Core.List.{Permᴰ}
use keen_trader.Objects.Trading.{OrderData, OrderRequest}
use keen_trader.Converter.Holding.{calculate_frozen, sum_pos_frozen, freeze_orders, clear_frozen}
use keen_trader.Converter.Reorder.{calculate_frozen_any_order}
use keen_trader.Base.{◌+◌, [], ◌∷◌, ◌≡◌, refl, arith}
use keen_trader.Base.Int.{pos, zero_float, ◌+ℤ◌, ◌-ℤ◌, ◌≤ℤ◌, ◌<ℤ◌, trunc}
use keen_trader.Base.Text.{codes}
use keen_trader.Objects.Constant.{Direction, close_today, close_yesterday, close_position}
use keen_trader.Converter.Holding.{PositionHolding, update_trade, update_order, update_position}
use keen_trader.Converter.Convert.{
  convert_order_request_shfe, convert_order_request_net, convert_order_request_lock, closed_side,
  td_available, yd_available, pos_available,
}
use keen_trader.Converter.Trades.{update_trade_moves, opened_side, reduced_side, volume_of}
use keen_trader.Converter.Frozen.{update_order-IsCovered, IsCovered}
use keen_trader.Converter.Volumes.{shfe_volumes, total_volume, volume_at}
use keen_trader.Converter.Net.{net_volumes}
use keen_trader.Converter.Lock.{lock_volumes, lock_drops_fraction, stale_frozen_overclose}
use keen_trader.Tests.Samples.{
  one, rb_holding, order_of, trade_of, request_of, position_of, side_of, units,
}

update_trade_moves_example :
    let t = trade_of (codes "1") (codes "7") Direction.short close_position (units 2) in
    let h' = update_trade t rb_holding in
    ((opened_side Direction.short h').pos
      ≡ volume_of (opened_side Direction.short rb_holding) +ℤ zero_float)
    × ((reduced_side Direction.short h').pos
        ≡ volume_of (reduced_side Direction.short rb_holding) -ℤ units 2)
update_trade_moves_example =
    update_trade_moves (trade_of (codes "1") (codes "7") Direction.short close_position (units 2))
      rb_holding

update_order-IsCovered_example :
    IsCovered (update_order (order_of (codes "1") Direction.short close_today (units 1)) rb_holding)
unfolding ◌-ℤ◌
update_order-IsCovered_example =
    update_order-IsCovered (order_of (codes "1") Direction.short close_today (units 1)) rb_holding
      (ground arith) tt (ground arith, ground arith) (ground arith, ground arith)

-- A close of any age and one of yesterday's.
abbrev any_age : OrderData
any_age = order_of (codes "1") Direction.short close_position (units 1)

abbrev of_yesterday : OrderData
of_yesterday = order_of (codes "2") Direction.short close_yesterday (units 2)

abbrev two_orders : PositionHolding
two_orders = record rb_holding {
  active_orders = (codes "1", any_age) ∷ (codes "2", of_yesterday) ∷ [];
}

calculate_frozen_any_order_example :
    calculate_frozen two_orders
    ≡ sum_pos_frozen (freeze_orders (of_yesterday ∷ any_age ∷ []) (clear_frozen two_orders))
unfolding ◌-ℤ◌
calculate_frozen_any_order_example =
    calculate_frozen_any_order two_orders (of_yesterday ∷ any_age ∷ []) (Permᴰ.swap refl refl)
      (
        record { sane = ground arith; not_today = tt },
        (record { sane = ground arith; not_today = tt }, tt),
      )
      (ground arith, ground arith) (ground arith, ground arith)

-- A close of today's.
abbrev of_today : OrderData
of_today = order_of (codes "3") Direction.short close_today (units 2)

shfe_volumes_example :
    let req = request_of Direction.short close_position (units 3) in
    let rs = convert_order_request_shfe one rb_holding req in
    (total_volume rs ≡ units 3)
    × (volume_at close_today rs +ℤ volume_at close_yesterday rs ≡ units 3)
    × (volume_at close_today rs ≤ℤ td_available (closed_side rb_holding req))
    × (volume_at close_yesterday rs ≤ℤ yd_available (closed_side rb_holding req))
unfolding ◌-ℤ◌ ◌+ℤ◌ trunc
shfe_volumes_example =
    shfe_volumes one rb_holding (request_of Direction.short close_position (units 3)) refl
      (record {
        bounded = record {
          td_bounded = ground arith;
          yd_bounded = ground arith;
          frozen_summed = refl;
        };
        summed = refl;
        td_whole = refl;
        pos_whole = refl;
      })
      (ground arith) (ground arith)

net_volumes_example :
    let req = request_of Direction.short close_position (units 6) in
    let rs = convert_order_request_net one rb_holding req in
    (total_volume rs ≡ units 6)
    × (volume_at close_today rs ≤ℤ td_available (closed_side rb_holding req))
    × (volume_at close_yesterday rs ≤ℤ yd_available (closed_side rb_holding req))
    × (volume_at close_position rs ≤ℤ pos_available (closed_side rb_holding req))
unfolding ◌-ℤ◌ ◌+ℤ◌
net_volumes_example =
    net_volumes one rb_holding (request_of Direction.short close_position (units 6))
      (record { td_bounded = ground arith; yd_bounded = ground arith; frozen_summed = refl }) refl
      (ground arith)

lock_volumes_example :
    let req = request_of Direction.short close_position (units 4) in
    let rs = convert_order_request_lock one rb_holding req in
    (total_volume rs ≡ units 4)
    × (volume_at close_today rs ≡ zero_float)
    × (volume_at close_yesterday rs +ℤ volume_at close_position rs
        ≤ℤ yd_available (closed_side rb_holding req))
unfolding ◌-ℤ◌ ◌+ℤ◌ trunc
lock_volumes_example =
    lock_volumes one rb_holding (request_of Direction.short close_position (units 4))
      (record { td_bounded = ground arith; yd_bounded = ground arith; frozen_summed = refl })
      (ground arith) refl refl refl

-- One lot of today's is frozen.
abbrev frozen_holding : PositionHolding
frozen_holding = record rb_holding {
  long_side = record (side_of (units 2) (units 3)) { td_frozen = units 1; pos_frozen = units 1 };
}

stale_frozen_overclose_example :
    units 2
    <ℤ total_volume (
        convert_order_request_shfe one
          (update_position (position_of Direction.long (units 3) (units 3)) frozen_holding)
          (request_of Direction.short close_position (units 2)))
unfolding ◌-ℤ◌ trunc
stale_frozen_overclose_example =
    stale_frozen_overclose one (position_of Direction.long (units 3) (units 3)) frozen_holding
      (request_of Direction.short close_position (units 2)) refl refl refl refl (ground arith)
      (ground arith) (ground arith)

-- A request for one lot and a half, with nothing held.
abbrev one_and_a_half : OrderRequest
one_and_a_half = request_of Direction.short close_position (pos (one + 50))

abbrev no_long : PositionHolding
no_long = record rb_holding { long_side = side_of (pos 0) (pos 0) }

lock_drops_fraction_example :
    total_volume (convert_order_request_lock one no_long one_and_a_half)
    ≡ trunc one (pos (one + 50))
unfolding ◌-ℤ◌
lock_drops_fraction_example =
    lock_drops_fraction one no_long one_and_a_half refl refl (ground arith)
