-- ===== src/Tests/BarTests.antt =====
-- The theorems on bars, at concrete ticks and bars.
use keen_trader.Base.{true, ◌≡◌, ◌⊎◌, refl, arith, some, none, List, [], ◌∷◌}
use keen_trader.Base.Int.{◌+ℤ◌}
use keen_trader.Base.Lists.{All}
use keen_trader.Objects.Constant.{Interval}
use keen_trader.Objects.Market.{TickData, BarData}
use keen_trader.Bars.Generator.{
  BarGenerator, new_generator, finished_by, minute_of_hour, mod_int, window_with, update_tick,
  update_bar, is_finished, get_minutes,
}
use keen_trader.Bars.Ticks.{
  update_tick-IsOhlc, run_ticks_one_minute, run_ticks, IsOhlc, BarIsOhlc, highest, lowest,
  last_price_of, traded_in,
}
use keen_trader.Bars.Windows.{update_bar_copies, IsCopy}
use keen_trader.Tests.Names.{names}
use keen_trader.Tests.Samples.{one, tick_at, bar_at, units}

abbrev minute_bars : BarGenerator
minute_bars = new_generator 0 true Interval.minute

abbrev with_bar : BarGenerator
with_bar = record minute_bars {
  bar = some (bar_at 60000);
  last_tick = some (tick_at 60500 (units 36) (units 5));
}

update_tick-IsOhlc_example :
    let r = update_tick names (tick_at 61000 (units 38) (units 9)) with_bar in
    BarIsOhlc r.0.bar × All IsOhlc r.1
update_tick-IsOhlc_example =
    update_tick-IsOhlc names (tick_at 61000 (units 38) (units 9)) with_bar (record {
      low_open = ground arith;
      open_high = ground arith;
      low_close = ground arith;
      close_high = ground arith;
    })

abbrev ticks : List TickData
ticks = tick_at 61000 (units 38) (units 9) ∷ tick_at 62000 (units 33) (units 10) ∷ []

run_ticks_one_minute_example :
    let r = run_ticks names ticks with_bar in
    (r.1 ≡ [])
    × (b' : BarData) × (r.0.bar ≡ some b')
    × (b'.open_price ≡ units 35)
    × (b'.high_price ≡ highest (units 37) ticks)
    × (b'.low_price ≡ lowest (units 34) ticks)
    × (b'.close_price ≡ last_price_of (units 36) ticks)
    × (b'.volume ≡ units 5 +ℤ traded_in with_bar.last_tick ticks)
unfolding get_minutes
run_ticks_one_minute_example =
    run_ticks_one_minute names ticks with_bar (bar_at 60000) refl (refl, refl, (refl, refl, tt))

-- The last bar of a window of five minutes.
abbrev five_minutes : BarGenerator
five_minutes = new_generator 5 true Interval.minute

abbrev after_five : BarGenerator
after_five = record five_minutes { last_bar = some (bar_at 240000) }

abbrev five_bars : List BarData
five_bars = window_with names one five_minutes (bar_at 240000) ∷ []

update_bar_copies_example :
    (after_five.window_bar ≡ none)
    × ((five_bars ≡ []) ⊎ ((w : BarData) × (five_bars ≡ w ∷ []) × IsCopy one (bar_at 240000) w))
unfolding update_bar is_finished finished_by minute_of_hour mod_int
update_bar_copies_example =
    update_bar_copies names one (bar_at 240000) five_minutes after_five five_bars refl refl

-- Windows of four hours, after a bar of the first hour.
abbrev four_hours : BarGenerator
four_hours = record (new_generator 4 true Interval.hour) { last_bar = some (bar_at 60000) }

abbrev hourly : List BarData
hourly = bar_at 3660000 ∷ bar_at 7260000 ∷ []
