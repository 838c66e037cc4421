-- ===== src/Bars/Generator.antt =====
-- core/engine/utility.cpp: the state and the methods of `BarGenerator`. The callbacks are the bars that they are
-- called with, in order. Times are milliseconds since the epoch, which the package `date` splits into
-- days and minutes. `on_bar` is taken to be there, `on_window_bar` is `nullptr` where the constructor gets none.
use keen_trader.Base.{
  ℕ, ◌+◌, ◌*◌, ◌/◌, ◌%◌, Bool, true, false, not, ◌&&◌, Option, none, some, List, [], ◌∷◌,
  if◌then◌else◌, ◌==◌,
}
use keen_trader.Base.Int.{zero_float, ◌+ℤ◌, ◌-ℤ◌, min_ℤ, max_ℤ, is_nonzero, trunc}
use keen_trader.Objects.Constant.{Interval, minute, hour}
use keen_trader.Objects.Market.{TickData, BarData, DateTime}
use keen_trader.Objects.Names.{EnumNames, bar_post_init}

pub record BarGenerator : Type 0 where
  pub bar : Option BarData
  pub window_bar : Option BarData
  pub window : ℕ
  pub interval : Interval
  pub interval_count : ℕ
  pub last_tick : Option TickData
  pub last_bar : Option BarData
  pub has_on_window_bar : Bool

abbrev pub new_generator : ℕ → Bool → Interval → BarGenerator
new_generator window has_on_window_bar interval = record {
  bar = none;
  window_bar = none;
  window = window;
  interval = interval;
  interval_count = 0;
  last_tick = none;
  last_bar = none;
  has_on_window_bar = has_on_window_bar;
}

unfoldable pub get_minutes : DateTime → ℕ
get_minutes t = t / 60000

unfoldable pub get_hours : DateTime → ℕ
get_hours t = t / 3600000

unfoldable pub replace_minutes : DateTime → DateTime
replace_minutes t = t / 60000 * 60000

unfoldable pub replace_hours : DateTime → DateTime
replace_hours t = t / 3600000 * 3600000

-- `make_time(datetime - floor<days>(datetime)).minutes()`
unfoldable pub minute_of_hour : DateTime → ℕ
minute_of_hour t = t % 86400000 / 60000 % 60

unfoldable pub extend_bar : TickData → BarData → BarData
extend_bar tick b = record b {
  high_price = max_ℤ b.high_price tick.last_price;
  low_price = min_ℤ b.low_price tick.last_price;
  close_price = tick.last_price;
  open_interest = tick.open_interest;
  datetime = tick.datetime;
}

-- The volume since the last tick.
unfoldable pub add_volume : Option TickData → TickData → BarData → BarData
add_volume none tick b = b
add_volume (some last) tick b = record b {
  volume = b.volume +ℤ max_ℤ (tick.volume -ℤ last.volume) zero_float;
}

unfoldable pub extend_window : BarData → BarData → BarData
extend_window b w = record w {
  high_price = max_ℤ w.high_price b.high_price;
  low_price = min_ℤ w.low_price b.low_price;
}

-- `a % b`; `none` where `b` is zero, which stops the program.
unfoldable pub mod_int : ℕ → ℕ → Option ℕ
mod_int a b = if b == 0 then none else some (a % b)

-- The test for a finished hour window, with the count that it leaves.
unfoldable pub hour_finished : BarGenerator → Option (Bool × ℕ)
unfolding mod_int
hour_finished g =
    if g.window == 1
    then some (true, g.interval_count)
    else elim (mod_int (g.interval_count + 1) g.window) [
      | none ↦ none
      | some r ↦ if r == 0 then some (false, g.interval_count + 1) else some (true, 0)
    ]

unfoldable pub hour_changed : Option BarData → BarData → Bool
unfolding get_hours
hour_changed none b = false
hour_changed (some last) b = not (get_hours b.datetime == get_hours last.datetime)

unfoldable pub finished_by : Interval → BarGenerator → BarData → Option (Bool × ℕ)
unfolding hour_finished hour_changed minute_of_hour mod_int
finished_by minute g b = elim (mod_int (minute_of_hour b.datetime + 1) g.window) [
  | none ↦ none
  | some r ↦ some (r == 0, g.interval_count)
]
finished_by hour g b =
    if hour_changed g.last_bar b then hour_finished g else some (false, g.interval_count)
finished_by _ g b = some (false, g.interval_count)

-- Whether the window bar is complete, with the count that the test leaves.
unfoldable pub is_finished : BarGenerator → BarData → Option (Bool × ℕ)
unfolding finished_by
is_finished g b = finished_by g.interval g b

-- `none` is the access to a bar that is not there.
unfoldable pub generate : BarGenerator → Option (BarGenerator × List BarData)
unfolding replace_minutes
generate g = elim g.bar [
  | none ↦ none
  | some b ↦ some (record g { bar = none }, record b { datetime = replace_minutes b.datetime } ∷ [])
]

module _ (names : EnumNames) where
  unfoldable pub bar_of_tick : TickData → BarData
  unfolding bar_post_init
  bar_of_tick tick = bar_post_init names (record {
    exchange_name = tick.exchange_name;
    symbol = tick.symbol;
    exchange = tick.exchange;
    datetime = tick.datetime;
    interval = minute;
    volume = zero_float;
    open_interest = tick.open_interest;
    open_price = tick.last_price;
    high_price = tick.last_price;
    low_price = tick.last_price;
    close_price = tick.last_price;
    kt_symbol = [];
  })

  -- The bar that a tick leaves, and the bars that `on_bar` gets, by the bar that was there.
  unfoldable pub tick_bar : Option BarData → TickData → BarData × List BarData
  unfolding bar_of_tick extend_bar replace_minutes get_minutes
  tick_bar none tick = (bar_of_tick tick, [])
  tick_bar (some b) tick =
      if get_minutes b.datetime == get_minutes tick.datetime
      then (extend_bar tick b, [])
      else (bar_of_tick tick, record b { datetime = replace_minutes b.datetime } ∷ [])

  unfoldable pub update_tick : TickData → BarGenerator → BarGenerator × List BarData
  unfolding tick_bar add_volume
  update_tick tick g =
      let (b, out) = tick_bar g.bar tick in
      if not (is_nonzero tick.last_price)
      then (g, [])
      else (record g { bar = some (add_volume g.last_tick tick b); last_tick = some tick }, out)

  -- The window bar that a bar opens. Its interval, volume, open interest and close keep the defaults.
  unfoldable pub open_window : Interval → BarData → BarData
  unfolding bar_post_init replace_minutes replace_hours
  open_window interval b = bar_post_init names (record {
    exchange_name = b.exchange_name;
    symbol = b.symbol;
    exchange = b.exchange;
    datetime = elim interval [ minute ↦ replace_minutes b.datetime | _ ↦ replace_hours b.datetime ];
    interval = Interval.none;
    volume = zero_float;
    open_interest = zero_float;
    open_price = b.open_price;
    high_price = b.high_price;
    low_price = b.low_price;
    close_price = zero_float;
    kt_symbol = [];
  })

  unfoldable pub current_window : BarGenerator → BarData → BarData
  unfolding open_window extend_window
  current_window g b = elim g.window_bar [
    | none ↦ open_window g.interval b
    | some old ↦ extend_window b old
  ]

  unfoldable pub window_with : ℕ → BarGenerator → BarData → BarData
  unfolding current_window
  window_with one g b =
      let w = current_window g b in
      record w {
        close_price = b.close_price;
        volume = w.volume +ℤ trunc one b.volume;
        open_interest = b.open_interest;
      }

  -- `none` is a division by a window of zero, or the call of an `on_window_bar` that is not there, which throws. The bars are those that `on_window_bar` gets.
  unfoldable pub update_bar : ℕ → BarData → BarGenerator → Option (BarGenerator × List BarData)
  unfolding window_with is_finished
  update_bar one b g =
      let w = window_with one g b in
      elim (is_finished g b) [
        | none ↦ none
        | some (finished, count) ↦
            if finished && not g.has_on_window_bar
            then none
            else some (
              record g { window_bar = none; interval_count = count; last_bar = some b },
              if finished then w ∷ [] else [],
            )
      ]
