-- ===== src/Bars/Ticks.antt =====
-- core/engine/utility.cpp: bars from ticks.
use keen_trader.Base.{
  ℕ, ◌≡◌, ◌≢◌, refl, sym, ap, ◌∙◌, true, false, Option, none, some, List, [], ◌∷◌, ◌++◌, arith,
  ◌==◌, ==_iff, Bool-cases, inl, inr,
}
use keen_trader.Base.Int.{
  zero_float, ◌+ℤ◌, ◌-ℤ◌, ◌≤ℤ◌, min_ℤ, max_ℤ, is_nonzero, min_laws, int_laws,
}
use keen_trader.Base.Lists.{All}
use keen_trader.Objects.Market.{TickData, BarData, Float}
use keen_trader.Objects.Names.{EnumNames}
use keen_trader.Bars.Generator.{
  BarGenerator, bar_of_tick, extend_bar, add_volume, tick_bar, update_tick, get_minutes,
  replace_minutes,
}

-- Open and close lie between low and high.
pub record IsOhlc (b : BarData) : Type 0 where
  pub low_open : b.low_price ≤ℤ b.open_price
  pub open_high : b.open_price ≤ℤ b.high_price
  pub low_close : b.low_price ≤ℤ b.close_price
  pub close_high : b.close_price ≤ℤ b.high_price

abbrev pub BarIsOhlc : Option BarData → Type 0
BarIsOhlc none = Unit
BarIsOhlc (some b) = IsOhlc b

extend_bar-IsOhlc : (t : TickData) (b : BarData) → IsOhlc b → IsOhlc (extend_bar t b)
unfolding extend_bar
extend_bar-IsOhlc t b h = omega min_laws

add_volume-IsOhlc :
    (last : Option TickData) (t : TickData) (b : BarData) → IsOhlc b → IsOhlc (add_volume last t b)
unfolding add_volume
add_volume-IsOhlc none t b h = h
add_volume-IsOhlc (some last) t b h = omega arith

-- The ticks of one minute, after a bar of that minute.
abbrev pub SameMinute : ℕ → List TickData → Type 0
SameMinute m [] = Unit
SameMinute m (t ∷ ts) =
    (get_minutes t.datetime ≡ m) × (is_nonzero t.last_price ≡ true) × SameMinute m ts

-- The specification of a bar's prices over a list of ticks.
abbrev pub highest : Float → List TickData → Float
highest x [] = x
highest x (t ∷ ts) = highest (max_ℤ x t.last_price) ts

abbrev pub lowest : Float → List TickData → Float
lowest x [] = x
lowest x (t ∷ ts) = lowest (min_ℤ x t.last_price) ts

abbrev pub last_price_of : Float → List TickData → Float
last_price_of x [] = x
last_price_of x (t ∷ ts) = last_price_of t.last_price ts

abbrev pub traded_in : Option TickData → List TickData → Float
traded_in last [] = zero_float
traded_in none (t ∷ ts) = traded_in (some t) ts
traded_in (some last) (t ∷ ts) = max_ℤ (t.volume -ℤ last.volume) zero_float +ℤ traded_in (some t) ts

module _ (names : EnumNames) where
  bar_of_tick-IsOhlc : (t : TickData) → IsOhlc (bar_of_tick names t)
  unfolding bar_of_tick
  bar_of_tick-IsOhlc t = omega arith

  tick_bar-IsOhlc :
      (ob : Option BarData) (t : TickData)
      → BarIsOhlc ob
      → IsOhlc (tick_bar names ob t).0 × All IsOhlc (tick_bar names ob t).1
  unfolding tick_bar
  tick_bar-IsOhlc none t h = (bar_of_tick-IsOhlc t, tt)
  tick_bar-IsOhlc (some b) t h =
      elim (Bool-cases (get_minutes b.datetime == get_minutes t.datetime)) [
        | inl same ↦ rw same (extend_bar-IsOhlc t b h, tt)
        | inr other ↦ rw other (
          bar_of_tick-IsOhlc t,
          (
            record {
              low_open = h.low_open;
              open_high = h.open_high;
              low_close = h.low_close;
              close_high = h.close_high;
            },
            tt,
          ),
        )
      ]

  -- A tick with a price in another minute than the bar under way completes exactly that bar, stamped with the start of its minute, and opens one whose four prices are the tick's.
  pub update_tick_new_minute :
      (t : TickData) (g : BarGenerator) (b : BarData)
      → g.bar ≡ some b
      → get_minutes b.datetime ≢ get_minutes t.datetime
      → is_nonzero t.last_price ≡ true
      → let r = update_tick names t g in
        (r.1 ≡ record b { datetime = replace_minutes b.datetime } ∷ [])
        × (r.0.bar ≡ some (add_volume g.last_tick t (bar_of_tick names t)))
        × (r.0.last_tick ≡ some t)
  unfolding update_tick tick_bar
  update_tick_new_minute t g b e m p =
      let other : (get_minutes b.datetime == get_minutes t.datetime) ≡ false = ground arith in
      rw (p, e, tick_bar, other) (refl, refl, refl)

  -- A tick keeps the bar under way well formed, and the bars that it completes are: open and close between low and high.
  pub update_tick-IsOhlc :
      (t : TickData) (g : BarGenerator)
      → BarIsOhlc g.bar
      → BarIsOhlc (update_tick names t g).0.bar × All IsOhlc (update_tick names t g).1
  unfolding update_tick
  update_tick-IsOhlc t g h = elim (Bool-cases (is_nonzero t.last_price)) [
    | inl priced ↦
        let b = tick_bar-IsOhlc g.bar t h in
        rw priced (add_volume-IsOhlc g.last_tick t (tick_bar names g.bar t).0 b.0, b.1)
    | inr zero_price ↦ rw zero_price (h, tt)
  ]

  unfoldable pub run_ticks : List TickData → BarGenerator → BarGenerator × List BarData
  run_ticks [] g = (g, [])
  run_ticks (t ∷ ts) g =
      let (g', out) = update_tick names t g in
      let (g'', later) = run_ticks ts g' in (g'', out ++ later)

  added :
      (last : Option TickData) (t : TickData) (b : BarData) (ts : List TickData)
      → let c = add_volume last t (extend_bar t b) in
        (c.datetime ≡ t.datetime)
        × (c.open_price ≡ b.open_price)
        × (c.high_price ≡ max_ℤ b.high_price t.last_price)
        × (c.low_price ≡ min_ℤ b.low_price t.last_price)
        × (c.close_price ≡ t.last_price)
        × (c.volume +ℤ traded_in (some t) ts ≡ b.volume +ℤ traded_in last (t ∷ ts))
  unfolding add_volume extend_bar
  added none t b ts = (refl, refl, refl, refl, refl, refl)
  added (some last) t b ts = (refl, refl, refl, refl, refl, omega int_laws)

  update_tick_same :
      (t : TickData) (g : BarGenerator) (b : BarData)
      → g.bar ≡ some b
      → get_minutes t.datetime ≡ get_minutes b.datetime
      → is_nonzero t.last_price ≡ true
      → update_tick names t g ≡ (
        record g { bar = some (add_volume g.last_tick t (extend_bar t b)); last_tick = some t },
        [],
      )
  unfolding update_tick tick_bar
  update_tick_same t g b e m p =
      let same = (==_iff (get_minutes b.datetime) (get_minutes t.datetime)).1 (sym m) in
      rw (p, e, tick_bar, same)

  -- While ticks with a price stay in the minute of the bar under way, no bar is completed, and the bar has the prices of its ticks: its open stays, its high and low are extended by all of them, its close is the last, and its volume grows by the increases between successive ticks.
  pub run_ticks_one_minute :
      (ts : List TickData) (g : BarGenerator) (b : BarData)
      → g.bar ≡ some b
      → SameMinute (get_minutes b.datetime) ts
      → let r = run_ticks ts g in
        (r.1 ≡ [])
        × (b' : BarData) × (r.0.bar ≡ some b')
        × (b'.open_price ≡ b.open_price)
        × (b'.high_price ≡ highest b.high_price ts)
        × (b'.low_price ≡ lowest b.low_price ts)
        × (b'.close_price ≡ last_price_of b.close_price ts)
        × (b'.volume ≡ b.volume +ℤ traded_in g.last_tick ts)
  unfolding run_ticks
  run_ticks_one_minute [] g b e m = (refl, b, e, refl, refl, refl, refl, omega int_laws)
  run_ticks_one_minute (t ∷ ts) g b e m =
      let c = add_volume g.last_tick t (extend_bar t b) in
      let a = added g.last_tick t b ts in
      let g' = record g { bar = some c; last_tick = some t } in
      let ih = run_ticks_one_minute ts g' c refl (rw (a.0, m.0) m.2) in
      rw (update_tick_same t g b e m.0 m.1) (
        ih.0,
        ih.1,
        ih.2,
        ih.3 ∙ a.1,
        ih.4 ∙ ap (λ x. highest x ts) a.2,
        ih.5 ∙ ap (λ x. lowest x ts) a.3,
        ih.6 ∙ ap (λ x. last_price_of x ts) a.4,
        ih.7 ∙ a.5,
      )
