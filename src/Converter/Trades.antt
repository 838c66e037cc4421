-- ===== src/Converter/Trades.antt =====
-- core/engine/converter.cpp: what a trade does to a holding, against the volumes it should move.
use keen_trader.Base.{◌≡◌, refl, true, if◌then◌else◌, Bool-cases, inl, inr}
use keen_trader.Base.Int.{ltb_ℤ, zero_float, ◌+ℤ◌, ◌-ℤ◌, ◌≤ℤ◌, int_laws, min_ℤ_bounds}
use keen_trader.Objects.Constant.{
  Exchange, Direction, Offset, open_position, close_position, close_today, close_yesterday,
}
use keen_trader.Objects.Market.{Float}
use keen_trader.Objects.Trading.{TradeData}
use keen_trader.Converter.Holding.{
  Side, PositionHolding, is_long, is_open, close_side, close_any_age, apply_trade, update_trade,
  sum_side_frozen, is_shfe_or_ine,
}

-- The side that a trade opens, and the side that it closes.
abbrev pub opened_side : Direction → PositionHolding → Side
opened_side d h = if is_long d then h.long_side else h.short_side

abbrev pub reduced_side : Direction → PositionHolding → Side
reduced_side d h = if is_long d then h.short_side else h.long_side

abbrev pub opened : Offset → Float → Float
opened offset volume = if is_open offset then volume else zero_float

abbrev pub closed : Offset → Float → Float
closed Offset.none volume = zero_float
closed open_position volume = zero_float
closed close_position volume = volume
closed close_today volume = volume
closed close_yesterday volume = volume

-- What is frozen of each age is held at that age.
pub record IsBounded (s : Side) : Type 0 where
  pub td_bounded : s.td_frozen ≤ℤ s.td
  pub yd_bounded : s.yd_frozen ≤ℤ s.yd
  pub frozen_summed : s.pos_frozen ≡ s.td_frozen +ℤ s.yd_frozen

pub sum_side_frozen-IsBounded : (s : Side) → IsBounded (sum_side_frozen s)
unfolding sum_side_frozen
sum_side_frozen-IsBounded s = record {
  td_bounded = (min_ℤ_bounds s.td_frozen s.td).1;
  yd_bounded = (min_ℤ_bounds s.yd_frozen s.yd).1;
  frozen_summed = refl;
}

close_any_age_volume :
    (v : Float) (s : Side) → (close_any_age v s).td +ℤ (close_any_age v s).yd ≡ (s.td +ℤ s.yd) -ℤ v
unfolding close_any_age
close_any_age_volume v s = elim (Bool-cases (ltb_ℤ (s.td -ℤ v) zero_float)) [
  | inl over ↦ rw over (omega int_laws)
  | inr covered ↦ rw covered (omega int_laws)
]

close_side_volume :
    (ex : Exchange) (o : Offset) (v : Float) (s : Side)
    → (close_side ex o v s).td +ℤ (close_side ex o v s).yd ≡ (s.td +ℤ s.yd) -ℤ closed o v
unfolding close_side
close_side_volume ex Offset.none v s = omega int_laws
close_side_volume ex open_position v s = omega int_laws
close_side_volume ex close_position v s = elim (Bool-cases (is_shfe_or_ine ex)) [
  | inl aged ↦ rw aged (omega int_laws)
  | inr plain ↦ rw plain (close_any_age_volume v s)
]
close_side_volume ex close_today v s = omega int_laws
close_side_volume ex close_yesterday v s = omega int_laws

-- The volume of a side, as the sum of its two ages.
abbrev pub volume_of : Side → Float
volume_of s = s.td +ℤ s.yd

opened_side_trade :
    (t : TradeData) (h : PositionHolding)
    → volume_of (opened_side t.direction (apply_trade t h))
      ≡ volume_of (opened_side t.direction h) +ℤ opened t.offset t.volume
unfolding apply_trade
opened_side_trade t h = elim (Bool-cases (is_long t.direction)) [
  | inl l ↦ elim (Bool-cases (is_open t.offset)) [
    | inl o ↦ rw (l, o) (omega int_laws)
    | inr c ↦ rw (l, c) (omega int_laws)
  ]
  | inr l ↦ elim (Bool-cases (is_open t.offset)) [
    | inl o ↦ rw (l, o) (omega int_laws)
    | inr c ↦ rw (l, c) (omega int_laws)
  ]
]

closed_open : (o : Offset) (v : Float) → is_open o ≡ true → closed o v ≡ zero_float
closed_open Offset.none v h = cc
closed_open open_position v h = refl
closed_open close_position v h = cc
closed_open close_today v h = cc
closed_open close_yesterday v h = cc

reduced_side_trade :
    (t : TradeData) (h : PositionHolding)
    → volume_of (reduced_side t.direction (apply_trade t h))
      ≡ volume_of (reduced_side t.direction h) -ℤ closed t.offset t.volume
unfolding apply_trade
reduced_side_trade t h = elim (Bool-cases (is_long t.direction)) [
  | inl l ↦ elim (Bool-cases (is_open t.offset)) [
    | inl o ↦ rw (l, o, closed_open t.offset t.volume o) (omega int_laws)
    | inr c ↦ rw (l, c) (close_side_volume t.exchange t.offset t.volume h.short_side)
  ]
  | inr l ↦ elim (Bool-cases (is_open t.offset)) [
    | inl o ↦ rw (l, o, closed_open t.offset t.volume o) (omega int_laws)
    | inr c ↦ rw (l, c) (close_side_volume t.exchange t.offset t.volume h.long_side)
  ]
]

-- A trade raises the position that it opens by the volume of an opening, and lowers the other side's by the volume of a closing, on every exchange and however it is split by age.
pub update_trade_moves :
    (t : TradeData) (h : PositionHolding)
    → let h' = update_trade t h in
      ((opened_side t.direction h').pos
        ≡ volume_of (opened_side t.direction h) +ℤ opened t.offset t.volume)
      × ((reduced_side t.direction h').pos
          ≡ volume_of (reduced_side t.direction h) -ℤ closed t.offset t.volume)
unfolding update_trade
update_trade_moves t h = elim (Bool-cases (is_long t.direction)) [
  | inl l ↦
      let a = opened_side_trade t h in let b = reduced_side_trade t h in rw l (rw l at a, rw l at b)
  | inr l ↦
      let a = opened_side_trade t h in let b = reduced_side_trade t h in rw l (rw l at a, rw l at b)
]
