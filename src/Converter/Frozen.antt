-- ===== src/Converter/Frozen.antt =====
-- core/engine/converter.cpp: `calculate_frozen` never freezes more than is held, nor less than nothing, and
-- depends on the order in which it meets the orders.
use keen_trader.Base.{◌≡◌, refl, sym, ap, subst, ◌∙◌, List, [], ◌∷◌, arith, Bool-cases, inl, inr}
use keen_trader.Base.Int.{
  ltb_ℤ, ltb_ℤ→lt, pos_part, neg_part, lt→ltb_ℤ, le→ltb_ℤ, min_ℤ_nonneg, zero_float, ◌+ℤ◌, ◌-ℤ◌,
  ◌≤ℤ◌, ◌<ℤ◌, int_laws, min_laws,
}
use keen_trader.Base.Lists.{All}
use keen_trader.Base.Map.{map_values, All-insert, All-erase}
use keen_trader.Objects.Constant.{
  Offset, Direction, long, short, net, open_position, close_position, close_today, close_yesterday,
}
use keen_trader.Objects.Market.{Float}
use keen_trader.Objects.Trading.{OrderData}
use keen_trader.Objects.Names.{is_active}
use keen_trader.Converter.Holding.{
  Side, PositionHolding, is_open, freeze, freeze_order, freeze_orders, sum_side_frozen,
  clear_frozen, calculate_frozen, store_order, update_order,
}
use keen_trader.Converter.Trades.{IsBounded, sum_side_frozen-IsBounded}

-- No more is traded than was ordered.
abbrev pub IsSane : OrderData → Type 0
IsSane o = zero_float ≤ℤ (o.volume -ℤ o.traded)

-- Neither the volumes nor their frozen parts are negative.
pub record IsSound (s : Side) : Type 0 where
  pub td_nonneg : zero_float ≤ℤ s.td
  pub yd_nonneg : zero_float ≤ℤ s.yd
  pub td_frozen_nonneg : zero_float ≤ℤ s.td_frozen
  pub yd_frozen_nonneg : zero_float ≤ℤ s.yd_frozen

freeze-IsSound :
    (o : Offset) (v : Float) (s : Side) → zero_float ≤ℤ v → IsSound s → IsSound (freeze o v s)
unfolding freeze
freeze-IsSound Offset.none v s p h = h
freeze-IsSound open_position v s p h = h
freeze-IsSound close_position v s p h = elim (Bool-cases (ltb_ℤ s.td (s.td_frozen +ℤ v))) [
  | inl over ↦ rw over (omega (int_laws, ltb_ℤ→lt s.td (s.td_frozen +ℤ v) over))
  | inr within ↦ rw within (omega int_laws)
]
freeze-IsSound close_today v s p h = omega int_laws
freeze-IsSound close_yesterday v s p h = omega int_laws

abbrev BothSound : PositionHolding → Type 0
BothSound h = IsSound h.long_side × IsSound h.short_side

freeze_order-BothSound :
    (o : OrderData) (h : PositionHolding) → IsSane o → BothSound h → BothSound (freeze_order o h)
unfolding freeze_order
freeze_order-BothSound o h p b = elim (Bool-cases (is_open o.offset)) [
  | inl opens ↦ rw opens b
  | inr closes ↦ rw closes (by_direction o.direction)
]
  where
    by_direction :
        (d : Direction)
        → BothSound (elim d [
          | long ↦ record h { short_side = freeze o.offset (o.volume -ℤ o.traded) h.short_side }
          | short ↦ record h { long_side = freeze o.offset (o.volume -ℤ o.traded) h.long_side }
          | net ↦ h
        ])
    by_direction long = (b.0, freeze-IsSound o.offset _ h.short_side p b.1)
    by_direction short = (freeze-IsSound o.offset _ h.long_side p b.0, b.1)
    by_direction net = b

freeze_orders-BothSound :
    (os : List OrderData) (h : PositionHolding)
    → All IsSane os
    → BothSound h
    → BothSound (freeze_orders os h)
unfolding freeze_orders
freeze_orders-BothSound [] h p b = b
freeze_orders-BothSound (o ∷ os) h p b =
    freeze_orders-BothSound os (freeze_order o h) p.1 (freeze_order-BothSound o h p.0 b)

sum_side_frozen-IsSound : (s : Side) → IsSound s → IsSound (sum_side_frozen s)
unfolding sum_side_frozen
sum_side_frozen-IsSound s h = record {
  td_nonneg = h.td_nonneg;
  yd_nonneg = h.yd_nonneg;
  td_frozen_nonneg = min_ℤ_nonneg s.td_frozen s.td h.td_frozen_nonneg h.td_nonneg;
  yd_frozen_nonneg = min_ℤ_nonneg s.yd_frozen s.yd h.yd_frozen_nonneg h.yd_nonneg;
}

-- The state that a holding keeps between events: no volume is negative, no more is frozen than held, and no active order has traded more than its volume.
pub record IsCovered (h : PositionHolding) : Type 0 where
  pub orders_sane : All IsSane (map_values h.active_orders)
  pub long_sound : IsSound h.long_side
  pub short_sound : IsSound h.short_side
  pub long_bounded : IsBounded h.long_side
  pub short_bounded : IsBounded h.short_side

-- No volume of a side is negative.
abbrev pub IsHeld : Side → Type 0
IsHeld s = (zero_float ≤ℤ s.td) × (zero_float ≤ℤ s.yd)

calculate_frozen-IsCovered :
    (h : PositionHolding)
    → All IsSane (map_values h.active_orders)
    → IsHeld h.long_side
    → IsHeld h.short_side
    → All IsSane (map_values (calculate_frozen h).active_orders)
    → IsCovered (calculate_frozen h)
unfolding calculate_frozen
calculate_frozen-IsCovered h p l s kept =
    let b =
      freeze_orders-BothSound (map_values h.active_orders) (clear_frozen h) p
        (omega arith, omega arith) in
    let f = freeze_orders (map_values h.active_orders) (clear_frozen h) in
    record {
      orders_sane = kept;
      long_sound = sum_side_frozen-IsSound _ b.0;
      short_sound = sum_side_frozen-IsSound _ b.1;
      long_bounded = sum_side_frozen-IsBounded f.long_side;
      short_bounded = sum_side_frozen-IsBounded f.short_side;
    }

freeze_order-active_orders :
    (o : OrderData) (h : PositionHolding) → (freeze_order o h).active_orders ≡ h.active_orders
unfolding freeze_order
freeze_order-active_orders o h = ground arith

freeze_orders-active_orders :
    (os : List OrderData) (h : PositionHolding)
    → (freeze_orders os h).active_orders ≡ h.active_orders
unfolding freeze_orders
freeze_orders-active_orders [] h = refl
freeze_orders-active_orders (o ∷ os) h =
    freeze_orders-active_orders os (freeze_order o h) ∙ freeze_order-active_orders o h

pub calculate_frozen-active_orders :
    (h : PositionHolding) → (calculate_frozen h).active_orders ≡ h.active_orders
unfolding calculate_frozen
calculate_frozen-active_orders h =
    freeze_orders-active_orders (map_values h.active_orders) (clear_frozen h)

store_order-All :
    (o : OrderData) (h : PositionHolding)
    → IsSane o
    → All IsSane (map_values h.active_orders)
    → All IsSane (map_values (store_order o h).active_orders)
unfolding store_order
store_order-All o h q p = elim (Bool-cases (is_active o)) [
  | inl active ↦ rw active (All-insert IsSane o.kt_orderid o h.active_orders q p)
  | inr done ↦ rw done (All-erase IsSane o.kt_orderid h.active_orders p)
]

-- An order update leaves a covered holding: from volumes that are not negative and orders that have not traded more than they asked for, every frozen part ends between zero and what is held, and each total is the sum of its parts.
pub update_order-IsCovered :
    (o : OrderData) (h : PositionHolding)
    → IsSane o
    → All IsSane (map_values h.active_orders)
    → IsHeld h.long_side
    → IsHeld h.short_side
    → IsCovered (update_order o h)
unfolding update_order
update_order-IsCovered o h q p l s =
    calculate_frozen-IsCovered (store_order o h) (store_order-All o h q p) l s (
      subst (λ m. All IsSane (map_values m))
        (sym (calculate_frozen-active_orders (store_order o h))) (store_order-All o h q p))

-- `calculate_frozen` walks an unordered map: where an order for today's position and one for any age together ask for more than today's position, they freeze more when the first is met first.
pub freeze_order_dependent :
    (v w : Float) (s : Side)
    → s.td_frozen ≡ zero_float
    → s.yd_frozen ≡ zero_float
    → zero_float <ℤ v
    → zero_float <ℤ w
    → v ≤ℤ s.td
    → w ≤ℤ s.td
    → s.td <ℤ (v +ℤ w)
    → zero_float <ℤ s.yd
    → (sum_side_frozen (freeze close_today v (freeze close_position w s))).pos_frozen
      <ℤ (sum_side_frozen (freeze close_position w (freeze close_today v s))).pos_frozen
unfolding freeze sum_side_frozen
freeze_order_dependent v w s a b c d e f g i =
    rw
      (
        le→ltb_ℤ s.td (s.td_frozen +ℤ w) (omega (int_laws, ap pos_part a, ap neg_part a)),
        lt→ltb_ℤ s.td (s.td_frozen +ℤ v +ℤ w) (omega (int_laws, ap pos_part a, ap neg_part a)),
      )
      (omega (min_laws, ap pos_part a, ap neg_part a, ap pos_part b, ap neg_part b))
