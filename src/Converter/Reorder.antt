-- ===== src/Converter/Reorder.antt =====
-- core/engine/converter.cpp: `calculate_frozen` walks an unordered map, and its result depends on the order only where an order
-- closes today's position alone.
use keen_trader.Base.{◌≡◌, refl, sym, ap, subst, ◌∙◌, List, [], ◌∷◌}
use mathlib.Core.List.{Permᴰ}
use mathlib.Core.List.Permᴰ.{nil, cons, swap, trans}
use keen_trader.Base.Int.{zero_float, ◌+ℤ◌, ◌-ℤ◌, ◌≤ℤ◌, ◌<ℤ◌}
use keen_trader.Base.Lists.{All}
use keen_trader.Base.Text.{AString}
use keen_trader.Base.Map.{map_values}
use keen_trader.Objects.Constant.{Offset, Direction, long, short, net, close_position, close_today}
use keen_trader.Objects.Market.{Float}
use keen_trader.Objects.Trading.{OrderData}
use keen_trader.Converter.Holding.{
  PositionHolding, freeze, freeze_order, freeze_orders, clear_frozen, calculate_frozen,
  sum_pos_frozen, clear_side,
}
use keen_trader.Converter.Frozen.{IsSane, IsHeld, freeze_order_dependent}
use keen_trader.Converter.Swaps.{
  NotToday, IsLimited, freeze_by, freeze-IsLimited, freeze_swap, freeze_order_by,
}

-- An order that has not traded more than it asked for, and does not close today's position alone.
pub record IsFair (o : OrderData) : Type 0 where
  pub sane : IsSane o
  pub not_today : NotToday o.offset

abbrev BothLimited : PositionHolding → Type 0
BothLimited h = IsLimited h.long_side × IsLimited h.short_side

freeze_by-BothLimited :
    (d : Direction) (o : Offset) (v : Float) (h : PositionHolding)
    → NotToday o
    → BothLimited h
    → BothLimited (freeze_by d o v h)
freeze_by-BothLimited long o v h n l = (l.0, freeze-IsLimited o v h.short_side n l.1)
freeze_by-BothLimited short o v h n l = (freeze-IsLimited o v h.long_side n l.0, l.1)
freeze_by-BothLimited net o v h n l = l

freeze_order-BothLimited :
    (o : OrderData) (h : PositionHolding)
    → IsFair o
    → BothLimited h
    → BothLimited (freeze_order o h)
freeze_order-BothLimited o h f l =
    subst BothLimited (sym (freeze_order_by o h))
      (freeze_by-BothLimited o.direction o.offset (o.volume -ℤ o.traded) h f.not_today l)

freeze_by_swap :
    (d e : Direction) (o p : Offset) (v w : Float) (h : PositionHolding)
    → NotToday o
    → NotToday p
    → zero_float ≤ℤ v
    → zero_float ≤ℤ w
    → BothLimited h
    → freeze_by d o v (freeze_by e p w h) ≡ freeze_by e p w (freeze_by d o v h)
freeze_by_swap long long o p v w h m n a b l =
    ap (λ s. record h { short_side = s }) (freeze_swap o p v w h.short_side m n a b l.1)
freeze_by_swap short short o p v w h m n a b l =
    ap (λ s. record h { long_side = s }) (freeze_swap o p v w h.long_side m n a b l.0)
freeze_by_swap long short o p v w h m n a b l = refl
freeze_by_swap short long o p v w h m n a b l = refl
freeze_by_swap net e o p v w h m n a b l = refl
freeze_by_swap d net o p v w h m n a b l = refl

freeze_order_swap :
    (o p : OrderData) (h : PositionHolding)
    → IsFair o
    → IsFair p
    → BothLimited h
    → freeze_order o (freeze_order p h) ≡ freeze_order p (freeze_order o h)
freeze_order_swap o p h f g l =
    rw
      (
        freeze_order_by o (freeze_order p h),
        freeze_order_by p (freeze_order o h),
        freeze_order_by o h,
        freeze_order_by p h,
      )
      (freeze_by_swap o.direction p.direction o.offset p.offset _ _ h f.not_today g.not_today f.sane
        g.sane l)

module _ {ℓ κ} {A : Type ℓ} (P : A → Type κ) where
  All-Permᴰ : {xs ys : List A} → Permᴰ xs ys → All P xs → All P ys
  All-Permᴰ nil h = h
  All-Permᴰ (cons e p) h = (subst P e h.0, All-Permᴰ p h.1)
  All-Permᴰ (swap e f) h = let (x, later) = h in (subst P f later.0, (subst P e x, later.1))
  All-Permᴰ (trans p q) h = All-Permᴰ q (All-Permᴰ p h)

freeze_orders_reorder :
    {os ps : List OrderData} (h : PositionHolding)
    → Permᴰ os ps
    → All IsFair os
    → BothLimited h
    → freeze_orders os h ≡ freeze_orders ps h
unfolding freeze_orders
freeze_orders_reorder h nil f l = refl
freeze_orders_reorder h (cons {a} {b} {l₁} {l₂} e p) f l =
    freeze_orders_reorder (freeze_order a h) p f.1 (freeze_order-BothLimited a h f.0 l)
    ∙ ap (λ x. freeze_orders l₂ (freeze_order x h)) e
freeze_orders_reorder h (swap {a} {b} {a'} {b'} {l = rest} e g) f l = ap (freeze_orders rest) (
    freeze_order_swap b a h (f.1).0 f.0 l
    ∙ (ap (λ x. freeze_order x (freeze_order b h)) e
        ∙ ap (λ x. freeze_order b' (freeze_order x h)) g))
freeze_orders_reorder h (trans p q) f l =
    freeze_orders_reorder h p f l ∙ freeze_orders_reorder h q (All-Permᴰ IsFair p f) l

-- When no active order closes today's position alone and none has traded more than it asked for, the walk over the active orders may meet them in any order: `calculate_frozen` freezes the same.
pub calculate_frozen_any_order :
    (h : PositionHolding) (os : List OrderData)
    → Permᴰ (map_values h.active_orders) os
    → All IsFair (map_values h.active_orders)
    → IsHeld h.long_side
    → IsHeld h.short_side
    → calculate_frozen h ≡ sum_pos_frozen (freeze_orders os (clear_frozen h))
unfolding calculate_frozen clear_frozen
calculate_frozen_any_order h os p f l s =
    ap sum_pos_frozen (freeze_orders_reorder (clear_frozen h) p f (l.0, s.0))

long_frozen :
    (a b : OrderData) (h : PositionHolding)
    → a.direction ≡ short
    → b.direction ≡ short
    → (freeze_orders (a ∷ b ∷ []) h).long_side
      ≡ freeze b.offset (b.volume -ℤ b.traded) (freeze a.offset (a.volume -ℤ a.traded) h.long_side)
unfolding freeze_orders
long_frozen a b h e f = rw (freeze_order_by b (freeze_order a h), freeze_order_by a h, e, f) refl

-- Where an order for today's position and one for any age together ask for more than is held of today, and each for no more, what is frozen depends on the order in which the walk over the active orders meets them: it is more when the one for today's comes first.
pub calculate_frozen_order_matters :
    (h : PositionHolding) (k j : AString) (o p : OrderData)
    → o.direction ≡ short
    → p.direction ≡ short
    → o.offset ≡ close_today
    → p.offset ≡ close_position
    → zero_float <ℤ (o.volume -ℤ o.traded)
    → zero_float <ℤ (p.volume -ℤ p.traded)
    → (o.volume -ℤ o.traded) ≤ℤ h.long_side.td
    → (p.volume -ℤ p.traded) ≤ℤ h.long_side.td
    → h.long_side.td <ℤ ((o.volume -ℤ o.traded) +ℤ (p.volume -ℤ p.traded))
    → zero_float <ℤ h.long_side.yd
    → (calculate_frozen (record h { active_orders = (j, p) ∷ (k, o) ∷ [] })).long_side.pos_frozen
      <ℤ (calculate_frozen (record h { active_orders = (k, o) ∷ (j, p) ∷ [] })).long_side.pos_frozen
unfolding calculate_frozen sum_pos_frozen clear_frozen
calculate_frozen_order_matters h k j o p d e today any ov pv ot pt over y =
    let s = clear_side h.long_side in
    let g = clear_frozen (record h { active_orders = (j, p) ∷ (k, o) ∷ [] }) in
    let g' = clear_frozen (record h { active_orders = (k, o) ∷ (j, p) ∷ [] }) in
    rw (long_frozen p o g e d, long_frozen o p g' d e, today, any)
      (freeze_order_dependent (o.volume -ℤ o.traded) (p.volume -ℤ p.traded) s refl refl ov pv ot pt
        over y)
