-- ===== src/Converter/Swaps.antt =====
-- core/engine/converter.cpp: orders that freeze parts of a holding, one after the other in either order.
use keen_trader.Base.{if◌then◌else◌, ◌≡◌, refl, sym, arith, Bool-cases, inl, inr, false}
use keen_trader.Base.Int.{
  zero_float, ◌+ℤ◌, ◌-ℤ◌, ◌≤ℤ◌, int_laws, min_laws, ltb_ℤ, ltb_ℤ→lt, ltb_ℤ→le, le→ltb_ℤ, min_ℤ,
  max_ℤ,
}
use keen_trader.Objects.Constant.{
  Offset, Direction, long, short, net, open_position, close_position, close_today, close_yesterday,
}
use keen_trader.Objects.Market.{Float}
use keen_trader.Objects.Trading.{OrderData}
use keen_trader.Converter.Holding.{Side, PositionHolding, is_open, freeze, freeze_order}

-- An order that does not close today's position alone.
abbrev pub NotToday : Offset → Type 0
NotToday close_today = ⊥
NotToday _ = Unit

-- What is frozen of today is within what is held.
abbrev pub IsLimited : Side → Type 0
IsLimited s = s.td_frozen ≤ℤ s.td

pub freeze-IsLimited :
    (o : Offset) (v : Float) (s : Side) → NotToday o → IsLimited s → IsLimited (freeze o v s)
unfolding freeze
freeze-IsLimited Offset.none v s n h = h
freeze-IsLimited open_position v s n h = h
freeze-IsLimited close_today v s n h = absurd n
freeze-IsLimited close_yesterday v s n h = h
freeze-IsLimited close_position v s n h = ground arith

-- A side with two of its frozen parts set.
abbrev with_frozen : Side → Float → Float → Side
with_frozen s td yd = record s { td_frozen = td; yd_frozen = yd }

same_frozen :
    (s : Side) (a a' b b' : Float) → a ≡ a' → b ≡ b' → with_frozen s a b ≡ with_frozen s a' b'
same_frozen s a a' b b' p q = rw (p, q) refl

excess : Side → Float → Float
excess s v = max_ℤ (s.td_frozen +ℤ v -ℤ s.td) zero_float

no_excess :
    (v : Float) (s : Side) → s.td_frozen +ℤ v ≤ℤ s.td → s.yd_frozen ≡ s.yd_frozen +ℤ excess s v
unfolding excess
no_excess v s h = omega min_laws

freeze_close :
    (v : Float) (s : Side)
    → freeze close_position v s
      ≡ with_frozen s (min_ℤ (s.td_frozen +ℤ v) s.td) (s.yd_frozen +ℤ excess s v)
unfolding freeze min_ℤ max_ℤ excess
freeze_close v s = elim (Bool-cases (ltb_ℤ s.td (s.td_frozen +ℤ v))) [
  | inl over ↦
      let more : ltb_ℤ (s.td_frozen +ℤ v -ℤ s.td) zero_float ≡ false =
        le→ltb_ℤ (s.td_frozen +ℤ v -ℤ s.td) zero_float
          (omega (int_laws, ltb_ℤ→lt s.td (s.td_frozen +ℤ v) over)) in
      rw (over, more) refl
  | inr covered ↦
      rw covered
        (same_frozen s _ _ _ _ refl (no_excess v s (ltb_ℤ→le s.td (s.td_frozen +ℤ v) covered)))
]

close_swap :
    (v w : Float) (s : Side)
    → zero_float ≤ℤ v
    → zero_float ≤ℤ w
    → IsLimited s
    → freeze close_position v (freeze close_position w s)
      ≡ freeze close_position w (freeze close_position v s)
unfolding excess
close_swap v w s a b h =
    rw
      (
        freeze_close w s,
        freeze_close v s,
        freeze_close v (with_frozen s (min_ℤ (s.td_frozen +ℤ w) s.td) (s.yd_frozen +ℤ excess s w)),
        freeze_close w (with_frozen s (min_ℤ (s.td_frozen +ℤ v) s.td) (s.yd_frozen +ℤ excess s v)),
      )
      (same_frozen s _ _ _ _ (omega min_laws) (omega min_laws))

yesterday_swap :
    (v w : Float) (s : Side)
    → freeze close_position v (freeze close_yesterday w s)
      ≡ freeze close_yesterday w (freeze close_position v s)
unfolding freeze excess
yesterday_swap v w s =
    rw (freeze_close v s, freeze_close v (with_frozen s s.td_frozen (s.yd_frozen +ℤ w)))
      (same_frozen s _ _ _ _ refl (omega int_laws))

pub freeze_swap :
    (o p : Offset) (v w : Float) (s : Side)
    → NotToday o
    → NotToday p
    → zero_float ≤ℤ v
    → zero_float ≤ℤ w
    → IsLimited s
    → freeze o v (freeze p w s) ≡ freeze p w (freeze o v s)
unfolding freeze
freeze_swap Offset.none p v w s m n a b h = refl
freeze_swap open_position p v w s m n a b h = refl
freeze_swap close_today p v w s m n a b h = absurd m
freeze_swap o close_today v w s m n a b h = absurd n
freeze_swap close_yesterday close_yesterday v w s m n a b h =
    same_frozen s _ _ _ _ refl (omega int_laws)
freeze_swap close_yesterday close_position v w s m n a b h = sym (yesterday_swap w v s)
freeze_swap close_position close_yesterday v w s m n a b h = yesterday_swap v w s
freeze_swap close_position close_position v w s m n a b h = close_swap v w s a b h
freeze_swap o Offset.none v w s m n a b h = refl
freeze_swap o open_position v w s m n a b h = refl

-- What an order freezes of a holding.
abbrev pub freeze_by : Direction → Offset → Float → PositionHolding → PositionHolding
freeze_by long o v h = record h { short_side = freeze o v h.short_side }
freeze_by short o v h = record h { long_side = freeze o v h.long_side }
freeze_by net o v h = h

by_offset :
    (d : Direction) (o : Offset) (v : Float) (h : PositionHolding)
    → (if is_open o then h else elim d [
      | long ↦ record h { short_side = freeze o v h.short_side }
      | short ↦ record h { long_side = freeze o v h.long_side }
      | net ↦ h
    ])
      ≡ freeze_by d o v h
unfolding freeze
by_offset long Offset.none v h = refl
by_offset short Offset.none v h = refl
by_offset net Offset.none v h = refl
by_offset long open_position v h = refl
by_offset short open_position v h = refl
by_offset net open_position v h = refl
by_offset long close_position v h = refl
by_offset short close_position v h = refl
by_offset net close_position v h = refl
by_offset long close_today v h = refl
by_offset short close_today v h = refl
by_offset net close_today v h = refl
by_offset long close_yesterday v h = refl
by_offset short close_yesterday v h = refl
by_offset net close_yesterday v h = refl

pub freeze_order_by :
    (o : OrderData) (h : PositionHolding)
    → freeze_order o h ≡ freeze_by o.direction o.offset (o.volume -ℤ o.traded) h
unfolding freeze_order
freeze_order_by o h = by_offset o.direction o.offset (o.volume -ℤ o.traded) h
