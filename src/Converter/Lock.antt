-- ===== src/Converter/Lock.antt =====
-- core/engine/converter.cpp: the lock conversion never closes today's position; and where conversions ask for
-- another volume than the request's.
use keen_trader.Base.{
  ℕ, ◌≡◌, refl, sym, ap, ◌∙◌, true, false, not, ◌&&◌, if◌then◌else◌, [], ◌++◌, arith, Bool-cases,
  inl, inr,
}
use keen_trader.Base.Int.{
  pos_part, neg_part, ltb_ℤ, ltb_ℤ→le, le→ltb_ℤ, lt→leb_ℤ, zero_float, ◌+ℤ◌, ◌-ℤ◌, ◌≤ℤ◌, ◌<ℤ◌,
  int_laws, min_laws, min_ℤ, max_ℤ, trunc, trunc_bounds, trunc_min, trunc_max, is_nonzero,
}
use mathlib.Core.List.{append-nil}
use keen_trader.Objects.Constant.{
  Offset, open_position, close_position, close_today, close_yesterday,
}
use keen_trader.Objects.Market.{Float}
use keen_trader.Objects.Trading.{OrderRequest, PositionData}
use keen_trader.Converter.Holding.{
  PositionHolding, Side, is_long, is_open, is_shfe_or_ine, update_position,
}
use keen_trader.Converter.Trades.{IsBounded}
use keen_trader.Converter.Convert.{
  pos_available, td_available, yd_available, closed_side, push_if, part, convert_order_request_shfe,
  convert_order_request_lock,
}
use keen_trader.Converter.Volumes.{total_volume, volume_at, IsWhole, available_nonneg}
use keen_trader.Converter.Net.{sel, total-push_if, volume_at-push_if, rest_zero}

module _ (one : ℕ) where
  lock_closes :
      (h : PositionHolding) (req : OrderRequest)
      → IsBounded (closed_side h req)
      → zero_float ≤ℤ req.volume
      → ltb_ℤ zero_float (yd_available (closed_side h req)) ≡ false
      → min_ℤ req.volume (yd_available (closed_side h req)) ≡ zero_float
  lock_closes h req b v e =
      let free = available_nonneg (closed_side h req) b in
      let none_free = ltb_ℤ→le zero_float (yd_available (closed_side h req)) e in
      omega (min_laws, free)

  -- The second branch, for the offset `q` that it closes with.
  lock_stages :
      (h : PositionHolding) (req : OrderRequest) (q : Offset)
      → ((x : Float) → sel q close_today x ≡ zero_float)
      → ((x : Float) → sel q close_yesterday x +ℤ sel q close_position x ≡ x)
      → IsBounded (closed_side h req)
      → zero_float ≤ℤ req.volume
      → let x = min_ℤ req.volume (yd_available (closed_side h req)) in
        let y = max_ℤ zero_float (req.volume -ℤ yd_available (closed_side h req)) in
        let rs =
          push_if (ltb_ℤ zero_float (yd_available (closed_side h req))) (part req q x)
          ++ push_if (ltb_ℤ zero_float y) (part req open_position y) in
        (total_volume rs ≡ req.volume)
        × (volume_at close_today rs ≡ zero_float)
        × (volume_at close_yesterday rs +ℤ volume_at close_position rs
            ≤ℤ yd_available (closed_side h req))
  lock_stages h req q today closes b v =
      let s = closed_side h req in
      let free = available_nonneg s b in
      let x = min_ℤ req.volume (yd_available s) in
      let y = max_ℤ zero_float (req.volume -ℤ yd_available s) in
      let has = ltb_ℤ zero_float (yd_available s) in
      let opening = push_if (ltb_ℤ zero_float y) (part req open_position y) in
      let x_off = lock_closes h req b v in
      let nonneg : zero_float ≤ℤ y = omega min_laws in
      let last = total-push_if (ltb_ℤ zero_float y) req open_position y [] (rest_zero y nonneg) in
      let at = λ (p : Offset). volume_at-push_if p has req q x opening x_off in
      let last_at = λ (p : Offset).
        volume_at-push_if p (ltb_ℤ zero_float y) req open_position y [] (rest_zero y nonneg) in
      (
        total-push_if has req q x opening x_off ∙ rw (← append-nil opening, last) (omega min_laws),
        rw (at close_today, ← append-nil opening, last_at close_today, today x) (omega int_laws),
        rw
            (
              at close_yesterday,
              at close_position,
              ← append-nil opening,
              last_at close_yesterday,
              last_at close_position,
            )
            (omega (min_laws, ap pos_part (closes x), ap neg_part (closes x))),
      )

  -- Where no more is frozen of either age than is held and what is frozen of the position is the sum of both, the lock conversion of a whole volume that is not negative, with whole volumes of yesterday's free and left over, asks for exactly that volume, never closes today's position, and closes no more of yesterday's than is free.
  pub lock_volumes :
      (h : PositionHolding) (req : OrderRequest)
      → IsBounded (closed_side h req)
      → zero_float ≤ℤ req.volume
      → IsWhole one req.volume
      → IsWhole one (yd_available (closed_side h req))
      → IsWhole one (req.volume -ℤ yd_available (closed_side h req))
      → let rs = convert_order_request_lock one h req in
        (total_volume rs ≡ req.volume)
        × (volume_at close_today rs ≡ zero_float)
        × (volume_at close_yesterday rs +ℤ volume_at close_position rs
            ≤ℤ yd_available (closed_side h req))
  unfolding convert_order_request_lock
  lock_volumes h req b v wv wy wd =
      rw
        (
          trunc_min one req.volume (yd_available (closed_side h req)) wv wy,
          trunc_max one (req.volume -ℤ yd_available (closed_side h req)) wd,
        )
        (elim (Bool-cases (is_nonzero (closed_side h req).td && not (is_shfe_or_ine h.exchange))) [
          | inl locks ↦
              let free = available_nonneg (closed_side h req) b in rw locks (omega int_laws)
          | inr closes ↦ elim (Bool-cases (is_shfe_or_ine h.exchange)) [
            | inl aged ↦
                rw (closes, aged)
                  (lock_stages h req close_yesterday (λ x. refl) (λ x. omega int_laws) b v)
            | inr plain ↦
                rw (closes, plain)
                  (lock_stages h req close_position (λ x. refl) (λ x. omega int_laws) b v)
          ]
        ])

  -- With nothing of yesterday's free and nothing of today's held, the lock conversion of a volume that is not negative asks for the whole part of the volume and drops the fraction.
  pub lock_drops_fraction :
      (h : PositionHolding) (req : OrderRequest)
      → is_nonzero (closed_side h req).td ≡ false
      → yd_available (closed_side h req) ≡ zero_float
      → zero_float ≤ℤ req.volume
      → total_volume (convert_order_request_lock one h req) ≡ trunc one req.volume
  unfolding convert_order_request_lock
  lock_drops_fraction h req t y v =
      let whole : max_ℤ zero_float (req.volume -ℤ zero_float) ≡ req.volume = omega min_laws in
      rw (t, y, whole)
        (elim (Bool-cases (ltb_ℤ zero_float (trunc one req.volume))) [
          | inl some_left ↦ rw some_left (omega int_laws)
          | inr none_left ↦
              rw none_left
                (sym (rest_zero (trunc one req.volume) (trunc_bounds one req.volume v).0 none_left))
        ])

  shfe_overclose :
      (h : PositionHolding) (req : OrderRequest)
      → is_open req.offset ≡ false
      → IsWhole one (td_available (closed_side h req))
      → IsWhole one (pos_available (closed_side h req))
      → td_available (closed_side h req) <ℤ zero_float
      → zero_float <ℤ req.volume
      → req.volume ≤ℤ pos_available (closed_side h req)
      → req.volume <ℤ total_volume (convert_order_request_shfe one h req)
  unfolding convert_order_request_shfe
  shfe_overclose h req c td ps over v free =
      rw
        (
          c,
          td,
          ps,
          le→ltb_ℤ (pos_available (closed_side h req)) req.volume free,
          lt→leb_ℤ req.volume (td_available (closed_side h req)) (omega arith),
          le→ltb_ℤ zero_float (td_available (closed_side h req)) (omega arith),
        )
        (omega int_laws)

  -- The side that a position update replaces.
  abbrev pub updated_side : PositionData → PositionHolding → Side
  updated_side p h = if is_long p.direction then h.long_side else h.short_side

  -- A position update does not recompute what is frozen. Where it leaves today's volume below its frozen part, on either side, and what it leaves free of today and of the position is whole, a SHFE request to close that side, for more than nothing and within the free position, is turned into one for more than was asked for.
  pub stale_frozen_overclose :
      (p : PositionData) (h : PositionHolding) (req : OrderRequest)
      → is_long req.direction ≡ not (is_long p.direction)
      → is_open req.offset ≡ false
      → IsWhole one (p.volume -ℤ p.yd_volume -ℤ (updated_side p h).td_frozen)
      → IsWhole one (p.volume -ℤ (updated_side p h).pos_frozen)
      → (p.volume -ℤ p.yd_volume) <ℤ (updated_side p h).td_frozen
      → zero_float <ℤ req.volume
      → req.volume ≤ℤ (p.volume -ℤ (updated_side p h).pos_frozen)
      → req.volume <ℤ total_volume (convert_order_request_shfe one (update_position p h) req)
  unfolding update_position
  stale_frozen_overclose p h req d c td ps over v free = elim (Bool-cases (is_long p.direction)) [
    | inl l ↦
        let short' : is_long req.direction ≡ false = rw (d, l) in
        let over' : (p.volume -ℤ p.yd_volume) <ℤ h.long_side.td_frozen = rw l at over in
        shfe_overclose (update_position p h) req c (rw (l, short') (rw l at td))
          (rw (l, short') (rw l at ps)) (rw (l, short') (omega (int_laws, over'))) v
          (rw (l, short') (rw l at free))
    | inr l ↦
        let long' : is_long req.direction ≡ true = rw (d, l) in
        let over' : (p.volume -ℤ p.yd_volume) <ℤ h.short_side.td_frozen = rw l at over in
        shfe_overclose (update_position p h) req c (rw (l, long') (rw l at td))
          (rw (l, long') (rw l at ps)) (rw (l, long') (omega (int_laws, over'))) v
          (rw (l, long') (rw l at free))
  ]
