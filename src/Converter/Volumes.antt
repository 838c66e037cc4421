-- ===== src/Converter/Volumes.antt =====
-- core/engine/converter.cpp: what the three conversions ask for, in total and of each age.
use keen_trader.Base.{
  ℕ, ◌≡◌, ap, false, List, [], ◌∷◌, arith, if◌then◌else◌, Bool-cases, inl, inr, ◌==◌,
}
use keen_trader.Base.Int.{
  pos_part, neg_part, ltb_ℤ, leb_ℤ, ltb_ℤ→le, leb_ℤ→le, leb_ℤ→lt, le→ltb_ℤ, zero_float, ◌+ℤ◌, ◌≤ℤ◌,
  ◌<ℤ◌, int_laws, trunc,
}
use keen_trader.Objects.Constant.{
  Offset, open_position, close_position, close_today, close_yesterday,
}
use keen_trader.Objects.Market.{Float}
use keen_trader.Objects.Trading.{OrderRequest}
use keen_trader.Converter.Holding.{Side, PositionHolding, is_open}
use keen_trader.Converter.Trades.{IsBounded, volume_of}
use keen_trader.Converter.Convert.{
  pos_available, td_available, yd_available, closed_side, convert_order_request_shfe,
}

abbrev pub total_volume : List OrderRequest → Float
total_volume [] = zero_float
total_volume (r ∷ rs) = r.volume +ℤ total_volume rs

abbrev pub code : Offset → ℕ
code Offset.none = 0
code open_position = 1
code close_position = 2
code close_today = 3
code close_yesterday = 4

-- What the requests with one offset ask for together.
abbrev pub volume_at : Offset → List OrderRequest → Float
volume_at o [] = zero_float
volume_at o (r ∷ rs) = (if code r.offset == code o then r.volume else zero_float) +ℤ volume_at o rs

-- What is free of a side is what is free of its two ages.
pub available_sum :
    (s : Side)
    → IsBounded s
    → s.pos ≡ volume_of s
    → pos_available s ≡ td_available s +ℤ yd_available s
available_sum s b e = rw (e, b.frozen_summed) (omega int_laws)

pub available_nonneg :
    (s : Side) → IsBounded s → (zero_float ≤ℤ td_available s) × (zero_float ≤ℤ yd_available s)
available_nonneg s b = omega int_laws

module _ (one : ℕ) where
  -- Stored in an `int` it keeps its value.
  abbrev pub IsWhole : Float → Type 0
  IsWhole a = trunc one a ≡ a

  -- A SHFE request that closes is refused when it asks for more than is free, as an `int`.
  pub shfe_refused :
      (h : PositionHolding) (req : OrderRequest)
      → is_open req.offset ≡ false
      → trunc one (pos_available (closed_side h req)) <ℤ req.volume
      → convert_order_request_shfe one h req ≡ []
  unfolding convert_order_request_shfe
  shfe_refused h req c over = ground arith

  -- A side whose frozen parts are within its ages, whose position is their sum, and whose free volumes are whole.
  pub record IsWholeSide (s : Side) : Type 0 where
    pub bounded : IsBounded s
    pub summed : s.pos ≡ volume_of s
    pub td_whole : IsWhole (td_available s)
    pub pos_whole : IsWhole (pos_available s)

  -- Where no more is frozen of either age than is held, what is frozen of the position is the sum of both, the position is the sum of its ages, and what is free of today and of the position is whole, a SHFE request that closes a volume that is not negative and no more than is free is turned into requests for exactly that volume, for no more of today's and of yesterday's position than is free of each.
  pub shfe_volumes :
      (h : PositionHolding) (req : OrderRequest)
      → is_open req.offset ≡ false
      → IsWholeSide (closed_side h req)
      → zero_float ≤ℤ req.volume
      → req.volume ≤ℤ pos_available (closed_side h req)
      → let rs = convert_order_request_shfe one h req in
        (total_volume rs ≡ req.volume)
        × (volume_at close_today rs +ℤ volume_at close_yesterday rs ≡ req.volume)
        × (volume_at close_today rs ≤ℤ td_available (closed_side h req))
        × (volume_at close_yesterday rs ≤ℤ yd_available (closed_side h req))
  unfolding convert_order_request_shfe
  shfe_volumes h req c w v free =
      rw (c, w.td_whole, w.pos_whole, le→ltb_ℤ (pos_available (closed_side h req)) req.volume free)
        (elim (Bool-cases (leb_ℤ req.volume (td_available (closed_side h req)))) [
          | inl fits ↦ rw fits (
              omega (
                int_laws,
                leb_ℤ→le req.volume (td_available (closed_side h req)) fits,
                available_nonneg (closed_side h req) w.bounded,
              ))
          | inr more ↦ elim (Bool-cases (ltb_ℤ zero_float (td_available (closed_side h req)))) [
            | inl some_today ↦
                rw (more, some_today)
                  (omega (
                    int_laws,
                    leb_ℤ→lt req.volume (td_available (closed_side h req)) more,
                    ltb_ℤ→le zero_float (td_available (closed_side h req)),
                    available_nonneg (closed_side h req) w.bounded,
                    ap pos_part (available_sum (closed_side h req) w.bounded w.summed),
                    ap neg_part (available_sum (closed_side h req) w.bounded w.summed),
                  ))
            | inr none_today ↦
                rw (more, none_today)
                  (omega (
                    int_laws,
                    leb_ℤ→lt req.volume (td_available (closed_side h req)) more,
                    ltb_ℤ→le zero_float (td_available (closed_side h req)),
                    available_nonneg (closed_side h req) w.bounded,
                    ap pos_part (available_sum (closed_side h req) w.bounded w.summed),
                    ap neg_part (available_sum (closed_side h req) w.bounded w.summed),
                  ))
          ]
        ])
