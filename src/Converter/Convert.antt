-- ===== src/Converter/Convert.antt =====
-- core/engine/converter.cpp: the three conversions of an order request. They change nothing. `one` is
-- the number of units in 1.0: an `int` keeps whole multiples of it.
use keen_trader.Base.{ℕ, Bool, not, ◌&&◌, List, [], ◌∷◌, ◌++◌, if◌then◌else◌}
use keen_trader.Base.Int.{zero_float, ◌-ℤ◌, ltb_ℤ, leb_ℤ, min_ℤ, max_ℤ, is_nonzero, trunc}
use keen_trader.Objects.Constant.{
  Offset, open_position, close_position, close_today, close_yesterday,
}
use keen_trader.Objects.Market.{Float}
use keen_trader.Objects.Trading.{OrderRequest}
use keen_trader.Converter.Holding.{Side, PositionHolding, is_long, is_open, is_shfe_or_ine}

abbrev pub pos_available : Side → Float
pos_available s = s.pos -ℤ s.pos_frozen

abbrev pub td_available : Side → Float
td_available s = s.td -ℤ s.td_frozen

abbrev pub yd_available : Side → Float
yd_available s = s.yd -ℤ s.yd_frozen

-- A buy closes the short side, any other request the long one.
abbrev pub closed_side : PositionHolding → OrderRequest → Side
closed_side h req = if is_long req.direction then h.short_side else h.long_side

abbrev pub with_offset : OrderRequest → Offset → OrderRequest
with_offset req offset = record req { offset = offset }

abbrev pub part : OrderRequest → Offset → Float → OrderRequest
part req offset volume = record req { offset = offset; volume = volume }

-- A `push_back` under an `if`.
abbrev pub push_if : Bool → OrderRequest → List OrderRequest
push_if b r = if b then r ∷ [] else []

module _ (one : ℕ) where
  unfoldable pub convert_order_request_shfe : PositionHolding → OrderRequest → List OrderRequest
  convert_order_request_shfe h req =
      let s = closed_side h req in
      let pos_free = trunc one (pos_available s) in
      let td_free = trunc one (td_available s) in
      if is_open req.offset
      then req ∷ []
      else if ltb_ℤ pos_free req.volume
      then []
      else if leb_ℤ req.volume td_free
      then with_offset req close_today ∷ []
      else push_if (ltb_ℤ zero_float td_free) (part req close_today td_free)
        ++ part req close_yesterday (req.volume -ℤ td_free) ∷ []

  unfoldable pub convert_order_request_lock : PositionHolding → OrderRequest → List OrderRequest
  convert_order_request_lock h req =
      let s = closed_side h req in
      let close_volume = trunc one (min_ℤ req.volume (yd_available s)) in
      let open_volume = trunc one (max_ℤ zero_float (req.volume -ℤ yd_available s)) in
      let close_offset = if is_shfe_or_ine h.exchange then close_yesterday else close_position in
      if is_nonzero s.td && not (is_shfe_or_ine h.exchange)
      then with_offset req open_position ∷ []
      else push_if (ltb_ℤ zero_float (yd_available s)) (part req close_offset close_volume)
        ++ push_if (ltb_ℤ zero_float open_volume) (part req open_position open_volume)

  -- What a stage of `convert_order_request_net` closes, if its guard lets it.
  unfoldable pub close_volume : Bool → Float → Float → Float
  close_volume guard available volume_left =
      if guard then trunc one (min_ℤ available volume_left) else zero_float

  -- The exchanges that tell today's position from yesterday's.
  unfoldable pub convert_net_by_age : Side → OrderRequest → List OrderRequest
  unfolding close_volume
  convert_net_by_age s req =
      let has_td = ltb_ℤ zero_float (td_available s) in
      let td_volume = close_volume has_td (td_available s) req.volume in
      let left = req.volume -ℤ td_volume in
      let has_yd = ltb_ℤ zero_float (yd_available s) && ltb_ℤ zero_float left in
      let yd_volume = close_volume has_yd (yd_available s) left in
      let rest = left -ℤ yd_volume in
      push_if has_td (part req close_today td_volume)
      ++ (push_if has_yd (part req close_yesterday yd_volume)
          ++ push_if (ltb_ℤ zero_float rest) (part req open_position rest))

  unfoldable pub convert_net_any_age : Side → OrderRequest → List OrderRequest
  unfolding close_volume
  convert_net_any_age s req =
      let has_pos = ltb_ℤ zero_float (pos_available s) in
      let pos_volume = close_volume has_pos (pos_available s) req.volume in
      let rest = req.volume -ℤ pos_volume in
      push_if has_pos (part req close_position pos_volume)
      ++ push_if (ltb_ℤ zero_float rest) (part req open_position rest)

  unfoldable pub convert_order_request_net : PositionHolding → OrderRequest → List OrderRequest
  unfolding convert_net_by_age convert_net_any_age
  convert_order_request_net h req =
      if is_shfe_or_ine req.exchange
      then convert_net_by_age (closed_side h req) req
      else convert_net_any_age (closed_side h req) req
