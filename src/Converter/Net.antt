-- ===== src/Converter/Net.antt =====
-- core/engine/converter.cpp: the net conversion closes what is free and opens the rest.
use keen_trader.Base.{
  ℕ, ◌≡◌, refl, ap, ◌∙◌, Bool, true, false, ◌&&◌, List, [], ◌++◌, arith, if◌then◌else◌, Bool-cases,
  inl, inr, ◌==◌,
}
use keen_trader.Base.Int.{
  pos_part, neg_part, ltb_ℤ, ltb_ℤ→le, zero_float, ◌+ℤ◌, ◌-ℤ◌, ◌≤ℤ◌, int_laws, min_laws, min_ℤ,
  min_ℤ_nonneg, trunc_bounds,
}
use mathlib.Core.List.{append-nil}
use keen_trader.Objects.Constant.{
  Offset, open_position, close_position, close_today, close_yesterday,
}
use keen_trader.Objects.Market.{Float}
use keen_trader.Objects.Trading.{OrderRequest}
use keen_trader.Converter.Holding.{Side, PositionHolding, is_shfe_or_ine}
use keen_trader.Converter.Convert.{
  pos_available, td_available, yd_available, closed_side, push_if, part, close_volume,
  convert_net_by_age, convert_net_any_age, convert_order_request_net,
}
use keen_trader.Converter.Trades.{IsBounded, volume_of}
use keen_trader.Converter.Volumes.{available_nonneg, available_sum, total_volume, volume_at, code}

pub total-push_if :
    (b : Bool) (req : OrderRequest) (o : Offset) (x : Float) (rs : List OrderRequest)
    → (b ≡ false → x ≡ zero_float)
    → total_volume (push_if b (part req o x) ++ rs) ≡ x +ℤ total_volume rs
total-push_if true req o x rs h = refl
total-push_if false req o x rs h = rw (h refl) (omega int_laws)

pub volume_at-push_if :
    (p : Offset) (b : Bool) (req : OrderRequest) (o : Offset) (x : Float) (rs : List OrderRequest)
    → (b ≡ false → x ≡ zero_float)
    → volume_at p (push_if b (part req o x) ++ rs)
      ≡ (if code o == code p then x else zero_float) +ℤ volume_at p rs
volume_at-push_if p true req o x rs h = refl
volume_at-push_if p false req o x rs h = elim (Bool-cases (code o == code p)) [
  | inl same ↦ rw (same, h refl) (omega int_laws)
  | inr other ↦ rw other (omega int_laws)
]

pub rest_zero : (x : Float) → zero_float ≤ℤ x → ltb_ℤ zero_float x ≡ false → x ≡ zero_float
rest_zero x h e = omega (int_laws, ltb_ℤ→le zero_float x e)

-- What a request with the offset `o` adds to the volume at the offset `p`.
abbrev pub sel : Offset → Offset → Float → Float
sel o p x = if code o == code p then x else zero_float

-- Two closing stages and the opening of the rest.
abbrev stages : OrderRequest → Bool → Offset → Float → Bool → Offset → Float → List OrderRequest
stages req b o x c q y =
    push_if b (part req o x)
    ++ (push_if c (part req q y)
        ++ push_if (ltb_ℤ zero_float (req.volume -ℤ x -ℤ y))
            (part req open_position (req.volume -ℤ x -ℤ y)))

module _ (req : OrderRequest) (b : Bool) (o : Offset) (x : Float) (c : Bool) (q : Offset)
    (y : Float) (x_off : b ≡ false → x ≡ zero_float) (y_off : c ≡ false → y ≡ zero_float)
    (left : zero_float ≤ℤ (req.volume -ℤ x -ℤ y)) where
  stages_total : total_volume (stages req b o x c q y) ≡ req.volume
  stages_total =
      let rest = req.volume -ℤ x -ℤ y in
      let last =
        total-push_if (ltb_ℤ zero_float rest) req open_position rest [] (rest_zero rest left) in
      let mid =
        total-push_if c req q y (push_if (ltb_ℤ zero_float rest) (part req open_position rest))
          y_off in
      total-push_if b req o x _ x_off
      ∙ rw (mid, ← append-nil (push_if (ltb_ℤ zero_float rest) (part req open_position rest)), last)
          (omega int_laws)

  stages_at :
      (p : Offset)
      → volume_at p (stages req b o x c q y)
        ≡ sel o p x +ℤ (sel q p y +ℤ (sel open_position p (req.volume -ℤ x -ℤ y) +ℤ zero_float))
  stages_at p =
      let rest = req.volume -ℤ x -ℤ y in
      let last =
        volume_at-push_if p (ltb_ℤ zero_float rest) req open_position rest []
          (rest_zero rest left) in
      let mid =
        volume_at-push_if p c req q y
          (push_if (ltb_ℤ zero_float rest) (part req open_position rest)) y_off in
      volume_at-push_if p b req o x _ x_off
      ∙ rw (mid, ← append-nil (push_if (ltb_ℤ zero_float rest) (part req open_position rest)), last)

module _ (one : ℕ) where
  close_volume_off : (b : Bool) (a l : Float) → b ≡ false → close_volume one b a l ≡ zero_float
  unfolding close_volume
  close_volume_off b a l e = rw e

  -- A stage closes no more than is free and no more than is left.
  close_volume_bounds :
      (b : Bool) (a l : Float)
      → zero_float ≤ℤ a
      → zero_float ≤ℤ l
      → (zero_float ≤ℤ close_volume one b a l)
        × (close_volume one b a l ≤ℤ l)
        × (close_volume one b a l ≤ℤ a)
  unfolding close_volume
  close_volume_bounds true a l h k =
      omega (min_laws, trunc_bounds one (min_ℤ a l) (min_ℤ_nonneg a l h k))
  close_volume_bounds false a l h k = omega arith

  net_by_age_volumes :
      (s : Side) (req : OrderRequest)
      → IsBounded s
      → zero_float ≤ℤ req.volume
      → let rs = convert_net_by_age one s req in
        (total_volume rs ≡ req.volume)
        × (volume_at close_today rs ≤ℤ td_available s)
        × (volume_at close_yesterday rs ≤ℤ yd_available s)
        × (volume_at close_position rs ≡ zero_float)
  unfolding convert_net_by_age
  net_by_age_volumes s req bounded v =
      let free = available_nonneg s bounded in
      let has_td = ltb_ℤ zero_float (td_available s) in
      let x = close_volume one has_td (td_available s) req.volume in
      let xb = close_volume_bounds has_td (td_available s) req.volume free.0 v in
      let left = req.volume -ℤ x in
      let has_yd = ltb_ℤ zero_float (yd_available s) && ltb_ℤ zero_float left in
      let y = close_volume one has_yd (yd_available s) left in
      let yb = close_volume_bounds has_yd (yd_available s) left free.1 (omega (int_laws, xb)) in
      let x_off = close_volume_off has_td (td_available s) req.volume in
      let y_off = close_volume_off has_yd (yd_available s) left in
      let rest : zero_float ≤ℤ (left -ℤ y) = omega (int_laws, yb) in
      let at = stages_at req has_td close_today x has_yd close_yesterday y x_off y_off rest in
      (
        stages_total req has_td close_today x has_yd close_yesterday y x_off y_off rest,
        rw (at close_today) (omega (int_laws, xb)),
        rw (at close_yesterday) (omega (int_laws, yb)),
        at close_position ∙ omega int_laws,
      )

  net_any_age_volumes :
      (s : Side) (req : OrderRequest)
      → zero_float ≤ℤ pos_available s
      → zero_float ≤ℤ req.volume
      → let rs = convert_net_any_age one s req in
        (total_volume rs ≡ req.volume)
        × (volume_at close_today rs ≡ zero_float)
        × (volume_at close_yesterday rs ≡ zero_float)
        × (volume_at close_position rs ≤ℤ pos_available s)
  unfolding convert_net_any_age
  net_any_age_volumes s req free v =
      let has_pos = ltb_ℤ zero_float (pos_available s) in
      let x = close_volume one has_pos (pos_available s) req.volume in
      let xb = close_volume_bounds has_pos (pos_available s) req.volume free v in
      let x_off = close_volume_off has_pos (pos_available s) req.volume in
      let rest = req.volume -ℤ x in
      let nonneg : zero_float ≤ℤ rest = omega (int_laws, xb) in
      let opening = push_if (ltb_ℤ zero_float rest) (part req open_position rest) in
      let last =
        total-push_if (ltb_ℤ zero_float rest) req open_position rest [] (rest_zero rest nonneg) in
      let at = λ (p : Offset). volume_at-push_if p has_pos req close_position x opening x_off in
      let last_at = λ (p : Offset).
        volume_at-push_if p (ltb_ℤ zero_float rest) req open_position rest []
          (rest_zero rest nonneg) in
      (
        total-push_if has_pos req close_position x opening x_off
            ∙ rw (← append-nil opening, last) (omega int_laws),
        rw (at close_today, ← append-nil opening, last_at close_today) (omega int_laws),
        rw (at close_yesterday, ← append-nil opening, last_at close_yesterday) (omega int_laws),
        rw (at close_position, ← append-nil opening, last_at close_position) (omega (int_laws, xb)),
      )

  -- The net conversion of a volume that is not negative asks for exactly that volume, and closes of each age, and where ages are not told apart of the position, no more than is free.
  pub net_volumes :
      (h : PositionHolding) (req : OrderRequest)
      → IsBounded (closed_side h req)
      → (closed_side h req).pos ≡ volume_of (closed_side h req)
      → zero_float ≤ℤ req.volume
      → let rs = convert_order_request_net one h req in
        (total_volume rs ≡ req.volume)
        × (volume_at close_today rs ≤ℤ td_available (closed_side h req))
        × (volume_at close_yesterday rs ≤ℤ yd_available (closed_side h req))
        × (volume_at close_position rs ≤ℤ pos_available (closed_side h req))
  unfolding convert_order_request_net
  net_volumes h req b sum v =
      let s = closed_side h req in
      let free = available_nonneg s b in
      let all = available_sum s b sum in
      let nonneg : zero_float ≤ℤ pos_available s =
        omega (int_laws, free, ap pos_part all, ap neg_part all) in
      elim (Bool-cases (is_shfe_or_ine req.exchange)) [
        | inl aged ↦
            let r = net_by_age_volumes s req b v in
            rw aged (r.0, r.1, r.2, omega (int_laws, nonneg, ap pos_part r.3, ap neg_part r.3))
        | inr plain ↦
            let r = net_any_age_volumes s req nonneg v in
            rw plain (
              r.0,
              omega (int_laws, free, ap pos_part r.1, ap neg_part r.1),
              omega (int_laws, free, ap pos_part r.2, ap neg_part r.2),
              r.3,
            )
      ]
