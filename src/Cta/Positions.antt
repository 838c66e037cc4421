-- ===== src/Cta/Positions.antt =====
-- app/cta_strategy/engine.cpp: what trade events do to the position of a strategy.
use keen_trader.Base.{
  ℕ, ◌≡◌, refl, sym, ap, ◌∙◌, Bool, true, false, Option, none, some, List, [], ◌∷◌, if◌then◌else◌,
  ◌==◌, ==_iff, Bool-cases, Option-cases, inl, inr,
}
use keen_trader.Base.Int.{zero_float, ◌+ℤ◌, ◌-ℤ◌, int_laws}
use keen_trader.Base.Map.{Map, AStringSet, lookup, member, add}
use keen_trader.Objects.Constant.{Direction, long, short, net}
use keen_trader.Objects.Market.{Float}
use keen_trader.Objects.Trading.{TradeData}
use keen_trader.Cta.Objects.{CtaEngine, update_object}
use keen_trader.Cta.Events.{process_trade_event, trade_of, signed_volume}

unfoldable pub run_trades : List TradeData → CtaEngine → CtaEngine
run_trades [] s = s
run_trades (t ∷ ts) s = run_trades ts (process_trade_event t s).0

-- The trades whose ids are new, each the first time.
abbrev pub distinct : AStringSet → List TradeData → List TradeData
distinct seen [] = []
distinct seen (t ∷ ts) =
    let later = distinct seen ts in
    let rest = distinct (add t.kt_tradeid seen) ts in
    if member t.kt_tradeid seen then later else t ∷ rest

-- Whether a trade belongs to an order of the strategy at an address.
abbrev pub is_owner : ℕ → Option ℕ → Bool
is_owner a none = false
is_owner a (some b) = a == b

abbrev pub is_of : Map ℕ → ℕ → TradeData → Bool
is_of m a t = is_owner a (lookup t.kt_orderid m)

abbrev pub bought_by : Direction → Float → Float
bought_by long volume = volume
bought_by _ volume = zero_float

abbrev pub sold_by : Direction → Float → Float
sold_by long volume = zero_float
sold_by _ volume = volume

abbrev pub bought : Map ℕ → ℕ → List TradeData → Float
bought m a [] = zero_float
bought m a (t ∷ ts) =
    (if is_of m a t then bought_by t.direction t.volume else zero_float) +ℤ bought m a ts

abbrev pub sold : Map ℕ → ℕ → List TradeData → Float
sold m a [] = zero_float
sold m a (t ∷ ts) =
    (if is_of m a t then sold_by t.direction t.volume else zero_float) +ℤ sold m a ts

signed : (d : Direction) (p v : Float) → signed_volume d p v ≡ p +ℤ bought_by d v -ℤ sold_by d v
unfolding signed_volume
signed long p v = omega int_laws
signed short p v = omega int_laws
signed net p v = omega int_laws

seen_again :
    (t : TradeData) (s : CtaEngine)
    → member t.kt_tradeid s.kt_tradeids ≡ true
    → process_trade_event t s ≡ (s, [])
unfolding process_trade_event
seen_again t s h = rw h refl

-- A trade that is new: the state's ids and positions after it.
record IsBooked (a : ℕ) (t : TradeData) (s s' : CtaEngine) : Type 0 where
  ids : s'.kt_tradeids ≡ add t.kt_tradeid s.kt_tradeids
  relation : s'.orderid_strategy_map ≡ s.orderid_strategy_map
  moved :
      let mine = is_of s.orderid_strategy_map a t in
      (s'.objects a).position
      ≡ (s.objects a).position
        +ℤ (if mine then bought_by t.direction t.volume else zero_float)
        -ℤ (if mine then sold_by t.direction t.volume else zero_float)

unmoved : (p : Float) → p ≡ p +ℤ zero_float -ℤ zero_float
unmoved p = omega int_laws

trade_of-IsBooked :
    (a b : ℕ) (t : TradeData) (s : CtaEngine)
    → lookup t.kt_orderid s.orderid_strategy_map ≡ some b
    → IsBooked a t s (trade_of t b (record s { kt_tradeids = add t.kt_tradeid s.kt_tradeids })).0
unfolding trade_of update_object
trade_of-IsBooked a b t s e = elim (Bool-cases (a == b)) [
  | inl same ↦ record {
    ids = refl;
    relation = refl;
    moved =
        rw (e, same, sym ((==_iff a b).0 same))
          (signed t.direction (s.objects a).position t.volume);
  }
  | inr other ↦ record {
    ids = refl;
    relation = refl;
    moved = rw (e, other) (unmoved (s.objects a).position);
  }
]

booked :
    (a : ℕ) (t : TradeData) (s : CtaEngine)
    → member t.kt_tradeid s.kt_tradeids ≡ false
    → IsBooked a t s (process_trade_event t s).0
unfolding process_trade_event
booked a t s h = elim (Option-cases (lookup t.kt_orderid s.orderid_strategy_map)) [
  | inl nobody ↦ record {
    ids = rw (h, nobody) refl;
    relation = rw (h, nobody) refl;
    moved = rw (h, nobody) (unmoved (s.objects a).position);
  }
  | inr (b, e) ↦ rw (h, e) (trade_of-IsBooked a b t s e)
]

sum_moves : (p b s b' s' : Float) → p +ℤ b -ℤ s +ℤ b' -ℤ s' ≡ p +ℤ (b +ℤ b') -ℤ (s +ℤ s')
sum_moves p b s b' s' = omega int_laws

-- After any trade events, duplicates among them, the position of a strategy has moved by what its orders bought and sold: each trade id counts once, the first time, and a trade of nobody's order or of another strategy's moves nothing.
pub run_trades_position :
    (a : ℕ) (ts : List TradeData) (s : CtaEngine)
    → let counted = distinct s.kt_tradeids ts in
      ((run_trades ts s).objects a).position
      ≡ (s.objects a).position
        +ℤ bought s.orderid_strategy_map a counted
        -ℤ sold s.orderid_strategy_map a counted
unfolding run_trades
run_trades_position a [] s = unmoved (s.objects a).position
run_trades_position a (t ∷ ts) s = elim (Bool-cases (member t.kt_tradeid s.kt_tradeids)) [
  | inl again ↦ rw (again, run_trades, seen_again t s again) (run_trades_position a ts s)
  | inr fresh ↦
      let m = s.orderid_strategy_map in
      let s' = (process_trade_event t s).0 in
      let b = booked a t s fresh in
      let ih = run_trades_position a ts s' in
      rw (fresh, run_trades, ih, b.relation, b.ids)
        (let counted = distinct (add t.kt_tradeid s.kt_tradeids) ts in
          ap (λ p. p +ℤ bought m a counted -ℤ sold m a counted) b.moved
          ∙ sum_moves (s.objects a).position _ _ _ _)
]
