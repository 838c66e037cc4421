-- ===== src/Exchanges/Binance/Distinct.antt =====
-- core/exchange/binance_linear_exchange.cpp: no order id is given out twice.
use keen_trader.Base.{ℕ, ◌+◌, ◌≡◌, ◌≢◌, inl, inr, refl, false, List, [], ◌∷◌, arith}
use keen_trader.Base.Text.{AString, is_empty}
use keen_trader.Base.Lists.{All, All-map}
use keen_trader.Exchanges.Json.{JsonApi}
use keen_trader.Exchanges.Binance.State.{BinanceLinearExchange, Env}
use keen_trader.Exchanges.Binance.Trade.{new_prefix}
use keen_trader.Exchanges.Binance.Stable.{Keeps-handle}
use keen_trader.Exchanges.Binance.Run.{Input, handle, ids_of}
use keen_trader.Exchanges.Binance.Ids.{
  HasIssued, HasDate, IsLater, next_id, HasIssued-IsStable, new_prefix_kept, new_prefix_date,
  step_ids, IsLater-fresh,
}

abbrev pub Distinct : List AString → Type 0
Distinct [] = Unit
Distinct (id ∷ ids) = All (λ other. other ≢ id) ids × Distinct ids

abbrev pub HasDates : {J : Type 0} → List (Env × Input J) → Type 0
HasDates is = All (λ e. HasDate e.0) is

module _ {J : Type 0} (api : JsonApi J) where
  next-IsLater :
      (name p : AString) (n : ℕ) (env : Env) (x : BinanceLinearExchange)
      → is_empty p ≡ false
      → HasIssued name p n x
      → IsLater name p n (next_id env x)
  next-IsLater name p n env x h i = record {
    number = x.trade_api.order_count + 1;
    later = omega (arith, i.counted);
    spelled = rw (i.named, i.prefixed, new_prefix_kept env p h) refl;
  }

  ids-IsLater :
      (name p : AString) (n : ℕ) (is : List (Env × Input J)) (x : BinanceLinearExchange)
      → is_empty p ≡ false
      → HasDates is
      → HasIssued name p n x
      → All (IsLater name p n) (ids_of api is x)
  unfolding ids_of
  ids-IsLater name p n [] x h d i = tt
  ids-IsLater name p n ((env, c) ∷ is) x h d i =
      let kept = (Keeps-handle (HasIssued-IsStable name p n h) api env c).kept x i in
      let rest = ids-IsLater name p n is (handle api env c x).1 h d.1 kept in
      elim (step_ids api env c x d.0) [
        | inl none ↦ rw none rest
        | inr next ↦ rw next.0 (next-IsLater name p n env x h i, rest)
      ]

  -- In any history of a client, whatever comes in between, the order ids that sending returns are all different, where the clock has a date to begin the ids with.
  pub ids-Distinct :
      (is : List (Env × Input J)) (x : BinanceLinearExchange)
      → HasDates is
      → Distinct (ids_of api is x)
  unfolding ids_of
  ids-Distinct [] x d = tt
  ids-Distinct ((env, c) ∷ is) x d =
      let rest = ids-Distinct is (handle api env c x).1 d.1 in
      let p = new_prefix env x.trade_api.order_prefix in
      let name = x.base.exchange_name in
      let n = x.trade_api.order_count + 1 in
      elim (step_ids api env c x d.0) [
        | inl none ↦ rw none rest
        | inr next ↦ rw next.0 (
          All-map _ (IsLater-fresh name p n)
              (ids-IsLater name p n is _ (new_prefix_date env _ d.0) d.1 next.1),
          rest,
        )
      ]
