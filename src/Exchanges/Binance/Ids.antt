-- ===== src/Exchanges/Binance/Ids.antt =====
-- core/exchange/binance_linear_exchange.cpp: the order ids that `BinanceTradeApi::send_order` returns.
use keen_trader.Base.{
  ℕ, ◌+◌, ◌≤◌, ◌<◌, ◌≡◌, ◌≢◌, ◌⊎◌, inl, inr, refl, sym, ap, subst, ◌∙◌, eq_of_some, Bool-cases,
  Option-cases, false, none, some, [], ◌∷◌, ◌++◌, arith,
}
use mathlib.Core.List.{append_cancel_left, tail-eq_of_cons-eq}
use keen_trader.Base.Text.{nonempty, AString, dot, is_empty}
use keen_trader.Base.Decimal.{decimal, decimal_inj}
use keen_trader.Objects.Market.{ContractData}
use keen_trader.Objects.Trading.{OrderData, OrderRequest}
use keen_trader.Objects.Names.{create_order_data, order_post_init}
use keen_trader.Exchanges.Json.{JsonApi}
use keen_trader.Exchanges.Binance.State.{
  BinanceLinearExchange, Env, M, Reply, continue, ◌>>=◌, gets, pure, modify, if_found, emit_all,
  log,
}
use keen_trader.Exchanges.Binance.Linear
use keen_trader.Exchanges.Binance.Trade
use keen_trader.Exchanges.Binance.Trade.{new_prefix}
use keen_trader.Exchanges.Binance.Keeps.{Keeps-subscribe, Keeps-connect}
use keen_trader.Exchanges.Binance.Stable.{IsStable, Keeps-place}
use keen_trader.Exchanges.Binance.Run.{Input, handle, returned, send_order}

-- At least `n` ids with the prefix `p` have been given out.
pub record HasIssued (name p : AString) (n : ℕ) (x : BinanceLinearExchange) : Type 0 where
  pub named : x.base.exchange_name ≡ name
  pub prefixed : x.trade_api.order_prefix ≡ p
  pub counted : n ≤ x.trade_api.order_count

abbrev pub nth_id : AString → AString → ℕ → AString
nth_id name p n = name ++ dot ∷ (p ++ decimal n)

pub new_prefix_kept : (env : Env) (p : AString) → is_empty p ≡ false → new_prefix env p ≡ p
unfolding new_prefix
new_prefix_kept env p h = rw h

-- A client whose prefix is chosen keeps it, and its count only grows.
pub HasIssued-IsStable :
    (name p : AString) (n : ℕ) → is_empty p ≡ false → IsStable (HasIssued name p n)
unfolding Trade.next_orderid Trade.register_order Trade.new_request ◌>>=◌ modify gets pure
HasIssued-IsStable name p n h = record {
  orders = λ k o x i. record { named = i.named; prefixed = i.prefixed; counted = i.counted };
  contracts = λ c x i. record { named = i.named; prefixed = i.prefixed; counted = i.counted };
  settings = λ m l x i. record { named = i.named; prefixed = i.prefixed; counted = i.counted };
  rest = λ f x i. record { named = i.named; prefixed = i.prefixed; counted = i.counted };
  connects =
      Keeps-connect
        (λ f x i. record { named = i.named; prefixed = i.prefixed; counted = i.counted })
        (λ x i. record { named = i.named; prefixed = i.prefixed; counted = i.counted })
        (λ k q s x i. record { named = i.named; prefixed = i.prefixed; counted = i.counted })
        (λ h x i. record { named = i.named; prefixed = i.prefixed; counted = i.counted });
  ticks = λ k t x i. record { named = i.named; prefixed = i.prefixed; counted = i.counted };
  subscribes =
      Keeps-subscribe
        (λ f x i. record { named = i.named; prefixed = i.prefixed; counted = i.counted });
  ids = λ env. record {
    kept = λ x i. record {
      named = i.named;
      prefixed = ap (new_prefix env) i.prefixed ∙ new_prefix_kept env p h;
      counted = omega (arith, i.counted);
    };
  };
  registers = λ env o. record {
    kept = λ x i. record { named = i.named; prefixed = i.prefixed; counted = i.counted };
  };
  cancels = λ env. record {
    kept = λ x i. record { named = i.named; prefixed = i.prefixed; counted = i.counted };
  };
}

-- What a call gives when it gives something.
record Gives (Q : AString → Type 0) (m : M AString) : Type 0 where
  given : (x : BinanceLinearExchange) (a : AString) → (m x).0 ≡ some a → Q a

Gives-pure : {Q : AString → Type 0} (a : AString) → Q a → Gives Q (pure a)
unfolding pure
Gives-pure {Q} a q = record { given = λ x b e. subst Q (eq_of_some e) q }

Gives-continue :
    {A : Type 0} {Q : AString → Type 0} (f : A → M AString) (r : Reply A) (b : AString)
    → ((a : A) → Gives Q (f a))
    → (continue f r).0 ≡ some b
    → Q b
Gives-continue f (none, x, os) b k e = cc
Gives-continue f (some a, x, os) b k e = (k a).given x b e

Gives-bind :
    {A : Type 0} {Q : AString → Type 0} (m : M A) (f : A → M AString)
    → ((a : A) → Gives Q (f a))
    → Gives Q (m >>= f)
unfolding ◌>>=◌
Gives-bind m f k = record { given = λ x b e. Gives-continue f (m x) b k e }

Gives-place :
    (env : Env) (req : OrderRequest) (c : ContractData) (o : OrderData)
    → Gives (λ id. id ≡ o.kt_orderid) (Trade.place_order env req c o)
unfolding Trade.place_order
Gives-place env req c o = search (Gives-bind, Gives-pure) depth 24

abbrev pub next_id : Env → BinanceLinearExchange → AString
next_id env x =
    nth_id x.base.exchange_name (new_prefix env x.trade_api.order_prefix)
      (x.trade_api.order_count + 1)

-- The state after the next id has been given out.
abbrev pub HasCounted : Env → BinanceLinearExchange → BinanceLinearExchange → Type 0
HasCounted env x =
    HasIssued x.base.exchange_name (new_prefix env x.trade_api.order_prefix)
      (x.trade_api.order_count + 1)

module _ (env : Env) (req : OrderRequest) where
  known_gives :
      (c : ContractData) (x : BinanceLinearExchange) (id : AString)
      → is_empty (new_prefix env x.trade_api.order_prefix) ≡ false
      → (Trade.send_known_order env req c x).0 ≡ some id
      → (id ≡ next_id env x) × HasCounted env x (Trade.send_known_order env req c x).1
  unfolding Trade.send_known_order Trade.next_orderid ◌>>=◌ modify gets create_order_data
      order_post_init
  known_gives c x id h e =
      let x1 = (Trade.next_orderid env x).1 in
      let order =
        create_order_data env.names req
          (new_prefix env x.trade_api.order_prefix ++ decimal (x.trade_api.order_count + 1))
          x.base.exchange_name in
      (
        (Gives-place env req c order).given x1 id e,
        (Keeps-place (HasIssued-IsStable _ _ _ h) env req c order).kept x1
            (record { named = refl; prefixed = refl; counted = omega arith }),
      )

  -- Sending gives nothing, the empty id, or the next id, and then it is counted.
  send_gives :
      (x : BinanceLinearExchange) (id : AString)
      → is_empty (new_prefix env x.trade_api.order_prefix) ≡ false
      → (Trade.send_order env req x).0 ≡ some id
      → (id ≡ []) ⊎ ((id ≡ next_id env x) × HasCounted env x (Trade.send_order env req x).1)
  unfolding Trade.send_order ◌>>=◌ gets pure if_found log emit_all
  send_gives x id h e = elim (Option-cases (Linear.get_contract_by_symbol x req.symbol)) [
    | inl unknown ↦ inl (sym (eq_of_some (rw unknown at e)))
    | inr (c, known) ↦ inr (rw known (known_gives c x id h (rw known at e)))
  ]

-- Ids of one prefix that were given out after the `n`th.
pub record IsLater (name p : AString) (n : ℕ) (id : AString) : Type 0 where
  pub number : ℕ
  pub later : n < number
  pub spelled : id ≡ nth_id name p number

pub IsLater-fresh :
    (name p : AString) (n : ℕ) (id : AString) → IsLater name p n id → id ≢ nth_id name p n
IsLater-fresh name p n id l e =
    let same = append_cancel_left name _ _ (sym l.spelled ∙ e) in
    let digits = append_cancel_left p _ _ (tail-eq_of_cons-eq same) in
    absurd (omega (arith, decimal_inj l.number n digits, l.later))

-- The date that a prefix may be made of is not empty.
abbrev pub HasDate : Env → Type 0
HasDate env = is_empty (env.compact_date env.now) ≡ false

pub new_prefix_date : (env : Env) (p : AString) → HasDate env → is_empty (new_prefix env p) ≡ false
unfolding new_prefix
new_prefix_date env p h = elim (Bool-cases (is_empty p)) [ inl e ↦ rw e h | inr e ↦ rw e e ]

module _ {J : Type 0} (api : JsonApi J) where
  quiet_returned : {A : Type 0} (r : Reply A) → returned api (continue (λ _. pure []) r).0 ≡ []
  unfolding pure
  quiet_returned (none, x, os) = refl
  quiet_returned (some a, x, os) = refl

  -- A call returns no id, or the next one.
  abbrev pub StepIds : Env → Input J → BinanceLinearExchange → Type 0
  StepIds env i x =
      (returned api (handle api env i x).0 ≡ [])
      ⊎ ((returned api (handle api env i x).0 ≡ next_id env x ∷ [])
          × HasCounted env x (handle api env i x).1)

  send_ids :
      (env : Env) (req : OrderRequest) (x : BinanceLinearExchange)
      → HasDate env
      → StepIds env (send_order req) x
  unfolding handle
  send_ids env req x h = elim (Option-cases (Trade.send_order env req x).0) [
    | inl failed ↦ inl (rw failed refl)
    | inr (id, e) ↦
        elim (send_gives env req x id (new_prefix_date env x.trade_api.order_prefix h) e) [
          | inl empty ↦ inl (rw (e, empty) refl)
          | inr (next, counted) ↦ inr (rw (e, next, nonempty _ _) refl, counted)
        ]
  ]

  pub step_ids :
      (env : Env) (i : Input J) (x : BinanceLinearExchange) → HasDate env → StepIds env i x
  unfolding handle ◌>>=◌
  step_ids env (send_order req) x h = send_ids env req x h
  step_ids env _ x h = inl (quiet_returned _)
