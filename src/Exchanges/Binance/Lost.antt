-- ===== src/Exchanges/Binance/Lost.antt =====
-- core/exchange/binance_linear_exchange.cpp: messages of the account whose data is lost.
use keen_trader.Base.{
  ◌≡◌, inl, inr, refl, ap, Bool-cases, Option-cases, true, false, Option, none, some, List, [], ◌∷◌,
  ◌++◌, map,
}
use mathlib.Core.List.{append-nil}
use keen_trader.Base.Int.{zero_float, leb_ℤ}
use keen_trader.Base.Text.{AString, codes, str_eq}
use keen_trader.Base.Lists.{All}
use keen_trader.Base.Map.{insert}
use keen_trader.Objects.Constant.{OrderType}
use keen_trader.Objects.Market.{Float, ContractData}
use keen_trader.Objects.Trading.{OrderData, TradeData}
use keen_trader.Cta.Rounding.{round_to}
use keen_trader.Exchanges.Base
use keen_trader.Exchanges.Json.{JsonApi, json_to_float}
use keen_trader.Exchanges.Binance.Names.{order_type_of}
use keen_trader.Exchanges.Binance.State.{
  BinanceLinearExchange, Env, M, Reply, event, continue, ◌>>=◌, gets, pure, modify, emit_all,
  or_throw, if_found, skip, for_each,
}
use keen_trader.Exchanges.Binance.Linear
use keen_trader.Exchanges.Binance.User

-- A call that only reads.
record Reads {A : Type 0} (m : M A) : Type 0 where
  same : (x : BinanceLinearExchange) → m x ≡ ((m x).0, x, [])

module _ {A : Type 0} where
  Reads-pure : (a : A) → Reads (pure a)
  unfolding pure
  Reads-pure a = record { same = λ x. refl }

  Reads-gets : (f : BinanceLinearExchange → A) → Reads (gets f)
  unfolding gets
  Reads-gets f = record { same = λ x. refl }

  Reads-or_throw : (o : Option A) → Reads (or_throw o)
  unfolding or_throw
  Reads-or_throw o = record { same = λ x. refl }

  Reads-continue :
      {B : Type 0} (f : B → M A) (o : Option B) (x : BinanceLinearExchange)
      → ((b : B) → Reads (f b))
      → continue f (o, x, []) ≡ ((continue f (o, x, [])).0, x, [])
  Reads-continue f none x k = refl
  Reads-continue f (some b) x k = (k b).same x

  Reads-bind :
      {B : Type 0} (m : M B) (f : B → M A) → Reads m → ((b : B) → Reads (f b)) → Reads (m >>= f)
  unfolding ◌>>=◌
  Reads-bind m f r k = record { same = λ x. rw (r.same x) (Reads-continue f (m x).0 x k) }

module _ (env : Env) {J : Type 0} (api : JsonApi J) where
  Reads-order_of :
      (packet ord : J) (t : OrderType) (c : ContractData)
      → Reads (User.order_of env api packet ord t c)
  unfolding User.order_of
  Reads-order_of packet ord t c =
      search (Reads-pure, Reads-gets, Reads-or_throw, Reads-bind) depth 30

  trade_lost :
      (ord : J) (o : OrderData) (v : Float) (f : TradeData → M (Unit {0}))
      (x : BinanceLinearExchange)
      → api.contains ord (codes "t") ≡ true
      → api.is_string (api.at ord (codes "t")) ≡ false
      → (User.trade_of env api ord o v >>= f) x ≡ (none, x, [])
  unfolding User.trade_of ◌>>=◌ or_throw gets
  trade_lost ord o v f x there number =
      rw (api.value-not_string ord (codes "t") [] there number) refl

  fill_lost :
      (ord : J) (o : OrderData) (c : ContractData) (x : BinanceLinearExchange)
      → api.contains ord (codes "t") ≡ true
      → api.is_string (api.at ord (codes "t")) ≡ false
      → ((User.on_fill env api ord o c x).1 ≡ x) × ((User.on_fill env api ord o c x).2 ≡ [])
  unfolding User.on_fill ◌>>=◌ or_throw skip
  fill_lost ord o c x there number =
      elim (Option-cases
        (round_to (json_to_float api env.floats (api.at ord (codes "l"))) c.min_volume)) [
          | inl bad ↦ rw bad (refl, refl)
          | inr (v, good) ↦ elim (Bool-cases (leb_ℤ v zero_float)) [
            | inl no_trade ↦ rw (good, no_trade) (refl, refl)
            | inr trade ↦ rw (good, trade, trade_lost ord o v _ x there number) (refl, refl)
          ]
        ]

  -- An order update whose trade id is not a text, as a number is not, puts the order and nothing else: whatever the volume of its trade, no trade is put.
  pub on_order_loses_trade :
      (packet : J) (type tif name : AString) (c : ContractData) (o : OrderData)
      (x : BinanceLinearExchange)
      → let ord = api.at packet (codes "o") in
        api.contains packet (codes "o") ≡ true
        → api.value_text ord (codes "o") [] ≡ some type
        → api.value_text ord (codes "f") (codes "GTC") ≡ some tif
        → api.value_text ord (codes "s") [] ≡ some name
        → Linear.get_contract_by_name x name ≡ some c
        → (User.order_of env api packet ord (order_type_of type tif) c x).0 ≡ some o
        → api.contains ord (codes "t") ≡ true
        → api.is_string (api.at ord (codes "t")) ≡ false
        → let (r, y, os) = User.on_order env api packet x in
          (y ≡ record x { orders = insert o.orderid o x.orders })
          × (os ≡ map event (Base.on_order o))
  unfolding User.on_order User.order_with Linear.on_order ◌>>=◌ or_throw gets if_found modify
      emit_all Base.on_order
  on_order_loses_trade packet type tif name c o x is_order t f s known read there number =
      let ord = api.at packet (codes "o") in
      let put = record x { orders = insert o.orderid o x.orders } in
      let lost = fill_lost ord o c put there number in
      let reads = (Reads-order_of packet ord (order_type_of type tif) c).same x in
      rw (is_order, t, f, s, known, reads, read)
        (lost.0, ap (λ os. map event (Base.on_order o) ++ os) lost.1)

  -- A position of one side only, as in hedge mode.
  pub record IsOneSided (p : J) : Type 0 where
    pub ps : AString
    pub read : api.value_text p (codes "ps") [] ≡ some ps
    pub one_sided : str_eq ps (codes "BOTH") ≡ false

  one_sided_skipped :
      (p : J) (x : BinanceLinearExchange)
      → IsOneSided p
      → User.on_one_position env api p x ≡ (some tt, x, [])
  unfolding User.on_one_position ◌>>=◌ or_throw skip
  one_sided_skipped p x h = rw (h.read, h.one_sided) refl

  positions_skipped :
      (ps : List J) (x : BinanceLinearExchange)
      → All IsOneSided ps
      → for_each ps (User.on_one_position env api) x ≡ (some tt, x, [])
  unfolding for_each ◌>>=◌ skip
  positions_skipped [] x h = refl
  positions_skipped (p ∷ ps) x h = rw (one_sided_skipped p x h.0) (positions_skipped ps x h.1)

  -- In an account message whose positions are all of one side only, as in hedge mode, no position reaches anyone: after the balances nothing more is put, and nothing changes.
  pub on_account_one_sided :
      (packet : J) (x : BinanceLinearExchange)
      → let a = api.at packet (codes "a") in
        api.contains packet (codes "a") ≡ true
        → All IsOneSided (User.array_at env api a (codes "P"))
        → let (r, y, os) =
            for_each (User.array_at env api a (codes "B")) (User.on_balance env api) x in
          ((User.on_account env api packet x).1 ≡ y) × ((User.on_account env api packet x).2 ≡ os)
  unfolding User.on_account ◌>>=◌
  on_account_one_sided packet x there one_sided =
      let a = api.at packet (codes "a") in
      rw there
        (balances_only (for_each (User.array_at env api a (codes "B")) (User.on_balance env api) x))
    where
      balances_only :
          (r : Reply (Unit {0}))
          → let whole =
              continue
                (λ _.
                  for_each
                    (User.array_at env api (api.at packet (codes "a")) (codes "P"))
                    (User.on_one_position env api))
                r in
            (whole.1 ≡ r.1) × (whole.2 ≡ r.2)
      balances_only (none, y, os) = (refl, refl)
      balances_only (some u, y, os) =
          rw
            (positions_skipped (User.array_at env api (api.at packet (codes "a")) (codes "P")) y
              one_sided)
            (refl, append-nil os)

  -- An account message whose first balance is a text, which `on_query_account` would read, puts nothing at all: no balance and no position.
  pub on_account_text_balance :
      (packet acc : J) (accs : List J) (accountid : AString) (x : BinanceLinearExchange)
      → let a = api.at packet (codes "a") in
        api.contains packet (codes "a") ≡ true
        → User.array_at env api a (codes "B") ≡ acc ∷ accs
        → api.value_text acc (codes "a") [] ≡ some accountid
        → api.contains acc (codes "wb") ≡ true
        → api.is_number (api.at acc (codes "wb")) ≡ false
        → User.on_account env api packet x ≡ (none, x, [])
  unfolding User.on_account User.on_balance for_each ◌>>=◌ or_throw gets
  on_account_text_balance packet acc accs accountid x there first read wb text =
      rw (there, first, read, api.value-not_number acc (codes "wb") zero_float wb text) refl
