-- ===== src/Oms/History.antt =====
-- core/engine/engine.cpp: each table holds, for each key, the last data that an event brought for it.
use keen_trader.Base.{
  ◌≡◌, refl, ap, ◌∙◌, Option, none, some, List, [], ◌∷◌, arith, if◌then◌else◌, keep_if,
}
use keen_trader.Base.Text.{AString, str_eq}
use keen_trader.Base.Map.{Map, lookup, lookup-insert}
use keen_trader.Objects.Market.{TickData, ContractData}
use keen_trader.Objects.Trading.{OrderData, TradeData, PositionData, AccountData, QuoteData}
use keen_trader.Objects.Names.{EnumNames, is_active, quote_is_active}
use keen_trader.Converter.Dispatch.{OffsetConverter}
use keen_trader.Oms.Engine.{
  OmsEngine, OmsEvent, init, with_converter, step, run, get_tick, get_order, get_trade,
  get_position, get_account, get_contract, get_quote, tick, order, trade, position, account,
  contract, quote, order_request,
}
use keen_trader.Oms.Consistent.{init-IsConsistent, run-IsConsistent}

-- The key and the data that an event has for one table, if any.
abbrev pub Pick : Type 0 → Type 0
Pick V = OmsEvent → Option (AString × V)

-- The specification: the last data of a history for the key `k`, or what was known before.
abbrev pub seen : {V : Type 0} → AString → Option (AString × V) → Option V → Option V
seen k none before = before
seen k (some (j, v)) before = if str_eq j k then some v else before

abbrev pub latest : {V : Type 0} → Pick V → AString → List OmsEvent → Option V → Option V
latest pick k [] before = before
latest pick k (e ∷ es) before = latest pick k es (seen k (pick e) before)

abbrev pub pick_tick : Pick TickData
pick_tick (tick d) = some (d.kt_symbol, d)
pick_tick _ = none

abbrev pub pick_order : Pick OrderData
pick_order (order d) = some (d.kt_orderid, d)
pick_order _ = none

abbrev pub pick_trade : Pick TradeData
pick_trade (trade d) = some (d.kt_tradeid, d)
pick_trade _ = none

abbrev pub pick_position : Pick PositionData
pick_position (position d) = some (d.kt_positionid, d)
pick_position _ = none

abbrev pub pick_account : Pick AccountData
pick_account (account d) = some (d.kt_accountid, d)
pick_account _ = none

abbrev pub pick_contract : Pick ContractData
pick_contract (contract d) = some (d.kt_symbol, d)
pick_contract _ = none

abbrev pub pick_quote : Pick QuoteData
pick_quote (quote d) = some (d.kt_quoteid, d)
pick_quote _ = none

-- A call of a converter leaves the tables as they are.
with_converter_tables :
    (n : AString) (f : OffsetConverter → OffsetConverter) (s : OmsEngine)
    → let t = with_converter n f s in
      (t.ticks ≡ s.ticks)
      × (t.orders ≡ s.orders)
      × (t.trades ≡ s.trades)
      × (t.positions ≡ s.positions)
      × (t.accounts ≡ s.accounts)
      × (t.contracts ≡ s.contracts)
      × (t.quotes ≡ s.quotes)
unfolding with_converter
with_converter_tables n f s = ground arith

module _ (names : EnumNames) where
  -- A table that follows its events at each step follows the history.
  module _ {V : Type 0} (pick : Pick V) (table : OmsEngine → Map V)
      (follows : (e : OmsEvent) (s : OmsEngine) (k : AString)
        → lookup k (table (step names e s)) ≡ seen k (pick e) (lookup k (table s))) where
    run-latest :
        (es : List OmsEvent) (s : OmsEngine) (k : AString)
        → lookup k (table (run names es s)) ≡ latest pick k es (lookup k (table s))
    unfolding run
    run-latest [] s k = refl
    run-latest (e ∷ es) s k =
        run-latest es (step names e s) k ∙ ap (latest pick k es) (follows e s k)

  pub step_order :
      (e : OmsEvent) (s : OmsEngine) (k : AString)
      → lookup k (step names e s).orders ≡ seen k (pick_order e) (lookup k s.orders)
  unfolding step
  step_order (order d) s k =
      rw (with_converter_tables _ _ _).1 (lookup-insert d.kt_orderid k d s.orders)
  step_order (trade d) s k = ap (lookup k) (with_converter_tables _ _ _).1
  step_order (position d) s k = ap (lookup k) (with_converter_tables _ _ _).1
  step_order (order_request req kt_orderid name) s k = ap (lookup k) (with_converter_tables _ _ _).1
  step_order _ s k = refl

  step_tick :
      (e : OmsEvent) (s : OmsEngine) (k : AString)
      → lookup k (step names e s).ticks ≡ seen k (pick_tick e) (lookup k s.ticks)
  unfolding step
  step_tick (tick d) s k = lookup-insert d.kt_symbol k d s.ticks
  step_tick (order d) s k = ap (lookup k) (with_converter_tables _ _ _).0
  step_tick (trade d) s k = ap (lookup k) (with_converter_tables _ _ _).0
  step_tick (position d) s k = ap (lookup k) (with_converter_tables _ _ _).0
  step_tick (order_request req kt_orderid name) s k = ap (lookup k) (with_converter_tables _ _ _).0
  step_tick _ s k = refl

  step_trade :
      (e : OmsEvent) (s : OmsEngine) (k : AString)
      → lookup k (step names e s).trades ≡ seen k (pick_trade e) (lookup k s.trades)
  unfolding step
  step_trade (trade d) s k =
      rw (with_converter_tables _ _ _).2 (lookup-insert d.kt_tradeid k d s.trades)
  step_trade (order d) s k = ap (lookup k) (with_converter_tables _ _ _).2
  step_trade (position d) s k = ap (lookup k) (with_converter_tables _ _ _).2
  step_trade (order_request req kt_orderid name) s k = ap (lookup k) (with_converter_tables _ _ _).2
  step_trade _ s k = refl

  step_position :
      (e : OmsEvent) (s : OmsEngine) (k : AString)
      → lookup k (step names e s).positions ≡ seen k (pick_position e) (lookup k s.positions)
  unfolding step
  step_position (position d) s k =
      rw (with_converter_tables _ _ _).3 (lookup-insert d.kt_positionid k d s.positions)
  step_position (order d) s k = ap (lookup k) (with_converter_tables _ _ _).3
  step_position (trade d) s k = ap (lookup k) (with_converter_tables _ _ _).3
  step_position (order_request req kt_orderid name) s k =
      ap (lookup k) (with_converter_tables _ _ _).3
  step_position _ s k = refl

  step_account :
      (e : OmsEvent) (s : OmsEngine) (k : AString)
      → lookup k (step names e s).accounts ≡ seen k (pick_account e) (lookup k s.accounts)
  unfolding step
  step_account (account d) s k = lookup-insert d.kt_accountid k d s.accounts
  step_account (order d) s k = ap (lookup k) (with_converter_tables _ _ _).4
  step_account (trade d) s k = ap (lookup k) (with_converter_tables _ _ _).4
  step_account (position d) s k = ap (lookup k) (with_converter_tables _ _ _).4
  step_account (order_request req kt_orderid name) s k =
      ap (lookup k) (with_converter_tables _ _ _).4
  step_account _ s k = refl

  step_contract :
      (e : OmsEvent) (s : OmsEngine) (k : AString)
      → lookup k (step names e s).contracts ≡ seen k (pick_contract e) (lookup k s.contracts)
  unfolding step
  step_contract (contract d) s k = lookup-insert d.kt_symbol k d s.contracts
  step_contract (order d) s k = ap (lookup k) (with_converter_tables _ _ _).5
  step_contract (trade d) s k = ap (lookup k) (with_converter_tables _ _ _).5
  step_contract (position d) s k = ap (lookup k) (with_converter_tables _ _ _).5
  step_contract (order_request req kt_orderid name) s k =
      ap (lookup k) (with_converter_tables _ _ _).5
  step_contract _ s k = refl

  step_quote :
      (e : OmsEvent) (s : OmsEngine) (k : AString)
      → lookup k (step names e s).quotes ≡ seen k (pick_quote e) (lookup k s.quotes)
  unfolding step
  step_quote (quote d) s k = lookup-insert d.kt_quoteid k d s.quotes
  step_quote (order d) s k = ap (lookup k) (with_converter_tables _ _ _).6
  step_quote (trade d) s k = ap (lookup k) (with_converter_tables _ _ _).6
  step_quote (position d) s k = ap (lookup k) (with_converter_tables _ _ _).6
  step_quote (order_request req kt_orderid name) s k = ap (lookup k) (with_converter_tables _ _ _).6
  step_quote _ s k = refl

  -- After any history of a new engine each getter returns the data of the last event for its key, and nothing when there was none: for ticks, orders, trades, positions, accounts, contracts and quotes.
  pub run_getters :
      (es : List OmsEvent) (k : AString)
      → let s = run names es init in
        (get_tick s k ≡ latest pick_tick k es none)
        × (get_order s k ≡ latest pick_order k es none)
        × (get_trade s k ≡ latest pick_trade k es none)
        × (get_position s k ≡ latest pick_position k es none)
        × (get_account s k ≡ latest pick_account k es none)
        × (get_contract s k ≡ latest pick_contract k es none)
        × (get_quote s k ≡ latest pick_quote k es none)
  unfolding get_tick get_order get_trade get_position get_account get_contract get_quote lookup
  run_getters es k = (
    run-latest pick_tick (λ s. s.ticks) step_tick es init k,
    run-latest pick_order (λ s. s.orders) step_order es init k,
    run-latest pick_trade (λ s. s.trades) step_trade es init k,
    run-latest pick_position (λ s. s.positions) step_position es init k,
    run-latest pick_account (λ s. s.accounts) step_account es init k,
    run-latest pick_contract (λ s. s.contracts) step_contract es init k,
    run-latest pick_quote (λ s. s.quotes) step_quote es init k,
  )

  -- After any history an order is in the active table exactly when its last update is active, and is then that update; a quote likewise.
  pub run_active :
      (es : List OmsEvent) (k : AString)
      → let s = run names es init in
        (lookup k s.active_orders ≡ keep_if is_active (latest pick_order k es none))
        × (lookup k s.active_quotes ≡ keep_if quote_is_active (latest pick_quote k es none))
  run_active es k =
      let c = run-IsConsistent names es init init-IsConsistent in
      let g = run_getters es k in
      (
        c.orders_match k ∙ ap (keep_if is_active) (unfold get_order in g.1),
        c.quotes_match k ∙ ap (keep_if quote_is_active) (unfold get_quote in g.6),
      )
