-- ===== src/Cta/Stopped.antt =====
-- app/cta_strategy/engine.cpp: what stopping a strategy asks for.
use keen_trader.Base.{
  ℕ, ◌≡◌, refl, ap, ◌∙◌, true, false, Option, none, some, List, [], ◌∷◌, ◌++◌, arith, ◌==◌,
  Option-cases, inl, inr,
}
use keen_trader.Base.Text.{AString}
use keen_trader.Base.Lists.{All}
use keen_trader.Base.Map.{AStringSet, lookup, insert, lookup-insert_self}
use keen_trader.Objects.Trading.{OrderData}
use keen_trader.Objects.Names.{EnumNames, create_cancel_request}
use keen_trader.Oms.Engine.{OmsEngine, get_order}
use keen_trader.Cta.Objects.{
  CtaEngine, CtaTemplate, Output, orderids_of, update_object, on_stop, strategy_event, cancel_order,
  log, order_not_found,
}
use keen_trader.Cta.StopOrders.{stoporder_prefix}
use keen_trader.Cta.Orders.{
  starts_with, cancel_server_order, cancel_by_id, cancel_each, cancel_all, ◌then_do◌,
}
use keen_trader.Cta.Strategies.{stop_strategy, stop_trading, with_strategy}

abbrev IsServerId : AString → Type 0
IsServerId k = starts_with stoporder_prefix k ≡ false

updated :
    (a : ℕ) (f : CtaTemplate → CtaTemplate) (s : CtaEngine)
    → (update_object a f s).objects a ≡ f (s.objects a)
unfolding update_object
updated a f s = let self : (a == a) ≡ true = ground arith in rw self refl

module _ (names : EnumNames) where
  -- The request to cancel an order that is known, and a log of an id that is not.
  abbrev pub cancel_of : AString → Option OrderData → Output
  cancel_of k none = log (order_not_found k)
  cancel_of k (some o) = cancel_order (create_cancel_request names o) o.exchange_name

  unfoldable pub cancels_of : AStringSet → OmsEngine → List Output
  cancels_of [] oms = []
  cancels_of (k ∷ ks) oms = cancel_of k (get_order oms k) ∷ cancels_of ks oms

  server_cancelled :
      (k : AString) (s : CtaEngine)
      → IsServerId k
      → cancel_by_id names k s ≡ some (s, cancel_of k (get_order s.oms k) ∷ [])
  unfolding cancel_by_id cancel_server_order
  server_cancelled k s h = elim (Option-cases (get_order s.oms k)) [
    | inl unknown ↦ rw (h, cancel_server_order, unknown) refl
    | inr (o, known) ↦ rw (h, cancel_server_order, known) refl
  ]

  each_cancelled :
      (ks : AStringSet) (s : CtaEngine)
      → All IsServerId ks
      → cancel_each names ks s ≡ some (s, cancels_of ks s.oms)
  unfolding cancel_each cancels_of ◌then_do◌
  each_cancelled [] s h = refl
  each_cancelled (k ∷ ks) s h =
      rw (cancel_each, server_cancelled k s h.0, ◌then_do◌, each_cancelled ks s h.1) refl

  pub stop_runs :
      (name : AString) (a : ℕ) (s s' : CtaEngine) (out : List Output)
      → lookup name s.strategies ≡ some a
      → (s.objects a).trading ≡ true
      → cancel_all names a (update_object a (λ t. record t { trading = false }) s) ≡ some (s', out)
      → stop_strategy names name s ≡ some (s', on_stop a ∷ out ++ strategy_event a ∷ [])
  unfolding stop_strategy with_strategy
  stop_runs name a s s' out found trading e =
      rw (with_strategy, found, trading) (rw (stop_trading, ◌then_do◌, e) refl)

  -- Stopping a strategy that is registered under its own name and trades, and that has no local stop order, turns its trading off and asks to cancel exactly the orders in its set, one request for each and in the order of the set, between telling the strategy and putting its event; an id that the order management engine does not know is logged in its place. Stop orders stay, no erased entry is used, and the set of the strategy is as before.
  pub stop_strategy_cancels :
      (name : AString) (a : ℕ) (s : CtaEngine)
      → lookup name s.strategies ≡ some a
      → (s.objects a).strategy_name ≡ name
      → (s.objects a).trading ≡ true
      → All IsServerId (orderids_of name s)
      → (s' : CtaEngine) × (stop_strategy names name s
          ≡ some (s', on_stop a ∷ cancels_of (orderids_of name s) s.oms ++ strategy_event a ∷ []))
        × ((s'.objects a).trading ≡ false)
        × (s'.stop_orders ≡ s.stop_orders)
        × (s'.dangling ≡ s.dangling)
        × (orderids_of name s' ≡ orderids_of name s)
  unfolding cancel_all update_object
  stop_strategy_cancels name a s found named trading server =
      let off : CtaTemplate → CtaTemplate = λ t. record t { trading = false } in
      let t = update_object a off s in
      let at = updated a off s in
      let own : (t.objects a).strategy_name ≡ name = ap (λ o. o.strategy_name) at ∙ named in
      let ids = orderids_of name s in
      let u = record t { strategy_orderid_map = insert name ids t.strategy_orderid_map } in
      (
        u,
        stop_runs name a s u (cancels_of ids s.oms) found trading
            (rw own (each_cancelled ids u server)),
        ap (λ o. o.trading) at,
        refl,
        refl,
        rw (lookup-insert_self name ids s.strategy_orderid_map) refl,
      )
