-- ===== src/Cta/Ended.antt =====
-- app/cta_strategy/engine.cpp: operations of the engine end, and keep the local stop orders tracked.
use keen_trader.Base.{
  ℕ, ◌+◌, ◌≡◌, refl, ap, ◌∙◌, Bool, true, false, Option, some, List, [], ◌∷◌, ◌++◌, Bool-cases,
  Option-cases, inl, inr,
}
use keen_trader.Base.Text.{AString, is_empty, str_eq, eq_of_str_eq}
use keen_trader.Base.Map.{Map, lookup, insert, AStringSet, member, lookup-insert}
use keen_trader.Objects.Constant.{Direction, Offset, OrderType}
use keen_trader.Objects.Market.{Float, ContractData}
use keen_trader.Objects.Trading.{OrderRequest}
use keen_trader.Objects.Names.{EnumNames}
use keen_trader.Oms.Engine.{
  OmsEngine, get_contract, update_order_request, bound_convert_order_request, get_order,
}
use keen_trader.Cta.Objects.{
  CtaEngine, CtaTemplate, Output, orderids_of, or_empty, update_object, cancelled, on_stop_order,
  stop_order_event, on_stop, on_start, on_init, log, already_inited, starts_init, init_completed,
  not_inited, already_started, strategy_event,
}
use keen_trader.Cta.Send.{answered, save_relation, send_each, send_server_order, original_request}
use keen_trader.Cta.StopOrders.{
  stoporder_prefix, drop_stop_order, cancel_stop_order, cancel_local_stop_order,
}
use keen_trader.Cta.Orders.{
  starts_with, cancel_server_order, cancel_by_id, cancel_each, cancel_all, ◌then_do◌,
}
use keen_trader.Cta.Strategies.{
  with_strategy, subscribe_to, start_strategy, init_strategy, stop_strategy,
}
use keen_trader.Cta.Tracked.{IsTracked}
use keen_trader.Cta.Stops.{cancel_found}
use keen_trader.Cta.Stopped.{stop_runs}
use keen_trader.Cta.Kept.{
  Keeps, Keeps-refl, Keeps-trans, Keeps-IsTracked, update_object-Keeps, save_relation-Keeps,
  drop_stop_order-Keeps,
}

same_but :
    (s t : CtaEngine) (oms : OmsEngine) (n : ℕ)
    → Keeps (record s { oms = oms; sent = n }) t
    → Keeps s t
same_but s t oms n c = record {
  strategies = c.strategies;
  names = c.names;
  stops = c.stops;
  sets = c.sets;
}

-- The step ends, in a state that keeps what was tracked.
abbrev pub Ends : CtaEngine → Option (CtaEngine × List Output) → Type 0
Ends s r = (s' : CtaEngine) × (out : List Output) × (r ≡ some (s', out)) × Keeps s s'

cancel_local-Ends :
    (k : AString) (s : CtaEngine) → IsTracked s → Ends s (cancel_local_stop_order k s)
unfolding cancel_local_stop_order cancel_stop_order
cancel_local-Ends k s tracked = elim (Option-cases (lookup k s.stop_orders)) [
  | inl absent ↦ (s, [], rw (cancel_local_stop_order, absent) refl, Keeps-refl s)
  | inr (o, there) ↦
      let w = tracked k o there in
      let ended = record o { status = cancelled } in
      (
        drop_stop_order k (s.objects w.at).strategy_name s,
        on_stop_order w.at ended ∷ stop_order_event ended ∷ [],
        cancel_found w.at k o s there w.registered,
        drop_stop_order-Keeps k (s.objects w.at).strategy_name s,
      )
]

touched_set :
    (k name own : AString) (m : Map AStringSet)
    → member k (or_empty (lookup name m)) ≡ true
    → member k (or_empty (lookup name (insert own (or_empty (lookup own m)) m))) ≡ true
touched_set k name own m h = elim (Bool-cases (str_eq own name)) [
  | inl same ↦
      rw (lookup-insert own name (or_empty (lookup own m)) m, same)
        (ap (λ x. member k (or_empty (lookup x m))) (eq_of_str_eq own name same) ∙ h)
  | inr other ↦ rw (lookup-insert own name (or_empty (lookup own m)) m, other) h
]

module _ (names : EnumNames) where
  pub cancel_by_id-Ends :
      (k : AString) (s : CtaEngine) → IsTracked s → Ends s (cancel_by_id names k s)
  unfolding cancel_by_id cancel_server_order
  cancel_by_id-Ends k s tracked = elim (Bool-cases (starts_with stoporder_prefix k)) [
    | inl here ↦ rw here (cancel_local-Ends k s tracked)
    | inr other ↦ rw other (elim (Option-cases (get_order s.oms k)) [
      | inl unknown ↦ (
        s,
        (cancel_server_order names k s).1,
        rw (cancel_server_order, unknown) refl,
        Keeps-refl s,
      )
      | inr (o, known) ↦
          (s, (cancel_server_order names k s).1, rw (cancel_server_order, known) refl, Keeps-refl s)
    ])
  ]

  cancel_each-Ends :
      (ids : AStringSet) (s : CtaEngine) → IsTracked s → Ends s (cancel_each names ids s)
  unfolding cancel_each ◌then_do◌
  cancel_each-Ends [] s tracked = (s, [], refl, Keeps-refl s)
  cancel_each-Ends (k ∷ ids) s tracked =
      let (s', out, e, c) = cancel_by_id-Ends k s tracked in
      let (s'', later, e', c') = cancel_each-Ends ids s' (Keeps-IsTracked s s' c tracked) in
      (s'', out ++ later, rw (cancel_each, e, ◌then_do◌, e') refl, Keeps-trans s s' s'' c c')

  -- The set of a strategy, made when it is not there.
  touched-Keeps :
      (name : AString) (s : CtaEngine)
      → Keeps s (record s {
        strategy_orderid_map = insert name (orderids_of name s) s.strategy_orderid_map;
      })
  touched-Keeps name s = record {
    strategies = refl;
    names = λ b. refl;
    stops = λ k o h. h;
    sets = λ k o h p m. touched_set k o.strategy_name name s.strategy_orderid_map m;
  }

  cancel_all-Ends : (a : ℕ) (s : CtaEngine) → IsTracked s → Ends s (cancel_all names a s)
  unfolding cancel_all
  cancel_all-Ends a s tracked =
      let name = (s.objects a).strategy_name in
      let t = record s {
        strategy_orderid_map = insert name (orderids_of name s) s.strategy_orderid_map;
      } in
      let c = touched-Keeps name s in
      let (s', out, e, c') =
        cancel_each-Ends (orderids_of name s) t (Keeps-IsTracked s t c tracked) in
      (s', out, e, Keeps-trans s t s' c c')

  pub stop-Ends :
      (name : AString) (a : ℕ) (s : CtaEngine)
      → lookup name s.strategies ≡ some a
      → IsTracked s
      → Ends s (stop_strategy names name s)
  unfolding stop_strategy with_strategy
  stop-Ends name a s found tracked = elim (Bool-cases (s.objects a).trading) [
    | inl trading ↦
        let off : CtaTemplate → CtaTemplate = λ t. record t { trading = false } in
        let t = update_object a off s in
        let c = update_object-Keeps a off s (λ x. refl) in
        let (s', out, e, c') = cancel_all-Ends a t (Keeps-IsTracked s t c tracked) in
        (
          s',
          on_stop a ∷ out ++ strategy_event a ∷ [],
          stop_runs names name a s s' out found trading e,
          Keeps-trans s t s' c c',
        )
    | inr idle ↦ (s, [], rw (with_strategy, found, idle) refl, Keeps-refl s)
  ]

  pub start-Ends :
      (name : AString) (a : ℕ) (s : CtaEngine)
      → lookup name s.strategies ≡ some a
      → Ends s (start_strategy name s)
  unfolding start_strategy with_strategy
  start-Ends name a s found = elim (Bool-cases (s.objects a).inited) [
    | inl ready ↦ elim (Bool-cases (s.objects a).trading) [
      | inl trading ↦ (
        s,
        log (already_started name) ∷ [],
        rw (with_strategy, found, ready, trading) refl,
        Keeps-refl s,
      )
      | inr idle ↦ (
        update_object a (λ t. record t { trading = true }) s,
        on_start a ∷ strategy_event a ∷ [],
        rw (with_strategy, found, ready, idle) refl,
        update_object-Keeps a (λ t. record t { trading = true }) s (λ x. refl),
      )
    ]
    | inr not_ready ↦
        (s, log (not_inited name) ∷ [], rw (with_strategy, found, not_ready) refl, Keeps-refl s)
  ]

  pub init-Ends :
      (name : AString) (a : ℕ) (s : CtaEngine)
      → lookup name s.strategies ≡ some a
      → Ends s (init_strategy names name s)
  unfolding init_strategy with_strategy
  init-Ends name a s found =
      let kt_symbol = (s.objects a).kt_symbol in
      elim (Bool-cases (s.objects a).inited) [
        | inl again ↦
            (s, log (already_inited name) ∷ [], rw (with_strategy, found, again) refl, Keeps-refl s)
        | inr fresh ↦ (
          update_object a (λ t. record t { inited = true }) s,
          log (starts_init name)
                ∷ on_init a
                ∷ subscribe_to names (get_contract s.oms kt_symbol) kt_symbol
              ++ strategy_event a ∷ log (init_completed name) ∷ [],
          rw (with_strategy, found, fresh) refl,
          update_object-Keeps a (λ t. record t { inited = true }) s (λ x. refl),
        )
      ]

module _ (names : EnumNames) (reply : ℕ → OrderRequest → AString → AString) (one : ℕ) where
  send_each-Keeps :
      (a : ℕ) (n : AString) (reqs : List OrderRequest) (s : CtaEngine)
      → Keeps s (send_each names reply a n reqs s).1
  unfolding send_each answered
  send_each-Keeps a n [] s = Keeps-refl s
  send_each-Keeps a n (r ∷ rs) s =
      let counted = record s { sent = s.sent + 1 } in
      elim (Bool-cases (is_empty (reply s.sent r n))) [
        | inl refused ↦
            rw (send_each, refused)
              (same_but s _ s.oms (s.sent + 1) (send_each-Keeps a n rs counted))
        | inr accepted ↦
            let id = reply s.sent r n in
            let oms = update_order_request names r id n s.oms in
            let t = record s { oms = oms; sent = s.sent + 1 } in
            rw (send_each, accepted)
              (same_but s _ oms (s.sent + 1) (
                Keeps-trans t (save_relation a id t) _ (save_relation-Keeps a id t)
                  (send_each-Keeps a n rs (save_relation a id t))))
      ]

  pub send_server-Keeps :
      (a : ℕ) (c : ContractData) (d : Direction) (o : Offset) (price volume : Float)
      (type : OrderType) (lock net : Bool) (s : CtaEngine)
      → Keeps s (send_server_order names reply one a c d o price volume type lock net s).1
  unfolding send_server_order
  send_server-Keeps a c d o price volume type lock net s =
      let req = original_request names c d o price volume type in
      let r = bound_convert_order_request one req c.exchange_name lock net s.oms in
      same_but s _ r.1 s.sent (send_each-Keeps a c.exchange_name r.0 (record s { oms = r.1 }))
