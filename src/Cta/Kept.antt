-- ===== src/Cta/Kept.antt =====
-- app/cta_strategy/engine.cpp: the operations of the engine that make no local stop order keep those there are tracked.
use keen_trader.Base.{
  ℕ, ◌≡◌, refl, sym, ap, ◌∙◌, Bool, true, false, not, ◌&&◌, some, if◌then◌else◌, ◌==◌, ==_iff,
  Bool-cases, Option-cases, inl, inr,
}
use keen_trader.Base.Text.{AString, str_eq, eq_of_str_eq}
use keen_trader.Base.Map.{
  Map, AStringSet, lookup, insert, erase, member, add, remove, lookup-insert, lookup-erase,
  member-remove,
}
use keen_trader.Objects.Trading.{TradeData, OrderData}
use keen_trader.Objects.Names.{is_active}
use keen_trader.Cta.Objects.{
  StopOrder, CtaEngine, CtaTemplate, orderids_of, or_empty, update_object,
}
use keen_trader.Cta.Events.{
  process_trade_event, trade_of, signed_volume, process_order_event, order_of,
}
use keen_trader.Cta.Send.{save_relation}
use keen_trader.Cta.StopOrders.{stoporder_prefix, drop_stop_order}
use keen_trader.Cta.Orders.{starts_with}
use keen_trader.Cta.Tracked.{IsTracked, still_in_set}

-- From one state to another: the strategies and their names stay, stop orders may go, and each that stays stays in its set.
pub record Keeps (s s' : CtaEngine) : Type 0 where
  pub strategies : s'.strategies ≡ s.strategies
  pub names : (a : ℕ) → (s'.objects a).strategy_name ≡ (s.objects a).strategy_name
  pub stops :
      (k : AString) (o : StopOrder)
      → lookup k s'.stop_orders ≡ some o
      → lookup k s.stop_orders ≡ some o
  pub sets :
      (k : AString) (o : StopOrder)
      → lookup k s'.stop_orders ≡ some o
      → starts_with stoporder_prefix k ≡ true
      → member k (orderids_of o.strategy_name s) ≡ true
      → member k (orderids_of o.strategy_name s') ≡ true

pub Keeps-IsTracked : (s s' : CtaEngine) → Keeps s s' → IsTracked s → IsTracked s'
Keeps-IsTracked s s' c tracked k o h =
    let w = tracked k o (c.stops k o h) in
    record {
      prefixed = w.prefixed;
      in_set = c.sets k o h w.prefixed w.in_set;
      at = w.at;
      registered = rw c.strategies w.registered;
      named = c.names w.at ∙ w.named;
    }

pub Keeps-refl : (s : CtaEngine) → Keeps s s
Keeps-refl s = record {
  strategies = refl;
  names = λ a. refl;
  stops = λ k o h. h;
  sets = λ k o h p m. m;
}

pub Keeps-trans : (s t u : CtaEngine) → Keeps s t → Keeps t u → Keeps s u
Keeps-trans s t u p q = record {
  strategies = q.strategies ∙ p.strategies;
  names = λ a. q.names a ∙ p.names a;
  stops = λ k o h. p.stops k o (q.stops k o h);
  sets = λ k o h x m. q.sets k o h x (p.sets k o (q.stops k o h) x m);
}

-- A change of one strategy that keeps its name.
pub update_object-Keeps :
    (a : ℕ) (f : CtaTemplate → CtaTemplate) (s : CtaEngine)
    → ((t : CtaTemplate) → (f t).strategy_name ≡ t.strategy_name)
    → Keeps s (update_object a f s)
unfolding update_object
update_object-Keeps a f s same = record {
  strategies = refl;
  names = λ b. elim (Bool-cases (b == a)) [
    | inl here ↦
        rw here
          (same (s.objects a) ∙ ap (λ c. (s.objects c).strategy_name) (sym ((==_iff b a).0 here)))
    | inr other ↦ rw other refl
  ];
  stops = λ k o h. h;
  sets = λ k o h p m. m;
}

pub save_relation-Keeps : (a : ℕ) (id : AString) (s : CtaEngine) → Keeps s (save_relation a id s)
unfolding save_relation
save_relation-Keeps a id s = record {
  strategies = refl;
  names = λ b. refl;
  stops = λ k o h. h;
  sets = λ k o h p m.
      still_in_set id k o.strategy_name (s.objects a).strategy_name s.strategy_orderid_map m;
}

after_removal :
    (id k : AString) (b : Bool) (ids : AStringSet)
    → str_eq id k ≡ false
    → member k ids ≡ true
    → member k (if b then remove id ids else ids) ≡ true
after_removal id k true ids n h = rw (member-remove id k ids, n) h
after_removal id k false ids n h = h

kept_by_erase :
    (k j : AString) (o : StopOrder) (m : Map StopOrder)
    → lookup j (erase k m) ≡ some o
    → (lookup j m ≡ some o) × (str_eq k j ≡ false)
kept_by_erase k j o m h = elim (Bool-cases (str_eq k j)) [
  | inl same ↦ absurd (cc (rw (lookup-erase k j m, same) at h))
  | inr other ↦ (rw (lookup-erase k j m, other) at h, other)
]

-- An id stays in a set that another id may be removed from.
left_in_set :
    (id k name own : AString) (b : Bool) (m : Map AStringSet)
    → str_eq id k ≡ false
    → member k (or_empty (lookup name m)) ≡ true
    → let ids = or_empty (lookup own m) in
      member k (or_empty (lookup name (insert own (if b then remove id ids else ids) m))) ≡ true
left_in_set id k name own b m n h = elim (Bool-cases (str_eq own name)) [
  | inl same ↦
      let eq = eq_of_str_eq own name same in
      let ids = or_empty (lookup own m) in
      let mine : member k ids ≡ true = ap (λ x. member k (or_empty (lookup x m))) eq ∙ h in
      rw (lookup-insert own name (if b then remove id ids else ids) m, same)
        (after_removal id k b ids n mine)
  | inr other ↦
      rw
        (
          lookup-insert own name
              (if b then remove id (or_empty (lookup own m)) else or_empty (lookup own m)) m,
          other,
        )
        h
]

pub drop_stop_order-Keeps :
    (id name : AString) (s : CtaEngine) → Keeps s (drop_stop_order id name s)
unfolding drop_stop_order
drop_stop_order-Keeps id name s = record {
  strategies = refl;
  names = λ b. refl;
  stops = λ k o h. (kept_by_erase id k o s.stop_orders h).0;
  sets = λ k o h p m.
      let n = (kept_by_erase id k o s.stop_orders h).1 in
      left_in_set id k o.strategy_name name (member id (orderids_of name s)) s.strategy_orderid_map
        n m;
}

pub process_trade_event-Keeps :
    (t : TradeData) (s : CtaEngine) → Keeps s (process_trade_event t s).0
unfolding process_trade_event trade_of
process_trade_event-Keeps t s = elim (Bool-cases (member t.kt_tradeid s.kt_tradeids)) [
  | inl again ↦ rw (process_trade_event, again) (Keeps-refl s)
  | inr fresh ↦ elim (Option-cases (lookup t.kt_orderid s.orderid_strategy_map)) [
    | inl nobody ↦
        rw (process_trade_event, fresh, nobody)
          (record {
            strategies = refl;
            names = λ a. refl;
            stops = λ k o h. h;
            sets = λ k o h p m. m;
          })
    | inr (a, e) ↦
        let c =
          update_object-Keeps a
            (λ x. record x { position = signed_volume t.direction x.position t.volume })
            (record s { kt_tradeids = add t.kt_tradeid s.kt_tradeids }) (λ x. refl) in
        rw (process_trade_event, fresh, e, trade_of)
          (record { strategies = c.strategies; names = c.names; stops = c.stops; sets = c.sets })
  ]
]

other_id :
    (id k : AString)
    → starts_with stoporder_prefix id ≡ false
    → starts_with stoporder_prefix k ≡ true
    → str_eq id k ≡ false
other_id id k n p = elim (Bool-cases (str_eq id k)) [
  | inl same ↦ absurd (cc (n, p, eq_of_str_eq id k same))
  | inr other ↦ other
]

pub process_order_event-Keeps :
    (o : OrderData) (s : CtaEngine)
    → starts_with stoporder_prefix o.kt_orderid ≡ false
    → Keeps s (process_order_event o s).0
unfolding process_order_event order_of
process_order_event-Keeps o s n = elim (Option-cases (lookup o.kt_orderid s.orderid_strategy_map)) [
  | inl nobody ↦ rw (process_order_event, nobody) (Keeps-refl s)
  | inr (a, e) ↦
      let own = (s.objects a).strategy_name in
      rw (process_order_event, e, order_of)
        (record {
          strategies = refl;
          names = λ b. refl;
          stops = λ k so h. h;
          sets = λ k so h p m.
              left_in_set o.kt_orderid k so.strategy_name own
                (member o.kt_orderid (orderids_of own s) && not (is_active o))
                s.strategy_orderid_map (other_id o.kt_orderid k n p) m;
        })
]
