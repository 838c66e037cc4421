-- ===== src/Cta/Tracked.antt =====
-- app/cta_strategy/engine.cpp: how local stop orders, the sets of the strategies and the strategies' names hang together.
use keen_trader.Base.{
  or_true, ℕ, ◌+◌, ◌≡◌, refl, ap, subst, ◌∙◌, Bool, true, ◌||◌, some, eq_of_some, [], ◌∷◌, ◌++◌,
  arith, Bool-cases, inl, inr,
}
use keen_trader.Base.Text.{AString, dot, str_eq, str_eq_refl, eq_of_str_eq}
use keen_trader.Base.Map.{
  Map, AStringSet, lookup, insert, member, add, lookup-insert, lookup-insert_self, member-add,
}
use keen_trader.Objects.Constant.{Direction, Offset}
use keen_trader.Objects.Market.{Float}
use keen_trader.Cta.Objects.{StopOrder, CtaEngine, orderids_of, or_empty}
use keen_trader.Base.Decimal.{decimal}
use keen_trader.Cta.StopOrders.{
  stoporder_prefix, stop_orderid_of, new_stop_order, send_local_stop_order,
}
use keen_trader.Cta.Orders.{starts_with}

-- A stop order has an id with the prefix, in the set of its strategy, which is registered under its name.
pub record StopIsTracked (s : CtaEngine) (k : AString) (o : StopOrder) : Type 0 where
  pub prefixed : starts_with stoporder_prefix k ≡ true
  pub in_set : member k (orderids_of o.strategy_name s) ≡ true
  pub at : ℕ
  pub registered : lookup o.strategy_name s.strategies ≡ some at
  pub named : (s.objects at).strategy_name ≡ o.strategy_name

abbrev pub IsTracked : CtaEngine → Type 0
IsTracked s = (k : AString) (o : StopOrder) → lookup k s.stop_orders ≡ some o → StopIsTracked s k o

starts_with-append : (p s : AString) → starts_with p (p ++ s) ≡ true
unfolding starts_with
starts_with-append [] s = refl
starts_with-append (x ∷ xs) s = ground (arith, starts_with-append xs s)

id_prefixed : (n : ℕ) → starts_with stoporder_prefix (stop_orderid_of n) ≡ true
unfolding stop_orderid_of
id_prefixed n = starts_with-append stoporder_prefix (dot ∷ decimal n)

-- An id stays in a set that another id is added to, whichever strategy's it is.
pub still_in_set :
    (k j name own : AString) (m : Map AStringSet)
    → member j (or_empty (lookup name m)) ≡ true
    → member j (or_empty (lookup name (insert own (add k (or_empty (lookup own m))) m))) ≡ true
still_in_set k j name own m h = elim (Bool-cases (str_eq own name)) [
  | inl same ↦
      let eq = eq_of_str_eq own name same in
      rw (lookup-insert own name (add k (or_empty (lookup own m))) m, same)
        (rw (member-add k j (or_empty (lookup own m))) (
          ap (λ b. str_eq k j || b) (ap (λ n. member j (or_empty (lookup n m))) eq ∙ h)
          ∙ or_true (str_eq k j)))
  | inr other ↦ rw (lookup-insert own name (add k (or_empty (lookup own m))) m, other) h
]

own_set :
    (k own : AString) (m : Map AStringSet)
    → member k (or_empty (lookup own (insert own (add k (or_empty (lookup own m))) m))) ≡ true
own_set k own m = simp (lookup-insert_self, member-add, str_eq_refl)

-- A registered strategy that sends a local stop order keeps every stop order tracked, the new one included.
pub send_local_stop_order-IsTracked :
    (a : ℕ) (d : Direction) (o : Offset) (price volume : Float) (lock net : Bool) (s : CtaEngine)
    → IsTracked s
    → lookup (s.objects a).strategy_name s.strategies ≡ some a
    → IsTracked (send_local_stop_order a d o price volume lock net s).1
unfolding send_local_stop_order new_stop_order
send_local_stop_order-IsTracked a d o price volume lock net s tracked h k so found =
    let id = stop_orderid_of (s.stop_order_count + 1) in
    let own = (s.objects a).strategy_name in
    let new = new_stop_order (s.objects a) id d o price volume lock net in
    elim (Bool-cases (str_eq id k)) [
      | inl same ↦
          let eq = eq_of_str_eq id k same in
          let e : new ≡ so =
            eq_of_some (rw (lookup-insert id k new s.stop_orders, same) at found) in
          subst (λ x. StopIsTracked (send_local_stop_order a d o price volume lock net s).1 k x) e
            (subst
              (λ x. StopIsTracked (send_local_stop_order a d o price volume lock net s).1 x new) eq
              (record {
                prefixed = id_prefixed (s.stop_order_count + 1);
                in_set = own_set id own s.strategy_orderid_map;
                at = a;
                registered = h;
                named = refl;
              }))
      | inr other ↦
          let w = tracked k so (rw (lookup-insert id k new s.stop_orders, other) at found) in
          record {
            prefixed = w.prefixed;
            in_set = still_in_set id k so.strategy_name own s.strategy_orderid_map w.in_set;
            at = w.at;
            registered = w.registered;
            named = w.named;
          }
    ]
