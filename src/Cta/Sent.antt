-- ===== src/Cta/Sent.antt =====
-- app/cta_strategy/engine.cpp: what sending orders leaves in the relation between orders and strategies.
use keen_trader.Base.{or_true, ℕ, ◌≡◌, Bool, true, some, List, [], ◌∷◌, Bool-cases, inl, inr}
use keen_trader.Base.Text.{AString, str_eq, str_eq_refl, is_empty}
use keen_trader.Base.Lists.{All}
use keen_trader.Base.Map.{lookup, member, lookup-insert, lookup-insert_self, member-add}
use keen_trader.Objects.Constant.{Direction, Offset, OrderType}
use keen_trader.Objects.Market.{Float, ContractData}
use keen_trader.Objects.Trading.{OrderRequest}
use keen_trader.Objects.Names.{EnumNames}
use keen_trader.Cta.Objects.{CtaEngine, orderids_of}
use keen_trader.Cta.Send.{save_relation, answered, send_each, send_server_order}

-- An order id is that of an order of the strategy at an address, and is in the strategy's set.
pub record IsRelated (a : ℕ) (s : CtaEngine) (kt_orderid : AString) : Type 0 where
  pub owner : lookup kt_orderid s.orderid_strategy_map ≡ some a
  pub in_set : member kt_orderid (orderids_of (s.objects a).strategy_name s) ≡ true

save_relation-IsRelated :
    (a : ℕ) (k : AString) (s : CtaEngine) → IsRelated a (save_relation a k s) k
unfolding save_relation
save_relation-IsRelated a k s = record {
  owner = lookup-insert_self k a s.orderid_strategy_map;
  in_set = simp (lookup-insert_self, member-add, str_eq_refl);
}

save_relation-keeps :
    (a : ℕ) (k j : AString) (s : CtaEngine) → IsRelated a s j → IsRelated a (save_relation a k s) j
unfolding save_relation
save_relation-keeps a k j s h = record {
  owner = elim (Bool-cases (str_eq k j)) [
    | inl same ↦ simp (lookup-insert, same)
    | inr other ↦ rw (lookup-insert k j a s.orderid_strategy_map, other) h.owner
  ];
  in_set = simp (lookup-insert_self, member-add, h.in_set) (or_true (str_eq k j));
}

module _ (names : EnumNames) (reply : ℕ → OrderRequest → AString → AString) where
  send_each-keeps :
      (a : ℕ) (n j : AString) (reqs : List OrderRequest) (s : CtaEngine)
      → IsRelated a s j
      → IsRelated a (send_each names reply a n reqs s).1 j
  unfolding send_each answered
  send_each-keeps a n j [] s h = h
  send_each-keeps a n j (r ∷ rs) s h = elim (Bool-cases (is_empty (reply s.sent r n))) [
    | inl refused ↦
        rw (send_each, refused)
          (send_each-keeps a n j rs _ (record { owner = h.owner; in_set = h.in_set }))
    | inr accepted ↦
        rw (send_each, accepted)
          (send_each-keeps a n j rs _ (
            save_relation-keeps a (reply s.sent r n) j _
              (record { owner = h.owner; in_set = h.in_set })))
  ]

  send_each-IsRelated :
      (a : ℕ) (n : AString) (reqs : List OrderRequest) (s : CtaEngine)
      → All (IsRelated a (send_each names reply a n reqs s).1) (send_each names reply a n reqs s).0
  unfolding send_each answered
  send_each-IsRelated a n [] s = tt
  send_each-IsRelated a n (r ∷ rs) s = elim (Bool-cases (is_empty (reply s.sent r n))) [
    | inl refused ↦ rw (send_each, refused) (send_each-IsRelated a n rs _)
    | inr accepted ↦
        rw (send_each, accepted)
          (
            send_each-keeps a n (reply s.sent r n) rs _
                (save_relation-IsRelated a (reply s.sent r n) _),
            send_each-IsRelated a n rs _,
          )
  ]

  -- Every order id that sending returns is, after the whole call, the id of an order of that strategy, and in the strategy's set of orders: its order and trade events reach the strategy, and `cancel_all` finds it.
  pub send_server_order-IsRelated :
      (one a : ℕ) (c : ContractData) (d : Direction) (o : Offset) (price volume : Float)
      (type : OrderType) (lock net : Bool) (s : CtaEngine)
      → let r = send_server_order names reply one a c d o price volume type lock net s in
        All (IsRelated a r.1) r.0
  unfolding send_server_order
  send_server_order-IsRelated one a c d o price volume type lock net s =
      send_each-IsRelated a c.exchange_name _ _
