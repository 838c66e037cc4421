-- ===== src/Exchanges/Binance/Rejects.antt =====
-- core/exchange/binance_linear_exchange.cpp: an error answer finds the order that was sent.
use keen_trader.Base.{
  ℕ, ◌+◌, ◌≤◌, ◌≡◌, refl, ap, ◌∙◌, keep_if, false, true, none, some, List, [], ◌∷◌, ◌++◌, arith,
}
use keen_trader.Base.Int.{ℤ, pos}
use keen_trader.Base.Text.{nonempty, AString, codes, is_empty, str_eq_refl}
use keen_trader.Base.Map.{lookup, insert}
use keen_trader.Base.IdMap.{lookup_id, lookup-insert_id, lookup-insert_id_self}
use keen_trader.Base.Decimal.{decimal}
use keen_trader.Objects.Constant.{Status}
use keen_trader.Objects.Market.{ContractData}
use keen_trader.Objects.Trading.{OrderData, OrderRequest}
use keen_trader.Objects.Names.{
  EnumNames, is_active, is_active_status, create_order_data, order_post_init,
}
use keen_trader.Oms.Engine.{OmsEngine, OmsEvent, get_order}
use keen_trader.Oms.Engine
use keen_trader.Oms.History.{step_order}
use keen_trader.Oms.Consistent.{IsConsistent, step-IsConsistent}
use keen_trader.Exchanges.Base.{on_order, write_log, event_order}
use keen_trader.Exchanges.Received.{received, once}
use keen_trader.Exchanges.Json.{JsonApi}
use keen_trader.Exchanges.Binance.State.{
  BinanceLinearExchange, Env, M, Reply, Output, continue, on_send_order, on_cancel_order, ◌>>=◌,
  gets, pure, modify, emit, emit_all, or_throw, if_found, log, events_of,
}
use keen_trader.Exchanges.Binance.Linear
use keen_trader.Exchanges.Binance.Trade
use keen_trader.Exchanges.Binance.Trade.{new_prefix}
use keen_trader.Exchanges.Binance.Keeps.{Keeps-subscribe, Keeps-connect}
use keen_trader.Exchanges.Binance.Stable.{IsStable, run-Keeps}
use keen_trader.Exchanges.Binance.Run.{Input, run}

-- The request `n` was made for the order `o`.
pub record HasRequest (n : ℕ) (o : OrderData) (x : BinanceLinearExchange) : Type 0 where
  pub made : n ≤ x.trade_api.reqid
  pub called : lookup_id n x.trade_api.reqid_callback_map ≡ some on_send_order
  pub mapped : lookup_id n x.trade_api.reqid_order_map ≡ some o

HasRequest-IsStable : (n : ℕ) (o : OrderData) → IsStable (HasRequest n o)
unfolding Trade.next_orderid Trade.register_order Trade.new_request ◌>>=◌ modify gets pure
HasRequest-IsStable n o = record {
  orders = λ k q x h. record { made = h.made; called = h.called; mapped = h.mapped };
  contracts = λ c x h. record { made = h.made; called = h.called; mapped = h.mapped };
  settings = λ m l x h. record { made = h.made; called = h.called; mapped = h.mapped };
  rest = λ f x h. record { made = h.made; called = h.called; mapped = h.mapped };
  connects =
      Keeps-connect (λ f x i. record { made = i.made; called = i.called; mapped = i.mapped })
        (λ x i. record { made = i.made; called = i.called; mapped = i.mapped })
        (λ k q s x i. record { made = i.made; called = i.called; mapped = i.mapped })
        (λ h x i. record { made = i.made; called = i.called; mapped = i.mapped });
  ticks = λ k t x h. record { made = h.made; called = h.called; mapped = h.mapped };
  subscribes =
      Keeps-subscribe (λ f x h. record { made = h.made; called = h.called; mapped = h.mapped });
  ids = λ env. record {
    kept = λ x h. record { made = h.made; called = h.called; mapped = h.mapped };
  };
  registers = λ env q. record {
    kept = λ x h.
        let t = x.trade_api in
        record {
          made = omega (arith, h.made);
          called = ground (
            arith,
            h.made,
            h.called,
            lookup-insert_id (t.reqid + 1) n on_send_order t.reqid_callback_map,
          );
          mapped =
              ground
                (arith, h.made, h.mapped, lookup-insert_id (t.reqid + 1) n q t.reqid_order_map);
        };
  };
  cancels = λ env. record {
    kept = λ x h.
        let t = x.trade_api in
        record {
          made = omega (arith, h.made);
          called = ground (
            arith,
            h.made,
            h.called,
            lookup-insert_id (t.reqid + 1) n on_cancel_order t.reqid_callback_map,
          );
          mapped = h.mapped;
        };
  };
}

-- What holds of the state and the result of a call that gives something.
record Ends {A : Type 0} (P : BinanceLinearExchange → Type 0) (m : M A) : Type 0 where
  ended : (x : BinanceLinearExchange) (a : A) → (m x).0 ≡ some a → P (m x).1

module _ {A B : Type 0} {P : BinanceLinearExchange → Type 0} where
  Ends-continue :
      (f : A → M B) (r : Reply A) (b : B)
      → ((a : A) → Ends P (f a))
      → (continue f r).0 ≡ some b
      → P (continue f r).1
  Ends-continue f (none, x, os) b k e = cc
  Ends-continue f (some a, x, os) b k e = (k a).ended x b e

  Ends-bind : (m : M A) (f : A → M B) → ((a : A) → Ends P (f a)) → Ends P (m >>= f)
  unfolding ◌>>=◌
  Ends-bind m f k = record { ended = λ x b e. Ends-continue f (m x) b k e }

-- The last request is the one for the order.
abbrev pub HasLast : OrderData → BinanceLinearExchange → Type 0
HasLast o x = HasRequest x.trade_api.reqid o x

Ends-register :
    {B : Type 0} (env : Env) (o : OrderData) (out : ℕ → Output) (b : B)
    → Ends (HasLast o) (Trade.register_order env o >>= λ n. emit (out n) >>= λ _. pure b)
unfolding Trade.register_order Trade.new_request ◌>>=◌ modify gets pure emit
Ends-register env o out b = record {
  ended = λ x a e.
      let t = x.trade_api in
      record {
        made = omega arith;
        called = lookup-insert_id_self (t.reqid + 1) on_send_order t.reqid_callback_map;
        mapped = lookup-insert_id_self (t.reqid + 1) o t.reqid_order_map;
      };
}

Ends-place :
    (env : Env) (req : OrderRequest) (c : ContractData) (o : OrderData)
    → Ends (HasLast o) (Trade.place_order env req c o)
unfolding Trade.place_order
Ends-place env req c o = search (Ends-bind, Ends-register) depth 24

-- The order that `send_order` submits.
abbrev pub submitted : Env → OrderRequest → BinanceLinearExchange → OrderData
submitted env req x =
    create_order_data env.names req
      (new_prefix env x.trade_api.order_prefix ++ decimal (x.trade_api.order_count + 1))
      x.base.exchange_name

send-HasLast :
    (env : Env) (req : OrderRequest) (c : ContractData) (x : BinanceLinearExchange) (id : AString)
    → Linear.get_contract_by_symbol x req.symbol ≡ some c
    → (Trade.send_order env req x).0 ≡ some id
    → HasLast (submitted env req x) (Trade.send_order env req x).1
unfolding Trade.send_order Trade.send_known_order Trade.next_orderid ◌>>=◌ modify gets if_found
send-HasLast env req c x id known e = rw known (
    (Ends-place env req c (submitted env req x)).ended (Trade.next_orderid env x).1 id
      (rw known at e))

submitted_keyed :
    (env : Env) (req : OrderRequest) (x : BinanceLinearExchange)
    → is_empty (submitted env req x).kt_orderid ≡ false
unfolding create_order_data order_post_init
submitted_keyed env req x = nonempty _ _

abbrev pub rejected : OrderData → OrderData
rejected o = record o { status = Status.rejected }

-- A consistent engine takes an order that is not active out of its active ones.
pub inactive_order :
    (names : EnumNames) (o : OrderData) (s : OmsEngine)
    → IsConsistent s
    → is_active o ≡ false
    → let t = Engine.step names (OmsEvent.order o) s in
      (lookup o.kt_orderid t.orders ≡ some o) × (lookup o.kt_orderid t.active_orders ≡ none)
inactive_order names o s consistent inactive =
    let event = OmsEvent.order o in
    let stored : lookup o.kt_orderid (Engine.step names event s).orders ≡ some o =
      step_order names event s o.kt_orderid ∙ (rw (str_eq_refl o.kt_orderid)) in
    let active = (step-IsConsistent names event s consistent).orders_match o.kt_orderid in
    let none_left : keep_if is_active (some o) ≡ none = rw inactive in
    (stored, active ∙ ap (keep_if is_active) stored ∙ none_left)

module _ {J : Type 0} (api : JsonApi J) where
  -- An answer with an error for the request `n`.
  pub record IsError (n : ℕ) (j : J) : Type 0 where
    pub number : api.value_int j (codes "id") (pos 0) ≡ some (pos n)
    pub failed : api.contains j (codes "error") ≡ true
    pub code : ℤ
    pub code_read : api.value_int (api.at j (codes "error")) (codes "code") (pos 0) ≡ some code
    pub msg : AString
    pub msg_read : api.value_text (api.at j (codes "error")) (codes "msg") [] ≡ some msg

  answer_rejects :
      (n : ℕ) (o : OrderData) (j : J) (x : BinanceLinearExchange)
      → HasRequest n o x
      → IsError n j
      → is_empty o.kt_orderid ≡ false
      → let (r, y, os) = Trade.on_packet api j x in
        (y ≡ record x { orders = insert o.orderid (rejected o) x.orders })
        × (received (events_of os) ≡ OmsEvent.order (rejected o) ∷ [])
  unfolding Trade.on_packet Linear.on_order ◌>>=◌ modify gets if_found or_throw log emit_all
      received on_order write_log
  answer_rejects n o j x h e keyed =
      rw (e.number, h.called, e.failed, e.code_read, e.msg_read, e.number, h.mapped)
        (refl, once event_order o.kt_orderid (OmsEvent.order (rejected o)) keyed)

  -- An order that was sent stays known by the number of its request, the last one made then. Whatever calls come in between, an error answer with that number puts the order as rejected in the client's table, changes nothing else of the client, and reaches the order management engine as one event; a consistent engine then has the order as rejected, and not as active.
  pub run_rejects :
      (env : Env) (req : OrderRequest) (c : ContractData) (x : BinanceLinearExchange) (id : AString)
      (is : List (Env × Input J)) (j : J) (names : EnumNames) (s : OmsEngine)
      → Linear.get_contract_by_symbol x req.symbol ≡ some c
      → (Trade.send_order env req x).0 ≡ some id
      → IsError (Trade.send_order env req x).1.trade_api.reqid j
      → IsConsistent s
      → let o = rejected (submitted env req x) in
        let z = run api is (Trade.send_order env req x).1 in
        let (r, w, os) = Trade.on_packet api j z in
        let t = Engine.run names (received (events_of os)) s in
        (w ≡ record z { orders = insert o.orderid o z.orders })
        × (received (events_of os) ≡ OmsEvent.order o ∷ [])
        × (get_order t o.kt_orderid ≡ some o)
        × (lookup o.kt_orderid t.active_orders ≡ none)
  unfolding Engine.run get_order is_active_status
  run_rejects env req c x id is j names s known sent error consistent =
      let o = submitted env req x in
      let y = (Trade.send_order env req x).1 in
      let kept =
        run-Keeps (HasRequest-IsStable y.trade_api.reqid o) api is y
          (send-HasLast env req c x id known sent) in
      let done = answer_rejects y.trade_api.reqid o j _ kept error (submitted_keyed env req x) in
      let oms = inactive_order names (rejected o) s consistent refl in
      (done.0, done.1, rw done.1 oms.0, rw done.1 oms.1)
