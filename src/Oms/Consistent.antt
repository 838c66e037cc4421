-- ===== src/Oms/Consistent.antt =====
-- core/engine/engine.cpp: the active tables hold exactly the active entries of the full ones.
use keen_trader.Base.{
  ◌≡◌, refl, ◌∙◌, Bool, true, false, Option, some, List, [], ◌∷◌, if◌then◌else◌, keep_if,
  Bool-cases, Option-cases, inl, inr,
}
use keen_trader.Base.Text.{AString, str_eq, is_empty, eq_of_str_eq}
use keen_trader.Base.Lists.{select, All}
use keen_trader.Base.Map.{
  Map, lookup, insert, erase, contains, map_values, lookup-insert, lookup-erase, All-insert,
  All-erase,
}
use keen_trader.Objects.Trading.{OrderData, QuoteData}
use keen_trader.Objects.Names.{EnumNames, is_active, quote_is_active}
use keen_trader.Converter.Dispatch.{OffsetConverter}
use keen_trader.Oms.Engine.{
  OmsEngine, OmsEvent, init, with_converter, process_quote_event, store_order, step, run,
  get_all_active_orders, tick, order, trade, position, account, contract, quote, order_request,
}

keep_if_if :
    {V : Type 0} (p : V → Bool) (b : Bool) (v : V) (o : Option V)
    → (if b then keep_if p (some v) else keep_if p o) ≡ keep_if p (if b then some v else o)
keep_if_if p true v o = refl
keep_if_if p false v o = refl

-- What an active table becomes when an entry `v` arrives at the key `k`.
module _ {V : Type 0} (active : V → Bool) where
  abbrev updated : AString → V → Map V → Map V
  updated k v m = if active v then insert k v m else if contains k m then erase k m else m

  lookup-updated :
      (k j : AString) (v : V) (m : Map V)
      → lookup j (updated k v m) ≡ (if str_eq k j then keep_if active (some v) else lookup j m)
  lookup-updated k j v m = elim (Bool-cases (active v)) [
    | inl on ↦ rw on (lookup-insert k j v m)
    | inr off ↦ elim (Option-cases (lookup k m)) [
      | inl absent ↦
          rw (off, absent)
            (elim (Bool-cases (str_eq k j)) [
              | inl same ↦ rw (same, ← eq_of_str_eq k j same) absent
              | inr other ↦ rw other
            ])
      | inr (w, present) ↦ rw (off, present) (lookup-erase k j m)
    ]
  ]

  updated-All :
      (k : AString) (v : V) (m : Map V)
      → All (λ w. active w ≡ true) (map_values m)
      → All (λ w. active w ≡ true) (map_values (updated k v m))
  updated-All k v m h = elim (Bool-cases (active v)) [
    | inl on ↦ rw on (All-insert (λ w. active w ≡ true) k v m on h)
    | inr off ↦ elim (Bool-cases (contains k m)) [
      | inl present ↦ rw (off, present) (All-erase (λ w. active w ≡ true) k m h)
      | inr absent ↦ rw (off, absent) h
    ]
  ]

-- The active tables against the full ones.
pub record IsConsistent (s : OmsEngine) : Type 0 where
  pub orders_match :
      (k : AString) → lookup k s.active_orders ≡ keep_if is_active (lookup k s.orders)
  pub quotes_match :
      (k : AString) → lookup k s.active_quotes ≡ keep_if quote_is_active (lookup k s.quotes)
  pub orders_active : All (λ o. is_active o ≡ true) (map_values s.active_orders)
  pub quotes_active : All (λ q. quote_is_active q ≡ true) (map_values s.active_quotes)

with_converter-IsConsistent :
    (n : AString) (f : OffsetConverter → OffsetConverter) (s : OmsEngine)
    → IsConsistent s
    → IsConsistent (with_converter n f s)
unfolding with_converter
with_converter-IsConsistent n f s h = elim (Option-cases (lookup n s.offset_converters)) [
  | inl absent ↦ rw (absent, with_converter) h
  | inr (c, present) ↦
      rw (present, with_converter)
        (record {
          orders_match = h.orders_match;
          quotes_match = h.quotes_match;
          orders_active = h.orders_active;
          quotes_active = h.quotes_active;
        })
]

-- Handlers that touch neither orders nor quotes.
keep :
    {s t : OmsEngine}
    → t.orders ≡ s.orders
    → t.quotes ≡ s.quotes
    → t.active_orders ≡ s.active_orders
    → t.active_quotes ≡ s.active_quotes
    → IsConsistent s
    → IsConsistent t
keep o q a b h = record {
  orders_match = λ k. rw (a, o) (h.orders_match k);
  quotes_match = λ k. rw (b, q) (h.quotes_match k);
  orders_active = rw a h.orders_active;
  quotes_active = rw b h.quotes_active;
}

store_order-IsConsistent :
    (o : OrderData) (s : OmsEngine) → IsConsistent s → IsConsistent (store_order o s)
unfolding store_order
store_order-IsConsistent o s h = record {
  orders_match = λ k.
      lookup-updated is_active o.kt_orderid k o s.active_orders
      ∙ rw (lookup-insert o.kt_orderid k o s.orders, h.orders_match k)
          (keep_if_if is_active (str_eq o.kt_orderid k) o (lookup k s.orders));
  quotes_match = h.quotes_match;
  orders_active = updated-All is_active o.kt_orderid o s.active_orders h.orders_active;
  quotes_active = h.quotes_active;
}

process_quote_event-IsConsistent :
    (q : QuoteData) (s : OmsEngine) → IsConsistent s → IsConsistent (process_quote_event q s)
unfolding process_quote_event
process_quote_event-IsConsistent q s h = record {
  orders_match = h.orders_match;
  quotes_match = λ k.
      lookup-updated quote_is_active q.kt_quoteid k q s.active_quotes
      ∙ rw (lookup-insert q.kt_quoteid k q s.quotes, h.quotes_match k)
          (keep_if_if quote_is_active (str_eq q.kt_quoteid k) q (lookup k s.quotes));
  orders_active = h.orders_active;
  quotes_active = updated-All quote_is_active q.kt_quoteid q s.active_quotes h.quotes_active;
}

module _ (names : EnumNames) where
  -- Every event keeps the tables consistent: an order, or a quote, is in the active table exactly when its latest update is active, and is then that update.
  pub step-IsConsistent :
      (e : OmsEvent) (s : OmsEngine) → IsConsistent s → IsConsistent (step names e s)
  unfolding step
  step-IsConsistent (tick d) s h = keep refl refl refl refl h
  step-IsConsistent (order d) s h =
      with_converter-IsConsistent _ _ _ (store_order-IsConsistent d s h)
  step-IsConsistent (trade d) s h = with_converter-IsConsistent _ _ _ (keep refl refl refl refl h)
  step-IsConsistent (position d) s h =
      with_converter-IsConsistent _ _ _ (keep refl refl refl refl h)
  step-IsConsistent (account d) s h = keep refl refl refl refl h
  step-IsConsistent (contract d) s h = keep refl refl refl refl h
  step-IsConsistent (quote d) s h = process_quote_event-IsConsistent d s h
  step-IsConsistent (order_request req kt_orderid name) s h = with_converter-IsConsistent _ _ _ h

  pub run-IsConsistent :
      (es : List OmsEvent) (s : OmsEngine) → IsConsistent s → IsConsistent (run names es s)
  unfolding run
  run-IsConsistent [] s h = h
  run-IsConsistent (e ∷ es) s h = run-IsConsistent es (step names e s) (step-IsConsistent e s h)

pub init-IsConsistent : IsConsistent init
unfolding lookup
init-IsConsistent = record {
  orders_match = λ k. refl;
  quotes_match = λ k. refl;
  orders_active = tt;
  quotes_active = tt;
}

select-All :
    (p : OrderData → Bool) (os : List OrderData)
    → All (λ o. is_active o ≡ true) os
    → All (λ o. (is_active o ≡ true) × (p o ≡ true)) (select p os)
select-All p [] h = tt
select-All p (o ∷ os) h = elim (Bool-cases (p o)) [
  | inl fits ↦ rw fits ((h.0, fits), select-All p os h.1)
  | inr other ↦ rw other (select-All p os h.1)
]

-- With a symbol given, every order that the query lists is active and of that symbol, in a consistent state.
pub get_all_active_orders-All :
    (s : OmsEngine) (kt_symbol : AString)
    → IsConsistent s
    → is_empty kt_symbol ≡ false
    → All
        (λ o. (is_active o ≡ true) × (str_eq o.kt_symbol kt_symbol ≡ true))
        (get_all_active_orders s kt_symbol)
unfolding get_all_active_orders
get_all_active_orders-All s kt_symbol h e =
    rw e
      (select-All (λ o. str_eq o.kt_symbol kt_symbol) (map_values s.active_orders) h.orders_active)
