-- ===== src/Cta/Strategies.antt =====
-- app/cta_strategy/engine.cpp: ticks, and the life of a strategy. `none` is a strategy that is not
-- there, an exception that nothing catches, or a price step of zero.
use keen_trader.Base.{
  ℕ, ◌+◌, Bool, true, false, not, Option, none, some, List, [], ◌∷◌, ◌++◌, if◌then◌else◌, ◌==◌,
}
use keen_trader.Base.Text.{AString, dot, has_byte}
use keen_trader.Base.Map.{Map, AStringSet, lookup, insert, erase, contains, map_keys, member}
use keen_trader.Objects.Market.{TickData, ContractData}
use keen_trader.Objects.Trading.{OrderRequest}
use keen_trader.Objects.Names.{EnumNames, subscribe_post_init}
use keen_trader.Oms.Engine.{get_contract}
use keen_trader.Cta.Objects.{
  CtaEngine, new_strategy, Output, on_init, on_start, on_stop, on_tick, subscribe, strategy_event,
  log, save_setting, duplicate_name, class_not_found, no_exchange_suffix, already_inited,
  starts_init, subscription_failed, init_completed, not_inited, already_started, removal_failed,
  update_object, or_empty, orderids_of,
}
use keen_trader.Cta.StopOrders.{check_stop_order}
use keen_trader.Cta.Orders.{◌then_do◌, cancel_all}

-- The pointer in `strategies[strategy_name]`, used.
unfoldable pub with_strategy :
    AString
    → (ℕ → CtaEngine → Option (CtaEngine × List Output))
    → CtaEngine
    → Option (CtaEngine × List Output)
with_strategy name f s = elim (lookup name s.strategies) [ none ↦ none | some a ↦ f a s ]

unfoldable pub tick_each : TickData → List ℕ → CtaEngine → List Output
tick_each tick [] s = []
tick_each tick (a ∷ later) s =
    if (s.objects a).inited then on_tick a tick ∷ tick_each tick later s else tick_each tick later s

-- Each address of a list of strategies but one: `std::list::remove`.
unfoldable pub without : ℕ → List ℕ → List ℕ
without a [] = []
without a (b ∷ bs) = if b == a then without a bs else b ∷ without a bs

unfoldable pub erase_all : {V : Type 0} → AStringSet → Map V → Map V
erase_all [] m = m
erase_all (k ∷ ks) m = erase_all ks (erase k m)

-- The instance of a class that is made under a name. A library makes instances of the class that it gives its name for.
unfoldable pub add_strategy :
    AString → AString → AString → AString → CtaEngine → CtaEngine × List Output
add_strategy class_name strategy_name kt_symbol setting s =
    if contains strategy_name s.strategies
    then (s, log (duplicate_name strategy_name) ∷ [])
    else if not (member class_name s.classes)
    then (s, log (class_not_found class_name) ∷ [])
    else if not (has_byte dot kt_symbol)
    then (s, log (no_exchange_suffix strategy_name) ∷ [])
    else (
      record s {
        objects = λ b.
            if b == s.allocated
            then new_strategy class_name strategy_name kt_symbol
            else s.objects b;
        allocated = s.allocated + 1;
        strategies = insert strategy_name s.allocated s.strategies;
        symbol_strategy_map =
            insert kt_symbol (or_empty (lookup kt_symbol s.symbol_strategy_map) ++ s.allocated ∷ [])
              s.symbol_strategy_map;
        strategy_setting =
            insert strategy_name
              (record { class_name = class_name; kt_symbol = kt_symbol; setting = setting })
              s.strategy_setting;
      },
      save_setting ∷ strategy_event s.allocated ∷ [],
    )

-- `strategies.remove(strategy)` and what follows.
unfoldable pub forget : AString → ℕ → CtaEngine → CtaEngine
unfolding without erase_all
forget name a s = record s {
  strategy_setting = erase name s.strategy_setting;
  symbol_strategy_map =
      insert (s.objects a).kt_symbol
        (without a (or_empty (lookup (s.objects a).kt_symbol s.symbol_strategy_map)))
        s.symbol_strategy_map;
  orderid_strategy_map = erase_all (orderids_of name s) s.orderid_strategy_map;
  strategy_orderid_map = erase name s.strategy_orderid_map;
  strategies = erase name s.strategies;
}

-- With what `remove_strategy` returns.
unfoldable pub remove_strategy : AString → CtaEngine → Option (Bool × CtaEngine × List Output)
unfolding forget
remove_strategy name s = elim (lookup name s.strategies) [
  | none ↦ none
  | some a ↦
      if (s.objects a).trading
      then some (false, s, log (removal_failed name) ∷ [])
      else some (
        true,
        forget name a s,
        if contains name s.strategy_setting then save_setting ∷ [] else [],
      )
]

unfoldable pub start_strategy : AString → CtaEngine → Option (CtaEngine × List Output)
unfolding with_strategy update_object
start_strategy name = with_strategy name (λ a s.
    if not (s.objects a).inited
    then some (s, log (not_inited name) ∷ [])
    else if (s.objects a).trading
    then some (s, log (already_started name) ∷ [])
    else some
        (update_object a (λ t. record t { trading = true }) s, on_start a ∷ strategy_event a ∷ []))

module _ (names : EnumNames) where
  unfoldable pub subscribe_to : Option ContractData → AString → List Output
  unfolding subscribe_post_init
  subscribe_to none kt_symbol = log (subscription_failed kt_symbol) ∷ []
  subscribe_to (some contract) kt_symbol =
      subscribe
        (subscribe_post_init names
          (record { symbol = contract.symbol; exchange = contract.exchange; kt_symbol = [] }))
        contract.exchange_name
      ∷ []

  unfoldable pub init_strategy : AString → CtaEngine → Option (CtaEngine × List Output)
  unfolding with_strategy update_object subscribe_to
  init_strategy name = with_strategy name (λ a s.
      if (s.objects a).inited
      then some (s, log (already_inited name) ∷ [])
      else let kt_symbol = (s.objects a).kt_symbol in
        some (
          update_object a (λ t. record t { inited = true }) s,
          log (starts_init name) ∷ on_init a ∷ subscribe_to (get_contract s.oms kt_symbol) kt_symbol
              ++ strategy_event a ∷ log (init_completed name) ∷ [],
        ))

  -- A strategy that trades.
  unfoldable pub stop_trading : ℕ → CtaEngine → Option (CtaEngine × List Output)
  unfolding update_object cancel_all ◌then_do◌
  stop_trading a s =
      some (update_object a (λ t. record t { trading = false }) s, on_stop a ∷ [])
      then_do cancel_all names a
      then_do (λ s'. some (s', strategy_event a ∷ []))

  unfoldable pub stop_strategy : AString → CtaEngine → Option (CtaEngine × List Output)
  unfolding with_strategy stop_trading
  stop_strategy name =
      with_strategy name
        (λ a s. if not (s.objects a).trading then some (s, []) else stop_trading a s)

  -- The loops over all strategies.
  unfoldable pub each_strategy :
      (AString → CtaEngine → Option (CtaEngine × List Output))
      → List AString
      → CtaEngine
      → Option (CtaEngine × List Output)
  unfolding ◌then_do◌
  each_strategy f [] s = some (s, [])
  each_strategy f (name ∷ later) s = f name s then_do each_strategy f later

  unfoldable pub init_all_strategies : CtaEngine → Option (CtaEngine × List Output)
  unfolding each_strategy init_strategy
  init_all_strategies s = each_strategy init_strategy (map_keys s.strategies) s

  unfoldable pub start_all_strategies : CtaEngine → Option (CtaEngine × List Output)
  unfolding each_strategy start_strategy
  start_all_strategies s = each_strategy start_strategy (map_keys s.strategies) s

  unfoldable pub stop_all_strategies : CtaEngine → Option (CtaEngine × List Output)
  unfolding each_strategy stop_strategy
  stop_all_strategies s = each_strategy stop_strategy (map_keys s.strategies) s

module _ (names : EnumNames) (reply : ℕ → OrderRequest → AString → AString) (one : ℕ) where
  unfoldable pub process_tick_event : TickData → CtaEngine → Option (CtaEngine × List Output)
  unfolding check_stop_order tick_each ◌then_do◌
  process_tick_event tick s =
      let strategies = or_empty (lookup tick.kt_symbol s.symbol_strategy_map) in
      let s' = record s {
        symbol_strategy_map = insert tick.kt_symbol strategies s.symbol_strategy_map;
      } in
      elim strategies [
        | [] ↦ some (s', [])
        | a ∷ later ↦
            check_stop_order names reply one tick s'
            then_do (λ s''. some (s'', tick_each tick (a ∷ later) s''))
      ]
