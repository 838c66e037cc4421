-- ===== src/Exchanges/Binance/Reconnect.antt =====
-- core/exchange/binance_linear_exchange.cpp: what the market data client does when its socket connects
-- again.
use keen_trader.Base.{
  ◌≡◌, ◌+◌, inl, inr, refl, Bool, Bool-cases, Option-cases, true, none, some, is_some, List, [],
  ◌∷◌, map, arith,
}
use keen_trader.Base.Text.{AString, codes, str_eq_refl}
use keen_trader.Base.Lists.{All, All-map}
use keen_trader.Base.Map.{Map, lookup, insert, map_values, lookup-insert, All-insert}
use keen_trader.Objects.Market.{TickData, ContractData}
use keen_trader.Objects.Trading.{SubscribeRequest}
use keen_trader.Exchanges.Base.{write_log}
use keen_trader.Exchanges.Json.{JsonApi}
use keen_trader.Exchanges.Binance.State.{
  BinanceLinearExchange, BinanceMdApi, Env, event, ◌>>=◌, gets, pure, modify, emit, emit_all,
  if_found, skip, log, for_each,
}
use keen_trader.Exchanges.Binance.Linear
use keen_trader.Exchanges.Binance.Linear.{new_exchange}
use keen_trader.Exchanges.Binance.Trade
use keen_trader.Exchanges.Binance.Md
use keen_trader.Exchanges.Keeps.{Keeps}
use keen_trader.Exchanges.Binance.Keeps.{Keeps-connect}
use keen_trader.Exchanges.Binance.Stable.{IsStable, run-Keeps}
use keen_trader.Exchanges.Binance.Run.{Input, run}

abbrev HasKey {ℓ} : {V : Type ℓ} → AString → Map V → Type 0
HasKey k m = is_some (lookup k m) ≡ true

HasKey-insert {ℓ} :
    {V : Type ℓ} (k j : AString) (v : V) (m : Map V) → HasKey j m → HasKey j (insert k v m)
HasKey-insert k j v m h = ground (arith, lookup-insert k j v m)

HasKey-insert_self {ℓ} : {V : Type ℓ} (k : AString) (v : V) (m : Map V) → HasKey k (insert k v m)
HasKey-insert_self k v m = ground (arith, lookup-insert k k v m, str_eq_refl k)

-- A subscription has its contract and its tick.
abbrev HasTick : BinanceLinearExchange → SubscribeRequest → Type 0
HasTick x req = HasKey req.symbol x.md_api.ticks × HasKey req.symbol x.symbol_contract_map

pub record IsCovered (x : BinanceLinearExchange) : Type 0 where
  pub covered : All (HasTick x) (map_values x.md_api.subscribed)

-- A new subscription gets both.
add-IsCovered :
    (x : BinanceLinearExchange) (req : SubscribeRequest) (t : TickData) (m : BinanceMdApi)
    → HasKey req.symbol x.symbol_contract_map
    → IsCovered x
    → IsCovered (record x {
      md_api = record m {
        subscribed = insert req.symbol req x.md_api.subscribed;
        ticks = insert req.symbol t x.md_api.ticks;
      };
    })
add-IsCovered x req t m known h = record {
  covered =
      All-insert _ req.symbol req x.md_api.subscribed
        (HasKey-insert_self req.symbol t x.md_api.ticks, known)
        (All-map _ (λ q p. (HasKey-insert req.symbol q.symbol t x.md_api.ticks p.0, p.1))
          h.covered);
}

known-HasKey : {V : Type 0} (k : AString) (v : V) (m : Map V) → lookup k m ≡ some v → HasKey k m
known-HasKey k v m e = rw e

subscribe-IsCovered : (env : Env) (req : SubscribeRequest) → Keeps IsCovered (Md.subscribe env req)
unfolding Md.subscribe ◌>>=◌ gets modify emit if_found skip log emit_all
    Linear.get_contract_by_symbol
subscribe-IsCovered env req = record {
  kept = λ x h. elim (Option-cases (lookup req.symbol x.symbol_contract_map)) [
    | inl unknown ↦ rw unknown h
    | inr (c, known) ↦ elim (Bool-cases (is_some (lookup req.symbol x.md_api.ticks))) [
      | inl old ↦ rw (known, old) h
      | inr new ↦
          rw (known, new)
            (add-IsCovered x req _ (record x.md_api { reqid = x.md_api.reqid + 1 })
              (known-HasKey req.symbol c x.symbol_contract_map known) h)
    ]
  ];
}

IsCovered-IsStable : IsStable IsCovered
unfolding Trade.next_orderid Trade.register_order Trade.new_request ◌>>=◌ modify gets pure
IsCovered-IsStable = record {
  orders = λ k o x h. record { covered = h.covered };
  contracts = λ c x h. record {
    covered =
        All-map _ (λ q p. (p.0, HasKey-insert c.symbol q.symbol c x.symbol_contract_map p.1))
          h.covered;
  };
  settings = λ m l x h. record { covered = h.covered };
  rest = λ f x h. record { covered = h.covered };
  connects =
      Keeps-connect (λ f x i. record { covered = i.covered })
        (λ x i. record { covered = i.covered }) (λ k q s x i. record { covered = i.covered })
        (λ h x i. record { covered = i.covered });
  ticks = λ k t x h. record {
    covered = All-map _ (λ q p. (HasKey-insert k q.symbol t x.md_api.ticks p.0, p.1)) h.covered;
  };
  subscribes = subscribe-IsCovered;
  ids = λ env. record { kept = λ x h. record { covered = h.covered } };
  registers = λ env o. record { kept = λ x h. record { covered = h.covered } };
  cancels = λ env. record { kept = λ x h. record { covered = h.covered } };
}

subscribe_again :
    (env : Env) (req : SubscribeRequest) (x : BinanceLinearExchange)
    → HasTick x req
    → Md.subscribe env req x ≡ (some tt, x, [])
unfolding Md.subscribe ◌>>=◌ gets if_found skip Linear.get_contract_by_symbol
subscribe_again env req x h = elim (Option-cases (lookup req.symbol x.symbol_contract_map)) [
  | inl unknown ↦ let wrong : is_some {A = ContractData} none ≡ true = (rw unknown at h.1) in cc
  | inr (c, known) ↦ rw (known, h.0)
]

subscribe-All_again :
    (env : Env) (reqs : List SubscribeRequest) (x : BinanceLinearExchange)
    → All (HasTick x) reqs
    → for_each reqs (Md.subscribe env) x ≡ (some tt, x, [])
unfolding for_each ◌>>=◌ skip
subscribe-All_again env [] x h = refl
subscribe-All_again env (req ∷ reqs) x h =
    rw (subscribe_again env req x h.0) (subscribe-All_again env reqs x h.1)

-- After any history of a new client, whatever was subscribed in it, a connection of the market data socket sends no subscription and changes nothing: each symbol has its tick, which counts as subscribed. All that happens is one log.
pub run_never_resubscribes :
    {J : Type 0} (api : JsonApi J) (env : Env) (is : List (Env × Input J)) (hedge_mode : Bool)
    → let x = run api is (new_exchange hedge_mode) in
      Md.on_connected env x
      ≡ (some tt, x, map event (write_log x.base.exchange_name (codes "MD API connected")))
unfolding Md.on_connected ◌>>=◌ gets log emit_all write_log
run_never_resubscribes api env is hedge_mode =
    let x = run api is (new_exchange hedge_mode) in
    let h =
      run-Keeps IsCovered-IsStable api is (new_exchange hedge_mode)
        (unfold new_exchange in record { covered = tt }) in
    rw (subscribe-All_again env (map_values x.md_api.subscribed) x h.covered)
