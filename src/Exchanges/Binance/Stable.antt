-- ===== src/Exchanges/Binance/Stable.antt =====
-- core/exchange/binance_linear_exchange.cpp: every call keeps a predicate that the few places which
-- change the state keep.
use keen_trader.Base.{inl, inr, Bool-cases, List, [], ◌∷◌}
use keen_trader.Base.Int.{ℤ, pos, leb_ℤ}
use keen_trader.Base.Text.{AString}
use keen_trader.Base.Map.{Map, insert}
use keen_trader.Objects.Constant.{PositionMode, Direction, OrderType}
use keen_trader.Objects.Market.{TickData, ContractData}
use keen_trader.Objects.Trading.{OrderData, OrderRequest, CancelRequest, SubscribeRequest}
use keen_trader.Exchanges.Crypto
use keen_trader.Exchanges.Json.{JsonApi}
use keen_trader.Exchanges.Binance.State.{
  BinanceLinearExchange, BinanceRestApi, BinanceMdApi, Env, M, ◌>>=◌, ◌>>◌,
}
use keen_trader.Exchanges.Binance.State
use keen_trader.Exchanges.Binance.Linear
use keen_trader.Exchanges.Binance.Trade
use keen_trader.Exchanges.Binance.Md
use keen_trader.Exchanges.Binance.User
use keen_trader.Exchanges.Binance.Rest
use keen_trader.Exchanges.Binance.Connect
use keen_trader.Exchanges.Binance.Run.{
  Input, handle, run, quiet, connect, close, subscribe, send_order, cancel_order, set_position_mode,
  set_leverage, timer, md_connected, md_packet, trade_packet, user_packet, user_disconnected,
  on_query_account, on_query_position, on_query_time, on_query_contract, on_query_order,
  on_start_user_stream,
}
use keen_trader.Exchanges.Keeps.{Keeps, keeps_rules, Keeps-modify, Keeps-bind, Keeps-pure}
use keen_trader.Exchanges.Binance.Keeps.{Keeps-log}

pub record IsStable (P : BinanceLinearExchange → Type 0) : Type 0 where
  pub orders :
      (k : AString) (o : OrderData) (x : BinanceLinearExchange)
      → P x
      → P (record x { orders = insert k o x.orders })
  pub contracts :
      (c : ContractData) (x : BinanceLinearExchange)
      → P x
      → P (record x {
        symbol_contract_map = insert c.symbol c x.symbol_contract_map;
        name_contract_map = insert c.name c x.name_contract_map;
      })
  pub settings :
      (m : PositionMode) (l : Map ℤ) (x : BinanceLinearExchange)
      → P x
      → P (record x { base = record x.base { position_mode = m; leverage_config = l } })
  pub rest :
      (f : BinanceRestApi → BinanceRestApi) (x : BinanceLinearExchange)
      → P x
      → P (Rest.with_rest f x)
  pub connects : (setting : Connect.Setting) → Keeps P (Connect.connect_with setting)
  pub ticks :
      (k : AString) (t : TickData) (x : BinanceLinearExchange)
      → P x
      → P (Md.with_md (λ m. record m { ticks = insert k t m.ticks }) x)
  pub subscribes : (env : Env) (req : SubscribeRequest) → Keeps P (Md.subscribe env req)
  pub ids : (env : Env) → Keeps P (Trade.next_orderid env)
  pub registers : (env : Env) (o : OrderData) → Keeps P (Trade.register_order env o)
  pub cancels : (env : Env) → Keeps P (Trade.new_request env State.on_cancel_order)

module _ {P : BinanceLinearExchange → Type 0} (stable : IsStable P) where
  pub Keeps-on_order : (o : OrderData) → Keeps P (Linear.on_order o)
  unfolding Linear.on_order
  Keeps-on_order o = search (keeps_rules, Keeps-modify _ (stable.orders o.orderid o))

  pub Keeps-on_contract : (c : ContractData) → Keeps P (Linear.on_contract c)
  unfolding Linear.on_contract
  Keeps-on_contract c = search (keeps_rules, Keeps-modify _ (stable.contracts c)) depth 24

  Keeps-params :
      (env : Env) (req : OrderRequest) (c : ContractData) (id : AString)
      → Keeps P (Trade.place_params env req c id)
  unfolding Trade.place_params
  Keeps-params env req c id = search keeps_rules depth 24

  pub Keeps-place :
      (env : Env) (req : OrderRequest) (c : ContractData) (o : OrderData)
      → Keeps P (Trade.place_order env req c o)
  unfolding Trade.place_order
  Keeps-place env req c o =
      search (keeps_rules, Keeps-params, Keeps-on_order, stable.registers) depth 24

  Keeps-send : (env : Env) (req : OrderRequest) → Keeps P (Trade.send_order env req)
  unfolding Trade.send_order Trade.send_known_order
  Keeps-send env req = search (keeps_rules, Keeps-log, Keeps-place, stable.ids) depth 24

  Keeps-cancel : (env : Env) (req : CancelRequest) → Keeps P (Trade.cancel_order env req)
  unfolding Trade.cancel_order Trade.cancel_known_order
  Keeps-cancel env req = search (keeps_rules, Keeps-log, stable.cancels) depth 24

  Keeps-base_mode : (m : PositionMode) → Keeps P (Linear.on_base (Crypto.set_position_mode m))
  unfolding Linear.on_base Crypto.set_position_mode
  Keeps-base_mode m = record { kept = λ x h. stable.settings m x.base.leverage_config x h }

  Keeps-base_leverage : (k : AString) (l : ℤ) → Keeps P (Linear.on_base (Crypto.set_leverage k l))
  unfolding Linear.on_base Crypto.set_leverage
  Keeps-base_leverage k l = record {
    kept = λ x h. elim (Bool-cases (leb_ℤ l (pos 0))) [
      | inl bad ↦ rw bad h
      | inr good ↦
          rw good (stable.settings x.base.position_mode (insert k l x.base.leverage_config) x h)
    ];
  }

  Keeps-mode : (m : PositionMode) → Keeps P (Linear.set_position_mode m)
  unfolding Linear.set_position_mode
  Keeps-mode m = search (keeps_rules, Keeps-base_mode) depth 24

  Keeps-leverage : (k : AString) (l : ℤ) → Keeps P (Linear.set_leverage k l)
  unfolding Linear.set_leverage
  Keeps-leverage k l = search (keeps_rules, Keeps-base_leverage) depth 24

  Keeps-rest :
      (f : BinanceRestApi → BinanceRestApi)
      → Keeps {O = State.Output} P (State.modify (Rest.with_rest f))
  Keeps-rest f = Keeps-modify _ (stable.rest f)

  Keeps-close : Keeps P Connect.close
  unfolding Connect.close
  Keeps-close = search keeps_rules

  Keeps-timer : Keeps P Rest.process_timer_event
  unfolding Rest.process_timer_event
  Keeps-timer = search (keeps_rules, Keeps-rest) depth 24

  Keeps-md_connected : (env : Env) → Keeps P (Md.on_connected env)
  unfolding Md.on_connected
  Keeps-md_connected env = search (keeps_rules, Keeps-log, stable.subscribes env) depth 24

  module _ {J : Type 0} (api : JsonApi J) where
    Keeps-log_error : (what : AString) (j : J) → Keeps P (Trade.log_error api what j)
    unfolding Trade.log_error
    Keeps-log_error what j = search (keeps_rules, Keeps-log) depth 24

    Keeps-reject : (o : OrderData) → Keeps P (Trade.reject api o)
    unfolding Trade.reject
    Keeps-reject o = search (keeps_rules, Keeps-on_order) depth 24

    Keeps-run_callback : (c : State.Callback) (j : J) → Keeps P (Trade.run_callback api c j)
    unfolding Trade.run_callback
    Keeps-run_callback State.on_send_order j =
        search (keeps_rules, Keeps-log_error, Keeps-reject) depth 24
    Keeps-run_callback State.on_cancel_order j = search (keeps_rules, Keeps-log_error) depth 24

    Keeps-trade_packet : (j : J) → Keeps P (Trade.on_packet api j)
    unfolding Trade.on_packet
    Keeps-trade_packet j = search (keeps_rules, Keeps-run_callback) depth 24

    module _ (env : Env) where
      Keeps-store_tick : (k : AString) (t : TickData) → Keeps P (Md.store_tick env api k t)
      unfolding Md.store_tick
      Keeps-store_tick k t = search (keeps_rules, Keeps-modify _ (stable.ticks k t)) depth 24

      Keeps-on_stream : (stream : AString) (j : J) → Keeps P (Md.on_stream env api stream j)
      unfolding Md.on_stream
      Keeps-on_stream stream j = search (keeps_rules, Keeps-store_tick) depth 24

      Keeps-md_packet : (j : J) → Keeps P (Md.on_packet env api j)
      unfolding Md.on_packet
      Keeps-md_packet j = search (keeps_rules, Keeps-on_stream) depth 24

      Keeps-balance : (j : J) → Keeps P (User.on_balance env api j)
      unfolding User.on_balance
      Keeps-balance j = search keeps_rules depth 24

      Keeps-position : (j : J) → Keeps P (User.on_one_position env api j)
      unfolding User.on_one_position
      Keeps-position j = search keeps_rules depth 24

      Keeps-account : (j : J) → Keeps P (User.on_account env api j)
      unfolding User.on_account
      Keeps-account j = search (keeps_rules, Keeps-balance, Keeps-position) depth 24

      Keeps-fill : (j : J) (o : OrderData) (c : ContractData) → Keeps P (User.on_fill env api j o c)
      unfolding User.on_fill
      Keeps-fill j o c = search keeps_rules depth 24

      Keeps-order_of :
          (j ord : J) (t : OrderType) (c : ContractData) → Keeps P (User.order_of env api j ord t c)
      unfolding User.order_of
      Keeps-order_of j ord t c = search keeps_rules depth 24

      Keeps-order_with :
          (j ord : J) (t : OrderType) (c : ContractData)
          → Keeps P (User.order_with env api j ord t c)
      unfolding User.order_with
      Keeps-order_with j ord t c =
          search (keeps_rules, Keeps-order_of, Keeps-on_order, Keeps-fill) depth 24

      Keeps-order : (j : J) → Keeps P (User.on_order env api j)
      unfolding User.on_order
      Keeps-order j = search (keeps_rules, Keeps-order_with) depth 24

      Keeps-user_packet : (j : J) → Keeps P (User.on_packet env api j)
      unfolding User.on_packet User.dispatch
      Keeps-user_packet j = search (keeps_rules, Keeps-account, Keeps-order, Keeps-log) depth 24

      Keeps-query_account : (j : J) → Keeps P (Rest.on_query_account env api j)
      unfolding Rest.on_query_account
      Keeps-query_account j = search (keeps_rules, Keeps-log) depth 24

      Keeps-query_position : (j : J) → Keeps P (Rest.on_query_position env api j)
      unfolding Rest.on_query_position
      Keeps-query_position j = search (keeps_rules, Keeps-log) depth 24

      Keeps-query_time : (j : J) → Keeps P (Rest.on_query_time env api j)
      unfolding Rest.on_query_time
      Keeps-query_time j = search (keeps_rules, Keeps-log, Keeps-rest) depth 24

      Keeps-read_filter :
          (f : J) (known : Rest.Filters) → Keeps P (Rest.read_filter env api f known)
      unfolding Rest.read_filter
      Keeps-read_filter f known = search keeps_rules depth 24

      Keeps-read_filters :
          (fs : List J) (known : Rest.Filters) → Keeps P (Rest.read_filters env api fs known)
      unfolding Rest.read_filters
      Keeps-read_filters [] known = Keeps-pure known
      Keeps-read_filters (f ∷ fs) known =
          Keeps-bind (Rest.read_filter env api f known) (Rest.read_filters env api fs)
            (Keeps-read_filter f known) (Keeps-read_filters fs)

      Keeps-symbol : (j : J) → Keeps P (Rest.on_symbol env api j)
      unfolding Rest.on_symbol
      Keeps-symbol j = search (keeps_rules, Keeps-read_filters, Keeps-on_contract) depth 24

      Keeps-query_private : Keeps P (Rest.query_private env api)
      unfolding Rest.query_private
      Keeps-query_private = search keeps_rules depth 24

      Keeps-query_contract : (j : J) → Keeps P (Rest.on_query_contract env api j)
      unfolding Rest.on_query_contract
      Keeps-query_contract j =
          search (keeps_rules, Keeps-symbol, Keeps-query_private, Keeps-log) depth 24

      Keeps-open_order :
          (unset : Direction) (d : J) (t : OrderType) (c : ContractData)
          → Keeps P (Rest.order_with env api unset d t c)
      unfolding Rest.order_with
      Keeps-open_order unset d t c = search (keeps_rules, Keeps-on_order) depth 24

      Keeps-query_order :
          (unset : Direction) (j : J) → Keeps P (Rest.on_query_order env api unset j)
      unfolding Rest.on_query_order Rest.on_open_order
      Keeps-query_order unset j = search (keeps_rules, Keeps-open_order, Keeps-log) depth 24

      Keeps-user_stream : (j : J) → Keeps P (Rest.on_start_user_stream env api j)
      unfolding Rest.on_start_user_stream
      Keeps-user_stream j = search (keeps_rules, Keeps-rest) depth 24

      Keeps-disconnected : Keeps P User.on_disconnected
      unfolding User.on_disconnected
      Keeps-disconnected = search (keeps_rules, Keeps-log) depth 24

      Keeps-quiet : {A : Type 0} (m : M A) → Keeps P m → Keeps P (quiet m)
      Keeps-quiet m k = Keeps-bind m _ k (λ _. Keeps-pure _)

      pub Keeps-handle : (i : Input J) → Keeps P (handle api env i)
      unfolding handle
      Keeps-handle (connect setting) = Keeps-quiet _ (stable.connects setting)
      Keeps-handle close = Keeps-quiet _ Keeps-close
      Keeps-handle (subscribe req) = Keeps-quiet _ (stable.subscribes env req)
      Keeps-handle (send_order req) = Keeps-send env req
      Keeps-handle (cancel_order req) = Keeps-quiet _ (Keeps-cancel env req)
      Keeps-handle (set_position_mode m) = Keeps-quiet _ (Keeps-mode m)
      Keeps-handle (set_leverage s l) = Keeps-quiet _ (Keeps-leverage s l)
      Keeps-handle timer = Keeps-quiet _ Keeps-timer
      Keeps-handle md_connected = Keeps-quiet _ (Keeps-md_connected env)
      Keeps-handle (md_packet j) = Keeps-quiet _ (Keeps-md_packet j)
      Keeps-handle (trade_packet j) = Keeps-quiet _ (Keeps-trade_packet j)
      Keeps-handle (user_packet j) = Keeps-quiet _ (Keeps-user_packet j)
      Keeps-handle user_disconnected = Keeps-quiet _ Keeps-disconnected
      Keeps-handle (on_query_account j) = Keeps-quiet _ (Keeps-query_account j)
      Keeps-handle (on_query_position j) = Keeps-quiet _ (Keeps-query_position j)
      Keeps-handle (on_query_time j) = Keeps-quiet _ (Keeps-query_time j)
      Keeps-handle (on_query_contract j) = Keeps-quiet _ (Keeps-query_contract j)
      Keeps-handle (on_query_order unset j) = Keeps-quiet _ (Keeps-query_order unset j)
      Keeps-handle (on_start_user_stream j) = Keeps-quiet _ (Keeps-user_stream j)

    pub run-Keeps : (is : List (Env × Input J)) (x : BinanceLinearExchange) → P x → P (run api is x)
    unfolding run
    run-Keeps [] x h = h
    run-Keeps ((env, i) ∷ is) x h = run-Keeps is _ ((Keeps-handle env i).kept x h)
