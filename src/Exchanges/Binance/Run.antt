-- ===== src/Exchanges/Binance/Run.antt =====
-- core/exchange/binance_linear_exchange.cpp: the client as a whole: what may call it, each with the
-- surroundings at the time, and histories of such calls. Each handler runs to its end before the next.
use keen_trader.Base.{Option, none, some, List, [], ◌∷◌, ◌++◌, if◌then◌else◌}
use keen_trader.Base.Int.{ℤ}
use keen_trader.Base.Text.{AString, is_empty}
use keen_trader.Objects.Constant.{Direction, PositionMode}
use keen_trader.Objects.Trading.{OrderRequest, CancelRequest, SubscribeRequest}
use keen_trader.Exchanges.Json.{JsonApi}
use keen_trader.Exchanges.Binance.State.{BinanceLinearExchange, Env, M, ◌>>=◌, pure}
use keen_trader.Exchanges.Binance.Linear
use keen_trader.Exchanges.Binance.Trade
use keen_trader.Exchanges.Binance.Md
use keen_trader.Exchanges.Binance.User
use keen_trader.Exchanges.Binance.Rest
use keen_trader.Exchanges.Binance.Connect

pub data Input (J : Type 0) : Type 0 where
  connect : Connect.Setting → Input J
  close : Input J
  subscribe : SubscribeRequest → Input J
  send_order : OrderRequest → Input J
  cancel_order : CancelRequest → Input J
  set_position_mode : PositionMode → Input J
  set_leverage : AString → ℤ → Input J
  timer : Input J
  md_connected : Input J
  md_packet : J → Input J
  trade_packet : J → Input J
  user_packet : J → Input J
  user_disconnected : Input J
  on_query_account : J → Input J
  on_query_position : J → Input J
  on_query_time : J → Input J
  on_query_contract : J → Input J
  on_query_order : Direction → J → Input J
  on_start_user_stream : J → Input J

-- A call without a result.
abbrev pub quiet : {A : Type 0} → M A → M AString
quiet m = m >>= λ _. pure []

module _ {J : Type 0} (api : JsonApi J) where
  -- The result of sending is the order id.
  unfoldable pub handle : Env → Input J → M AString
  handle env (connect setting) = quiet (Connect.connect_with setting)
  handle env close = quiet Connect.close
  handle env (subscribe req) = quiet (Md.subscribe env req)
  handle env (send_order req) = Trade.send_order env req
  handle env (cancel_order req) = quiet (Trade.cancel_order env req)
  handle env (set_position_mode mode) = quiet (Linear.set_position_mode mode)
  handle env (set_leverage symbol leverage) = quiet (Linear.set_leverage symbol leverage)
  handle env timer = quiet Rest.process_timer_event
  handle env md_connected = quiet (Md.on_connected env)
  handle env (md_packet j) = quiet (Md.on_packet env api j)
  handle env (trade_packet j) = quiet (Trade.on_packet api j)
  handle env (user_packet j) = quiet (User.on_packet env api j)
  handle env user_disconnected = quiet User.on_disconnected
  handle env (on_query_account j) = quiet (Rest.on_query_account env api j)
  handle env (on_query_position j) = quiet (Rest.on_query_position env api j)
  handle env (on_query_time j) = quiet (Rest.on_query_time env api j)
  handle env (on_query_contract j) = quiet (Rest.on_query_contract env api j)
  handle env (on_query_order unset j) = quiet (Rest.on_query_order env api unset j)
  handle env (on_start_user_stream j) = quiet (Rest.on_start_user_stream env api j)

  unfoldable pub run : List (Env × Input J) → BinanceLinearExchange → BinanceLinearExchange
  unfolding handle
  run [] x = x
  run ((env, i) ∷ is) x = run is (handle env i x).1

  abbrev pub returned : Option AString → List AString
  returned none = []
  returned (some id) = if is_empty id then [] else id ∷ []

  -- The order ids that a history returns.
  unfoldable pub ids_of : List (Env × Input J) → BinanceLinearExchange → List AString
  unfolding handle
  ids_of [] x = []
  ids_of ((env, i) ∷ is) x = let (id, y, os) = handle env i x in returned id ++ ids_of is y
