-- ===== src/Exchanges/Binance/Rest/Requests.antt =====
-- core/exchange/binance_linear_exchange.cpp: `BinanceRestApi`, its requests and how they are signed.
use keen_trader.Base.{◌+◌, ◌*◌, ◌/◌, [], ◌∷◌, ◌++◌, if◌then◌else◌, ltb}
use keen_trader.Base.Int.{ℤ, pos, ltb_ℤ, abs_ℤ, ◌+ℤ◌, ◌-ℤ◌}
use keen_trader.Base.Text.{AString, codes, is_empty}
use keen_trader.Base.Map.{Map, insert}
use keen_trader.Base.Decimal.{int_text}
use keen_trader.Exchanges.Utils.{sort_items, join_items, url_encode}
use keen_trader.Exchanges.Binance.State.{
  BinanceLinearExchange, BinanceRestApi, Request, Env, M, request, emit, modify, gets, ◌>>=◌, ◌>>◌,
  skip,
}
use keen_trader.Exchanges.Binance.Trade.{signature_of}

abbrev pub with_rest :
    (BinanceRestApi → BinanceRestApi) → BinanceLinearExchange → BinanceLinearExchange
with_rest f x = record x { rest_api = f x.rest_api }

abbrev pub get : AString → M (Unit {0})
get path = emit (request (record { method = codes "GET"; path = path; params = [] }))

unfoldable pub query_time : M (Unit {0})
query_time = get (codes "/fapi/v1/time")

unfoldable pub query_contract : M (Unit {0})
query_contract = get (codes "/fapi/v1/exchangeInfo")

unfoldable pub query_order : M (Unit {0})
query_order = get (codes "/fapi/v1/openOrders")

unfoldable pub query_account : M (Unit {0})
query_account = get (codes "/fapi/v3/account")

unfoldable pub query_position : M (Unit {0})
query_position = get (codes "/fapi/v3/positionRisk")

-- Every 600th call asks to keep the stream, once there is one.
unfoldable pub keep_user_stream : M (Unit {0})
keep_user_stream = do
  r ← gets λ x. x.rest_api
  let count = r.keep_alive_count + 1
  let due : M (Unit {0}) = do
    modify (with_rest λ r. record r { keep_alive_count = 0 })
    emit (
        request (record {
          method = codes "PUT";
          path = codes "/fapi/v1/listenKey";
          params = (codes "listenKey", r.user_stream_key) ∷ [];
        }))
  if is_empty r.user_stream_key
      then skip
      else if ltb count 600
      then modify (with_rest λ r. record r { keep_alive_count = count })
      else due

unfoldable pub process_timer_event : M (Unit {0})
unfolding keep_user_stream
process_timer_event = keep_user_stream

abbrev pub real_user_host : AString
real_user_host = codes "wss://fstream.binance.com/ws/"

abbrev pub testnet_user_host : AString
testnet_user_host = codes "wss://fstream.binancefuture.com/ws/"

module _ (env : Env) where
  -- The query string of a request with its signature; the time is moved by the size of the offset, away from its sign.
  unfoldable pub query_of : AString → ℤ → Map AString → AString
  unfolding signature_of
  query_of secret time_offset params =
      let time = pos (env.now / 1000 * 1000) in
      let shifted =
        if ltb_ℤ (pos 0) time_offset
        then time -ℤ abs_ℤ time_offset
        else time +ℤ abs_ℤ time_offset in
      let query =
        join_items url_encode (sort_items (insert (codes "timestamp") (int_text shifted) params)) in
      query ++ codes "&signature=" ++ signature_of env (env.hmac secret query)

  unfoldable pub sign : BinanceRestApi → Request → Request
  unfolding query_of
  sign r req = record req {
    path = req.path ++ b'?' ∷ query_of r.secret r.time_offset req.params;
    params = [];
  }
