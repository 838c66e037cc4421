-- ===== src/Exchanges/Okx/Answers.antt =====
-- core/exchange/okx_exchange.cpp: the answers that the private API gets to orders and cancellations.
use keen_trader.Base.{List, [], ◌∷◌, ◌++◌, if◌then◌else◌}
use keen_trader.Base.Int.{pos}
use keen_trader.Base.Text.{AString, codes, str_eq}
use keen_trader.Base.Lists.{is_nil}
use keen_trader.Base.Map.{lookup, erase}
use keen_trader.Base.Decimal.{int_text}
use keen_trader.Objects.Constant.{Status}
use keen_trader.Objects.Trading.{OrderData}
use keen_trader.Exchanges.Handler.{◌>>=◌, ◌>>◌, gets, modify, or_throw, if_found, skip, for_each}
use keen_trader.Exchanges.Json.{JsonApi, field, field_text, text_of, is_text}
use keen_trader.Exchanges.Okx.State.{M, log, with_private}
use keen_trader.Exchanges.Okx.Client
use keen_trader.Exchanges.Okx.Client.{time_of}

unfoldable pub reject : OrderData → M (Unit {0})
reject order = Client.on_order (record order { status = Status.rejected })

module _ {J : Type 0} (api : JsonApi J) where
  -- The order of a request that failed as a whole, by the number of the request.
  unfoldable pub reject_request : J → M (Unit {0})
  unfolding reject
  reject_request packet = do
    id ← or_throw (api.value_int packet (codes "id") (pos 0))
    found ← gets λ x. lookup (int_text id) x.private_api.reqid_order_map
    if_found found skip λ order.
        reject order
        >> modify
            (with_private λ p. record p { reqid_order_map = erase (int_text id) p.reqid_order_map })

  unfoldable pub on_failed_order : J → J → J → M (Unit {0})
  unfolding reject_request
  on_failed_order packet data_ code = do
    msg ← or_throw (api.value_text packet (codes "msg") (codes "Unknown error"))
    text ← or_throw (text_of api code)
    log (codes "Send order API failed, code: " ++ text ++ codes ", message: " ++ msg)
    if is_nil (api.items data_) then skip else reject_request packet

  -- The result for one order.
  unfoldable pub on_order_result : J → M (Unit {0})
  unfolding reject
  on_order_result d = do
    code ← or_throw (api.value_text d (codes "sCode") (codes "0"))
    let rejected : M (Unit {0}) = do
      orderid ← or_throw (api.value_text d (codes "clOrdId") [])
      msg ← or_throw (api.value_text d (codes "sMsg") (codes "Unknown error"))
      log (
          codes "Order rejected - clOrdId: "
          ++ orderid
          ++ codes ", code: "
          ++ code
          ++ codes ", message: "
          ++ msg)
      found ← gets λ x. Client.get_order x orderid
      if_found found skip reject
    if str_eq code (codes "0") then skip else rejected

  unfoldable pub on_send_order : J → M (Unit {0})
  unfolding on_failed_order on_order_result
  on_send_order packet = do
    data_ ← or_throw (field api packet (codes "data"))
    code ← or_throw (field api packet (codes "code"))
    if is_text api code (codes "0")
        then (if api.is_array data_ then for_each (api.items data_) on_order_result else skip)
        else on_failed_order packet data_ code

  abbrev cancel_failed : AString → AString → AString
  cancel_failed code msg =
      codes "Order cancellation failed, status code: " ++ code ++ codes ", message: " ++ msg

  -- The results of cancellations, up to the first that succeeded.
  unfoldable pub on_cancel_results : List J → M (Unit {0})
  on_cancel_results [] = skip
  on_cancel_results (d ∷ ds) = do
    code ← or_throw (field_text api d (codes "sCode"))
    let failed : M (Unit {0}) = do
      msg ← or_throw (field_text api d (codes "sMsg"))
      log (cancel_failed code msg)
      on_cancel_results ds
    if str_eq code (codes "0") then skip else failed

  unfoldable pub on_cancel_order : J → M (Unit {0})
  unfolding on_cancel_results
  on_cancel_order packet = do
    code ← or_throw (field api packet (codes "code"))
    let failed : M (Unit {0}) = do
      text ← or_throw (text_of api code)
      msg ← or_throw (field_text api packet (codes "msg"))
      log (cancel_failed text msg)
    let results : M (Unit {0}) = do
      data_ ← or_throw (field api packet (codes "data"))
      on_cancel_results (api.items data_)
    if is_text api code (codes "0") then results else failed
