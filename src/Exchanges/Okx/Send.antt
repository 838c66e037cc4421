-- ===== src/Exchanges/Okx/Send.antt =====
-- core/exchange/okx_exchange.cpp: what `OkxWebsocketPrivateApi` sends: the login, the topics, orders and
-- cancellations.
use keen_trader.Base.{◌+◌, ◌/◌, Bool, true, false, [], ◌∷◌, ◌++◌, if◌then◌else◌}
use keen_trader.Base.Int.{pos, ltb_ℤ}
use keen_trader.Base.Text.{AString, codes, is_empty}
use keen_trader.Base.Map.{Map, insert, member}
use keen_trader.Base.Decimal.{decimal, int_text}
use keen_trader.Objects.Constant.{Product, PositionMode, one_way, hedge}
use keen_trader.Objects.Market.{ContractData}
use keen_trader.Objects.Trading.{OrderRequest, CancelRequest}
use keen_trader.Objects.Names.{create_order_data}
use keen_trader.Exchanges.Handler.{◌>>=◌, ◌>>◌, pure, gets, modify, emit, if_found}
use keen_trader.Exchanges.Utils.{rjust}
use keen_trader.Exchanges.Okx.Names.{
  ordertype_kt2okx, side_of, pos_side, order_type_number, direction_number,
}
use keen_trader.Exchanges.Okx.State.{
  Env, M, login_packet, topics_packet, order_packet, log, with_private,
}
use keen_trader.Exchanges.Okx.Client

-- The contract by its number where it has one, and by its name otherwise.
unfoldable pub with_contract : ContractData → Map AString → Map AString
with_contract contract args =
    if ltb_ℤ (pos 0) contract.inst_id_code
    then insert (codes "instIdCode") (int_text contract.inst_id_code) args
    else insert (codes "instId") contract.name args

abbrev trade_mode : Product → AString
trade_mode Product.spot = codes "cash"
trade_mode product = codes "cross"

abbrev is_hedge : PositionMode → Bool
is_hedge hedge = true
is_hedge one_way = false

unfoldable pub subscribe_topic : M (Unit {0})
subscribe_topic = emit topics_packet

-- The number of a new packet.
unfoldable pub next_reqid : M AString
next_reqid = do
  modify (with_private λ p. record p { reqid = p.reqid + 1 })
  gets λ x. decimal x.private_api.reqid

-- The id of a new order: the time of connecting and the number of the order.
unfoldable pub next_orderid : M AString
unfolding rjust
next_orderid = do
  modify (with_private λ p. record p { order_count = p.order_count + 1 })
  gets λ x. decimal x.private_api.connect_time ++ rjust (decimal x.private_api.order_count) 6 b'0'

unfoldable pub cancel_known_order : CancelRequest → ContractData → M (Unit {0})
unfolding with_contract next_reqid
cancel_known_order req contract = do
  local_orderids ← gets λ x. x.local_orderids
  let key = if member req.orderid local_orderids then codes "clOrdId" else codes "ordId"
  id ← next_reqid
  emit (order_packet id (codes "cancel-order") (insert key req.orderid (with_contract contract [])))

unfoldable pub cancel_order : CancelRequest → M (Unit {0})
unfolding cancel_known_order
cancel_order req = do
  found ← gets λ x. Client.get_contract_by_symbol x req.symbol
  if_found found (log (codes "Cancel order failed, symbol not found: " ++ req.symbol))
      (cancel_known_order req)

module _ (env : Env) where
  unfoldable pub login : M (Unit {0})
  login = do
    p ← gets λ x. x.private_api
    let timestamp = decimal (env.now / 1000)
    let sign = env.hmac_base64 p.secret (timestamp ++ codes "GET" ++ codes "/users/self/verify")
    emit (
        login_packet (
          (codes "apiKey", p.key)
          ∷ (codes "passphrase", p.passphrase)
          ∷ (codes "sign", sign)
          ∷ (codes "timestamp", timestamp)
          ∷ []))

  unfoldable pub order_args :
      OrderRequest → ContractData → AString → AString → AString → AString → Map AString
  unfolding with_contract
  order_args req contract orderid side posSide type =
      insert (codes "tdMode") (trade_mode contract.product) (
        insert (codes "sz") (env.print10 req.volume) (
          insert (codes "px") (env.print10 req.price) (
            insert (codes "ordType") type (
              insert (codes "posSide") posSide (
                insert (codes "side") side
                  (insert (codes "clOrdId") orderid (with_contract contract [])))))))

  -- The text of an order in the log.
  abbrev sending : OrderRequest → ContractData → AString → AString → AString → AString
  sending req contract side posSide type =
      codes "Sending order - symbol: "
      ++ req.symbol
      ++ codes ", instIdCode: "
      ++ int_text contract.inst_id_code
      ++ codes ", instId: "
      ++ contract.name
      ++ codes ", side: "
      ++ side
      ++ codes ", posSide: "
      ++ posSide
      ++ codes ", ordType: "
      ++ type
      ++ codes ", price: "
      ++ env.print10 req.price
      ++ codes ", volume: "
      ++ env.print10 req.volume
      ++ codes ", tdMode: "
      ++ trade_mode contract.product

  -- From the arguments on: the packet is sent, and the submitting order put.
  unfoldable pub place_order :
      OrderRequest → ContractData → AString → AString → AString → AString → M AString
  unfolding order_args next_reqid
  place_order req contract orderid side posSide type = do
    let args = order_args req contract orderid side posSide type
    log (sending req contract side posSide type)
    id ← next_reqid
    log (codes "Order request: " ++ env.dump id (codes "order") args)
    emit (order_packet id (codes "order") args)
    exchange_name ← gets λ x. x.base.exchange_name
    let order = create_order_data env.names req orderid exchange_name
    Client.on_order order
    pure order.kt_orderid

  unfoldable pub send_known_order : OrderRequest → ContractData → AString → M AString
  unfolding next_orderid place_order
  send_known_order req contract type = do
    orderid ← next_orderid
    mode ← gets λ x. x.base.position_mode
    let side = side_of req.direction
    if is_empty side
        then log (
            codes "Send order failed, invalid side direction: "
            ++ decimal (direction_number req.direction))
          >> pure []
        else place_order req contract orderid side
            (pos_side req.direction req.offset (is_hedge mode)) type

  unfoldable pub send_typed_order : OrderRequest → AString → M AString
  unfolding send_known_order
  send_typed_order req type = do
    found ← gets λ x. Client.get_contract_by_symbol x req.symbol
    if_found found (log (codes "Send order failed, symbol not found: " ++ req.symbol) >> pure [])
        (λ contract.
          if is_empty contract.name
          then log (codes "Send order failed, contract name is empty for symbol: " ++ req.symbol)
            >> pure []
          else send_known_order req contract type)

  -- The type is looked up once more when it is needed; it is there.
  unfoldable pub send_order : OrderRequest → M AString
  unfolding send_typed_order
  send_order req =
      if_found (ordertype_kt2okx req.type)
        (log (
            codes "Send order failed, order type not supported: "
            ++ decimal (order_type_number req.type))
          >> pure [])
        (send_typed_order req)
