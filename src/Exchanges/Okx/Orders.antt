-- ===== src/Exchanges/Okx/Orders.antt =====
-- core/exchange/okx_exchange.cpp: an order that the private API sends, from its packet to its refusal or its
-- cancellation.
use keen_trader.Base.{◌+◌, ◌≡◌, refl, Bool-cases, inl, inr, true, false, none, some, [], ◌∷◌, ◌++◌}
use keen_trader.Base.Int.{pos, ltb_ℤ}
use keen_trader.Base.Text.{str_lt, AString, codes, is_empty, str_eq, nonempty}
use keen_trader.Base.Map.{lookup, insert, member, lookup-insert_self}
use keen_trader.Base.Decimal.{decimal}
use keen_trader.Objects.Constant.{Status}
use keen_trader.Objects.Market.{ContractData}
use keen_trader.Objects.Trading.{OrderData, OrderRequest, CancelRequest}
use keen_trader.Objects.Names.{create_order_data, order_post_init}
use keen_trader.Oms.Engine.{OmsEvent}
use keen_trader.Exchanges.Base.{event_order, on_order, write_log}
use keen_trader.Exchanges.Received.{received, once}
use keen_trader.Exchanges.Handler.{
  ◌>>=◌, pure, gets, modify, emit, emit_all, or_throw, for_each, skip, if_found,
}
use keen_trader.Exchanges.Json.{JsonApi, is_text}
use keen_trader.Exchanges.Utils.{rjust}
use keen_trader.Exchanges.Okx.Names.{ordertype_kt2okx, side_of}
use keen_trader.Exchanges.Okx.State.{OkxExchange, Env, order_packet, events_of, log}
use keen_trader.Exchanges.Okx.Client
use keen_trader.Exchanges.Okx.Send
use keen_trader.Exchanges.Okx.Answers
use keen_trader.Exchanges.Okx.Private

-- The order that `send_order` submits.
abbrev pub submitted : Env → OrderRequest → OkxExchange → OrderData
submitted env req x =
    let p = x.private_api in
    create_order_data env.names req
      (decimal p.connect_time ++ rjust (decimal (p.order_count + 1)) 6 b'0') x.base.exchange_name

-- A request that the client can place.
pub record IsPlaceable (req : OrderRequest) (c : ContractData) (x : OkxExchange) : Type 0 where
  pub type : AString
  pub typed : ordertype_kt2okx req.type ≡ some type
  pub known : Client.get_contract_by_symbol x req.symbol ≡ some c
  pub named : is_empty c.name ≡ false
  pub sided : is_empty (side_of req.direction) ≡ false

abbrev pub after_sending : OrderData → OkxExchange → OkxExchange
after_sending o x = record x {
  orders = insert o.orderid o x.orders;
  private_api = record x.private_api {
    order_count = x.private_api.order_count + 1;
    reqid = x.private_api.reqid + 1;
  };
}

module _ (env : Env) (req : OrderRequest) (c : ContractData) (x : OkxExchange) where
  pub send_order-IsPlaceable :
      IsPlaceable req c x
      → let (r, y, os) = Send.send_order env req x in
        let o = submitted env req x in (r ≡ some o.kt_orderid) × (y ≡ after_sending o x)
  unfolding Send.send_order Send.send_typed_order Send.send_known_order Send.place_order
      Send.next_orderid Send.next_reqid Client.on_order log ◌>>=◌ gets modify emit emit_all pure
      if_found
  send_order-IsPlaceable h = rw (h.typed, h.known, h.named, h.sided) (refl, refl)

abbrev pub rejected : OrderData → OrderData
rejected o = record o { status = Status.rejected }

module _ {J : Type 0} (api : JsonApi J) where
  -- The result of an order that was refused.
  pub record IsRefusal (orderid : AString) (d : J) : Type 0 where
    pub code : AString
    pub coded : api.value_text d (codes "sCode") (codes "0") ≡ some code
    pub failed : str_eq code (codes "0") ≡ false
    pub same : api.value_text d (codes "clOrdId") [] ≡ some orderid
    pub msg : AString
    pub told : api.value_text d (codes "sMsg") (codes "Unknown error") ≡ some msg

  -- The answer to an order request that was taken as a whole, with the one result of the order.
  pub record IsAnswer (packet d : J) : Type 0 where
    pub no_event : api.contains packet (codes "event") ≡ false
    pub has_op : api.contains packet (codes "op") ≡ true
    pub op_text : api.is_string (api.at packet (codes "op")) ≡ true
    pub op : api.string_of (api.at packet (codes "op")) ≡ codes "order"
    pub has_code : api.contains packet (codes "code") ≡ true
    pub code : is_text api (api.at packet (codes "code")) (codes "0") ≡ true
    pub has_data : api.contains packet (codes "data") ≡ true
    pub data_array : api.is_array (api.at packet (codes "data")) ≡ true
    pub results : api.items (api.at packet (codes "data")) ≡ d ∷ []

module _ (env : Env) {J : Type 0} (api : JsonApi J) where
  refused :
      (o : OrderData) (packet d : J) (x : OkxExchange)
      → Client.get_order x o.orderid ≡ some o
      → IsAnswer api packet d
      → IsRefusal api o.orderid d
      → is_empty o.kt_orderid ≡ false
      → let (r, y, os) = Private.on_packet env api packet x in
        (y ≡ record x { orders = insert o.orderid (rejected o) x.orders })
        × (received (events_of os) ≡ OmsEvent.order (rejected o) ∷ [])
  unfolding Private.on_packet Private.callback_name Private.dispatch Answers.on_send_order
      Answers.on_order_result Answers.reject Client.on_order log ◌>>=◌ gets modify emit_all or_throw
      if_found for_each skip received on_order write_log str_eq
  refused o packet d x there a h keyed =
      rw
        (
          a.no_event, a.has_op, a.op_text, a.op, a.has_data, a.has_code, a.code, a.data_array,
          a.results, h.coded, h.failed, h.same, h.told, there,
        )
        (refl, once event_order o.kt_orderid (OmsEvent.order (rejected o)) keyed)

  -- When the exchange answers an order request that the client has just sent with code 0 and a result that refuses the order, naming it by the client's id, then the packet leaves the client's table with the order as rejected and all else of the client as it was, and the order management engine gets the rejected order once.
  pub on_packet-send_order :
      (req : OrderRequest) (c : ContractData) (x : OkxExchange) (packet d : J)
      → IsPlaceable req c x
      → IsAnswer api packet d
      → IsRefusal api (submitted env req x).orderid d
      → let o = submitted env req x in
        let y = (Send.send_order env req x).1 in
        let (r, z, os) = Private.on_packet env api packet y in
        (z ≡ record y { orders = insert o.orderid (rejected o) y.orders })
        × (received (events_of os) ≡ OmsEvent.order (rejected o) ∷ [])
  unfolding Client.get_order create_order_data order_post_init
  on_packet-send_order req c x packet d h answer refusal =
      let o = submitted env req x in
      rw ((send_order-IsPlaceable env req c x h).1) (
        refused o packet d (after_sending o x) (lookup-insert_self o.orderid o x.orders) answer
          refusal (nonempty _ _))

no_client_id :
    (id : AString) (c : ContractData)
    → lookup (codes "clOrdId") (insert (codes "ordId") id (Send.with_contract c [])) ≡ none
unfolding Send.with_contract lookup insert str_eq str_lt
no_client_id id c = elim (Bool-cases (ltb_ℤ (pos 0) c.inst_id_code)) [
  | inl numbered ↦ rw numbered refl
  | inr named ↦ rw named refl
]

-- An order that was just sent, and that no update of an order has named before, is cancelled by the exchange's id, though the id in the packet is the client's own: the packet has it under `ordId`, and nothing under `clOrdId`.
pub cancel_order-send_order :
    (env : Env) (req : OrderRequest) (c : ContractData) (x : OkxExchange) (cancel : CancelRequest)
    → let o = submitted env req x in
      IsPlaceable req c x
      → cancel.symbol ≡ req.symbol
      → cancel.orderid ≡ o.orderid
      → member o.orderid x.local_orderids ≡ false
      → let y = (Send.send_order env req x).1 in
        let args = insert (codes "ordId") o.orderid (Send.with_contract c []) in
        let id = decimal (x.private_api.reqid + 1 + 1) in
        ((Send.cancel_order cancel y).2 ≡ order_packet id (codes "cancel-order") args ∷ [])
        × (lookup (codes "clOrdId") args ≡ none)
unfolding Send.cancel_order Send.cancel_known_order Send.next_reqid ◌>>=◌ gets modify emit if_found
    Client.get_contract_by_symbol
cancel_order-send_order env req c x cancel h symbol orderid new = (
  rw ((send_order-IsPlaceable env req c x h).1, symbol, h.known, orderid, new) refl,
  no_client_id (submitted env req x).orderid c,
)
