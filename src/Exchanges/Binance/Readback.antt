-- ===== src/Exchanges/Binance/Readback.antt =====
-- core/exchange/binance_linear_exchange.cpp: the handler of order updates, on an update that repeats the
-- parameters of a sent order.
use keen_trader.Base.{◌≡◌, ◌≢◌, refl, true, some, []}
use keen_trader.Base.Int.{ℤ, pos}
use keen_trader.Base.Text.{AString, codes}
use keen_trader.Base.Map.{Map, lookup, insert, lookup-insert_self}
use keen_trader.Objects.Constant.{Offset, Exchange, OrderType, rfq, net}
use keen_trader.Objects.Market.{ContractData}
use keen_trader.Objects.Trading.{OrderData, OrderRequest}
use keen_trader.Objects.Names.{order_post_init}
use keen_trader.Exchanges.Json.{JsonApi, json_to_float}
use keen_trader.Exchanges.Keeps.{Keeps, keeps_rules}
use keen_trader.Exchanges.Binance.Names.{order_type_of, direction_of, status_of}
use keen_trader.Exchanges.Binance.State.{
  BinanceLinearExchange, Env, ◌>>=◌, gets, modify, emit_all, pure, or_throw, if_found,
}
use keen_trader.Exchanges.Binance.Linear
use keen_trader.Exchanges.Binance.User
use keen_trader.Exchanges.Binance.Trade
use keen_trader.Exchanges.Binance.Echo.{place_params-IsEcho, param}

module _ (env : Env) {J : Type 0} (api : JsonApi J) where
  -- An order update whose fields have the values of sent parameters, with some status and time.
  pub record Repeats (params : Map AString) (packet : J) : Type 0 where
    pub has_order : api.contains packet (codes "o") ≡ true
    pub id :
        api.value_text (api.at packet (codes "o")) (codes "c") []
        ≡ some (param (codes "newClientOrderId") [] params)
    pub symbol :
        api.value_text (api.at packet (codes "o")) (codes "s") []
        ≡ some (param (codes "symbol") [] params)
    pub side :
        api.value_text (api.at packet (codes "o")) (codes "S") []
        ≡ some (param (codes "side") [] params)
    pub type :
        api.value_text (api.at packet (codes "o")) (codes "o") []
        ≡ some (param (codes "type") [] params)
    pub tif :
        api.value_text (api.at packet (codes "o")) (codes "f") (codes "GTC")
        ≡ some (param (codes "timeInForce") (codes "GTC") params)
    pub status : AString
    pub status_read : api.value_text (api.at packet (codes "o")) (codes "X") [] ≡ some status
    pub time : ℤ
    pub time_read : api.value_int packet (codes "E") (pos 0) ≡ some time

  fill-Keeps :
      {P : BinanceLinearExchange → Type 0} (ord : J) (o : OrderData) (c : ContractData)
      → Keeps P (User.on_fill env api ord o c)
  unfolding User.on_fill
  fill-Keeps ord o c = search keeps_rules depth 24

  -- A known order's update leaves the order that it is read as in the table.
  update_stored :
      (packet ord : J) (type : OrderType) (c : ContractData) (o : OrderData)
      (y : BinanceLinearExchange)
      → User.order_of env api packet ord type c y ≡ (some o, y, [])
      → Linear.get_order (User.order_with env api packet ord type c y).1 o.orderid ≡ some o
  unfolding User.order_with Linear.on_order Linear.get_order ◌>>=◌ modify emit_all
  update_stored packet ord type c o y e =
      let kept = fill-Keeps {P = λ z. lookup o.orderid z.orders ≡ some o} ord o c in
      rw e (
        kept.kept (record y { orders = insert o.orderid o y.orders })
          (lookup-insert_self o.orderid o y.orders))

  -- The order that the client's table has is the one that was asked for.
  pub record IsReadBack (req : OrderRequest) (c : ContractData) (orderid : AString)
      (y : BinanceLinearExchange) : Type 0 where
    pub order : OrderData
    pub stored : Linear.get_order y orderid ≡ some order
    pub same_id : order.orderid ≡ orderid
    pub same_symbol : order.symbol ≡ c.symbol
    pub same_type : order.type ≡ req.type
    pub same_direction : order.direction ≡ req.direction

  -- When an order update repeats the parameters that `send_order` made for an order, of any type but RFQ and any direction but NET, with whatever status and a time, and the client knows the contract by its name, the handler of order updates leaves the client's table with an order under the id that was sent, with that id, the symbol of the contract, and the type and the direction that were asked for.
  pub on_order-place_params :
      (req : OrderRequest) (c : ContractData) (orderid : AString) (x y : BinanceLinearExchange)
      (params : Map AString) (packet : J)
      → req.type ≢ rfq
      → req.direction ≢ net
      → (Trade.place_params env req c orderid x).0 ≡ some params
      → Repeats params packet
      → Linear.get_contract_by_name y c.name ≡ some c
      → IsReadBack req c orderid (User.on_order env api packet y).1
  unfolding User.on_order User.order_of ◌>>=◌ gets pure or_throw if_found order_post_init
  on_order-place_params req c orderid x y params packet ht hd e r known =
      let echo = place_params-IsEcho env req c orderid x params ht hd e in
      let ord = api.at packet (codes "o") in
      let type =
        order_type_of (param (codes "type") [] params)
          (param (codes "timeInForce") (codes "GTC") params) in
      let o : OrderData = order_post_init env.names (record {
        symbol = c.symbol;
        exchange = Exchange.binance;
        orderid = param (codes "newClientOrderId") [] params;
        type = type;
        direction = direction_of (param (codes "side") [] params);
        offset = Offset.none;
        price = json_to_float api env.floats (api.at ord (codes "p"));
        volume = json_to_float api env.floats (api.at ord (codes "q"));
        traded = json_to_float api env.floats (api.at ord (codes "z"));
        status = status_of r.status;
        datetime = User.time_or env.now r.time;
        reference = [];
        exchange_name = y.base.exchange_name;
        kt_symbol = [];
        kt_orderid = [];
      }) in
      let read : User.order_of env api packet ord type c y ≡ (some o, y, []) =
        rw (r.id, r.side, r.status_read, r.time_read) refl in
      record {
        order = o;
        stored =
            rw (r.has_order, r.type, r.tif, r.symbol, echo.same_symbol, known, ← echo.same_id)
              (update_stored packet ord type c o y read);
        same_id = echo.same_id;
        same_symbol = refl;
        same_type = echo.same_type;
        same_direction = echo.same_direction;
      }
