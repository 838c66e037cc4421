-- ===== src/Exchanges/Binance/Echo.antt =====
-- core/exchange/binance_linear_exchange.cpp: what an order update that repeats the parameters of a sent
-- order is read as.
use keen_trader.Base.{
  ◌≡◌, ◌≢◌, inl, inr, refl, ◌∙◌, subst, Bool, Bool-cases, Option-cases, true, false, Option, none,
  some, eq_of_some, [], if◌then◌else◌,
}
use keen_trader.Base.Text.{AString, codes, str_eq, str_lt}
use keen_trader.Base.Map.{found_or, Map, lookup, insert, lookup-insert}
use keen_trader.Objects.Constant.{
  Direction, OrderType, limit, market, stop, fak, fok, rfq, long, short, net,
}
use keen_trader.Objects.Market.{ContractData, Float}
use keen_trader.Objects.Trading.{OrderRequest}
use keen_trader.Exchanges.Binance.State.{BinanceLinearExchange, Env, ◌>>=◌, gets, or_throw}
use keen_trader.Exchanges.Binance.Names.{side_of, type_of, tif_of, direction_of, order_type_of}
use keen_trader.Exchanges.Binance.Trade

abbrev pub param : AString → AString → Map AString → AString
param key default params = found_or default (lookup key params)

-- What the client reads of an order update with these parameters.
pub record IsEcho (req : OrderRequest) (c : ContractData) (orderid : AString) (params : Map AString)
    : Type 0 where
  pub same_id : param (codes "newClientOrderId") [] params ≡ orderid
  pub same_symbol : param (codes "symbol") [] params ≡ c.name
  pub same_type :
      order_type_of
        (param (codes "type") [] params)
        (param (codes "timeInForce") (codes "GTC") params)
      ≡ req.type
  pub same_direction : direction_of (param (codes "side") [] params) ≡ req.direction

sides : (d : Direction) → d ≢ net → direction_of (side_of d) ≡ d
unfolding direction_of side_of str_eq
sides long h = refl
sides short h = refl
sides net h = absurd (h refl)

-- The time in force that an order type is sent with.
abbrev sent_tif : OrderType → Option AString
sent_tif t = if str_eq (type_of t) (codes "LIMIT") then some (tif_of t) else none

types :
    (t : OrderType) → t ≢ rfq → order_type_of (type_of t) (found_or (codes "GTC") (sent_tif t)) ≡ t
unfolding order_type_of type_of tif_of str_eq
types limit h = refl
types market h = refl
types stop h = refl
types fak h = refl
types fok h = refl
types rfq h = absurd (h refl)

module _ (env : Env) (req : OrderRequest) (c : ContractData) (orderid : AString) where
  -- The parameters that name the order and its kind.
  record HasParams (m : Map AString) (tif : Option AString) : Type 0 where
    id : lookup (codes "newClientOrderId") m ≡ some orderid
    symbol : lookup (codes "symbol") m ≡ some c.name
    type : lookup (codes "type") m ≡ some (type_of req.type)
    side : lookup (codes "side") m ≡ some (side_of req.direction)
    time : lookup (codes "timeInForce") m ≡ tif

  base-HasParams :
      (key : AString) (hedge_mode : Bool) (qty : Float)
      → HasParams (Trade.base_params env key hedge_mode req c orderid qty) none
  unfolding Trade.base_params lookup insert str_eq str_lt
  base-HasParams key true qty = record {
    id = refl;
    symbol = refl;
    type = refl;
    side = refl;
    time = refl;
  }
  base-HasParams key false qty = record {
    id = refl;
    symbol = refl;
    type = refl;
    side = refl;
    time = refl;
  }

  -- A parameter of another name.
  other-HasParams :
      (k v : AString) (m : Map AString) (before tif : Option AString)
      → str_eq k (codes "newClientOrderId") ≡ false
      → str_eq k (codes "symbol") ≡ false
      → str_eq k (codes "type") ≡ false
      → str_eq k (codes "side") ≡ false
      → HasParams m before
      → lookup (codes "timeInForce") (insert k v m) ≡ tif
      → HasParams (insert k v m) tif
  other-HasParams k v m before tif ni ns nt nd h e = record {
    id = lookup-insert k _ v m ∙ (rw ni h.id);
    symbol = lookup-insert k _ v m ∙ (rw ns h.symbol);
    type = lookup-insert k _ v m ∙ (rw nt h.type);
    side = lookup-insert k _ v m ∙ (rw nd h.side);
    time = e;
  }

  with-some :
      (k : AString) (o : Option Float) (m params : Map AString)
      → Trade.with_param env k o m ≡ some params
      → (v : AString) × (insert k v m ≡ params)
  with-some k none m params e = cc
  with-some k (some f) m params e = (env.floats.print f, eq_of_some e)

  stop-HasParams :
      (m mid : Map AString)
      → HasParams m none
      → Trade.stop_params env req c m ≡ some mid
      → HasParams mid none
  unfolding Trade.stop_params str_eq
  stop-HasParams m mid h e = elim (Bool-cases (Trade.is_stop req.type)) [
    | inl yes' ↦
        let (v, made) =
          with-some (codes "stopPrice") (Trade.on_step req.price c.pricetick) m mid
            (rw yes' at e) in
        subst (λ q. HasParams q none) made
          (other-HasParams (codes "stopPrice") v m none none refl refl refl refl h
            (lookup-insert (codes "stopPrice") _ v m ∙ h.time))
    | inr no' ↦ subst (λ q. HasParams q none) (eq_of_some (rw no' at e)) h
  ]

  priced-HasParams :
      (t v : AString) (m : Map AString)
      → HasParams m none
      → HasParams (insert (codes "price") v (insert (codes "timeInForce") t m)) (some t)
  unfolding str_eq
  priced-HasParams t v m h =
      let timed = insert (codes "timeInForce") t m in
      other-HasParams (codes "price") v timed (some t) (some t) refl refl refl refl
        (other-HasParams (codes "timeInForce") t m none (some t) refl refl refl refl h
          (lookup-insert (codes "timeInForce") (codes "timeInForce") t m))
        (lookup-insert (codes "price") (codes "timeInForce") v timed
          ∙ lookup-insert (codes "timeInForce") (codes "timeInForce") t m)

  limit-HasParams :
      (m params : Map AString)
      → HasParams m none
      → Trade.limit_params env req c m ≡ some params
      → HasParams params (sent_tif req.type)
  unfolding Trade.limit_params
  limit-HasParams m params h e =
      let limited : ((v : AString) × (insert (codes "price") v
                (insert (codes "timeInForce") (tif_of req.type) m)
              ≡ params))
          → HasParams params (some (tif_of req.type)) =
        λ made.
          subst (λ q. HasParams q (some (tif_of req.type))) made.1
            (priced-HasParams (tif_of req.type) made.0 m h) in
      elim (Bool-cases (str_eq (type_of req.type) (codes "LIMIT"))) [
        | inl yes' ↦ rw yes' (
            limited (
              with-some (codes "price") (Trade.on_step req.price c.pricetick)
                (insert (codes "timeInForce") (tif_of req.type) m) params (rw yes' at e)))
        | inr no' ↦ rw no' (subst (λ q. HasParams q none) (eq_of_some (rw no' at e)) h)
      ]

  -- What the parameters are read as.
  params-IsEcho :
      (params : Map AString)
      → req.type ≢ rfq
      → req.direction ≢ net
      → HasParams params (sent_tif req.type)
      → IsEcho req c orderid params
  params-IsEcho params ht hd h = record {
    same_id = rw h.id;
    same_symbol = rw h.symbol;
    same_type = rw (h.type, h.time) (types req.type ht);
    same_direction = rw h.side (sides req.direction hd);
  }

  -- The parameters that `send_order` sends for an order, of any type but RFQ and any direction but NET, are read back by the tables of order updates as the same order id, symbol, type and direction.
  pub place_params-IsEcho :
      (x : BinanceLinearExchange) (params : Map AString)
      → req.type ≢ rfq
      → req.direction ≢ net
      → (Trade.place_params env req c orderid x).0 ≡ some params
      → IsEcho req c orderid params
  unfolding Trade.place_params ◌>>=◌ gets or_throw
  place_params-IsEcho x params ht hd e =
      elim (Option-cases (Trade.on_step req.volume c.min_volume)) [
        | inl bad ↦ let wrong : none ≡ some params = (rw bad at e) in cc
        | inr (qty, q) ↦
            let base = Trade.base_params env x.trade_api.key x.hedge_mode req c orderid qty in
            elim (Option-cases (Trade.stop_params env req c base)) [
              | inl bad ↦ let wrong : none ≡ some params = (rw (q, bad) at e) in cc
              | inr (mid, m) ↦ params-IsEcho params ht hd (
                  limit-HasParams mid params
                    (stop-HasParams base mid (base-HasParams x.trade_api.key x.hedge_mode qty) m)
                    (rw (q, m) at e))
            ]
      ]
