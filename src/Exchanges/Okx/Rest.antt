-- ===== src/Exchanges/Okx/Rest.antt =====
-- core/exchange/okx_exchange.cpp: `OkxRestApi`, its requests and the handlers of their answers. Asking for
-- past bars, signing and the handlers that log only are left out.
use keen_trader.Base.{Option, ◌/◌, ◌++◌, ◌==◌, true, false, List, [], ◌∷◌, if◌then◌else◌}
use keen_trader.Base.Int.{ℤ, pos, zero_float}
use keen_trader.Base.Text.{AString, codes}
use keen_trader.Base.Lists.{length}
use keen_trader.Base.Map.{lookup, insert, found_or}
use keen_trader.Base.IdMap.{insert_id}
use keen_trader.Objects.Constant.{Exchange, OptionType, Product}
use keen_trader.Objects.Market.{Float, ContractData}
use keen_trader.Objects.Names.{contract_post_init}
use keen_trader.Exchanges.Handler.{◌>>=◌, ◌>>◌, pure, gets, modify, emit, or_throw, skip, for_each}
use keen_trader.Exchanges.Json.{JsonApi, json_to_float, json_to_int, field, field_text, nth}
use keen_trader.Exchanges.Okx.Names.{product_number}
use keen_trader.Exchanges.Okx.State.{
  Env, M, request, connect_public, connect_private, log, with_rest, with_private,
}
use keen_trader.Exchanges.Okx.Client
use keen_trader.Exchanges.Okx.Client.{time_of}

abbrev get : AString → M (Unit {0})
get path = emit (request (record { method = codes "GET"; path = path; body = [] }))

unfoldable pub query_order : M (Unit {0})
query_order = get (codes "/api/v5/trade/orders-pending")

unfoldable pub query_time : M (Unit {0})
query_time = get (codes "/api/v5/public/time")

-- One request for each product.
unfoldable pub query_contract : M (Unit {0})
query_contract = do
  products ← gets λ x. x.product_okx2kt
  for_each products λ p. get (codes "/api/v5/public/instruments?instType=" ++ p.0)

-- `server_hosts.at(server)`, which throws for another name.
abbrev pub host : AString → AString → AString → AString → Option AString
host real aws demo server =
    lookup server ((codes "AWS", aws) ∷ (codes "DEMO", demo) ∷ (codes "REAL", real) ∷ [])

module _ (env : Env) where
  unfoldable pub connect_public_api : AString → M (Unit {0})
  connect_public_api server = do
    url ← or_throw (
        host (codes "wss://ws.okx.com:8443/ws/v5/public")
          (codes "wss://wsaws.okx.com:8443/ws/v5/public")
          (codes "wss://wspap.okx.com:8443/ws/v5/public?brokerId=9999") server)
    emit (connect_public url)

  unfoldable pub connect_private_api : AString → AString → AString → AString → M (Unit {0})
  connect_private_api key secret passphrase server = do
    modify (
        with_private λ p. record p {
          connect_time = env.now / 1000;
          key = key;
          secret = secret;
          passphrase = passphrase;
        })
    url ← or_throw (
        host (codes "wss://ws.okx.com:8443/ws/v5/private")
          (codes "wss://wsaws.okx.com:8443/ws/v5/private")
          (codes "wss://wspap.okx.com:8443/ws/v5/private?brokerId=9999") server)
    emit (connect_private url)

  unfoldable pub connect_ws_api : M (Unit {0})
  unfolding connect_public_api connect_private_api
  connect_ws_api = do
    x ← gets λ x. x
    connect_public_api x.server
    connect_private_api x.key x.secret x.passphrase x.server

  module _ {J : Type 0} (api : JsonApi J) where
    abbrev float : J → Float
    float = json_to_float api env.floats

    unfoldable pub on_query_order : J → M (Unit {0})
    on_query_order packet = do
      data_ ← or_throw (field api packet (codes "data"))
      for_each (api.items data_) λ d. Client.parse_order_data env api d >>= Client.on_order
      log (codes "Entrustment information query successful")

    unfoldable pub on_query_time : J → M (Unit {0})
    unfolding nth
    on_query_time packet = do
      data_ ← or_throw (field api packet (codes "data"))
      first ← or_throw (nth api (api.items data_) 0)
      ts ← or_throw (field_text api first (codes "ts"))
      log (
          codes "server time: "
          ++ env.utc_text (time_of ts)
          ++ codes ", local time: "
          ++ env.local_text env.now)

    -- `PRODUCT_OKX2KT[instType]`, which adds a name that is not there with the first product.
    unfoldable pub product_of : AString → M Product
    product_of type = do
      products ← gets λ x. x.product_okx2kt
      let product = found_or Product.equity (lookup type products)
      modify λ x. record x { product_okx2kt = insert type product products }
      pure product

    -- The size of a contract is one on the spot market.
    abbrev size_of : Product → J → M Float
    size_of Product.spot d = pure (pos env.floats.one)
    size_of product d = or_throw (field api d (codes "ctMult")) >>= λ j. pure (float j)

    abbrev contract_of : AString → AString → ℤ → Product → Float → Float → Float → ContractData
    contract_of exchange_name name code product size pricetick min_volume =
        contract_post_init env.names (record {
          symbol = name;
          exchange = Exchange.okx;
          name = name;
          inst_id_code = code;
          product = product;
          size = size;
          pricetick = pricetick;
          min_volume = min_volume;
          max_volume = zero_float;
          stop_supported = false;
          history_data = true;
          net_position = true;
          option_strike = zero_float;
          option_underlying = [];
          option_type = OptionType.none;
          option_listed = 0;
          option_expiry = 0;
          option_portfolio = [];
          option_index = [];
          exchange_name = exchange_name;
          kt_symbol = [];
        })

    -- One contract, and the type of instrument that it has.
    unfoldable pub on_instrument : J → M AString
    unfolding json_to_int json_to_float product_of
    on_instrument d = do
      name ← or_throw (field_text api d (codes "instId"))
      code ← or_throw (field api d (codes "instIdCode"))
      type ← or_throw (field_text api d (codes "instType"))
      product ← product_of type
      size ← size_of product d
      tick ← or_throw (field api d (codes "tickSz"))
      least ← or_throw (field api d (codes "minSz"))
      exchange_name ← gets λ x. x.base.exchange_name
      Client.on_contract (
          contract_of exchange_name name (json_to_int api code) product size (float tick)
            (float least))
      modify (
          with_rest
            λ r. record r { product_ready = insert_id (product_number product) tt r.product_ready })
      pure type

    -- The contracts, and the type of the last one.
    unfoldable pub on_instruments : AString → List J → M AString
    unfolding on_instrument
    on_instruments type [] = pure type
    on_instruments type (d ∷ ds) = on_instrument d >>= λ next. on_instruments next ds

    -- Once there are contracts of each product, the sockets are connected.
    unfoldable pub on_query_contract : J → M (Unit {0})
    unfolding on_instruments query_order connect_ws_api
    on_query_contract packet = do
      data_ ← or_throw (field api packet (codes "data"))
      type ← on_instruments [] (api.items data_)
      log (type ++ codes " contract information query successful")
      x ← gets λ x. x
      if length x.rest_api.product_ready == length x.product_okx2kt
          then query_order >> connect_ws_api
          else skip
