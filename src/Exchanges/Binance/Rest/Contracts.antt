-- ===== src/Exchanges/Binance/Rest/Contracts.antt =====
-- core/exchange/binance_linear_exchange.cpp: `BinanceRestApi::on_query_contract`.
use keen_trader.Base.{Bool, true, false, not, ◌&&◌, List, [], ◌∷◌, ◌++◌, if◌then◌else◌}
use keen_trader.Base.Int.{pos, zero_float}
use keen_trader.Base.Text.{AString, codes, str_eq, is_empty}
use keen_trader.Base.Map.{found_or, lookup}
use keen_trader.Objects.Constant.{Exchange, OptionType, Product, swap}
use keen_trader.Objects.Market.{Float, ContractData}
use keen_trader.Objects.Names.{contract_post_init}
use keen_trader.Exchanges.Json.{JsonApi}
use keen_trader.Exchanges.Binance.Names.{product_binance2kt}
use keen_trader.Exchanges.Binance.State.{
  Env, M, gets, log, for_each, ◌>>=◌, ◌>>◌, pure, skip, or_throw,
}
use keen_trader.Exchanges.Binance.Linear
use keen_trader.Exchanges.Binance.Linear.{rest_set_position_mode}
use keen_trader.Exchanges.Binance.User.{start_user_stream, array_at}
use keen_trader.Exchanges.Binance.Rest.Requests.{query_order, query_account, query_position}

-- The filters that have been read: the tick, and the least and the largest volume.
pub record Filters : Type 0 where
  pub pricetick : Float
  pub min_volume : Float
  pub max_volume : Float

module _ (env : Env) where
  module _ {J : Type 0} (api : JsonApi J) where
    abbrev pub default_filters : Filters
    default_filters = record {
      pricetick = pos env.floats.one;
      min_volume = pos env.floats.one;
      max_volume = pos env.floats.one;
    }

    unfoldable pub read_number : J → AString → AString → M Float
    read_number f key default = do
      text ← or_throw (api.value_text f key default)
      or_throw (env.floats.stof text)

    unfoldable pub read_filter : J → Filters → M Filters
    unfolding read_number
    read_filter f known = do
      t ← or_throw (api.value_text f (codes "filterType") [])
      let price : M Filters = do
        pricetick ← read_number f (codes "tickSize") (codes "1")
        pure (record known { pricetick = pricetick })
      let lot : M Filters = do
        min_volume ← read_number f (codes "minQty") (codes "1")
        max_volume ← read_number f (codes "maxQty") (codes "0")
        pure (record known { min_volume = min_volume; max_volume = max_volume })
      if str_eq t (codes "PRICE_FILTER")
          then price
          else if str_eq t (codes "LOT_SIZE")
          then lot
          else pure known

    unfoldable pub read_filters : List J → Filters → M Filters
    unfolding read_filter
    read_filters [] known = pure known
    read_filters (f ∷ fs) known = read_filter f known >>= read_filters fs

    abbrev is_swap : Product → Bool
    is_swap swap = true
    is_swap _ = false

    unfoldable pub contract_of : AString → AString → Product → Filters → ContractData
    contract_of exchange_name name product filters = contract_post_init env.names (record {
      symbol = if is_swap product then name ++ codes "_SWAP" else name;
      exchange = Exchange.binance;
      name = name;
      inst_id_code = pos 0;
      product = product;
      size = pos env.floats.one;
      pricetick = filters.pricetick;
      min_volume = filters.min_volume;
      max_volume = filters.max_volume;
      stop_supported = true;
      history_data = true;
      net_position = true;
      option_strike = zero_float;
      option_underlying = [];
      option_type = OptionType.none;
      option_listed = 0;
      option_expiry = 0;
      option_portfolio = [];
      option_index = [];
      exchange_name = exchange_name;
      kt_symbol = [];
    })

    unfoldable pub on_symbol : J → M (Unit {0})
    unfolding read_filters array_at contract_of
    on_symbol d = do
      filters ← read_filters (array_at env api d (codes "filters")) default_filters
      type ← or_throw (api.value_text d (codes "contractType") (codes "PERPETUAL"))
      name ← or_throw (api.value_text d (codes "symbol") [])
      exchange_name ← gets λ x. x.base.exchange_name
      let product = found_or swap (lookup type product_binance2kt)
      Linear.on_contract (contract_of exchange_name name product filters)

    -- With keys the account is asked for.
    unfoldable pub query_private : M (Unit {0})
    unfolding query_order query_account query_position start_user_stream
    query_private = do
      r ← gets λ x. x.rest_api
      if not (is_empty r.key) && not (is_empty r.secret)
          then query_order >> query_account >> query_position >> start_user_stream
          else skip

    unfoldable pub on_query_contract : J → M (Unit {0})
    unfolding on_symbol query_private
    on_query_contract packet =
        if api.contains packet (codes "symbols")
        then for_each (api.items (api.at packet (codes "symbols"))) on_symbol
          >> log (codes "Contract data received")
          >> query_private
        else skip
