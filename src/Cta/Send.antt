-- ===== src/Cta/Send.antt =====
-- app/cta_strategy/engine.cpp: sending orders. What an exchange answers to its n-th request, an order id or
-- nothing, is a parameter. The converted requests and the contracts are those of `OmsEngine`.
use keen_trader.Base.{ℕ, ◌+◌, Bool, List, [], ◌∷◌, if◌then◌else◌}
use keen_trader.Base.Text.{AString, codes, is_empty}
use keen_trader.Base.Map.{insert, add}
use keen_trader.Objects.Constant.{Direction, Offset, OrderType}
use keen_trader.Objects.Market.{Float, ContractData}
use keen_trader.Objects.Trading.{OrderRequest}
use keen_trader.Objects.Names.{EnumNames, request_post_init}
use keen_trader.Oms.Engine.{update_order_request, bound_convert_order_request}
use keen_trader.Cta.Objects.{CtaEngine, Output, send_order, orderids_of}

-- `Printf("{APP_NAME}_{strategy.strategy_name}")`: `Printf` replaces nothing in it.
abbrev pub reference_text : AString
reference_text = codes "{APP_NAME}_{strategy.strategy_name}"

unfoldable pub original_request :
    EnumNames → ContractData → Direction → Offset → Float → Float → OrderType → OrderRequest
unfolding request_post_init
original_request names contract direction offset price volume type =
    request_post_init names (record {
      symbol = contract.symbol;
      exchange = contract.exchange;
      direction = direction;
      type = type;
      volume = volume;
      price = price;
      offset = offset;
      reference = reference_text;
      exchange_name = [];
      kt_symbol = [];
    })

-- "Save relationship between orderid && strategy."
unfoldable pub save_relation : ℕ → AString → CtaEngine → CtaEngine
save_relation a kt_orderid s =
    let name = (s.objects a).strategy_name in
    record s {
      orderid_strategy_map = insert kt_orderid a s.orderid_strategy_map;
      strategy_orderid_map =
          insert name (add kt_orderid (orderids_of name s)) s.strategy_orderid_map;
    }

module _ (names : EnumNames) (reply : ℕ → OrderRequest → AString → AString) where
  -- One request that the exchange has answered.
  unfoldable pub answered : ℕ → AString → OrderRequest → AString → CtaEngine → CtaEngine
  unfolding save_relation
  answered a exchange_name req kt_orderid s =
      save_relation a kt_orderid
        (record s { oms = update_order_request names req kt_orderid exchange_name s.oms })

  unfoldable pub send_each :
      ℕ → AString → List OrderRequest → CtaEngine → (List AString) × CtaEngine × List Output
  unfolding answered
  send_each a exchange_name [] s = ([], s, [])
  send_each a exchange_name (req ∷ reqs) s =
      let kt_orderid = reply s.sent req exchange_name in
      let counted = record s { sent = s.sent + 1 } in
      let s' =
        if is_empty kt_orderid then counted else answered a exchange_name req kt_orderid counted in
      let (kt_orderids, s'', out) = send_each a exchange_name reqs s' in
      (
        if is_empty kt_orderid then kt_orderids else kt_orderid ∷ kt_orderids,
        s'',
        send_order req exchange_name ∷ out,
      )

  unfoldable pub send_server_order :
      ℕ
      → ℕ
      → ContractData
      → Direction
      → Offset
      → Float
      → Float
      → OrderType
      → Bool
      → Bool
      → CtaEngine
      → (List AString) × CtaEngine × List Output
  unfolding send_each original_request
  send_server_order one a contract direction offset price volume type lock net s =
      let req = original_request names contract direction offset price volume type in
      let (reqs, oms) = bound_convert_order_request one req contract.exchange_name lock net s.oms in
      send_each a contract.exchange_name reqs (record s { oms = oms })

  unfoldable pub send_limit_order :
      ℕ
      → ℕ
      → ContractData
      → Direction
      → Offset
      → Float
      → Float
      → Bool
      → Bool
      → CtaEngine
      → (List AString) × CtaEngine × List Output
  unfolding send_server_order
  send_limit_order one a contract direction offset price volume lock net s =
      send_server_order one a contract direction offset price volume OrderType.limit lock net s

  unfoldable pub send_server_stop_order :
      ℕ
      → ℕ
      → ContractData
      → Direction
      → Offset
      → Float
      → Float
      → Bool
      → Bool
      → CtaEngine
      → (List AString) × CtaEngine × List Output
  unfolding send_server_order
  send_server_stop_order one a contract direction offset price volume lock net s =
      send_server_order one a contract direction offset price volume OrderType.stop lock net s
