-- ===== src/Cta/Orders.antt =====
-- app/cta_strategy/engine.cpp: orders and cancels of strategies. `none` is a strategy that is not
-- there, an exception that nothing catches, or a price step of zero.
use keen_trader.Base.{
  ℕ, Bool, true, false, Option, none, some, List, [], ◌∷◌, ◌++◌, if◌then◌else◌, ◌==◌,
}
use keen_trader.Base.Text.{AString}
use keen_trader.Base.Map.{AStringSet, insert}
use keen_trader.Objects.Constant.{Direction, Offset}
use keen_trader.Objects.Market.{Float, ContractData}
use keen_trader.Objects.Trading.{OrderRequest}
use keen_trader.Objects.Names.{EnumNames, create_cancel_request}
use keen_trader.Oms.Engine.{get_contract, get_order}
use keen_trader.Cta.Objects.{
  CtaEngine, Output, cancel_order, log, contract_not_found, order_not_found, orderids_of,
}
use keen_trader.Cta.Rounding.{round_to}
use keen_trader.Cta.Send.{send_server_stop_order, send_limit_order}
use keen_trader.Cta.StopOrders.{stoporder_prefix, send_local_stop_order, cancel_local_stop_order}

-- One step after another, with the outputs of both.
infixl 60 ◌then_do◌
unfoldable pub ◌then_do◌ :
    Option (CtaEngine × List Output)
    → (CtaEngine → Option (CtaEngine × List Output))
    → Option (CtaEngine × List Output)
none then_do f = none
some (s, out) then_do f = elim (f s) [ none ↦ none | some (s', later) ↦ some (s', out ++ later) ]

-- `kt_orderid.find(prefix) == 0`
unfoldable pub starts_with : AString → AString → Bool
starts_with [] s = true
starts_with (x ∷ xs) [] = false
starts_with (x ∷ xs) (y ∷ ys) = if x == y then starts_with xs ys else false

module _ (names : EnumNames) where
  unfoldable pub cancel_server_order : AString → CtaEngine → CtaEngine × List Output
  cancel_server_order kt_orderid s = elim (get_order s.oms kt_orderid) [
    | none ↦ (s, log (order_not_found kt_orderid) ∷ [])
    | some order ↦ (s, cancel_order (create_cancel_request names order) order.exchange_name ∷ [])
  ]

  unfoldable pub cancel_by_id : AString → CtaEngine → Option (CtaEngine × List Output)
  unfolding starts_with cancel_server_order cancel_local_stop_order
  cancel_by_id kt_orderid s =
      if starts_with stoporder_prefix kt_orderid
      then cancel_local_stop_order kt_orderid s
      else some (cancel_server_order kt_orderid s)

  unfoldable pub cancel_each : AStringSet → CtaEngine → Option (CtaEngine × List Output)
  unfolding cancel_by_id ◌then_do◌
  cancel_each [] s = some (s, [])
  cancel_each (o ∷ os) s = cancel_by_id o s then_do cancel_each os

  -- `strategy_orderid_map[strategy_name]` makes the entry, and the loop walks a copy of it.
  unfoldable pub cancel_all : ℕ → CtaEngine → Option (CtaEngine × List Output)
  unfolding cancel_each
  cancel_all a s =
      let name = (s.objects a).strategy_name in
      let kt_orderids = orderids_of name s in
      cancel_each kt_orderids
        (record s { strategy_orderid_map = insert name kt_orderids s.strategy_orderid_map })

module _ (names : EnumNames) (reply : ℕ → OrderRequest → AString → AString) (one : ℕ) where
  unfoldable pub send_rounded :
      ℕ
      → ContractData
      → Direction
      → Offset
      → Float
      → Float
      → Bool
      → Bool
      → Bool
      → CtaEngine
      → (List AString) × CtaEngine × List Output
  unfolding send_limit_order send_server_stop_order send_local_stop_order
  send_rounded a contract direction offset price volume stop lock net s =
      if stop
      then if contract.stop_supported
        then send_server_stop_order names reply one a contract direction offset price volume lock
            net s
        else send_local_stop_order a direction offset price volume lock net s
      else send_limit_order names reply one a contract direction offset price volume lock net s

  -- Called for the strategy at an address.
  unfoldable pub send_by_strategy :
      ℕ
      → Direction
      → Offset
      → Float
      → Float
      → Bool
      → Bool
      → Bool
      → CtaEngine
      → Option ((List AString) × CtaEngine × List Output)
  unfolding send_rounded round_to
  send_by_strategy a direction offset price volume stop lock net s =
      let kt_symbol = (s.objects a).kt_symbol in
      elim (get_contract s.oms kt_symbol) [
        | none ↦ some ([], s, log (contract_not_found kt_symbol) ∷ [])
        | some contract ↦ elim (round_to price contract.pricetick) [
          | none ↦ none
          | some price' ↦ elim (round_to volume contract.min_volume) [
            | none ↦ none
            | some volume' ↦
                some (send_rounded a contract direction offset price' volume' stop lock net s)
          ]
        ]
      ]
