-- ===== src/Converter/Dispatch.antt =====
-- core/engine/converter.cpp: `OffsetConverter`, a holding for each symbol, made when it is first needed.
-- `get_contract` is the engine's function of that name, `one` the number of units in 1.0.
use keen_trader.Base.{
  ℕ, ◌≡◌, refl, ◌∙◌, Bool, true, false, not, Option, none, some, List, [], ◌∷◌, arith,
  if◌then◌else◌, Bool-cases, Option-cases, inl, inr,
}
use keen_trader.Base.Text.{AString, str_eq}
use keen_trader.Base.Map.{Map, lookup, insert, lookup-insert, lookup-insert_self}
use keen_trader.Objects.Market.{ContractData}
use keen_trader.Objects.Trading.{OrderData, TradeData, PositionData, OrderRequest}
use keen_trader.Objects.Names.{EnumNames}
use keen_trader.Converter.Holding.{
  PositionHolding, init, is_shfe_or_ine, update_position, update_trade, update_order,
  update_order_request,
}
use keen_trader.Converter.Convert.{
  convert_order_request_shfe, convert_order_request_lock, convert_order_request_net,
}

pub record OffsetConverter : Type 0 where
  pub holdings : Map PositionHolding

abbrev pub new_converter : OffsetConverter
new_converter = record { holdings = [] }

module _ (get_contract : AString → Option ContractData) where
  unfoldable pub is_convert_required : AString → Bool
  is_convert_required kt_symbol = elim (get_contract kt_symbol) [
    | none ↦ false
    | some c ↦ not c.net_position
  ]

  -- `none` is the dereference of `holdings.end()`.
  unfoldable pub get_position_holding :
      AString → OffsetConverter → Option (PositionHolding × OffsetConverter)
  get_position_holding kt_symbol c = elim (lookup kt_symbol c.holdings) [
    | some h ↦ some (h, c)
    | none ↦ elim (get_contract kt_symbol) [
      | none ↦ none
      | some contract ↦
          some (init contract, record { holdings = insert kt_symbol (init contract) c.holdings })
    ]
  ]

  -- A method called through the pointer that `get_position_holding` returns: it changes the holding in place. `get_position_holding_defined` shows that the first case is not met.
  unfoldable pub with_holding :
      AString → (PositionHolding → PositionHolding) → OffsetConverter → OffsetConverter
  unfolding get_position_holding
  with_holding kt_symbol f c = elim (get_position_holding kt_symbol c) [
    | none ↦ c
    | some (h, c') ↦ record { holdings = insert kt_symbol (f h) c'.holdings }
  ]

  unfoldable pub guarded :
      AString → (PositionHolding → PositionHolding) → OffsetConverter → OffsetConverter
  unfolding is_convert_required with_holding
  guarded kt_symbol f c =
      if not (is_convert_required kt_symbol) then c else with_holding kt_symbol f c

  unfoldable pub converter_update_position : PositionData → OffsetConverter → OffsetConverter
  unfolding guarded
  converter_update_position p c = guarded p.kt_symbol (update_position p) c

  unfoldable pub converter_update_trade : TradeData → OffsetConverter → OffsetConverter
  unfolding guarded
  converter_update_trade t c = guarded t.kt_symbol (update_trade t) c

  unfoldable pub converter_update_order : OrderData → OffsetConverter → OffsetConverter
  unfolding guarded
  converter_update_order o c = guarded o.kt_symbol (update_order o) c

  unfoldable pub converter_update_order_request :
      EnumNames → OrderRequest → AString → OffsetConverter → OffsetConverter
  unfolding guarded
  converter_update_order_request names req kt_orderid c =
      guarded req.kt_symbol (update_order_request names req kt_orderid) c

  unfoldable pub convert_with : ℕ → PositionHolding → OrderRequest → Bool → Bool → List OrderRequest
  convert_with one h req lock net =
      if lock
      then convert_order_request_lock one h req
      else if net
      then convert_order_request_net one h req
      else if is_shfe_or_ine req.exchange
      then convert_order_request_shfe one h req
      else req ∷ []

  unfoldable pub convert_order_request :
      ℕ → OrderRequest → Bool → Bool → OffsetConverter → List OrderRequest × OffsetConverter
  unfolding is_convert_required get_position_holding convert_with
  convert_order_request one req lock net c =
      if not (is_convert_required req.kt_symbol)
      then (req ∷ [], c)
      else elim (get_position_holding req.kt_symbol c) [
        | none ↦ ([], c)
        | some (h, c') ↦ (convert_with one h req lock net, c')
      ]

  -- The holding of a symbol, or the empty one that its contract makes.
  abbrev pub holding_of : AString → ContractData → OffsetConverter → PositionHolding
  holding_of k contract c = elim (lookup k c.holdings) [ none ↦ init contract | some h ↦ h ]

  not_required : (k : AString) → get_contract k ≡ none → is_convert_required k ≡ false
  unfolding is_convert_required
  not_required k e = ground arith

  required_contract :
      (k : AString)
      → is_convert_required k ≡ true
      → (contract : ContractData) × (get_contract k ≡ some contract)
  required_contract k h = elim (Option-cases (get_contract k)) [
    | inl e ↦ cc (not_required k e)
    | inr found ↦ found
  ]

  pub required_of_contract :
      (k : AString) (contract : ContractData)
      → get_contract k ≡ some contract
      → contract.net_position ≡ false
      → is_convert_required k ≡ true
  unfolding is_convert_required
  required_of_contract k contract e n = ground arith

  holding_new :
      (k : AString) (c : OffsetConverter) (contract : ContractData)
      → lookup k c.holdings ≡ none
      → get_contract k ≡ some contract
      → get_position_holding k c
        ≡ some (init contract, record { holdings = insert k (init contract) c.holdings })
  unfolding get_position_holding
  holding_new k c contract new e = ground arith

  holding_old :
      (k : AString) (c : OffsetConverter) (h : PositionHolding)
      → lookup k c.holdings ≡ some h
      → get_position_holding k c ≡ some (h, c)
  unfolding get_position_holding
  holding_old k c h old = ground arith

  holding_found :
      (k : AString) (c : OffsetConverter) (contract : ContractData)
      → get_contract k ≡ some contract
      → (c' : OffsetConverter) × (get_position_holding k c ≡ some (holding_of k contract c, c'))
        × (lookup k c'.holdings ≡ some (holding_of k contract c))
        × ((j : AString) → str_eq k j ≡ false → lookup j c'.holdings ≡ lookup j c.holdings)
  holding_found k c contract e = elim (Option-cases (lookup k c.holdings)) [
    | inl new ↦ (
      record { holdings = insert k (init contract) c.holdings },
      holding_new k c contract new e ∙ ground arith,
      lookup-insert_self k (init contract) c.holdings ∙ ground arith,
      λ j other. lookup-insert k j (init contract) c.holdings ∙ rw other,
    )
    | inr (h, old) ↦ (c, holding_old k c h old ∙ ground arith, ground arith, λ j other. refl)
  ]

  -- Where the guard of every caller has passed, the holding is found or made: the iterator is never dereferenced at the end, and the holding is in the map afterwards.
  pub get_position_holding_defined :
      (k : AString) (c : OffsetConverter)
      → is_convert_required k ≡ true
      → (h : PositionHolding) × (c' : OffsetConverter) × (get_position_holding k c ≡ some (h, c'))
        × (lookup k c'.holdings ≡ some h)
  get_position_holding_defined k c required =
      let (contract, e) = required_contract k required in
      let (c', found, kept, others) = holding_found k c contract e in
      (holding_of k contract c, c', found, kept)

  with_holding_at :
      (k : AString) (f : PositionHolding → PositionHolding) (c c' : OffsetConverter)
      (h : PositionHolding)
      → get_position_holding k c ≡ some (h, c')
      → with_holding k f c ≡ record { holdings = insert k (f h) c'.holdings }
  unfolding with_holding
  with_holding_at k f c c' h e = rw (e, with_holding)

  guarded_required :
      (k : AString) (f : PositionHolding → PositionHolding) (c : OffsetConverter)
      → is_convert_required k ≡ true
      → guarded k f c ≡ with_holding k f c
  unfolding guarded
  guarded_required k f c e = rw e

  -- An update through the converter runs the holding's method on the symbol's holding, made from its contract when it is new, and leaves every other symbol's alone.
  pub lookup-guarded :
      (k j : AString) (f : PositionHolding → PositionHolding) (c : OffsetConverter)
      (contract : ContractData)
      → get_contract k ≡ some contract
      → contract.net_position ≡ false
      → lookup j (guarded k f c).holdings
        ≡ (if str_eq k j then some (f (holding_of k contract c)) else lookup j c.holdings)
  lookup-guarded k j f c contract e n =
      let (c', found, kept, others) = holding_found k c contract e in
      let h = holding_of k contract c in
      rw
        (
          guarded_required k f c (required_of_contract k contract e n),
          with_holding_at k f c c' h found,
          lookup-insert k j (f h) c'.holdings,
        )
        (elim (Bool-cases (str_eq k j)) [
          | inl same ↦ rw same
          | inr other ↦ rw (other, others j other)
        ])

  -- A symbol with no contract, or whose contract is held net, is never converted and never tracked.
  pub not_required_unchanged :
      (one : ℕ) (req : OrderRequest) (lock net : Bool) (f : PositionHolding → PositionHolding)
      (c : OffsetConverter)
      → is_convert_required req.kt_symbol ≡ false
      → (convert_order_request one req lock net c ≡ (req ∷ [], c)) × (guarded req.kt_symbol f c ≡ c)
  unfolding convert_order_request guarded
  not_required_unchanged one req lock net f c h = rw h (refl, refl)
