-- ===== src/Objects/Ids.antt =====
-- core/engine/object.h and core/engine/utility.cpp: symbols and order ids, which `__post_init__` joins
-- and `extract_kt_symbol` and the offset converter take apart.
use keen_trader.Base.{false, ◌≡◌, refl, some, [], ◌∷◌, ◌++◌, arith}
use keen_trader.Base.Text.{
  AString, dot, has_byte, is_empty, before_first, after_first, before_first-append,
  after_first-append,
}
use mathlib.Core.List.{append_assoc, append-nil}
use keen_trader.Objects.Constant.{Exchange}
use keen_trader.Objects.Trading.{OrderRequest, QuoteRequest}
use keen_trader.Objects.Names.{
  EnumNames, split_from, kt_symbol_of, extract_kt_symbol, create_order_data, create_quote_data,
}

split_from-plain :
    (piece t : AString)
    → has_byte dot t ≡ false
    → is_empty (piece ++ t) ≡ false
    → split_from (dot ∷ []) piece t ≡ (piece ++ t) ∷ []
unfolding split_from
split_from-plain piece [] h n = ground (arith, append-nil piece)
split_from-plain piece (c ∷ t) h n =
    ground (arith, append_assoc piece (c ∷ []) t, split_from-plain (piece ++ c ∷ []) t)

split_from-append :
    (piece s t : AString)
    → has_byte dot s ≡ false
    → split_from (dot ∷ []) piece (s ++ dot ∷ t) ≡ (piece ++ s) ∷ split_from (dot ∷ []) [] t
unfolding split_from
split_from-append piece [] t h = ground (arith, append-nil piece)
split_from-append piece (c ∷ s) t h =
    ground (arith, append_assoc piece (c ∷ []) s, split_from-append (piece ++ c ∷ []) s t)

module _ (names : EnumNames) where
  -- Taking a joined symbol apart gives the symbol and the exchange back, for every symbol without a dot.
  pub extract_kt_symbol-kt_symbol_of :
      (symbol : AString) (e : Exchange)
      → has_byte dot symbol ≡ false
      → extract_kt_symbol names (kt_symbol_of names symbol e) ≡ some (symbol, e)
  unfolding extract_kt_symbol kt_symbol_of
  extract_kt_symbol-kt_symbol_of symbol e h =
      rw
        (
          split_from-append [] symbol (names.exchange_name e) h,
          split_from-plain [] (names.exchange_name e) (names.name_plain e).0 (names.name_plain e).1,
        )
        (ground (arith, names.cast-name e))

  -- The order that a request makes has an id whose two parts, before and after the first dot, are the exchange's name and the order's own id, if that name has no dot.
  pub create_order_data_parts :
      (r : OrderRequest) (orderid name : AString)
      → has_byte dot name ≡ false
      → let o = create_order_data names r orderid name in
        (before_first dot o.kt_orderid ≡ o.exchange_name)
        × (after_first dot o.kt_orderid ≡ o.orderid)
  unfolding create_order_data
  create_order_data_parts r orderid name h =
      (before_first-append dot name orderid h, after_first-append dot name orderid h)

  -- All quotes that requests make at one exchange get the same key, whatever their ids are.
  pub create_quote_data_collide :
      (r s : QuoteRequest) (id other name : AString)
      → (create_quote_data names r id name).kt_quoteid
        ≡ (create_quote_data names s other name).kt_quoteid
  unfolding create_quote_data
  create_quote_data_collide r s id other name = refl
