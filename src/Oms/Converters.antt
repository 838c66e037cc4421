-- ===== src/Oms/Converters.antt =====
-- core/engine/engine.cpp: a contract event makes a converter only where there is one already, so there never is one.
use keen_trader.Base.{ℕ, ◌≡◌, refl, ap, Bool, none, List, [], ◌∷◌}
use keen_trader.Base.Text.{AString}
use keen_trader.Base.Map.{lookup}
use keen_trader.Objects.Trading.{OrderRequest}
use keen_trader.Objects.Names.{EnumNames}
use keen_trader.Converter.Dispatch.{OffsetConverter}
use keen_trader.Oms.Engine.{
  OmsEngine, OmsEvent, init, with_converter, step, run, convert_order_request, tick, order, trade,
  position, account, contract, quote, order_request,
}

with_converter_none :
    (n : AString) (f : OffsetConverter → OffsetConverter) (s : OmsEngine)
    → s.offset_converters ≡ []
    → (with_converter n f s).offset_converters ≡ []
unfolding with_converter lookup
with_converter_none n f s e = rw (e, with_converter) e

pub unconverted :
    (one : ℕ) (req : OrderRequest) (name : AString) (lock net : Bool) (s : OmsEngine)
    → s.offset_converters ≡ []
    → convert_order_request one req name lock net s ≡ (req ∷ [], s)
unfolding convert_order_request lookup
unconverted one req name lock net s h =
    let absent : lookup name s.offset_converters ≡ none = ap (lookup name) h in
    rw (absent, convert_order_request)

module _ (names : EnumNames) where
  step_none :
      (e : OmsEvent) (s : OmsEngine)
      → s.offset_converters ≡ []
      → (step names e s).offset_converters ≡ []
  unfolding step lookup
  step_none (tick d) s h = h
  step_none (order d) s h = with_converter_none _ _ _ h
  step_none (trade d) s h = with_converter_none _ _ _ h
  step_none (position d) s h = with_converter_none _ _ _ h
  step_none (account d) s h = h
  step_none (contract d) s h = rw h refl
  step_none (quote d) s h = h
  step_none (order_request req kt_orderid name) s h = with_converter_none _ _ _ h

  run_none :
      (es : List OmsEvent) (s : OmsEngine)
      → s.offset_converters ≡ []
      → (run names es s).offset_converters ≡ []
  unfolding run
  run_none [] s h = h
  run_none (e ∷ es) s h = run_none es (step names e s) (step_none e s h)

  -- After any history of a new engine, contract events included, no request is ever converted: each comes back as it is, whatever the exchange, the lock and the net mode.
  pub run_never_converts :
      (es : List OmsEvent) (one : ℕ) (req : OrderRequest) (name : AString) (lock net : Bool)
      → let s = run names es init in convert_order_request one req name lock net s ≡ (req ∷ [], s)
  run_never_converts es one req name lock net =
      unconverted one req name lock net (run names es init) (run_none es init refl)
