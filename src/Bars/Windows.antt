-- ===== src/Bars/Windows.antt =====
-- core/engine/utility.cpp: window bars from bars. `update_bar` drops the window bar at its end, finished or not.
use keen_trader.Base.{
  ℕ, ◌≡◌, ◌≢◌, refl, sym, ap, subst, ◌∙◌, Bool, true, false, not, ◌&&◌, Option, none, some,
  eq_of_some, List, [], ◌∷◌, if◌then◌else◌, ◌++◌, Bool-cases, Option-cases, inl, inr, ◌⊎◌,
}
use keen_trader.Base.Int.{zero_float, ◌+ℤ◌, trunc}
use keen_trader.Objects.Market.{BarData}
use keen_trader.Objects.Names.{EnumNames}
use keen_trader.Bars.Generator.{
  BarGenerator, current_window, window_with, open_window, is_finished, update_bar, get_hours,
}

-- The prices of a window bar that was made of one bar alone.
abbrev pub IsCopy : ℕ → BarData → BarData → Type 0
IsCopy one b w =
    (w.open_price ≡ b.open_price)
    × (w.high_price ≡ b.high_price)
    × (w.low_price ≡ b.low_price)
    × (w.close_price ≡ b.close_price)
    × (w.volume ≡ zero_float +ℤ trunc one b.volume)

module _ (names : EnumNames) (one : ℕ) where
  window_with_none :
      (g : BarGenerator) (b : BarData)
      → g.window_bar ≡ none
      → IsCopy one b (window_with names one g b)
  unfolding window_with current_window open_window
  window_with_none g b e = rw (e, current_window) (refl, refl, refl, refl, refl)

  update_bar_at :
      (b : BarData) (g : BarGenerator) (fin : Bool) (count : ℕ)
      → is_finished g b ≡ some (fin, count)
      → update_bar names one b g ≡ (
          if fin && not g.has_on_window_bar
          then none
          else some (
            record g { window_bar = none; interval_count = count; last_bar = some b },
            if fin then window_with names one g b ∷ [] else [],
          ))
  unfolding update_bar
  update_bar_at b g fin count e = rw (e, update_bar)

  update_bar_stops :
      (b : BarData) (g : BarGenerator) → is_finished g b ≡ none → update_bar names one b g ≡ none
  unfolding update_bar
  update_bar_stops b g e = rw (e, update_bar)

  copies :
      (b : BarData) (g : BarGenerator) (fin : Bool)
      → g.window_bar ≡ none
      → let out = if fin then window_with names one g b ∷ [] else [] in
        (out ≡ []) ⊎ ((w : BarData) × (out ≡ w ∷ []) × IsCopy one b w)
  copies b g true e = inr (window_with names one g b, refl, window_with_none g b e)
  copies b g false e = inl refl

  -- Every window bar is made of a single bar, the one that finishes it: from a generator with no window bar under way, one bar leaves none under way, and hands over nothing or a copy of that bar.
  pub update_bar_copies :
      (b : BarData) (g g' : BarGenerator) (out : List BarData)
      → g.window_bar ≡ none
      → update_bar names one b g ≡ some (g', out)
      → (g'.window_bar ≡ none) × ((out ≡ []) ⊎ ((w : BarData) × (out ≡ w ∷ []) × IsCopy one b w))
  update_bar_copies b g g' out e h = elim (Option-cases (is_finished g b)) [
    | inl stops ↦ cc (update_bar_stops b g stops)
    | inr (r, finished) ↦ elim (Bool-cases (r.0 && not g.has_on_window_bar)) [
      | inl throws ↦
          let stops : update_bar names one b g ≡ none =
            update_bar_at b g r.0 r.1 finished ∙ rw throws refl in
          cc (stops, h)
      | inr called ↦
          let left = record g { window_bar = none; interval_count = r.1; last_bar = some b } in
          let out' = if r.0 then window_with names one g b ∷ [] else [] in
          let done : update_bar names one b g ≡ some (left, out') =
            update_bar_at b g r.0 r.1 finished ∙ rw called refl in
          let same = eq_of_some (sym done ∙ h) in
          (
            sym (ap (λ x. x.0.window_bar) same),
            subst (λ o. (o ≡ []) ⊎ ((w : BarData) × (o ≡ w ∷ []) × IsCopy one b w))
                (ap (λ x. x.1) same) (copies b g r.0 e),
          )
    ]
  ]

-- The bars of successive hours, after a bar.
abbrev pub HoursChange : BarData → List BarData → Type 0
HoursChange last [] = Unit
HoursChange last (b ∷ bs) = (get_hours b.datetime ≢ get_hours last.datetime) × HoursChange b bs

-- Window bars that are each a copy of the bar at its place.
abbrev pub AreCopies : ℕ → List BarData → List BarData → Type 0
AreCopies one [] ws = ws ≡ []
AreCopies one (b ∷ bs) ws =
    (w : BarData) × (rest : List BarData) × (ws ≡ w ∷ rest) × IsCopy one b w × AreCopies one bs rest

module _ (names : EnumNames) (one : ℕ) where
  -- Bars one after the other, with the window bars that they hand over.
  unfoldable pub update_bars : List BarData → BarGenerator → Option (BarGenerator × List BarData)
  update_bars [] g = some (g, [])
  update_bars (b ∷ bs) g = elim (update_bar names one b g) [
    | none ↦ none
    | some (h, out) ↦ elim (update_bars bs h) [
      | none ↦ none
      | some (k, later) ↦ some (k, out ++ later)
    ]
  ]
