-- ===== src/Events/Handlers.antt =====
-- core/event/event.cpp: `Event`, the registration of handlers and `_process`. A handler is a
-- `std::function`: two are taken for one another when their `target_type` is the same. What it does is
-- not looked into: `_process` gives the calls that it makes, in their order.
use keen_trader.Base.{
  ℕ, ◌≡◌, refl, ◌∙◌, Bool, true, false, not, ◌||◌, ◌&&◌, List, [], ◌∷◌, ◌++◌, map, arith,
  if◌then◌else◌, ◌==◌, Bool-cases, inl, inr,
}
use mathlib.Core.List.{append-nil}
use keen_trader.Base.Text.{AString, str_eq, str_eq_refl}

-- `std::any data` is a value of the type `D`.
pub record Event (D : Type 0) : Type 0 where
  pub type : AString
  pub payload : D

-- `target` is the identity of `target_type`, `callee` that of the callable itself.
pub record Handler : Type 0 where
  pub target : ℕ
  pub callee : ℕ

pub record Emitter : Type 0 where
  pub handlers : List (AString × Handler)
  pub general_handlers : List Handler

abbrev pub same_target : Handler → Handler → Bool
same_target h k = h.target == k.target

-- The handlers of `equal_range(type)`.
unfoldable pub equal_range : AString → List (AString × Handler) → List Handler
equal_range type [] = []
equal_range type ((t, h) ∷ hs) =
    if str_eq t type then h ∷ equal_range type hs else equal_range type hs

unfoldable pub has_target : Handler → List Handler → Bool
has_target h [] = false
has_target h (k ∷ ks) = same_target k h || has_target h ks

unfoldable pub register_handler : AString → Handler → Emitter → Emitter
register_handler type h e =
    if has_target h (equal_range type e.handlers)
    then e
    else record e { handlers = e.handlers ++ (type, h) ∷ [] }

unfoldable pub erase_first : AString → Handler → List (AString × Handler) → List (AString × Handler)
erase_first type h [] = []
erase_first type h ((t, k) ∷ hs) =
    if str_eq t type && same_target k h then hs else (t, k) ∷ erase_first type h hs

unfoldable pub unregister_handler : AString → Handler → Emitter → Emitter
unfolding erase_first
unregister_handler type h e = record e { handlers = erase_first type h e.handlers }

unfoldable pub register_general : Handler → Emitter → Emitter
register_general h e =
    if has_target h e.general_handlers
    then e
    else record e { general_handlers = e.general_handlers ++ h ∷ [] }

unfoldable pub erase_general : Handler → List Handler → List Handler
erase_general h [] = []
erase_general h (k ∷ ks) = if same_target k h then ks else k ∷ erase_general h ks

unfoldable pub unregister_general : Handler → Emitter → Emitter
unfolding erase_general
unregister_general h e = record e { general_handlers = erase_general h e.general_handlers }

-- The calls that `_process` makes: the handlers of the event's type, then the general ones.
unfoldable pub process : {D : Type 0} → Emitter → Event D → List (Handler × Event D)
process e event =
    map (λ h. (h, event)) (equal_range event.type e.handlers)
    ++ map (λ h. (h, event)) e.general_handlers

equal_range-append :
    (type : AString) (hs ks : List (AString × Handler))
    → equal_range type (hs ++ ks) ≡ equal_range type hs ++ equal_range type ks
unfolding equal_range
equal_range-append type [] ks = refl
equal_range-append type ((t, h) ∷ hs) ks = ground (arith, equal_range-append type hs ks)

has_target-append_self : (h : Handler) (hs : List Handler) → has_target h (hs ++ h ∷ []) ≡ true
unfolding has_target
has_target-append_self h [] = ground arith
has_target-append_self h (k ∷ hs) = ground (arith, has_target-append_self h hs)

new_range :
    (type other : AString) (h : Handler) (hs : List Handler)
    → hs ++ equal_range other ((type, h) ∷ [])
      ≡ (if str_eq type other && true then hs ++ h ∷ [] else hs)
unfolding equal_range
new_range type other h hs = elim (Bool-cases (str_eq type other)) [
  | inl y ↦ rw y
  | inr n ↦ rw n (append-nil hs)
]

has_target_same :
    (h k : Handler) (hs : List Handler) → same_target h k ≡ true → has_target k hs ≡ has_target h hs
unfolding has_target
has_target_same h k [] same = refl
has_target_same h k (i ∷ hs) same = ground (arith, has_target_same h k hs)

erase_first-append_new :
    (type : AString) (h : Handler) (hs : List (AString × Handler))
    → has_target h (equal_range type hs) ≡ false
    → erase_first type h (hs ++ (type, h) ∷ []) ≡ hs
unfolding erase_first has_target equal_range
erase_first-append_new type h [] new = ground (arith, str_eq_refl type)
erase_first-append_new type h ((t, k) ∷ hs) new = elim (Bool-cases (str_eq t type)) [
  | inl same ↦ ground (arith, erase_first-append_new type h hs)
  | inr other ↦ ground (arith, erase_first-append_new type h hs)
]

-- Registering a handler adds it at the end of its type's handlers, unless one of the same target type is there, and leaves the other types' and the general handlers alone.
pub register_handler_range :
    (type other : AString) (h : Handler) (e : Emitter)
    → let e' = register_handler type h e in
      (equal_range other e'.handlers ≡ (
        if str_eq type other && not (has_target h (equal_range type e.handlers))
        then equal_range other e.handlers ++ h ∷ []
        else equal_range other e.handlers))
      × (e'.general_handlers ≡ e.general_handlers)
unfolding register_handler
register_handler_range type other h e =
    elim (Bool-cases (has_target h (equal_range type e.handlers))) [
      | inl there ↦
          rw there ((elim (Bool-cases (str_eq type other)) [ inl y ↦ rw y | inr n ↦ rw n ]), refl)
      | inr new ↦
          rw (new, equal_range-append other e.handlers ((type, h) ∷ []))
            (new_range type other h (equal_range other e.handlers), refl)
    ]

-- A second registration of the same target type changes nothing, whatever the callable: a second object of one class gets no events.
pub register_handler_once :
    (type : AString) (h k : Handler) (e : Emitter)
    → same_target h k ≡ true
    → register_handler type k (register_handler type h e) ≡ register_handler type h e
unfolding register_handler
register_handler_once type h k e same =
    elim (Bool-cases (has_target h (equal_range type e.handlers))) [
      | inl there ↦ rw (there, has_target_same h k (equal_range type e.handlers) same, there)
      | inr new ↦ rw (new, registered) refl
    ]
  where
    registered : has_target k (equal_range type (e.handlers ++ (type, h) ∷ [])) ≡ true
    registered =
        has_target_same h k (equal_range type (e.handlers ++ (type, h) ∷ [])) same
        ∙ rw
            (
              equal_range-append type e.handlers ((type, h) ∷ []),
              new_range type type h (equal_range type e.handlers),
              str_eq_refl type,
            )
            (has_target-append_self h (equal_range type e.handlers))

-- Removing a handler that was new when it was registered restores the emitter.
pub unregister-register :
    (type : AString) (h : Handler) (e : Emitter)
    → has_target h (equal_range type e.handlers) ≡ false
    → unregister_handler type h (register_handler type h e) ≡ e
unfolding unregister_handler register_handler
unregister-register type h e new = rw (new, erase_first-append_new type h e.handlers new)
