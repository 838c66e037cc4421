-- ===== src/Events/Drain.antt =====
-- core/event/event.cpp: that the worker always wakes for what is in the queue.
use keen_trader.Base.{
  ◌⊎◌, inl, inr, Bool-cases, ◌≡◌, refl, sym, subst, true, false, List, [], ◌∷◌, ◌++◌,
}
use mathlib.Core.List.{append-nil, append_assoc}
use keen_trader.Events.Handlers.{Event}
use keen_trader.Events.Queue.{
  Pipeline, started, put, stop, sleep, wake, take_front, run_task, fail_task, Step, puts, stops,
  sleeps, wakes, takes, runs, fails, Reach, here, next, trail, Reach-fifo,
}

module _ {D : Type 0} where
  Reach-append :
      {p q r : Pipeline D} {a : List (Event D)} (b : List (Event D))
      → Reach p a q
      → Reach q b r
      → Reach p (a ++ b) r
  Reach-append b first (here h) = rw (h, append-nil) first
  Reach-append {a = a} b first (next {before = c} {es = es} r s h) =
      next (Reach-append c first r) s (rw h (sym (append_assoc a c es)))

  run_all :
      (ps : List (Event D)) (p : Pipeline D)
      → p.looping ≡ true
      → p.posted ≡ ps
      → Reach p [] (record p { posted = []; processed = p.processed ++ ps })
  unfolding run_task
  run_all [] p l h =
      subst (λ l. Reach p [] (record p { posted = l; processed = p.processed ++ [] })) h
        (rw append-nil (here refl))
  run_all (e ∷ ps) p l h = Reach-append [] (next (here refl) (runs e ps l h refl) refl) (
      subst (λ l. Reach (run_task e ps p) [] (record p { posted = []; processed = l }))
        (append_assoc p.processed (e ∷ []) ps) (run_all ps (run_task e ps p) l refl))

  take_all :
      (q : List (Event D)) (p : Pipeline D)
      → p.active ≡ true
      → p.waiting ≡ false
      → p.queue ≡ q
      → Reach p [] (record p { queue = []; posted = p.posted ++ q })
  unfolding take_front
  take_all [] p on w h =
      subst (λ l. Reach p [] (record p { queue = l; posted = p.posted ++ [] })) h
        (rw append-nil (here refl))
  take_all (e ∷ q) p on w h = Reach-append [] (next (here refl) (takes e q on w h refl) refl) (
      subst (λ l. Reach (take_front e q p) [] (record p { queue = []; posted = l }))
        (append_assoc p.posted (e ∷ []) q) (take_all q (take_front e q p) on w refl))

  -- A worker that waits has nothing to take, or a signal that wakes it.
  record IsAwake (p : Pipeline D) : Type 0 where
    awake : p.waiting ≡ true → (p.queue ≡ []) ⊎ (p.signalled ≡ true)

  Step-IsAwake : {p q : Pipeline D} {es : List (Event D)} → Step p es q → IsAwake p → IsAwake q
  unfolding put stop sleep wake take_front run_task fail_task
  Step-IsAwake (puts e h) i = record { awake = λ w. inr refl }
  Step-IsAwake (stops h) i = record { awake = λ w. inr refl }
  Step-IsAwake (sleeps a w f h) i = record { awake = λ v. inl f }
  Step-IsAwake (wakes w f h) i = record { awake = λ v. absurd (cc v) }
  Step-IsAwake (takes e q a w f h) i = record { awake = λ v. absurd (cc (v, w)) }
  Step-IsAwake (runs e ps l f h) i = record { awake = i.awake }
  Step-IsAwake (fails e ps l f h) i = record { awake = i.awake }

  Reach-IsAwake : {p : Pipeline D} {all : List (Event D)} → Reach started all p → IsAwake p
  Reach-IsAwake (here h) = record { awake = λ w. absurd (cc w) }
  Reach-IsAwake (next r s h) = Step-IsAwake s (Reach-IsAwake r)

  -- From here everything that waits can reach `_process`, with no further event put.
  record CanDrain (p : Pipeline D) : Type 0 where
    last : Pipeline D
    reached : Reach p [] last
    no_queue : last.queue ≡ []
    none_posted : last.posted ≡ []

  empty-CanDrain : (p : Pipeline D) → p.looping ≡ true → p.queue ≡ [] → CanDrain p
  empty-CanDrain p on none_left = record {
    last = record p { posted = []; processed = p.processed ++ p.posted };
    reached = run_all p.posted p on refl;
    no_queue = none_left;
    none_posted = refl;
  }

  active-CanDrain :
      (p : Pipeline D) → p.active ≡ true → p.looping ≡ true → p.waiting ≡ false → CanDrain p
  active-CanDrain p on loops w =
      let taken : Pipeline D = record p { queue = []; posted = p.posted ++ p.queue } in
      let rest = empty-CanDrain taken loops refl in
      record {
        last = rest.last;
        reached = Reach-append [] (take_all p.queue p on w refl) rest.reached;
        no_queue = rest.no_queue;
        none_posted = rest.none_posted;
      }

  signalled-CanDrain :
      (p : Pipeline D)
      → p.active ≡ true
      → p.looping ≡ true
      → p.waiting ≡ true
      → p.signalled ≡ true
      → CanDrain p
  unfolding wake
  signalled-CanDrain p on loops w sig =
      let rest = active-CanDrain (wake p) on loops refl in
      record {
        last = rest.last;
        reached = Reach-append [] (next (here refl) (wakes w sig refl) refl) rest.reached;
        no_queue = rest.no_queue;
        none_posted = rest.none_posted;
      }

  IsAwake-CanDrain : (p : Pipeline D) → IsAwake p → p.active ≡ true → p.looping ≡ true → CanDrain p
  IsAwake-CanDrain p i on loops = elim (Bool-cases p.waiting) [
    | inl w ↦ elim (i.awake w) [
      | inl none_left ↦ empty-CanDrain p loops none_left
      | inr sig ↦ signalled-CanDrain p on loops w sig
    ]
    | inr w ↦ active-CanDrain p on loops w
  ]

  -- No wakeup is lost: after whatever steps from the start, puts while the worker is about to wait among them, if the emitter is still active and no handler's exception has ended the main loop, the worker and the strand can bring every event that was put to `_process`, in order and each once, with no further event put.
  pub drain :
      (p : Pipeline D) (all : List (Event D))
      → Reach started all p
      → p.active ≡ true
      → p.looping ≡ true
      → (q : Pipeline D) × Reach p [] q × (q.queue ≡ []) × (q.posted ≡ []) × (q.processed ≡ all)
  drain p all r on loops =
      let d = IsAwake-CanDrain p (Reach-IsAwake r) on loops in
      let whole : trail d.last ≡ all ++ [] = Reach-fifo (all ++ []) (Reach-append [] r d.reached) in
      (
        d.last,
        d.reached,
        d.no_queue,
        d.none_posted,
        simp (d.no_queue, d.none_posted, append-nil) at whole,
      )
