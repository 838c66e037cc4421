-- ===== src/Events/Queue.antt =====
-- core/event/event.cpp and core/api/EventLoop.cpp: the way of an event from `put` through the worker thread `_run` and the main
-- loop's strand to `_process`. Each step is what one thread does under the lock, or one task of the
-- strand, which runs its tasks one at a time in the order in which they were posted.
use keen_trader.Base.{◌≡◌, refl, sym, ◌∙◌, Bool, true, false, List, [], ◌∷◌, ◌++◌}
use mathlib.Core.List.{append-nil, append_assoc}
use keen_trader.Events.Handlers.{Event}

-- `posted` are the tasks of the strand, `processed` the events that `_process` has got, oldest first.
-- `signalled` is the flag of `m_QueueNonempty`, `waiting` says that the worker is in its `Wait`, and
-- `looping` that the main event loop runs.
pub record Pipeline (D : Type 0) : Type 0 where
  pub active : Bool
  pub queue : List (Event D)
  pub posted : List (Event D)
  pub processed : List (Event D)
  pub signalled : Bool
  pub waiting : Bool
  pub looping : Bool

-- `start`, which the engine's constructor calls once, with the main loop running.
abbrev pub started : {D : Type 0} → Pipeline D
started = record {
  active = true;
  queue = [];
  posted = [];
  processed = [];
  signalled = false;
  waiting = false;
  looping = true;
}

module _ {D : Type 0} where
  unfoldable pub put : Event D → Pipeline D → Pipeline D
  put e p = record p { queue = p.queue ++ e ∷ []; signalled = true }

  -- The worker leaves its loop: it finds `_active` false before it looks at the queue. A stop that falls between this check and the
  -- taking of the front, or before that event is posted, is one after them.
  unfoldable pub stop : Pipeline D → Pipeline D
  stop p = record p { active = false; signalled = true }

  -- The worker finds the queue empty, leaves the lock and waits; a signal that comes before it waits stays.
  unfoldable pub sleep : Pipeline D → Pipeline D
  sleep p = record p { waiting = true }

  -- `Wait` returns, and takes the signal back.
  unfoldable pub wake : Pipeline D → Pipeline D
  wake p = record p { waiting = false; signalled = false }

  -- The body of the loop of `_run`, with the queue's front `e` and rest `q`.
  unfoldable pub take_front : Event D → List (Event D) → Pipeline D → Pipeline D
  take_front e q p = record p { queue = q; posted = p.posted ++ e ∷ [] }

  -- The strand's next task calls `_process`.
  unfoldable pub run_task : Event D → List (Event D) → Pipeline D → Pipeline D
  run_task e ps p = record p { posted = ps; processed = p.processed ++ e ∷ [] }

  -- A handler throws: `run_main_event_loop` catches the exception and returns, and no task runs any more.
  unfoldable pub fail_task : Event D → List (Event D) → Pipeline D → Pipeline D
  unfolding run_task
  fail_task e ps p = record (run_task e ps p) { looping = false }

  -- A step, with the events that it puts. Any thread may put at any time, the timer's handler too.
  pub data Step (p : Pipeline D) : List (Event D) → Pipeline D → Type 0 where
    puts : (e : Event D) {es : List (Event D)} → es ≡ e ∷ [] → Step p es (put e p)
    stops : {es : List (Event D)} → es ≡ [] → Step p es (stop p)
    sleeps :
        {es : List (Event D)}
        → p.active ≡ true
        → p.waiting ≡ false
        → p.queue ≡ []
        → es ≡ []
        → Step p es (sleep p)
    wakes :
        {es : List (Event D)} → p.waiting ≡ true → p.signalled ≡ true → es ≡ [] → Step p es (wake p)
    takes :
        (e : Event D) (q : List (Event D)) {es : List (Event D)}
        → p.active ≡ true
        → p.waiting ≡ false
        → p.queue ≡ e ∷ q
        → es ≡ []
        → Step p es (take_front e q p)
    runs :
        (e : Event D) (ps : List (Event D)) {es : List (Event D)}
        → p.looping ≡ true
        → p.posted ≡ e ∷ ps
        → es ≡ []
        → Step p es (run_task e ps p)
    fails :
        (e : Event D) (ps : List (Event D)) {es : List (Event D)}
        → p.looping ≡ true
        → p.posted ≡ e ∷ ps
        → es ≡ []
        → Step p es (fail_task e ps p)

  -- The states after some steps, with all that they put.
  pub data Reach (p : Pipeline D) : List (Event D) → Pipeline D → Type 0 where
    here : {all : List (Event D)} → all ≡ [] → Reach p all p
    next :
        {before es all : List (Event D)} {q r : Pipeline D}
        → Reach p before q
        → Step q es r
        → all ≡ before ++ es
        → Reach p all r

  -- Every event that was put, oldest first.
  abbrev pub trail : Pipeline D → List (Event D)
  trail p = p.processed ++ (p.posted ++ p.queue)

  Step-trail : {p q : Pipeline D} {es : List (Event D)} → Step p es q → trail q ≡ trail p ++ es
  unfolding put stop sleep wake take_front run_task fail_task
  Step-trail {p} (puts e h) = rw h (simp append_assoc)
  Step-trail {p} (stops h) = rw (h, append-nil)
  Step-trail {p} (sleeps a w f h) = rw (h, append-nil)
  Step-trail {p} (wakes w f h) = rw (h, append-nil)
  Step-trail {p} (takes e q a w f h) = rw (h, f, append-nil) (simp append_assoc)
  Step-trail {p} (runs e ps l f h) = rw (h, f, append-nil) (simp append_assoc)
  Step-trail {p} (fails e ps l f h) = rw (h, f, append-nil) (simp append_assoc)

  -- In every interleaving of the threads the events processed, then those posted, then those in the queue, are together exactly the events put, in the order in which they were put: none is lost, doubled or overtaken.
  pub Reach-fifo : {p : Pipeline D} (all : List (Event D)) → Reach started all p → trail p ≡ all
  Reach-fifo all (here h) = sym h
  Reach-fifo all (next {before = b} {es = es} r s h) = Step-trail s ∙ rw (Reach-fifo b r, h)

  Step-stopped :
      {p q : Pipeline D} {es : List (Event D)}
      → Step p es q
      → p.active ≡ false
      → (q.active ≡ false) × (q.processed ++ q.posted ≡ p.processed ++ p.posted)
  unfolding put stop sleep wake take_front run_task fail_task
  Step-stopped (puts e h) off = (off, refl)
  Step-stopped (stops h) off = (refl, refl)
  Step-stopped (sleeps a w f h) off = (off, refl)
  Step-stopped (wakes w f h) off = (off, refl)
  Step-stopped (takes e q a w f h) off = cc
  Step-stopped {p} (runs e ps l f h) off = (off, rw f (simp append_assoc))
  Step-stopped {p} (fails e ps l f h) off = (off, rw f (simp append_assoc))

  -- Once the emitter is stopped nothing leaves the queue any more: whatever is put or runs later, what is processed and what is posted stay together the same events in the same order, so that only what the worker had taken before the stop is ever processed.
  pub Reach-stopped :
      {p q : Pipeline D} {all : List (Event D)}
      → Reach p all q
      → p.active ≡ false
      → (q.active ≡ false) × (q.processed ++ q.posted ≡ p.processed ++ p.posted)
  Reach-stopped (here h) off = (off, refl)
  Reach-stopped (next r s h) off =
      let before = Reach-stopped r off in
      let last = Step-stopped s before.0 in (last.0, last.1 ∙ before.1)
