-- ===== src/Net/EventLoop/Wakeup.antt =====
-- src/net/EventLoop.cc: no functor is forgotten by a sleeping loop, and functors keep their order.
use a_tiny_network_library.Common.{
  if-holds, both_ways, ℕ, ◌+◌, ◌≡◌, ◌<◌, refl, sym, ap, ◌∙◌, Bool, true, false, not, subst, List,
  [], ◌∷◌, ◌++◌, if◌then◌else◌, ◌⊎◌, inl, inr, arith, append_assoc, append-nil,
}
use a_tiny_network_library.Net.EventLoop.{
  Functor, Phase, polling, handling, calling, stopped, EventLoop, init, wakeup, handle_read,
  enqueue, needs_wakeup, queue_in_loop, run_in_loop, quit, start_loop, poll_returns, begin_calling,
  call_next, end_calling, other_enqueues, other_wakes, IsBusy, outside, in_handler, in_functor,
  Step, starts, polled, reads_wakeups, queues, runs, quits, handled, calls, turn_ends, other_queues,
  other_is_done, other_quits, Steps, here, next,
}

abbrev pub is_calling : Phase → Bool
is_calling (calling fs) = true
is_calling _ = false

abbrev pub is_handling : Phase → Bool
is_handling handling = true
is_handling _ = false

-- The functors of a turn that are still to be called.
abbrev pub in_hand : Phase → List Functor
in_hand (calling fs) = fs
in_hand _ = []

-- A waiting functor has woken the eventfd, or its thread is about to. The handlers may read the
-- eventfd: the functors run right after them.
abbrev pub IsAwake : Phase → List Functor → ℕ → Type 0
IsAwake p fs n = (is_handling p ≡ true) ⊎ ((fs ≡ []) ⊎ (0 < n))

pub record Inv (l : EventLoop) : Type 0 where
  pub awake : IsAwake l.phase l.pending_functors (l.wakeups + l.unwoken)
  pub flag : l.calling_pending_functors ≡ is_calling l.phase

init-Inv : Inv init
unfolding init
init-Inv = record { awake = inr (inl refl); flag = refl }

-- Once a wakeup is there or owed, the queue may hold anything.
woken : (p : Phase) (fs : List Functor) (n : ℕ) → 0 < n → IsAwake p fs n
woken p fs n k = inr (inr k)

-- Outside the handlers an old reason to be awake stands in every phase.
keep-IsAwake :
    (p : Phase) {fs : List Functor} {n : ℕ} (q : Phase)
    → is_handling p ≡ false
    → IsAwake p fs n
    → IsAwake q fs n
keep-IsAwake p q e (inl h) = both_ways h e
keep-IsAwake p q e (inr a) = inr a

abbrev is_inside : {p : Phase} → IsBusy p → Bool
is_inside outside = false
is_inside _ = true

-- A functor that the loop's own thread queues outside `loop()`, for which no wakeup is written.
abbrev pub is_early : {l m : EventLoop} {fs : List Functor} → Step l fs m → Bool
is_early (queues f b) = not (is_inside b)
is_early _ = false

abbrev pub NoneIsEarly : {l m : EventLoop} {fs : List Functor} → Steps l fs m → Type 0
NoneIsEarly here = Unit {0}
NoneIsEarly (next r s) = NoneIsEarly r × (is_early s ≡ false)

IsBusy-cases :
    {p : Phase} (b : IsBusy p) → is_inside b ≡ true → (is_handling p ≡ true) ⊎ (is_calling p ≡ true)
IsBusy-cases outside h = cc
IsBusy-cases in_handler h = inl refl
IsBusy-cases in_functor h = inr refl

queue_in_loop-Inv :
    (f : Functor) (l : EventLoop) (b : IsBusy l.phase)
    → is_inside b ≡ true
    → Inv l
    → Inv (queue_in_loop true f l)
unfolding queue_in_loop needs_wakeup enqueue wakeup
queue_in_loop-Inv f l b k v =
    if-holds Inv l.calling_pending_functors
      (λ c. record { awake = woken _ _ _ (omega arith); flag = v.flag })
      (λ c. record {
        awake = inl (elim (IsBusy-cases b k) [ inl h ↦ h | inr h ↦ both_ways (v.flag ∙ h) c ]);
        flag = v.flag;
      })

end_calling-Inv : (l : EventLoop) → l.phase ≡ calling [] → Inv l → Inv (end_calling l)
unfolding end_calling
end_calling-Inv l e v =
    if-holds Inv l.quit_flag
      (λ c. record { awake = keep-IsAwake l.phase stopped (ap is_handling e) v.awake; flag = refl })
      (λ c. record { awake = keep-IsAwake l.phase polling (ap is_handling e) v.awake; flag = refl })

holds_of_not : (b : Bool) → not b ≡ false → b ≡ true
holds_of_not true h = refl
holds_of_not false h = cc

Step-Inv :
    {l m : EventLoop} {fs : List Functor} (s : Step l fs m) → is_early s ≡ false → Inv l → Inv m
unfolding start_loop poll_returns handle_read run_in_loop quit begin_calling call_next
    other_enqueues other_wakes enqueue wakeup
Step-Inv {l} (starts h) k v = record {
  awake = keep-IsAwake l.phase polling (ap is_handling h) v.awake;
  flag = v.flag ∙ ap is_calling h;
}
Step-Inv {l} (polled h) k v = record { awake = inl refl; flag = v.flag ∙ ap is_calling h }
Step-Inv {l} (reads_wakeups h) k v = record { awake = inl (ap is_handling h); flag = v.flag }
Step-Inv {l} (queues f b) k v = queue_in_loop-Inv f l b (holds_of_not (is_inside b) k) v
Step-Inv {l} (runs f b) k v = record { awake = v.awake; flag = v.flag }
Step-Inv {l} (quits b) k v = record { awake = woken _ _ _ (omega arith); flag = v.flag }
Step-Inv {l} (handled h) k v = record { awake = inr (inl refl); flag = refl }
Step-Inv {l} (calls f fs h) k v = record {
  awake = keep-IsAwake l.phase (calling fs) (ap is_handling h) v.awake;
  flag = v.flag ∙ ap is_calling h;
}
Step-Inv {l} (turn_ends h) k v = end_calling-Inv l h v
Step-Inv {l} (other_queues f) k v = record { awake = woken _ _ _ (omega arith); flag = v.flag }
Step-Inv {l} (other_is_done left h) k v = record {
  awake = woken _ _ _ (omega arith);
  flag = v.flag;
}
Step-Inv {l} other_quits k v = record { awake = v.awake; flag = v.flag }

Steps-Inv : {l m : EventLoop} {fs : List Functor} (r : Steps l fs m) → NoneIsEarly r → Inv l → Inv m
Steps-Inv here k v = v
Steps-Inv (next r s) (ks, k) v = Step-Inv s k (Steps-Inv r ks v)

-- Whatever the loop and the other threads did since the loop was made, if the loop's own thread queued
-- no functor outside `loop()`: where a functor waits while the loop is in `poll`, the eventfd is
-- readable, or the thread that queued a functor is still to write it.
pub no_lost_wakeup :
    {fs : List Functor} (l : EventLoop) (r : Steps init fs l)
    → NoneIsEarly r
    → l.phase ≡ polling
    → (l.pending_functors ≡ []) ⊎ (0 < l.wakeups + l.unwoken)
no_lost_wakeup l r k e = elim (Steps-Inv r k init-Inv).awake [
  | inl h ↦ both_ways h (ap is_handling e)
  | inr a ↦ a
]

-- A functor that the loop's own thread queues before `loop()` writes no wakeup: where none is owed,
-- the loop goes to `poll` with the functor waiting and the eventfd not readable.
queued_early-sleeps :
    (f : Functor) (l : EventLoop)
    → Inv l
    → l.phase ≡ stopped
    → l.wakeups + l.unwoken ≡ 0
    → (m : EventLoop) × Steps l (f ∷ []) m
      × (m.phase ≡ polling)
      × (m.pending_functors ≡ l.pending_functors ++ (f ∷ []))
      × (m.wakeups + m.unwoken ≡ 0)
unfolding start_loop queue_in_loop needs_wakeup enqueue
queued_early-sleeps f l v e none_owed =
    let quiet : l.calling_pending_functors ≡ false = v.flag ∙ ap is_calling e in
    let before : EventLoop = enqueue f l in
    let same : queue_in_loop true f l ≡ before = simp quiet in
    let queued : Steps l (f ∷ []) (queue_in_loop true f l) =
      next here (queues f (subst IsBusy (sym e) outside)) in
    let waiting : Steps l (f ∷ []) before = subst (Steps l (f ∷ [])) same queued in
    (start_loop before, next waiting (starts e), refl, refl, none_owed)

-- Every functor that was queued, in the order of the queue.
abbrev pub all_queued : EventLoop → List Functor
all_queued l = l.called ++ in_hand l.phase ++ l.pending_functors

if-same :
    {A B : Type 0} (g : A → B) (b : Bool) (x y : A) (z : B)
    → g x ≡ z
    → g y ≡ z
    → g (if b then x else y) ≡ z
if-same g true x y z e h = e
if-same g false x y z e h = h

enqueued :
    (xs ys zs : List Functor) (f : Functor)
    → xs ++ ys ++ (zs ++ (f ∷ [])) ≡ (xs ++ ys ++ zs) ++ (f ∷ [])
enqueued xs ys zs f = simp append_assoc

kept :
    (l : EventLoop) (fs : List Functor)
    → in_hand l.phase ≡ fs
    → l.called ++ fs ++ l.pending_functors ≡ all_queued l ++ []
kept l fs h =
    ap (λ gs. l.called ++ gs ++ l.pending_functors) (sym h) ∙ sym (append-nil (all_queued l))

Step-queued :
    {l m : EventLoop} {fs : List Functor} → Step l fs m → all_queued m ≡ all_queued l ++ fs
unfolding start_loop poll_returns handle_read queue_in_loop run_in_loop quit begin_calling call_next
    end_calling other_enqueues other_wakes enqueue wakeup
Step-queued {l} (starts h) = kept l [] (ap in_hand h)
Step-queued {l} (polled h) = kept l [] (ap in_hand h)
Step-queued {l} (reads_wakeups h) = sym (append-nil _)
Step-queued {l} (queues f b) =
    if-same all_queued (needs_wakeup true (enqueue f l)) (wakeup (enqueue f l)) (enqueue f l)
      (all_queued l ++ (f ∷ [])) (enqueued l.called (in_hand l.phase) l.pending_functors f)
      (enqueued l.called (in_hand l.phase) l.pending_functors f)
Step-queued {l} (runs f b) = sym (append-nil _)
Step-queued {l} (quits b) = sym (append-nil _)
Step-queued {l} (handled h) =
    append-nil (l.called ++ l.pending_functors)
    ∙ ap (λ gs. gs ++ l.pending_functors) (sym (append-nil l.called))
    ∙ kept l [] (ap in_hand h)
Step-queued {l} (calls f fs h) =
    ap (λ gs. gs ++ l.pending_functors) (append_assoc l.called (f ∷ []) fs)
    ∙ kept l (f ∷ fs) (ap in_hand h)
Step-queued {l} (turn_ends h) =
    let e = kept l [] (ap in_hand h) in if-same all_queued l.quit_flag _ _ _ e e
Step-queued {l} (other_queues f) = enqueued l.called (in_hand l.phase) l.pending_functors f
Step-queued {l} (other_is_done left h) = sym (append-nil _)
Step-queued {l} other_quits = sym (append-nil _)

Steps-queued :
    {l m : EventLoop} {fs : List Functor} → Steps l fs m → all_queued m ≡ all_queued l ++ fs
Steps-queued here = sym (append-nil _)
Steps-queued {l} (next {fs} {gs} r s) =
    Step-queued s ∙ ap (λ hs. hs ++ gs) (Steps-queued r) ∙ append_assoc (all_queued l) fs gs

-- Whatever steps the loop and the other threads take from the start: the functors called, those in
-- hand of this turn and those that wait are together the functors that were queued, in the order
-- they were queued: none is lost, none called twice, none overtakes another.
pub pending_functors-fifo :
    {fs : List Functor} (l : EventLoop)
    → Steps init fs l
    → l.called ++ in_hand l.phase ++ l.pending_functors ≡ fs
unfolding init
pending_functors-fifo l r = Steps-queued r
