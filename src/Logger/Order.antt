-- ===== src/Logger/Order.antt =====
-- What every history of the logger of src/logger.cpp keeps: no entry is lost or overtaken.
use rtcmbridge.Base.{
  not, ◌||◌, ◌≡◌, refl, sym, ap, ◌∙◌, true, List, [], ◌∷◌, ◌++◌, Bytes, append_assoc, Bool-cases,
  inl, inr,
}
use rtcmbridge.Logger.{
  Entry, Phase, starting, testing, checked, asleep, draining, finished, emitting, Logger, is_empty,
  emitted_by, pop_front, worker_step, work, awakened, enqueue, notify, set_stop, Step, worker,
  enqueued, notified, stopped, emit_sync, Reach, start, later,
}

-- The entry that the worker has taken and not yet written.
abbrev pub in_flight : Phase → List Entry
in_flight (emitting e) = e ∷ []
in_flight _ = []

-- The entries written, taken and waiting are those enqueued, in order.
pub record Ordered (l : Logger) : Type 0 where
  pub order : l.emitted ++ (in_flight l.phase ++ l.queue) ≡ l.pushed
  pub ends : l.phase ≡ finished → l.stop ≡ true

-- The same at a phase that is known.
order_at :
    (l : Logger) (p : Phase)
    → l.phase ≡ p
    → Ordered l
    → l.emitted ++ (in_flight p ++ l.queue) ≡ l.pushed
order_at l p e o = ap (λ x. l.emitted ++ (in_flight x ++ l.queue)) (sym e) ∙ o.order

pop_front-Ordered :
    (l : Logger) (queue : List Entry)
    → l.queue ≡ queue
    → l.emitted ++ queue ≡ l.pushed
    → Ordered (pop_front l queue)
unfolding pop_front
pop_front-Ordered l [] q h =
    let all : l.emitted ++ l.queue ≡ l.pushed = ap (λ x. l.emitted ++ x) q ∙ h in
    elim (Bool-cases l.stop) [
      | inl e ↦ simp e record { order = all; ends = λ _. refl }
      | inr e ↦ simp e record { order = all; ends = λ f. cc }
    ]
pop_front-Ordered l (front ∷ rest) q h = record { order = h; ends = λ e. cc }

worker_step-Ordered :
    (p : Phase) (l : Logger) (ts : Bytes) → l.phase ≡ p → Ordered l → Ordered (worker_step p l ts)
unfolding worker_step emitted_by
worker_step-Ordered starting l ts e o = record { order = order_at l starting e o; ends = λ f. cc }
worker_step-Ordered testing l ts e o = elim (Bool-cases (l.stop || not (is_empty l.queue))) [
  | inl t ↦ simp t record { order = order_at l testing e o; ends = λ f. cc }
  | inr t ↦ simp t record { order = order_at l testing e o; ends = λ f. cc }
]
worker_step-Ordered checked l ts e o = record { order = order_at l checked e o; ends = λ f. cc }
worker_step-Ordered asleep l ts e o = o
worker_step-Ordered draining l ts e o = pop_front-Ordered l l.queue refl (order_at l draining e o)
worker_step-Ordered finished l ts e o = o
worker_step-Ordered (emitting front) l ts e o = record {
  order = append_assoc l.emitted (front ∷ []) l.queue ∙ order_at l (emitting front) e o;
  ends = λ f. cc;
}

enqueue-Ordered : (l : Logger) (e : Entry) → Ordered l → Ordered (enqueue l e)
unfolding enqueue
enqueue-Ordered l e o = record {
  order =
      ap (λ x. l.emitted ++ x) (sym (append_assoc (in_flight l.phase) l.queue (e ∷ [])))
      ∙ sym (append_assoc l.emitted (in_flight l.phase ++ l.queue) (e ∷ []))
      ∙ ap (λ x. x ++ (e ∷ [])) o.order;
  ends = o.ends;
}

in_flight-awakened : (p : Phase) → in_flight (awakened p) ≡ in_flight p
in_flight-awakened asleep = refl
in_flight-awakened starting = refl
in_flight-awakened testing = refl
in_flight-awakened checked = refl
in_flight-awakened draining = refl
in_flight-awakened finished = refl
in_flight-awakened (emitting e) = refl

awakened-finished : (p : Phase) → awakened p ≡ finished → p ≡ finished
awakened-finished asleep h = cc
awakened-finished starting h = h
awakened-finished testing h = h
awakened-finished checked h = h
awakened-finished draining h = h
awakened-finished finished h = h
awakened-finished (emitting e) h = h

notify-Ordered : (l : Logger) → Ordered l → Ordered (notify l)
unfolding notify
notify-Ordered l o = record {
  order = ap (λ x. l.emitted ++ (x ++ l.queue)) (in_flight-awakened l.phase) ∙ o.order;
  ends = λ f. o.ends (awakened-finished l.phase f);
}

Step-Ordered : {l m : Logger} → Step l m → Ordered l → Ordered m
unfolding work set_stop emitted_by
Step-Ordered {l} (worker ts) o = worker_step-Ordered l.phase l ts refl o
Step-Ordered {l} (enqueued e _) o = enqueue-Ordered l e o
Step-Ordered {l} notified o = notify-Ordered l o
Step-Ordered stopped o = record { order = o.order; ends = λ _. refl }
Step-Ordered (emit_sync e ts) o = record { order = o.order; ends = o.ends }

-- In every history of the logger, the entries that the worker has written, then the one that it has
-- taken, then those in the queue are exactly the entries that were enqueued, in their order; and the
-- worker ends only after stop().
pub Reach-Ordered : {l : Logger} → Reach l → Ordered l
Reach-Ordered start = record { order = refl; ends = λ e. cc }
Reach-Ordered (later r s) = Step-Ordered s (Reach-Ordered r)
