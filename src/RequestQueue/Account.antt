-- ===== src/RequestQueue/Account.antt =====
-- What becomes of the packets that ns3/anthocnet/model/anthocnet-rqueue.cc takes in.
use ant_hoc_net.Double.{Double}
use ant_hoc_net.Prelude.{
  List, [], ap, arith, foldl, length, length-append, length-map, map, refl, ℕ, ◌%◌, ◌+◌, ◌^◌, ◌∷◌,
  ◌≡◌,
}
use ant_hoc_net.RequestQueue.{
  PerReason, QueueCall, QueueEntry, RequestQueue, Session, Time, aged, bound_for, call_once,
  cap_set, cell, delivery_noted, dequeue_all, dequeue_called, destinations_called, drop_entry,
  drop_front, enqueue, enqueue_called, live, make_room, new_queue, not_bound_for, note_delivered,
  pending_destinations, purge, purge_called, run_calls, set_cell, set_hold_cap, set_timeout, size,
  size_called, stamped, timeout_set,
}

abbrev pub total : PerReason ℕ → ℕ
total counts = counts.setup + counts.reconv + counts.repair

-- how many packets were handed to the queue
abbrev pub handed_in : {P : Type 0} → List (Time × QueueCall P) → ℕ
handed_in [] = 0
handed_in ((now, enqueue_called e) ∷ calls) = handed_in calls + 1
handed_in ((now, _) ∷ calls) = handed_in calls

total-set_cell :
    (r n : ℕ) (counts : PerReason ℕ)
    → total (set_cell r n counts) + cell counts r ≡ total counts + n
unfolding set_cell cell
total-set_cell r n counts = ground arith

module _ {P W : Type 0} ⦃d : Double W⦄ (seconds : Time → Time → W) where
  dropped_total : RequestQueue P W → ℕ
  dropped_total q = total q.stats.dropped_count

  dropped_total-drop_entry :
      (now : Time) (q : RequestQueue P W) (e : QueueEntry P)
      → dropped_total (drop_entry seconds now q e) % 2 ^ 64 ≡ (dropped_total q + 1) % 2 ^ 64
  unfolding dropped_total drop_entry
  dropped_total-drop_entry now q e =
      let counts = q.stats.dropped_count in
      let r = e.hold_reason in omega (arith, total-set_cell r ((cell counts r + 1) % 2 ^ 64) counts)

  dropped_total-drops :
      (now : Time) (es : List (QueueEntry P)) (q : RequestQueue P W)
      → dropped_total (foldl (drop_entry seconds now) q es) % 2 ^ 64
        ≡ (dropped_total q + length es) % 2 ^ 64
  dropped_total-drops now [] q = omega arith
  dropped_total-drops now (e ∷ es) q = omega (
    arith,
    dropped_total-drops now es (drop_entry seconds now q e),
    dropped_total-drop_entry now q e,
  )

  length-live :
      (now : Time) (es : List (QueueEntry P))
      → length (live now es) + length (aged now es) ≡ length es
  unfolding live aged
  length-live now [] = refl
  length-live now (e ∷ es) = ground (arith, length-live now es)

  length-bound_for :
      (dst : ℕ) (es : List (QueueEntry P))
      → length (bound_for dst es) + length (not_bound_for dst es) ≡ length es
  unfolding bound_for not_bound_for
  length-bound_for dst [] = refl
  length-bound_for dst (e ∷ es) = ground (arith, length-bound_for dst es)

  -- the packets that are held or were dropped
  known : RequestQueue P W → ℕ
  unfolding dropped_total
  known q = length q.queue + dropped_total q

  known-purge :
      (now : Time) (q : RequestQueue P W) → known (purge seconds now q) % 2 ^ 64 ≡ known q % 2 ^ 64
  unfolding known purge
  known-purge now q =
      omega (arith, dropped_total-drops now (aged now q.queue) q, length-live now q.queue)

  known-drop_front :
      (now : Time) (q : RequestQueue P W) (es : List (QueueEntry P))
      → q.queue ≡ es
      → known (drop_front seconds now q es) % 2 ^ 64 ≡ known q % 2 ^ 64
  unfolding known dropped_total drop_entry drop_front
  known-drop_front now q [] e = refl
  known-drop_front now q (old ∷ rest) e =
      let counts = q.stats.dropped_count in
      let r = old.hold_reason in
      ground (arith, total-set_cell r ((cell counts r + 1) % 2 ^ 64) counts, ap length e)

  known-enqueue :
      (now : Time) (e : QueueEntry P) (q : RequestQueue P W)
      → known (enqueue seconds now e q) % 2 ^ 64 ≡ (known q + 1) % 2 ^ 64
  unfolding known enqueue make_room
  known-enqueue now e q =
      let q1 = purge seconds now q in
      let q2 = drop_front seconds now q1 q1.queue in
      omega (
        arith,
        length-append q2.queue (stamped now q1 e ∷ []),
        known-drop_front now q1 q1.queue refl,
        known-purge now q,
      )

  known-dequeue_all :
      (now : Time) (dst : ℕ) (q : RequestQueue P W)
      → (length (dequeue_all seconds now dst q).0 + known (dequeue_all seconds now dst q).1)
          % 2 ^ 64
        ≡ known q % 2 ^ 64
  unfolding known dequeue_all
  known-dequeue_all now dst q =
      omega (arith, length-bound_for dst (purge seconds now q).queue, known-purge now q)

  -- held, dropped or given out
  accounted : Session P W → ℕ
  unfolding known
  accounted (q, out) = length out + known q

  accounted-call_once :
      (now : Time) (c : QueueCall P) (s : Session P W) (n : ℕ)
      → (accounted (call_once seconds now c s) + n) % 2 ^ 64
        ≡ (accounted s + handed_in ((now, c) ∷ []) + n) % 2 ^ 64
  unfolding accounted call_once pending_destinations size note_delivered set_timeout set_hold_cap
      known
  accounted-call_once now (enqueue_called e) (q, out) n = omega (arith, known-enqueue now e q)
  accounted-call_once now (dequeue_called dst) (q, out) n =
      let taken = dequeue_all seconds now dst q in
      let tag : QueueEntry P → Time × QueueEntry P = λ e. (now, e) in
      omega (
        arith,
        known-dequeue_all now dst q,
        length-append (map tag taken.0) out,
        length-map taken.0 tag,
      )
  accounted-call_once now destinations_called (q, out) n = omega (arith, known-purge now q)
  accounted-call_once now size_called (q, out) n = omega (arith, known-purge now q)
  accounted-call_once now purge_called (q, out) n = omega (arith, known-purge now q)
  accounted-call_once now (delivery_noted e) (q, out) n = omega arith
  accounted-call_once now (timeout_set timeout) (q, out) n = omega arith
  accounted-call_once now (cap_set reason limit) (q, out) n = ground arith

  handed_in-cons :
      (now : Time) (c : QueueCall P) (calls : List (Time × QueueCall P))
      → handed_in ((now, c) ∷ calls) ≡ handed_in calls + handed_in ((now, c) ∷ [])
  handed_in-cons now (enqueue_called e) calls = omega arith
  handed_in-cons now (dequeue_called dst) calls = omega arith
  handed_in-cons now destinations_called calls = omega arith
  handed_in-cons now size_called calls = omega arith
  handed_in-cons now purge_called calls = omega arith
  handed_in-cons now (delivery_noted e) calls = omega arith
  handed_in-cons now (timeout_set timeout) calls = omega arith
  handed_in-cons now (cap_set reason limit) calls = omega arith

  accounted-run_calls :
      (calls : List (Time × QueueCall P)) (s : Session P W)
      → accounted (run_calls seconds calls s) % 2 ^ 64 ≡ (accounted s + handed_in calls) % 2 ^ 64
  unfolding run_calls
  accounted-run_calls [] s = omega arith
  accounted-run_calls ((now, c) ∷ calls) s = omega (
    arith,
    accounted-run_calls calls (call_once seconds now c s),
    accounted-call_once now c s (handed_in calls),
    handed_in-cons now c calls,
  )

  -- After any calls at any times on a new queue, its settings included, the packets that it holds, the packets that it gave
  -- out to be forwarded or discarded, and the counts of dropped packets over the three reasons add
  -- up to the packets that were handed in, modulo 2 ^ 64.
  pub all_accounted :
      (max_len : ℕ) (timeout : Time) (calls : List (Time × QueueCall P))
      → (let after : Session P W =
            run_calls seconds calls (new_queue seconds max_len timeout, []) in
          (length after.1 + length after.0.queue + total after.0.stats.dropped_count) % 2 ^ 64)
        ≡ handed_in calls % 2 ^ 64
  unfolding accounted known dropped_total new_queue
  all_accounted max_len timeout calls =
      omega (arith, accounted-run_calls calls (new_queue seconds max_len timeout, []))
