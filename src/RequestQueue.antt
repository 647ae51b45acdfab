-- ===== src/RequestQueue.antt =====
-- `RequestQueue` of ns3/anthocnet/model/anthocnet-rqueue.h and anthocnet-rqueue.cc: the packets that a
-- node of the ns-3 adapter holds while it has no route. A `Time` is a count of nanoseconds that is not
-- negative, `now` is what `Simulator::Now()` answers during a call, and `seconds` is ns-3's
-- (now - then).GetSeconds(). A packet with its header and its forwarding callback is a `payload`, of
-- which the queue reads the destination; the calls of the error callbacks are listed in order.
pub mod Account
pub mod Waiting
pub mod Cap
mod Tests
use ant_hoc_net.Collections.Set
use ant_hoc_net.Collections.Key.{nat_key, pair_key}
use ant_hoc_net.Double.{Double, gt, nought}
use ant_hoc_net.Prelude.{
  Bool, List, [], foldl, if◌then◌else◌, leb, length, ltb, map, not, ℕ, ◌%◌, ◌&&◌, ◌++◌, ◌+◌, ◌==◌,
  ◌^◌, ◌∷◌,
}
use ant_hoc_net.World.Queue.{hold}

abbrev pub Time : Type 0
Time = ℕ

-- an array with one cell for each reason
pub record PerReason (A : Type 0) : Type 0 where
  pub setup : A
  pub reconv : A
  pub repair : A

pub record HoldStats (W : Type 0) : Type 0 where
  pub delivered_count : PerReason ℕ
  pub delivered_sum_s : PerReason W
  pub delivered_max_s : PerReason W
  pub dropped_count : PerReason ℕ
  pub dropped_sum_s : PerReason W

pub record QueueEntry (P : Type 0) : Type 0 where
  pub payload : P
  pub dst : ℕ
  -- whether the error callback is set
  pub has_ecb : Bool
  pub expire : Time
  pub enqueue_first : Time
  pub hold_reason : ℕ

pub record RequestQueue (P W : Type 0) : Type 0 where
  pub queue : List (QueueEntry P)
  pub max_len : ℕ
  pub timeout : Time
  pub hold_cap : PerReason Time
  pub stats : HoldStats W
  pub errors : List (QueueEntry P)

module _ {A : Type 0} where
  abbrev pub all_reasons : A → PerReason A
  all_reasons a = record { setup = a; reconv = a; repair = a }

  -- any number but those of HOLD_RECONV and HOLD_REPAIR counts as HOLD_SETUP
  unfoldable pub cell : PerReason A → ℕ → A
  cell cells r = if r == 1 then cells.reconv else if r == 2 then cells.repair else cells.setup

  unfoldable pub set_cell : ℕ → A → PerReason A → PerReason A
  set_cell r a cells =
      if r == 1
      then record cells { reconv = a }
      else if r == 2
      then record cells { repair = a }
      else record cells { setup = a }

module _ {P : Type 0} where
  -- the entries that are alive, and those that are not
  unfoldable pub live : Time → List (QueueEntry P) → List (QueueEntry P)
  live now [] = []
  live now (e ∷ es) = let rest = live now es in if ltb now e.expire then e ∷ rest else rest

  unfoldable pub aged : Time → List (QueueEntry P) → List (QueueEntry P)
  aged now [] = []
  aged now (e ∷ es) = let rest = aged now es in if ltb now e.expire then rest else e ∷ rest

  unfoldable pub bound_for : ℕ → List (QueueEntry P) → List (QueueEntry P)
  bound_for dst [] = []
  bound_for dst (e ∷ es) = let rest = bound_for dst es in if e.dst == dst then e ∷ rest else rest

  unfoldable pub not_bound_for : ℕ → List (QueueEntry P) → List (QueueEntry P)
  not_bound_for dst [] = []
  not_bound_for dst (e ∷ es) =
      let rest = not_bound_for dst es in if e.dst == dst then rest else e ∷ rest

  unfoldable pub destinations : List ℕ → List (QueueEntry P) → List ℕ
  destinations dests [] = dests
  destinations dests (e ∷ es) =
      destinations (if Set.contains e.dst dests then dests else dests ++ (e.dst ∷ [])) es

  -- the cap of an entry's reason; a reason that is none has no cap
  unfoldable pub cap_of : PerReason Time → QueueEntry P → Time
  cap_of hold_cap e = if ltb e.hold_reason 3 then cell hold_cap e.hold_reason else 0

module _ {P W : Type 0} where
  unfoldable pub set_timeout : Time → RequestQueue P W → RequestQueue P W
  set_timeout timeout q = record q { timeout = timeout }

  unfoldable pub set_hold_cap : ℕ → Time → RequestQueue P W → RequestQueue P W
  set_hold_cap reason limit q =
      if ltb reason 3 then record q { hold_cap = set_cell reason limit q.hold_cap } else q

  -- the entry as it goes into the queue
  unfoldable pub stamped : Time → RequestQueue P W → QueueEntry P → QueueEntry P
  stamped now q entry =
      let since = if entry.enqueue_first == 0 then now else entry.enqueue_first in
      let limit = cap_of q.hold_cap entry in
      let capped = since + limit in
      record entry {
        enqueue_first = since;
        expire =
            if not (limit == 0) && ltb capped (now + q.timeout) then capped else now + q.timeout;
      }

module _ {P W : Type 0} ⦃d : Double W⦄ (seconds : Time → Time → W) where
  open d use {lt, add}

  unfoldable pub new_queue : ℕ → Time → RequestQueue P W
  new_queue max_len timeout = record {
    queue = [];
    max_len = max_len;
    timeout = timeout;
    hold_cap = all_reasons 0;
    stats = record {
      delivered_count = all_reasons 0;
      delivered_sum_s = all_reasons nought;
      delivered_max_s = all_reasons nought;
      dropped_count = all_reasons 0;
      dropped_sum_s = all_reasons nought;
    };
    errors = [];
  }

  -- the loss of an entry is counted, and its error callback called
  unfoldable pub drop_entry : Time → RequestQueue P W → QueueEntry P → RequestQueue P W
  drop_entry now q e =
      let s = q.stats in
      let r = e.hold_reason in
      record q {
        stats = record s {
          dropped_count = set_cell r ((cell s.dropped_count r + 1) % 2 ^ 64) s.dropped_count;
          dropped_sum_s =
              set_cell r (add (cell s.dropped_sum_s r) (seconds now e.enqueue_first))
                s.dropped_sum_s;
        };
        errors = if e.has_ecb then q.errors ++ (e ∷ []) else q.errors;
      }

  unfoldable pub purge : Time → RequestQueue P W → RequestQueue P W
  purge now q =
      let q' = foldl (drop_entry now) q (aged now q.queue) in record q' { queue = live now q.queue }

  -- a full queue drops its oldest entry; the source has no behaviour for a queue of length 0
  unfoldable pub drop_front : Time → RequestQueue P W → List (QueueEntry P) → RequestQueue P W
  drop_front now q [] = q
  drop_front now q (old ∷ rest) =
      if leb q.max_len (length q.queue) then drop_entry now (record q { queue = rest }) old else q

  unfoldable pub make_room : Time → RequestQueue P W → RequestQueue P W
  make_room now q = drop_front now q q.queue

  -- the answer is always true, and is left out
  unfoldable pub enqueue : Time → QueueEntry P → RequestQueue P W → RequestQueue P W
  enqueue now entry q =
      let q1 = purge now q in
      let q2 = make_room now q1 in record q2 { queue = q2.queue ++ (stamped now q1 entry ∷ []) }

  unfoldable pub dequeue_all : Time → ℕ → RequestQueue P W → List (QueueEntry P) × RequestQueue P W
  dequeue_all now dst q =
      let q' = purge now q in
      (bound_for dst q'.queue, record q' { queue = not_bound_for dst q'.queue })

  unfoldable pub pending_destinations : Time → RequestQueue P W → List ℕ × RequestQueue P W
  pending_destinations now q = let q' = purge now q in (destinations [] q'.queue, q')

  unfoldable pub size : Time → RequestQueue P W → ℕ × RequestQueue P W
  size now q = let q' = purge now q in (length q'.queue % 2 ^ 32, q')

  unfoldable pub note_delivered : Time → QueueEntry P → RequestQueue P W → RequestQueue P W
  note_delivered now e q =
      let s = q.stats in
      let r = e.hold_reason in
      let hold = seconds now e.enqueue_first in
      record q {
        stats = record s {
          delivered_count = set_cell r ((cell s.delivered_count r + 1) % 2 ^ 64) s.delivered_count;
          delivered_sum_s = set_cell r (add (cell s.delivered_sum_s r) hold) s.delivered_sum_s;
          delivered_max_s =
              if gt hold (cell s.delivered_max_s r)
              then set_cell r hold s.delivered_max_s
              else s.delivered_max_s;
        };
      }

-- one call of the queue's interface
pub data QueueCall (P : Type 0) : Type 0 where
  enqueue_called : QueueEntry P → QueueCall P
  dequeue_called : ℕ → QueueCall P
  destinations_called size_called purge_called : QueueCall P
  delivery_noted : QueueEntry P → QueueCall P
  timeout_set : Time → QueueCall P
  cap_set : ℕ → Time → QueueCall P

-- the queue, and all that it gave out so far with the times
abbrev pub Session : Type 0 → Type 0 → Type 0
Session P W = RequestQueue P W × List (Time × QueueEntry P)

module _ {P W : Type 0} ⦃d : Double W⦄ (seconds : Time → Time → W) where
  unfoldable pub call_once : Time → QueueCall P → Session P W → Session P W
  call_once now (enqueue_called e) (q, out) = (enqueue seconds now e q, out)
  call_once now (dequeue_called dst) (q, out) =
      let (es, q') = dequeue_all seconds now dst q in (q', map (λ e. (now, e)) es ++ out)
  call_once now destinations_called (q, out) = ((pending_destinations seconds now q).1, out)
  call_once now size_called (q, out) = ((size seconds now q).1, out)
  call_once now purge_called (q, out) = (purge seconds now q, out)
  call_once now (delivery_noted e) (q, out) = (note_delivered seconds now e q, out)
  call_once now (timeout_set timeout) (q, out) = (set_timeout timeout q, out)
  call_once now (cap_set reason limit) (q, out) = (set_hold_cap reason limit q, out)

  unfoldable pub run_calls : List (Time × QueueCall P) → Session P W → Session P W
  run_calls [] s = s
  run_calls ((now, c) ∷ calls) s = run_calls calls (call_once now c s)
