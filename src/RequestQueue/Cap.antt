-- ===== src/RequestQueue/Cap.antt =====
-- How long a packet can stay in the queue of ns3/anthocnet/model/anthocnet-rqueue.cc: the cap that is
-- set for its reason counts from when it was first held.
use ant_hoc_net.Double.{Double}
use ant_hoc_net.Prelude.{All, refl, ◌≡◌}
use ant_hoc_net.RequestQueue.{
  PerReason, QueueEntry, RequestQueue, Session, Time, drop_entry, set_hold_cap,
}
use ant_hoc_net.RequestQueue.Waiting.{IsCapped, IsInTime, IsWithin}

module _ {P W : Type 0} ⦃d : Double W⦄ (seconds : Time → Time → W) (caps : PerReason Time) where
  -- the caps of the queue, and what they mean for the entries that are held
  abbrev pub KeepsCaps : RequestQueue P W → Type 0
  KeepsCaps q = IsWithin caps q.hold_cap × All (IsCapped caps) q.queue

  -- a queue whose caps are set, reason by reason
  pub configured_queue : RequestQueue P W → RequestQueue P W
  configured_queue q =
      set_hold_cap 0 caps.setup (set_hold_cap 1 caps.reconv (set_hold_cap 2 caps.repair q))

  queue-drop_entry :
      (now : Time) (q : RequestQueue P W) (e : QueueEntry P)
      → (drop_entry seconds now q e).queue ≡ q.queue
  unfolding drop_entry
  queue-drop_entry now q e = refl

  -- the queue keeps its caps, and all that it gave out so far was in time
  abbrev pub IsPunctual : Session P W → Type 0
  IsPunctual (q, out) = KeepsCaps q × All (IsInTime caps) out
