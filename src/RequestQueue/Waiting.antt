-- ===== src/RequestQueue/Waiting.antt =====
-- The caps on how long a packet waits in the queue of ns3/anthocnet/model/anthocnet-rqueue.cc, and the
-- parts of the queue that an entry within its cap can be in.
-- caps of which each is set, and not above the one that is asked for, where one is asked for
use ant_hoc_net.Prelude.{
  ==_iff, All, Bool-cases, List, [], arith, if_Holds, inl, inr, ltb, true, ℕ, ◌+◌, ◌<◌, ◌==◌, ◌∷◌,
  ◌≡◌, ◌≤◌, ◌⊎◌,
}
use ant_hoc_net.RequestQueue.{
  PerReason, QueueCall, QueueEntry, Time, bound_for, cap_of, cap_set, cell, live, not_bound_for,
  set_cell,
}

abbrev pub IsWithin : PerReason Time → PerReason Time → Type 0
IsWithin caps now = (r : ℕ) → (cell caps r ≡ 0) ⊎ ((0 < cell now r) × (cell now r ≤ cell caps r))

-- a call that keeps them so: it sets no cap, a cap where none is asked for, or one of those
abbrev pub IsAllowed : {P : Type 0} → PerReason Time → QueueCall P → Type 0
IsAllowed caps (cap_set r limit) =
    (3 ≤ r) ⊎ ((cell caps r ≡ 0) ⊎ ((0 < limit) × (limit ≤ cell caps r)))
IsAllowed caps _ = Unit

pub IsWithin-set_cell :
    (caps now : PerReason Time) (r limit : ℕ)
    → IsWithin caps now
    → (cell caps r ≡ 0) ⊎ ((0 < limit) × (limit ≤ cell caps r))
    → IsWithin caps (set_cell r limit now)
unfolding cell set_cell
IsWithin-set_cell caps now r limit h allowed = λ j. ground (arith, h j)

pub same-IsWithin : (caps : PerReason Time) → IsWithin caps caps
same-IsWithin caps = λ r. elim (Bool-cases (cell caps r == 0)) [
  | inl z ↦ inl ((==_iff (cell caps r) 0).0 z)
  | inr z ↦ inr (ground (arith, z))
]

module _ {P : Type 0} (caps : PerReason Time) where
  -- the entry is given up within its cap
  abbrev pub IsCapped : QueueEntry P → Type 0
  IsCapped e = (cap_of caps e ≡ 0) ⊎ (e.expire ≤ e.enqueue_first + cap_of caps e)

  -- an entry that was given out at a time had waited less than its cap
  abbrev pub IsInTime : Time × QueueEntry P → Type 0
  IsInTime (now, e) = (cap_of caps e ≡ 0) ⊎ (now < e.enqueue_first + cap_of caps e)

  in_time :
      (now : Time) (e : QueueEntry P) → ltb now e.expire ≡ true → IsCapped e → IsInTime (now, e)
  in_time now e h (inl uncapped) = inl uncapped
  in_time now e h (inr within) = inr (ground (arith, h))

  pub live-IsInTime :
      (now : Time) (es : List (QueueEntry P))
      → All IsCapped es
      → All (λ e. IsInTime (now, e)) (live now es)
  unfolding live
  live-IsInTime now [] h = tt
  live-IsInTime now (e ∷ es) h = elim (Bool-cases (ltb now e.expire)) [
    | inl l ↦ rw l (in_time now e l h.0, live-IsInTime now es h.1)
    | inr l ↦ rw l (live-IsInTime now es h.1)
  ]

module _ {P : Type 0} (Q : QueueEntry P → Type 0) where
  pub All-live : (now : Time) (es : List (QueueEntry P)) → All Q es → All Q (live now es)
  unfolding live
  All-live now [] h = tt
  All-live now (e ∷ es) h =
      if_Holds (All Q) (ltb now e.expire) (h.0, All-live now es h.1) (All-live now es h.1)

  pub All-bound_for : (dst : ℕ) (es : List (QueueEntry P)) → All Q es → All Q (bound_for dst es)
  unfolding bound_for
  All-bound_for dst [] h = tt
  All-bound_for dst (e ∷ es) h =
      if_Holds (All Q) (e.dst == dst) (h.0, All-bound_for dst es h.1) (All-bound_for dst es h.1)

  pub All-not_bound_for :
      (dst : ℕ) (es : List (QueueEntry P)) → All Q es → All Q (not_bound_for dst es)
  unfolding not_bound_for
  All-not_bound_for dst [] h = tt
  All-not_bound_for dst (e ∷ es) h =
      if_Holds (All Q) (e.dst == dst) (All-not_bound_for dst es h.1)
        (h.0, All-not_bound_for dst es h.1)
