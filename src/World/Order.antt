-- ===== src/World/Order.antt =====
-- The order in which the priority queue of web/src/sim.cpp gives out the events: by time, and events
-- of the same time as they were scheduled.
use ant_hoc_net.Double.{Double}
use ant_hoc_net.Prelude.{
  All, Bool, List, [], arith, false, if_Holds, if◌then◌else◌, inr, ltb, refl, sym, true, ℕ, ◌&&◌,
  ◌<◌, ◌==◌, ◌||◌, ◌∙◌, ◌∷◌, ◌≡◌, ◌≤◌, ◌⊎◌,
}
use ant_hoc_net.World.{Scheduled, later, pop_first}
use ant_hoc_net.World.Setup.{start}

module _ {W : Type 0} (rank : W → ℕ) where
  -- a is due before b, or at the same time and was scheduled no later
  abbrev pub IsBefore : Scheduled W → Scheduled W → Type 0
  IsBefore a b = (rank a.t < rank b.t) ⊎ ((rank a.t ≡ rank b.t) × (a.seq ≤ b.seq))

  IsBefore-trans : (a b c : Scheduled W) → IsBefore a b → IsBefore b c → IsBefore a c
  IsBefore-trans a b c h k = ground arith

module _ {W : Type 0} ⦃d : Double W⦄ (IsTime : W → Type 0) (rank : W → ℕ)
    (lt_rank : (a b : W) → IsTime a → IsTime b → d.lt a b ≡ ltb (rank a) (rank b))
    (eq_rank : (a b : W) → IsTime a → IsTime b → d.eq a b ≡ (rank a == rank b)) where
  abbrev pub IsTimed : Scheduled W → Type 0
  IsTimed e = IsTime e.t

  later_rank :
      (a b : Scheduled W)
      → IsTimed a
      → IsTimed b
      → later a b ≡ (ltb (rank b.t) (rank a.t) || (rank a.t == rank b.t && ltb b.seq a.seq))
  unfolding later
  later_rank a b ha hb = rw (lt_rank b.t a.t hb ha, eq_rank a.t b.t ha hb) refl

  later-IsBefore :
      (a b : Scheduled W) → IsTimed a → IsTimed b → later a b ≡ true → IsBefore rank b a
  later-IsBefore a b ha hb h =
      let r : (ltb (rank b.t) (rank a.t) || (rank a.t == rank b.t && ltb b.seq a.seq)) ≡ true =
        sym (later_rank a b ha hb) ∙ h in
      ground (arith, r)

  not_later-IsBefore :
      (a b : Scheduled W) → IsTimed a → IsTimed b → later a b ≡ false → IsBefore rank a b
  not_later-IsBefore a b ha hb h =
      let r : (ltb (rank b.t) (rank a.t) || (rank a.t == rank b.t && ltb b.seq a.seq)) ≡ false =
        sym (later_rank a b ha hb) ∙ h in
      ground (arith, r)

  -- the event that is taken is before the one that the search started from, and before all others
  TakesFirst : Scheduled W → Scheduled W × List (Scheduled W) → Type 0
  TakesFirst start popped = IsBefore rank popped.0 start × All (IsBefore rank popped.0) popped.1

  -- one comparison of the search, and what it says of the two events
  Decided : Bool → Scheduled W → Scheduled W → Type 0
  Decided true e g = IsBefore rank g e
  Decided false e g = IsBefore rank e g

  later-Decided :
      (b : Bool) (e g : Scheduled W) → IsTimed e → IsTimed g → later e g ≡ b → Decided b e g
  unfolding Decided
  later-Decided true e g he hg h = later-IsBefore e g he hg h
  later-Decided false e g he hg h = not_later-IsBefore e g he hg h

  taken-TakesFirst :
      (b : Bool) (e g : Scheduled W) (popped : Scheduled W × List (Scheduled W))
      → Decided b e g
      → TakesFirst (if b then g else e) popped
      → TakesFirst e (popped.0, (if b then e else g) ∷ popped.1)
  unfolding Decided TakesFirst
  taken-TakesFirst true e g popped h rest =
      let first : IsBefore rank popped.0 e = IsBefore-trans rank popped.0 g e rest.0 h in
      (first, (first, rest.1))
  taken-TakesFirst false e g popped h rest =
      (rest.0, (IsBefore-trans rank popped.0 e g rest.0 h, rest.1))

  pop_first-TakesFirst :
      (e : Scheduled W) (es : List (Scheduled W))
      → IsTimed e
      → All IsTimed es
      → TakesFirst e (pop_first e es)
  unfolding pop_first TakesFirst
  pop_first-TakesFirst e [] h hs = (inr (refl, omega arith), tt)
  pop_first-TakesFirst e (g ∷ es) h hs =
      let b = later e g in
      let taken = if b then g else e in
      taken-TakesFirst b e g (pop_first taken es) (later-Decided b e g h hs.0 refl)
        (pop_first-TakesFirst taken es (if_Holds IsTimed b hs.0 h) hs.1)

  -- If times compare as their ranks do, the event that the loop of `advanceTo` takes is due before
  -- every event that it leaves in the queue, or at the same time and was scheduled no later.
  pub pop_first-IsBefore :
      (e : Scheduled W) (es : List (Scheduled W))
      → IsTimed e
      → All IsTimed es
      → All (IsBefore rank (pop_first e es).0) (pop_first e es).1
  unfolding TakesFirst
  pop_first-IsBefore e es h hs = (pop_first-TakesFirst e es h hs).1
