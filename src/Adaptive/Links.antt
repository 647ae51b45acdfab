-- ===== src/Adaptive/Links.antt =====
-- `RemoveLink` drops the routes over a link, and no others.
use ant_hoc_net.Collections.Map
use ant_hoc_net.Adaptive.{
  Entry, Forager, ForagerStore, array_of, drop_link, entry_of, remove_link, uses_link, without_link,
}
use ant_hoc_net.Collections.Key.{Key, nat_key, pair_key}
use ant_hoc_net.Collections.Map.{Map}
use ant_hoc_net.Double.{Double}
use ant_hoc_net.Prelude.{
  Among, Bool, Bool-cases, List, Option, Option-cases, [], ap, arith, false, false≢true, inl, inr,
  none, refl, some, sym, true, ◌&&◌, ◌++◌, ◌↔◌, ◌∙◌, ◌∷◌, ◌≡◌,
}

module _ {K : Type 0} ⦃key : Key K⦄ where
  open key use {beq_iff}

  -- the route goes from a to b somewhere
  abbrev pub Crosses : K → K → List K → Type 0
  Crosses a b path = (before : List K) × (after : List K) × (path ≡ before ++ (a ∷ (b ∷ after)))

  uses_link-Crosses : (a b : K) (path : List K) → Crosses a b path → uses_link a b path ≡ true
  unfolding uses_link
  uses_link-Crosses a b path ([], after, e) = rw e (ground (arith, beq_iff a a, beq_iff b b))
  uses_link-Crosses a b path (x ∷ [], after, e) = rw e (ground (arith, beq_iff a a, beq_iff b b))
  uses_link-Crosses a b path (x ∷ y ∷ before, after, e) =
      let rest =
        uses_link-Crosses a b (y ∷ (before ++ (a ∷ (b ∷ after)))) (y ∷ before, after, refl) in
      rw e (ground arith)

  Crosses-uses_link : (a b : K) (path : List K) → uses_link a b path ≡ true → Crosses a b path
  unfolding uses_link
  Crosses-uses_link a b [] h = absurd cc
  Crosses-uses_link a b (x ∷ []) h = absurd cc
  Crosses-uses_link a b (x ∷ y ∷ path) h = elim (Bool-cases (key.beq x a && key.beq y b)) [
    | inl here ↦
        let at : x ≡ a = (beq_iff x a).0 (ground arith) in
        let at' : y ≡ b = (beq_iff y b).0 (ground arith) in ([], path, cc)
    | inr not_here ↦
        let (before, after, e) = Crosses-uses_link a b (y ∷ path) (ground arith) in
        (x ∷ before, after, ap (λ (ys : List K). x ∷ ys) e)
  ]

module _ {K W : Type 0} ⦃key : Key K⦄ ⦃d : Double W⦄ where
  pub lookup-drop_link :
      (a b dst : K) (m : Map.Map K (Entry K W))
      → Map.lookup dst (drop_link a b m) ≡ elim (Map.lookup dst m) as (λ o. Option (Entry K W)) [
        | none ↦ none
        | some e ↦
            some (record { own = without_link a b e.own; foreign = without_link a b e.foreign })
      ]
  unfolding drop_link Map.lookup
  lookup-drop_link a b dst [] = refl
  lookup-drop_link a b dst ((j, e) ∷ m) = elim (Bool-cases (key.beq j dst)) [
    | inl hit ↦ rw hit refl
    | inr miss ↦ rw miss (lookup-drop_link a b dst m)
  ]

  without_link_iff :
      (a b : K) (f : Forager K W) (fs : List (Forager K W))
      → Among f (without_link a b fs) ↔ (Among f fs × ¬ Crosses a b f.path)
  unfolding without_link
  without_link_iff a b f [] = (λ h. absurd h, λ h. h.0)
  without_link_iff a b f (g ∷ fs) =
      let ih = without_link_iff a b f fs in
      elim (Bool-cases (uses_link a b g.path)) [
        | inl over ↦ (
          λ h. let old = ih.0 (rw over at h) in (inr old.0, old.1),
          λ h. rw over (
              ih.1 (
                elim h.0 [
                  | inl same ↦ absurd (
                      h.1 (
                        Crosses-uses_link a b f.path
                          (ap (λ (x : Forager K W). uses_link a b x.path) same ∙ over)))
                  | inr i ↦ i
                ],
                h.1,
              )),
        )
        | inr apart ↦ (
          λ h. elim (rw apart at h) as (λ _. Among f (g ∷ fs) × ¬ Crosses a b f.path) [
            | inl same ↦ (
              inl same,
              λ c. false≢true (
                  sym apart
                  ∙ ap (λ (x : Forager K W). uses_link a b x.path) (sym same)
                  ∙ uses_link-Crosses a b f.path c),
            )
            | inr i ↦ (inr (ih.0 i).0, (ih.0 i).1)
          ],
          λ h. rw apart (elim h.0 [ inl same ↦ inl same | inr i ↦ inr (ih.1 (i, h.1)) ]),
        )
      ]

  entry_of-remove_link :
      (s : ForagerStore K W) (a b dst : K)
      → entry_of (remove_link s a b) dst ≡ record {
        own = without_link a b (entry_of s dst).own;
        foreign = without_link a b (entry_of s dst).foreign;
      }
  unfolding remove_link without_link
  entry_of-remove_link s a b dst = elim (Option-cases (Map.lookup dst s.entries)) [
    | inl missing ↦ rw (lookup-drop_link a b dst s.entries, missing, entry_of) refl
    | inr (e, at) ↦ rw (lookup-drop_link a b dst s.entries, at, entry_of) refl
  ]

  -- After `RemoveLink` an array of a destination has exactly the foragers that it had before and whose
  -- routes do not go over the link from a to b.
  pub remove_link_iff :
      (s : ForagerStore K W) (a b dst : K) (foreign : Bool) (f : Forager K W)
      → Among f (array_of (entry_of (remove_link s a b) dst) foreign)
        ↔ (Among f (array_of (entry_of s dst) foreign) × ¬ Crosses a b f.path)
  remove_link_iff s a b dst true f =
      rw (entry_of-remove_link s a b dst) (without_link_iff a b f (entry_of s dst).foreign)
  remove_link_iff s a b dst false f =
      rw (entry_of-remove_link s a b dst) (without_link_iff a b f (entry_of s dst).own)
