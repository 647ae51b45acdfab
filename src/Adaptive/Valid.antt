-- ===== src/Adaptive/Valid.antt =====
-- The bounds of the store: `Put` and `Take` keep them, whatever the order of the calls.
use ant_hoc_net.Collections.Map
use ant_hoc_net.Adaptive.{
  Entry, Forager, ForagerStore, array_of, bee_dances, entry_of, no_foragers, put, rate, remove_link,
  take_back, take_forager, take_foreign, uses_link, with_array, with_entry, without_link,
}
use ant_hoc_net.Adaptive.Arrays.{All-pop_back, length-pop_back}
use ant_hoc_net.Adaptive.Links.{lookup-drop_link}
use ant_hoc_net.Adaptive.Take.{take_entry-EntryEnds}
use ant_hoc_net.Collections.Key.{Key, nat_key, pair_key}
use ant_hoc_net.Collections.Map.{Map}
use ant_hoc_net.Double.{Double}
use ant_hoc_net.Prelude.{
  All, All-append, Bool, Bool-cases, List, Option, Option-cases, [], arith, false, inl, inr, leb,
  length, length-append, ltb, none, refl, some, subst, suc, true, zero, ℕ, ◌%◌, ◌++◌, ◌-◌, ◌<◌, ◌^◌,
  ◌||◌, ◌∷◌, ◌≡◌, ◌≤◌,
}

-- A capped rating is at most the maximum.
bee_dances-le :
    (hops : ℕ) (levels : List ℕ) (max_hops max_dances : ℕ)
    → bee_dances hops levels max_hops max_dances true ≤ max_dances
unfolding bee_dances
bee_dances-le hops levels max_hops max_dances = ground arith

module _ {K W : Type 0} ⦃key : Key K⦄ ⦃d : Double W⦄ (size hops dances : ℕ) where
  -- a route of one link or more, rated within the maximum
  abbrev pub IsForager : Forager K W → Type 0
  IsForager f = (2 ≤ length f.path) × (f.dances ≤ dances)

  pub record IsEntry (e : Entry K W) : Type 0 where
    pub own_size : length e.own ≤ size
    pub foreign_size : length e.foreign ≤ size
    pub own_foragers : All IsForager e.own
    pub foreign_foragers : All IsForager e.foreign

  -- the store has the parameters, rates with the cap, and every entry is within them
  pub record IsStore (s : ForagerStore K W) : Type 0 where
    pub size_eq : s.array_size ≡ size
    pub dances_eq : s.max_dances ≡ dances
    pub capped : s.cap_dances ≡ true
    pub entries : (dst : K) (e : Entry K W) → Map.lookup dst s.entries ≡ some e → IsEntry e

  empty-IsEntry : IsEntry no_foragers
  empty-IsEntry = record {
    own_size = omega arith;
    foreign_size = omega arith;
    own_foragers = tt;
    foreign_foragers = tt;
  }

  entry_of-IsEntry : (s : ForagerStore K W) (dst : K) → IsStore s → IsEntry (entry_of s dst)
  entry_of-IsEntry s dst valid = elim (Option-cases (Map.lookup dst s.entries)) [
    | inl missing ↦ rw (missing, entry_of) empty-IsEntry
    | inr (e, at) ↦ rw (at, entry_of) (valid.entries dst e at)
  ]

  with_entry-IsStore :
      (s : ForagerStore K W) (dst : K) (e : Entry K W)
      → IsStore s
      → IsEntry e
      → IsStore (with_entry s dst e)
  with_entry-IsStore s dst e valid ok = record {
    size_eq = valid.size_eq;
    dances_eq = valid.dances_eq;
    capped = valid.capped;
    entries = λ j e' at.
        let at' = rw (Map.lookup-insert dst j e s.entries) at at in
        elim (Bool-cases (key.beq dst j)) [
          | inl hit ↦ let same : e ≡ e' = cc (rw hit at at') in subst IsEntry same ok
          | inr miss ↦ valid.entries j e' (rw miss at at')
        ];
  }

  put_entry-IsEntry :
      (e : Entry K W) (foreign : Bool) (f : Forager K W)
      → IsEntry e
      → IsForager f
      → length (array_of e foreign) < size
      → IsEntry (with_array e foreign (array_of e foreign ++ (f ∷ [])))
  put_entry-IsEntry e true f valid ok room = record {
    own_size = valid.own_size;
    foreign_size = let more = length-append e.foreign (f ∷ []) in omega arith;
    own_foragers = valid.own_foragers;
    foreign_foragers = All-append IsForager e.foreign (f ∷ []) valid.foreign_foragers (ok, tt);
  }
  put_entry-IsEntry e false f valid ok room = record {
    own_size = let more = length-append e.own (f ∷ []) in omega arith;
    foreign_size = valid.foreign_size;
    own_foragers = All-append IsForager e.own (f ∷ []) valid.own_foragers (ok, tt);
    foreign_foragers = valid.foreign_foragers;
  }

  pub put-IsStore :
      (s : ForagerStore K W) (dst : K) (f : Forager K W) (foreign : Bool) (now : W)
      → IsStore s
      → IsStore (put s dst f foreign now).1
  unfolding put
  put-IsStore s dst f foreign now valid =
      let e = entry_of s dst in
      let ok = entry_of-IsEntry s dst valid in
      let capacity = valid.size_eq in
      elim (Bool-cases (leb s.array_size (length (array_of e foreign)) || ltb (length f.path) 2)) [
        | inl full ↦ rw full (with_entry-IsStore s dst e valid ok)
        | inr room ↦
            let rated : rate s f ≤ dances =
              rw (valid.capped, valid.dances_eq)
                (bee_dances-le ((length f.path - 1) % 2 ^ 32) f.levels s.max_hops dances) in
            rw room (
              with_entry-IsStore s dst
                (with_array e foreign
                  (array_of e foreign ++ (record f { dances = rate s f; stamp = now } ∷ [])))
                valid
                (put_entry-IsEntry e foreign (record f { dances = rate s f; stamp = now }) ok
                  (ground arith, rated) (ground arith)))
      ]

  pub take_forager-IsStore :
      (pick : ℕ → ℕ → ℕ) (s : ForagerStore K W) (dst : K) (now : W)
      → ((k n : ℕ) → 0 < n → pick k n < n)
      → IsStore s
      → (o : Option (Forager K W)) × (s' : ForagerStore K W) × (take_forager pick s dst now
          ≡ some (o, s'))
        × IsStore s'
  unfolding take_forager
  take_forager-IsStore pick s dst now in_range valid =
      elim (Option-cases (Map.lookup dst s.entries)) [
        | inl missing ↦ (none, s, rw (missing, take_forager) refl, valid)
        | inr (e, at) ↦
            let ok = valid.entries dst e at in
            let (o, e', run, ends) =
              take_entry-EntryEnds IsForager (λ f p. (p.0, omega arith)) pick in_range s now e in
            let ok' : IsEntry e' = record {
              own_size = omega (arith, ends.own_smaller, ok.own_size);
              foreign_size = omega (arith, ends.foreign_smaller, ok.foreign_size);
              own_foragers = ends.own_kept ok.own_foragers;
              foreign_foragers = ends.foreign_kept ok.foreign_foragers;
            } in
            (
              o,
              with_entry s dst e',
              rw (at, take_forager, run) refl,
              with_entry-IsStore s dst e' valid ok',
            )
      ]

  take_back-All :
      (n : ℕ) (fs : List (Forager K W))
      → All IsForager fs
      → (length (take_back n fs).1 ≤ length fs) × All IsForager (take_back n fs).1
  unfolding take_back
  take_back-All zero fs all = (omega arith, all)
  take_back-All (suc n) fs all = elim (length-pop_back fs) [
    | inl (at, e) ↦ rw (e, take_back) (omega arith, all)
    | inr (init, last, e, size) ↦
        let parts = All-pop_back IsForager fs init last e all in
        let ih = take_back-All n init parts.0 in rw (e, take_back) (omega (arith, ih.0), ih.1)
  ]

  pub take_foreign-IsStore :
      (s : ForagerStore K W) (dst : K) (n : ℕ) → IsStore s → IsStore (take_foreign s dst n).1
  unfolding take_foreign
  take_foreign-IsStore s dst n valid = elim (Option-cases (Map.lookup dst s.entries)) [
    | inl missing ↦ rw (missing, take_foreign) valid
    | inr (e, at) ↦
        let ok = valid.entries dst e at in
        let rest = take_back-All n e.foreign ok.foreign_foragers in
        rw (at, take_foreign)
          (with_entry-IsStore s dst (record e { foreign = (take_back n e.foreign).1 }) valid
            (record {
              own_size = ok.own_size;
              foreign_size = omega (arith, rest.0, ok.foreign_size);
              own_foragers = ok.own_foragers;
              foreign_foragers = rest.1;
            }))
  ]

  without_link-All :
      (a b : K) (fs : List (Forager K W))
      → All IsForager fs
      → (length (without_link a b fs) ≤ length fs) × All IsForager (without_link a b fs)
  unfolding without_link
  without_link-All a b [] all = (omega arith, tt)
  without_link-All a b (f ∷ fs) all =
      let ih = without_link-All a b fs all.1 in
      elim (Bool-cases (uses_link a b f.path)) [
        | inl over ↦ rw over (omega (arith, ih.0), ih.1)
        | inr apart ↦ rw apart (omega (arith, ih.0), (all.0, ih.1))
      ]

  pub remove_link-IsStore :
      (s : ForagerStore K W) (a b : K) → IsStore s → IsStore (remove_link s a b)
  unfolding remove_link
  remove_link-IsStore s a b valid = record {
    size_eq = valid.size_eq;
    dances_eq = valid.dances_eq;
    capped = valid.capped;
    entries = λ dst e at. elim (Option-cases (Map.lookup dst s.entries)) [
      | inl missing ↦ absurd (cc (rw (lookup-drop_link a b dst s.entries, missing) at at))
      | inr (e', at') ↦
          let ok = valid.entries dst e' at' in
          let own = without_link-All a b e'.own ok.own_foragers in
          let foreign = without_link-All a b e'.foreign ok.foreign_foragers in
          let left : Entry K W = record {
            own = without_link a b e'.own;
            foreign = without_link a b e'.foreign;
          } in
          let same : left ≡ e = cc (rw (lookup-drop_link a b dst s.entries, at') at at) in
          subst IsEntry same (record {
            own_size = omega (arith, own.0, ok.own_size);
            foreign_size = omega (arith, foreign.0, ok.foreign_size);
            own_foragers = own.1;
            foreign_foragers = foreign.1;
          })
    ];
  }

  -- the stores that the calls of a program lead to, from one that is empty
  pub data IsReached : ForagerStore K W → Type 0 where
    reached_start :
        (lifetime dance_time : W)
        → IsReached (record {
          entries = [];
          array_size = size;
          lifetime = lifetime;
          dance_time = dance_time;
          max_hops = hops;
          max_dances = dances;
          cap_dances = true;
        })
    reached_put :
        (s : ForagerStore K W) (dst : K) (f : Forager K W) (foreign : Bool) (now : W)
        → IsReached s
        → IsReached (put s dst f foreign now).1
    reached_take :
        (s s' : ForagerStore K W) (pick : ℕ → ℕ → ℕ) (dst : K) (now : W) (o : Option (Forager K W))
        → IsReached s
        → ((k n : ℕ) → 0 < n → pick k n < n)
        → take_forager pick s dst now ≡ some (o, s')
        → IsReached s'
    reached_take_foreign :
        (s : ForagerStore K W) (dst : K) (n : ℕ) → IsReached s → IsReached (take_foreign s dst n).1
    reached_remove_link :
        (s : ForagerStore K W) (a b : K) → IsReached s → IsReached (remove_link s a b)

  -- In every store that `Put`, `Take`, `TakeForeign` and `RemoveLink` lead to, in any order, from an
  -- empty store that caps its ratings, no array is longer than the size given, and every forager has a
  -- route of one link or more and at most the maximum of dances.
  pub IsReached-IsStore : (s : ForagerStore K W) → IsReached s → IsStore s
  unfolding Map.lookup
  IsReached-IsStore _ (reached_start lifetime dance_time) = record {
    size_eq = refl;
    dances_eq = refl;
    capped = refl;
    entries = λ dst e at. absurd cc;
  }
  IsReached-IsStore _ (reached_put s dst f foreign now r) =
      put-IsStore s dst f foreign now (IsReached-IsStore s r)
  IsReached-IsStore _ (reached_take s s' pick dst now o r in_range run) =
      let (o', t, run', ok) =
        take_forager-IsStore pick s dst now in_range (IsReached-IsStore s r) in
      let same : t ≡ s' = cc (run, run') in subst IsStore same ok
  IsReached-IsStore _ (reached_take_foreign s dst n r) =
      take_foreign-IsStore s dst n (IsReached-IsStore s r)
  IsReached-IsStore _ (reached_remove_link s a b r) =
      remove_link-IsStore s a b (IsReached-IsStore s r)
