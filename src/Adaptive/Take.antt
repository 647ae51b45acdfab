-- ===== src/Adaptive/Take.antt =====
-- `Take` ends, and yields a forager whenever there is one.
use ant_hoc_net.Collections.Map
use ant_hoc_net.Adaptive.{
  Entry, Forager, ForagerStore, Taken, is_empty, swap_out, take_entry, take_forager, take_list,
  with_entry,
}
use ant_hoc_net.Adaptive.Arrays.{
  All-get_elem?, All-set, All-swap_out, get_elem?-in_range, length-swap_out,
}
use ant_hoc_net.Collections.Key.{Key, nat_key, pair_key}
use ant_hoc_net.Collections.Map.{Map}
use ant_hoc_net.Double.{Double}
use ant_hoc_net.Message.{still}
use ant_hoc_net.Prelude.{
  All, All-mono, Among, Bool, Bool-cases, List, Option, Option-cases, [], ap, arith, false,
  get_elem?, inl, inr, length, length-set, ltb, map, none, refl, set, some, subst, suc, true, zero,
  ℕ, ◌&&◌, ◌+◌, ◌-◌, ◌<◌, ◌||◌, ◌∙◌, ◌∷◌, ◌≡◌, ◌≤◌, ◌⊎◌,
}

module _ {K W : Type 0} ⦃key : Key K⦄ ⦃d : Double W⦄ (P : Forager K W → Type 0)
    (stable : (f : Forager K W) → P f → P (record f { dances = f.dances - 1 })) (pick : ℕ → ℕ → ℕ)
    (in_range : (k n : ℕ) → 0 < n → pick k n < n) (s : ForagerStore K W) (now : W) where
  -- What the loop over an array leaves: it goes on to the end of the array unless it finds a forager,
  -- and when the other array is empty it finds one unless this one is empty too.
  pub record Ends (other_empty : Bool) (fs : List (Forager K W)) (t : Taken K W) : Type 0 where
    pub exhausted : t.found ≡ none → t.left ≡ []
    pub finds : other_empty ≡ true → 0 < length fs → (f : Forager K W) × (t.found ≡ some f)
    pub smaller : length t.left ≤ length fs
    pub kept : All P fs → All P t.left
    pub found_kept : All P fs → (f : Forager K W) → t.found ≡ some f → P f

  not_last :
      (young other_empty : Bool) (fs : List (Forager K W))
      → (young || (is_empty fs && other_empty)) ≡ false
      → other_empty ≡ true
      → 0 < length fs
  not_last young other_empty [] h e = absurd (ground arith)
  not_last young other_empty (x ∷ fs) h e = omega arith

  module _ (x : Forager K W) (xs : List (Forager K W)) (i : ℕ) (f : Forager K W)
      (at : get_elem? (x ∷ xs) i ≡ some f) where
    abbrev danced : Forager K W
    danced = record f { dances = f.dances - 1 }

    danced-Ends :
        (other_empty : Bool) (k : ℕ)
        → Ends other_empty
            (x ∷ xs)
            (record { found = some danced; left = set (x ∷ xs) i danced; draws = k })
    danced-Ends other_empty k = record {
      exhausted = λ e. absurd cc;
      finds = λ e more. (danced, refl);
      smaller = let same = length-set (x ∷ xs) i danced in omega arith;
      kept =
          λ all. All-set P (x ∷ xs) i danced all (stable f (All-get_elem? P (x ∷ xs) i f all at));
      found_kept = λ all g e.
          let same : danced ≡ g = cc in
          subst P same (stable f (All-get_elem? P (x ∷ xs) i f all at));
    }

    retired-Ends :
        (other_empty : Bool) (k : ℕ)
        → Ends other_empty
            (x ∷ xs)
            (record { found = some f; left = swap_out (x ∷ xs) i; draws = k })
    retired-Ends other_empty k = record {
      exhausted = λ e. absurd cc;
      finds = λ e more. (f, refl);
      smaller = let size = length-swap_out x xs i in omega arith;
      kept = λ all. All-swap_out P (x ∷ xs) i all;
      found_kept =
          λ all g e. let same : f ≡ g = cc in subst P same (All-get_elem? P (x ∷ xs) i f all at);
    }

  later-Ends :
      (x : Forager K W) (xs : List (Forager K W)) (i : ℕ) (young other_empty : Bool) (t : Taken K W)
      → (young || (is_empty (swap_out (x ∷ xs) i) && other_empty)) ≡ false
      → Ends other_empty (swap_out (x ∷ xs) i) t
      → Ends other_empty (x ∷ xs) t
  later-Ends x xs i young other_empty t old ends = record {
    exhausted = ends.exhausted;
    finds = λ e more. ends.finds e (not_last young other_empty (swap_out (x ∷ xs) i) old e);
    smaller = let less = ends.smaller in let size = length-swap_out x xs i in omega arith;
    kept = λ all. ends.kept (All-swap_out P (x ∷ xs) i all);
    found_kept = λ all. ends.found_kept (All-swap_out P (x ∷ xs) i all);
  }

  nothing-Ends :
      (other_empty : Bool) (k : ℕ)
      → Ends other_empty [] (record { found = none; left = []; draws = k })
  nothing-Ends other_empty k = record {
    exhausted = λ e. refl;
    finds = λ e more. absurd (omega arith);
    smaller = omega arith;
    kept = λ all. tt;
    found_kept = λ all f e. absurd cc;
  }

  take_list-Ends :
      (fuel : ℕ) (other_empty : Bool) (k : ℕ) (fs : List (Forager K W))
      → length fs < fuel
      → (t : Taken K W) × (take_list fuel pick s now other_empty k fs ≡ some t)
        × Ends other_empty fs t
  unfolding take_list
  take_list-Ends zero other_empty k fs h = absurd (omega arith)
  take_list-Ends (suc fuel) other_empty k [] h =
      (record { found = none; left = []; draws = k }, refl, nothing-Ends other_empty k)
  take_list-Ends (suc fuel) other_empty k (x ∷ xs) h =
      let i = pick k (suc (length xs)) in
      let rest = swap_out (x ∷ xs) i in
      let size : length rest ≡ length xs = length-swap_out x xs i in
      let (f, at) = get_elem?-in_range (x ∷ xs) i (in_range k (suc (length xs)) (omega arith)) in
      let young = d.lt (d.sub now f.stamp) s.lifetime in
      elim (Bool-cases (ltb 0 f.dances && d.lt (d.sub now f.stamp) s.dance_time)) [
        | inl dances ↦ (
          record {
            found = some (danced x xs i f at);
            left = set (x ∷ xs) i (danced x xs i f at);
            draws = k + 1;
          },
          rw (at, take_list, dances) refl,
          danced-Ends x xs i f at other_empty (k + 1),
        )
        | inr still ↦ elim (Bool-cases (young || (is_empty rest && other_empty))) [
          | inl goes ↦ (
            record { found = some f; left = rest; draws = k + 1 },
            rw (at, take_list, still, goes) refl,
            retired-Ends x xs i f at other_empty (k + 1),
          )
          | inr old ↦
              let (t, run, ends) = take_list-Ends fuel other_empty (k + 1) rest (omega arith) in
              (
                t,
                rw (at, take_list, still, old) run,
                later-Ends x xs i young other_empty t old ends,
              )
        ]
      ]

  empty_cases :
      (fs : List (Forager K W)) → ((is_empty fs ≡ true) × (length fs ≡ 0)) ⊎ (0 < length fs)
  empty_cases [] = inl (refl, refl)
  empty_cases (f ∷ fs) = inr (omega arith)

  -- what `Take` makes of the two arrays of an entry
  pub record EntryEnds (e : Entry K W) (o : Option (Forager K W)) (e' : Entry K W) : Type 0 where
    pub finds : 0 < length e.own + length e.foreign → (f : Forager K W) × (o ≡ some f)
    pub own_smaller : length e'.own ≤ length e.own
    pub foreign_smaller : length e'.foreign ≤ length e.foreign
    pub own_kept : All P e.own → All P e'.own
    pub foreign_kept : All P e.foreign → All P e'.foreign
    pub found_kept : All P e.own → All P e.foreign → (f : Forager K W) → o ≡ some f → P f

  pub take_entry-EntryEnds :
      (e : Entry K W)
      → (o : Option (Forager K W)) × (e' : Entry K W) × (take_entry pick s now e ≡ some (o, e'))
        × EntryEnds e o e'
  unfolding take_entry
  take_entry-EntryEnds e =
      let (t, run, ends) =
        take_list-Ends (suc (length e.own)) (is_empty e.foreign) 0 e.own (omega arith) in
      elim (Option-cases t.found) [
        | inr (f, found) ↦ (
          some f,
          record e { own = t.left },
          rw (run, take_entry, found) refl,
          record {
            finds = λ more. (f, refl);
            own_smaller = ends.smaller;
            foreign_smaller = omega arith;
            own_kept = ends.kept;
            foreign_kept = λ all. all;
            found_kept = λ own foreign g at. ends.found_kept own g (found ∙ at);
          },
        )
        | inl nothing ↦
            let gone = ends.exhausted nothing in
            let (u, run', ends') =
              take_list-Ends (suc (length e.foreign)) (is_empty t.left) t.draws e.foreign
                (omega arith) in
            (
              u.found,
              record e { own = t.left; foreign = u.left },
              rw (run, take_entry, nothing, run') refl,
              record {
                finds = λ more. elim (empty_cases e.foreign) [
                  | inr some_foreign ↦ ends'.finds (ap is_empty gone) some_foreign
                  | inl (empty, size) ↦
                      let (f, found) = ends.finds empty (omega arith) in
                      absurd (cc (found, nothing))
                ];
                own_smaller = ends.smaller;
                foreign_smaller = ends'.smaller;
                own_kept = ends.kept;
                foreign_kept = ends'.kept;
                found_kept = λ own foreign. ends'.found_kept foreign;
              },
            )
      ]

module _ {K W : Type 0} ⦃key : Key K⦄ ⦃d : Double W⦄ where
  abbrev routes : List (Forager K W) → List (List K)
  routes fs = map (λ (f : Forager K W). f.path) fs

  -- the forager has the route of one that the entry has
  abbrev pub IsRouteOf : Entry K W → Forager K W → Type 0
  IsRouteOf e f = Among f.path (routes e.own) ⊎ Among f.path (routes e.foreign)

  All-routes : (fs : List (Forager K W)) → All (λ f. Among f.path (routes fs)) fs
  All-routes [] = tt
  All-routes (f ∷ fs) = (
    inl refl,
    All-mono (λ g. Among g.path (routes fs)) (λ g. Among g.path (routes (f ∷ fs))) fs (λ g h. inr h)
        (All-routes fs),
  )

  -- If each draw from [0, n) is below n, then `Take` ends, and if the arrays for the destination are not
  -- both empty, it yields a forager, with the route of one that was there.
  pub take_forager-finds :
      (pick : ℕ → ℕ → ℕ) (s : ForagerStore K W) (dst : K) (now : W) (e : Entry K W)
      → ((k n : ℕ) → 0 < n → pick k n < n)
      → Map.lookup dst s.entries ≡ some e
      → 0 < length e.own + length e.foreign
      → (f : Forager K W) × (s' : ForagerStore K W) × (take_forager pick s dst now
          ≡ some (some f, s'))
        × IsRouteOf e f
  unfolding take_forager
  take_forager-finds pick s dst now e in_range at more =
      let (o, e', run, ends) =
        take_entry-EntryEnds (IsRouteOf e) (λ f p. p) pick in_range s now e in
      let (f, found) = ends.finds more in
      let own : All (IsRouteOf e) e.own =
        All-mono (λ g. Among g.path (routes e.own)) (IsRouteOf e) e.own (λ g h. inl h)
          (All-routes e.own) in
      let foreign : All (IsRouteOf e) e.foreign =
        All-mono (λ g. Among g.path (routes e.foreign)) (IsRouteOf e) e.foreign (λ g h. inr h)
          (All-routes e.foreign) in
      (
        f,
        with_entry s dst e',
        rw (at, take_forager, run, found) refl,
        ends.found_kept own foreign f found,
      )
