-- ===== src/Adaptive.antt =====
-- The parts of ns3/baselines/adaptive/model/adaptive-tables.h that serve BeeAdHoc: the rating of a
-- route and `ForagerStore`. Addresses are any keys, times are numbers of the interface Double.
pub mod Arrays
pub mod Bounded
pub mod Take
pub mod Trails
pub mod Valid
pub mod Links
pub mod Pick
mod Tests
use ant_hoc_net.Collections.Map
use ant_hoc_net.Collections.Set
use ant_hoc_net.Collections.Key.{Key, nat_key, pair_key}
use ant_hoc_net.Collections.Map.{Map}
use ant_hoc_net.Double.{Double}
use ant_hoc_net.Prelude.{
  Bool, List, Option, [], false, foldl, get_elem?, if◌then◌else◌, leb, length, ltb, min, none, set,
  some, suc, true, zero, ℕ, ◌%◌, ◌&&◌, ◌*◌, ◌++◌, ◌+◌, ◌-◌, ◌/◌, ◌==◌, ◌^◌, ◌||◌, ◌∷◌,
}
use ant_hoc_net.ShortestPath.Measure.{key}

pub record Forager (K W : Type 0) : Type 0 where
  pub path : List K
  pub levels : List ℕ
  pub dances : ℕ
  pub stamp : W

-- the foragers for one destination
pub record Entry (K W : Type 0) : Type 0 where
  pub own : List (Forager K W)
  pub foreign : List (Forager K W)

pub record ForagerStore (K W : Type 0) : Type 0 where
  pub entries : Map.Map K (Entry K W)
  pub array_size : ℕ
  pub lifetime : W
  pub dance_time : W
  pub max_hops : ℕ
  pub max_dances : ℕ
  pub cap_dances : Bool

-- what is left of an array, the forager found in it if there is one, and the draws made so far
pub record Taken (K W : Type 0) : Type 0 where
  pub found : Option (Forager K W)
  pub left : List (Forager K W)
  pub draws : ℕ

-- the least of the 3-bit levels and 7
abbrev pub least_level : List ℕ → ℕ
least_level levels = foldl (λ m v. min m (v % 8)) 7 levels

-- their sum, a `uint32_t`
abbrev pub sum_levels : List ℕ → ℕ
sum_levels levels = foldl (λ s v. (s + v % 8) % 2 ^ 32) 0 levels

abbrev pub is_empty {ℓ} : {A : Type ℓ} → List A → Bool
is_empty [] = true
is_empty (x ∷ xs) = false

-- `BeeDances`, with the products in `uint32_t`
unfoldable pub bee_dances : ℕ → List ℕ → ℕ → ℕ → Bool → ℕ
bee_dances hops levels max_hops max_dances capped =
    if ltb hops 2
    then max_dances
    else if ltb max_hops (hops - 1)
    then 0
    else let avg : ℕ =
        if is_empty levels then 7 else sum_levels levels / (length levels % 2 ^ 32) in
      let v = (((max_hops - (hops - 1)) * least_level levels * avg + 1) % 2 ^ 32) / 44 in
      if capped then min v max_dances else v

-- the last element and those before it
unfoldable pub pop_back {ℓ} : {A : Type ℓ} → List A → Option (List A × A)
pop_back [] = none
pop_back (x ∷ xs) = elim (pop_back xs) [
  | none ↦ some ([], x)
  | some (init, last) ↦ some (x ∷ init, last)
]

-- `list[i] = move(list.back())` where i is not the last index, and `pop_back`
unfoldable pub swap_out {ℓ} : {A : Type ℓ} → List A → ℕ → List A
unfolding pop_back
swap_out xs i = elim (pop_back xs) [
  | none ↦ []
  | some (init, last) ↦ if i + 1 == length xs then init else set init i last
]

module _ {K : Type 0} ⦃key : Key K⦄ where
  open key use {beq}

  -- some k has path[k] = a and path[k + 1] = b
  unfoldable pub uses_link : K → K → List K → Bool
  uses_link a b [] = false
  uses_link a b (x ∷ []) = false
  uses_link a b (x ∷ y ∷ path) = (beq x a && beq y b) || uses_link a b (y ∷ path)

module _ {K W : Type 0} ⦃key : Key K⦄ ⦃d : Double W⦄ where
  open d use {sub, lt}

  abbrev pub no_foragers : Entry K W
  no_foragers = record { own = []; foreign = [] }

  abbrev pub entry_of : ForagerStore K W → K → Entry K W
  entry_of s dst = elim (Map.lookup dst s.entries) [ none ↦ no_foragers | some e ↦ e ]

  abbrev pub array_of : Entry K W → Bool → List (Forager K W)
  array_of e foreign = if foreign then e.foreign else e.own

  abbrev pub with_array : Entry K W → Bool → List (Forager K W) → Entry K W
  with_array e foreign fs = if foreign then record e { foreign = fs } else record e { own = fs }

  abbrev pub with_entry : ForagerStore K W → K → Entry K W → ForagerStore K W
  with_entry s dst e = record s { entries = Map.insert dst e s.entries }

  -- `Configure`
  abbrev pub configure : ForagerStore K W → ℕ → W → W → ℕ → ℕ → Bool → ForagerStore K W
  configure s array_size lifetime dance_time max_hops max_dances cap_dances = record s {
    array_size = array_size;
    lifetime = lifetime;
    dance_time = dance_time;
    max_hops = max_hops;
    max_dances = max_dances;
    cap_dances = cap_dances;
  }

  -- the dances that `Put` gives a forager
  abbrev pub rate : ForagerStore K W → Forager K W → ℕ
  rate s f = bee_dances ((length f.path - 1) % 2 ^ 32) f.levels s.max_hops s.max_dances s.cap_dances

  -- `Put`: the subscript makes an entry even where the forager is discarded
  unfoldable pub put : ForagerStore K W → K → Forager K W → Bool → W → Bool × ForagerStore K W
  unfolding bee_dances Map.insert Map.lookup
  put s dst f foreign now =
      let e = entry_of s dst in
      let fs = array_of e foreign in
      if leb s.array_size (length fs) || ltb (length f.path) 2
      then (false, with_entry s dst e)
      else (
        true,
        with_entry s dst
            (with_array e foreign (fs ++ (record f { dances = rate s f; stamp = now } ∷ []))),
      )

  -- The `while` loop of `Take` over one array. The k-th draw from [0, n) is `pick k n`. The result is
  -- `none` if the fuel runs out or a draw is not below n.
  unfoldable pub take_list :
      ℕ → (ℕ → ℕ → ℕ) → ForagerStore K W → W → Bool → ℕ → List (Forager K W) → Option (Taken K W)
  unfolding swap_out
  take_list zero pick s now other_empty k fs = none
  take_list (suc fuel) pick s now other_empty k [] =
      some (record { found = none; left = []; draws = k })
  take_list (suc fuel) pick s now other_empty k (x ∷ xs) =
      let fs = x ∷ xs in
      let i = pick k (length fs) in
      let rest = swap_out fs i in
      let again = take_list fuel pick s now other_empty (k + 1) rest in
      elim (get_elem? fs i) [
        | none ↦ none
        | some f ↦
            let age = sub now f.stamp in
            let danced = record f { dances = f.dances - 1 } in
            if ltb 0 f.dances && lt age s.dance_time
            then some (record { found = some danced; left = set fs i danced; draws = k + 1 })
            else if lt age s.lifetime || (is_empty rest && other_empty)
            then some (record { found = some f; left = rest; draws = k + 1 })
            else again
      ]

  -- `Take` on an entry: the array of own foragers, then the foreign one
  unfoldable pub take_entry :
      (ℕ → ℕ → ℕ) → ForagerStore K W → W → Entry K W → Option (Option (Forager K W) × Entry K W)
  unfolding take_list
  take_entry pick s now e =
      elim (take_list (suc (length e.own)) pick s now (is_empty e.foreign) 0 e.own) [
        | none ↦ none
        | some t ↦ elim t.found [
          | some f ↦ some (some f, record e { own = t.left })
          | none ↦
              elim (take_list (suc (length e.foreign)) pick s now (is_empty t.left) t.draws
                e.foreign) [
                  | none ↦ none
                  | some u ↦ some (u.found, record e { own = t.left; foreign = u.left })
                ]
        ]
      ]

  -- `Take`: a forager, or none
  unfoldable pub take_forager :
      (ℕ → ℕ → ℕ) → ForagerStore K W → K → W → Option (Option (Forager K W) × ForagerStore K W)
  unfolding take_entry Map.insert Map.lookup
  take_forager pick s dst now = elim (Map.lookup dst s.entries) [
    | none ↦ some (none, s)
    | some e ↦ elim (take_entry pick s now e) [
      | none ↦ none
      | some (f, e') ↦ some (f, with_entry s dst e')
    ]
  ]

  -- at most n foragers from the back of an array, and the others
  unfoldable pub take_back : ℕ → List (Forager K W) → List (Forager K W) × List (Forager K W)
  unfolding pop_back
  take_back zero fs = ([], fs)
  take_back (suc n) fs = elim (pop_back fs) [
    | none ↦ ([], fs)
    | some (init, last) ↦ let more = take_back n init in (last ∷ more.0, more.1)
  ]

  -- `TakeForeign`
  unfoldable pub take_foreign : ForagerStore K W → K → ℕ → List (Forager K W) × ForagerStore K W
  unfolding take_back Map.insert Map.lookup
  take_foreign s dst n = elim (Map.lookup dst s.entries) [
    | none ↦ ([], s)
    | some e ↦
        let taken = take_back n e.foreign in
        (taken.0, with_entry s dst (record e { foreign = taken.1 }))
  ]

  -- `Count`
  unfoldable pub count : ForagerStore K W → K → Bool → ℕ
  unfolding Map.lookup
  count s dst foreign = length (array_of (entry_of s dst) foreign) % 2 ^ 32

  -- `erase(remove_if(...))`
  unfoldable pub without_link : K → K → List (Forager K W) → List (Forager K W)
  unfolding uses_link
  without_link a b [] = []
  without_link a b (f ∷ fs) =
      let rest = without_link a b fs in if uses_link a b f.path then rest else f ∷ rest

  -- `RemoveLink`, on the entries
  unfoldable pub drop_link : K → K → Map.Map K (Entry K W) → Map.Map K (Entry K W)
  unfolding without_link
  drop_link a b [] = []
  drop_link a b ((dst, e) ∷ m) =
      (dst, record { own = without_link a b e.own; foreign = without_link a b e.foreign })
      ∷ drop_link a b m

  -- `RemoveLink`
  unfoldable pub remove_link : ForagerStore K W → K → K → ForagerStore K W
  unfolding drop_link
  remove_link s a b = record s { entries = drop_link a b s.entries }

  -- the second node of each route, into the set
  unfoldable pub collect_hops : List (Forager K W) → Set.OrderedSet K → Set.OrderedSet K
  unfolding Set.insert
  collect_hops [] hops = hops
  collect_hops (f ∷ fs) hops = elim (get_elem? f.path 1) [
    | none ↦ collect_hops fs hops
    | some n ↦ collect_hops fs (Set.insert n hops)
  ]

  -- `FirstHops`
  unfoldable pub first_hops : Map.Map K (Entry K W) → Set.OrderedSet K → Set.OrderedSet K
  unfolding collect_hops
  first_hops [] hops = hops
  first_hops ((dst, e) ∷ m) hops = first_hops m (collect_hops e.foreign (collect_hops e.own hops))
