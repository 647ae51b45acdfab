-- ===== src/Adaptive/Trails.antt =====
-- `PheromoneTable` of ns3/baselines/adaptive/model/adaptive-tables.h, whose trails decay when they are
-- read, with the formulas of the same file that protocols on such tables use.
mod Tests
use Prim.Native.Nat.{max}
use ant_hoc_net.Collections.Map
use ant_hoc_net.Collections.Set
use ant_hoc_net.Adaptive.{is_empty}
use ant_hoc_net.Collections.Key.{Key, nat_key, pair_key}
use ant_hoc_net.Collections.Map.{Map}
use ant_hoc_net.Double.{Double, gt, nought, one}
use ant_hoc_net.Prelude.{
  All, Bool, Bool-cases, List, Option, [], ap, false, foldl, if◌then◌else◌, inl, inr, length, min,
  none, not, refl, some, suc, ℕ, ◌&&◌, ◌+◌, ◌∷◌, ◌≡◌,
}

pub data Decay : Type 0 where
  geometric : Decay
  exponential : Decay

pub record Entry (W : Type 0) : Type 0 where
  pub value : W
  pub last : W

-- destination, then neighbour
pub record PheromoneTable (K W : Type 0) : Type 0 where
  pub trails : Map.Map K (Map.Map K (Entry W))
  pub decay : Decay
  pub rate : W
  pub period : W
  pub floor : W

module _ {W : Type 0} ⦃d : Double W⦄ where
  open d use {literal, add, sub, mul, div, pow, le}

  unfoldable pub termite_weight : W → W → W → W
  termite_weight pheromone k f = pow (add pheromone k) f

  unfoldable pub q_update : W → W → W → W → W → W
  q_update q eta wait transmission estimate =
      add q (mul eta (sub (add (add wait transmission) estimate) q))

  -- `ceil` is std::ceil and the conversion to `int`, of a number above 0
  unfoldable pub bee_battery_level : (W → ℕ) → W → ℕ
  bee_battery_level ceil percent =
      let step = div (sub (literal 65 0) (literal 14 0)) (literal 5 0) in
      let bin = ceil (div (sub percent (literal 14 0)) step) in
      if le percent (literal 9 0)
      then 0
      else if le percent (literal 14 0)
      then 1
      else if gt percent (literal 65 0)
      then 7
      else 1 + min 5 (max 1 bin)

module _ {K W : Type 0} ⦃key : Key K⦄ ⦃d : Double W⦄ where
  open d use {add, sub, mul, div, neg, pow, exp, lt}

  -- `Configure` of a new table
  abbrev pub configured : Decay → W → W → W → PheromoneTable K W
  configured decay rate period floor = record {
    trails = [];
    decay = decay;
    rate = rate;
    period = period;
    floor = floor;
  }

  -- what is left of 1 after a time
  unfoldable pub factor : PheromoneTable K W → W → W
  factor t dt = elim (t.decay) [
    | geometric ↦ pow (sub one t.rate) (div dt t.period)
    | exponential ↦ exp (mul (neg t.rate) dt)
  ]

  -- `Refresh`
  unfoldable pub refresh : PheromoneTable K W → Entry W → W → Entry W
  refresh t e now =
      let dt = sub now e.last in
      let value =
        if lt nought dt && lt nought e.value then mul e.value (factor t dt) else e.value in
      record { value = value; last = now }

  unfoldable pub column : PheromoneTable K W → K → Map.Map K (Entry W)
  column t dst = elim (Map.lookup dst t.trails) [ none ↦ [] | some col ↦ col ]

  -- `Find`
  unfoldable pub find : PheromoneTable K W → K → K → Option (Entry W)
  find t dst nb = elim (Map.lookup dst t.trails) [ none ↦ none | some col ↦ Map.lookup nb col ]

  unfoldable pub put_entry : PheromoneTable K W → K → K → Entry W → PheromoneTable K W
  put_entry t dst nb e = record t {
    trails = Map.insert dst (Map.insert nb e (column t dst)) t.trails;
  }

  unfoldable pub get : PheromoneTable K W → K → K → W → W × PheromoneTable K W
  get t dst nb now = elim (find t dst nb) [
    | none ↦ (nought, t)
    | some e ↦ let e' = refresh t e now in (e'.value, put_entry t dst nb e')
  ]

  -- `m_table[dst][nb]`, brought up to date
  unfoldable pub current : PheromoneTable K W → K → K → W → Entry W
  current t dst nb now = elim (find t dst nb) [
    | none ↦ refresh t (record { value = nought; last = nought }) now
    | some e ↦ refresh t e now
  ]

  -- `Add`
  unfoldable pub add_trail : PheromoneTable K W → K → K → W → W → PheromoneTable K W
  add_trail t dst nb delta now =
      let e = current t dst nb now in
      put_entry t dst nb (record { value = add e.value delta; last = now })

  unfoldable pub set_at_least : PheromoneTable K W → K → K → W → W → PheromoneTable K W
  set_at_least t dst nb value now =
      let e = current t dst nb now in
      let raised = if lt e.value value then value else e.value in
      put_entry t dst nb (record { value = raised; last = now })

  -- a column that is written back, or removed if nothing is left in it
  unfoldable pub put_column : PheromoneTable K W → K → Map.Map K (Entry W) → PheromoneTable K W
  put_column t dst [] = record t { trails = Map.erase dst t.trails }
  put_column t dst (e ∷ col) = record t { trails = Map.insert dst (e ∷ col) t.trails }

  -- `Erase`
  unfoldable pub erase_trail : PheromoneTable K W → K → K → PheromoneTable K W
  erase_trail t dst nb = elim (Map.lookup dst t.trails) [
    | none ↦ t
    | some col ↦ put_column t dst (Map.erase nb col)
  ]

  unfoldable pub erase_everywhere :
      K → Map.Map K (Map.Map K (Entry W)) → Map.Map K (Map.Map K (Entry W))
  erase_everywhere nb [] = []
  erase_everywhere nb ((dst, col) ∷ m) =
      let rest = erase_everywhere nb m in
      let col' = Map.erase nb col in if is_empty col' then rest else (dst, col') ∷ rest

  unfoldable pub erase_neighbor : PheromoneTable K W → K → PheromoneTable K W
  erase_neighbor t nb = record t { trails = erase_everywhere nb t.trails }

  -- the loop of `Entries`: what it answers, and what is left of the column
  unfoldable pub scan :
      PheromoneTable K W → W → Map.Map K (Entry W) → List (K × W) × Map.Map K (Entry W)
  scan t now [] = ([], [])
  scan t now ((nb, e) ∷ col) =
      let rest = scan t now col in
      let e' = refresh t e now in
      if lt e'.value t.floor then rest else ((nb, e'.value) ∷ rest.0, (nb, e') ∷ rest.1)

  unfoldable pub live_entries : PheromoneTable K W → K → W → List (K × W) × PheromoneTable K W
  live_entries t dst now = elim (Map.lookup dst t.trails) [
    | none ↦ ([], t)
    | some col ↦ let left = scan t now col in (left.0, put_column t dst left.1)
  ]

  unfoldable pub has_route : PheromoneTable K W → K → W → Bool × PheromoneTable K W
  has_route t dst now = let answer = live_entries t dst now in (not (is_empty answer.0), answer.1)

  unfoldable pub neighbors : PheromoneTable K W → Set.OrderedSet K
  neighbors t =
      let in_column : Set.OrderedSet K → Map.Map K (Entry W) → Set.OrderedSet K =
        λ out col. foldl (λ s e. Set.insert (e.0) s) out col in
      foldl (λ out e. in_column out (e.1)) [] t.trails

  -- `Prune`, over the destinations known before it
  unfoldable pub prune : PheromoneTable K W → W → PheromoneTable K W
  prune t now = foldl (λ t' dst. (live_entries t' dst now).1) t (Map.keys t.trails)

  unfoldable pub size : PheromoneTable K W → ℕ
  size t = foldl (λ n e. n + length (e.1)) 0 t.trails

  -- what `Entries` answers has not evaporated, and is what the column then has
  scan_lem :
      (t : PheromoneTable K W) (now : W) (col : Map.Map K (Entry W))
      → All (λ e. lt e.1 t.floor ≡ false) (scan t now col).0
        × (length (scan t now col).0 ≡ length (scan t now col).1)
  unfolding scan
  scan_lem t now [] = (tt, refl)
  scan_lem t now ((nb, e) ∷ col) =
      let ih = scan_lem t now col in
      elim (Bool-cases (lt (refresh t e now).value t.floor)) [
        | inl over ↦ rw over ih
        | inr live ↦ rw live ((live, ih.0), ap suc ih.1)
      ]
