-- ===== src/DecodeBudget.antt =====
-- The radius of a link in ns3/baselines/oracle/model/oracle-decode-budget.h and
-- oracle-decode-budget.cc, which take nothing of ns-3. The functions of <cmath> that Double has not are the
-- interface Special. A loop that `break` can end goes over its remaining rounds.
pub mod Median
mod Tests
use ant_hoc_net.Double.{Double, ge, gt, nought, one}
use ant_hoc_net.Prelude.{Option, ap, if◌then◌else◌, none, some, suc, zero, ℕ, ◌&&◌, ◌^◌}

pub record Special (W : Type 0) : Type 0 where
  pub log10 : W → W
  pub log : W → W
  pub lgamma : W → W

pub record TwoRayBudget (W : Type 0) : Type 0 where
  pub tx_power_dbm : W
  pub tx_gain_db : W
  pub rx_gain_db : W
  pub frequency_hz : W
  pub height_m : W
  pub system_loss : W
  pub min_distance_m : W

pub record NakagamiProfile (W : Type 0) : Type 0 where
  pub distance1_m : W
  pub distance2_m : W
  pub m0 : W
  pub m1 : W
  pub m2 : W

module _ {W : Type 0} ⦃d : Double W⦄ where
  open d use {literal, of_nat, neg, add, sub, mul, div, pow, exp, fabs, lt, le}

  -- M_PI
  abbrev pi : W
  pi = literal 3141592653589793 15

  abbrev ten : W
  ten = literal 10 0

  abbrev pub half : W
  half = literal 5 1

  unfoldable pub wavelength : TwoRayBudget W → W
  wavelength b = div (literal 299792458 0) b.frequency_hz

  unfoldable pub crossover_m : TwoRayBudget W → W
  crossover_m b = div (mul (mul (mul (literal 4 0) pi) b.height_m) b.height_m) (wavelength b)

  module _ ⦃special : Special W⦄ where
    open special use {log10, log, lgamma}

    unfoldable pub two_ray_rx_power_dbm : TwoRayBudget W → W → W
    two_ray_rx_power_dbm b distance =
        let gains = add b.tx_gain_db b.rx_gain_db in
        let lambda = wavelength b in
        let friis =
          div (mul lambda lambda)
            (mul (mul (mul (mul (mul (literal 16 0) pi) pi) distance) distance) b.system_loss) in
        let h2 = mul b.height_m b.height_m in
        let d2 = mul distance distance in
        let two_ray = div (mul h2 h2) (mul (mul d2 d2) b.system_loss) in
        let at_sender = add b.tx_power_dbm gains in
        if le distance b.min_distance_m
        then at_sender
        else if le distance (crossover_m b)
        then add at_sender (mul ten (log10 friis))
        else add at_sender (mul ten (log10 two_ray))

    unfoldable pub two_ray_decode_radius : TwoRayBudget W → W → W
    two_ray_decode_radius b threshold =
        let budget = sub (add (add b.tx_power_dbm b.tx_gain_db) b.rx_gain_db) threshold in
        let h2 = mul b.height_m b.height_m in
        let spread = mul ten (log10 b.system_loss) in
        let two_ray =
          pow ten (div (sub (add budget (mul (literal 20 0) (log10 h2))) spread) (literal 40 0)) in
        let friis =
          mul (div (wavelength b) (mul (literal 4 0) pi))
            (pow ten (div (sub budget spread) (literal 20 0))) in
        if lt budget nought
        then nought
        else if gt two_ray (crossover_m b)
        then two_ray
        else if gt friis b.min_distance_m
        then friis
        else b.min_distance_m

    -- the loop of the lower series
    unfoldable pub series : ℕ → W → W → W → W → W
    series zero x ap del sum = sum
    series (suc n) x ap del sum =
        let ap' = add ap one in
        let del' = mul del (div x ap') in
        let sum' = add sum del' in
        let rest = series n x ap' del' sum' in
        if lt (fabs del') (mul (fabs sum') (literal 1 15)) then sum' else rest

    abbrev tiny : W
    tiny = literal 1 300

    -- not below `tiny` in size
    abbrev away : W → W
    away x = if lt (fabs x) tiny then tiny else x

    -- the loop of the continued fraction, from round i on
    unfoldable pub fraction : ℕ → ℕ → W → W → W → W → W → W
    fraction zero i a bb c dd h = h
    fraction (suc n) i a bb c dd h =
        let an = mul (neg (of_nat i)) (sub (of_nat i) a) in
        let bb' = add bb (literal 2 0) in
        let dd' = div one (away (add (mul an dd) bb')) in
        let c' = away (add bb' (div an c)) in
        let delta = mul dd' c' in
        let h' = mul h delta in
        let rest = fraction n (suc i) a bb' c' dd' h' in
        if lt (fabs (sub delta one)) (literal 1 15) then h' else rest

    unfoldable pub gamma_upper_regularized : W → W → W
    gamma_upper_regularized a x =
        let scale = exp (sub (add (neg x) (mul a (log x))) (lgamma a)) in
        let bb = sub (add x one) a in
        let dd = div one bb in
        if le x nought
        then one
        else if lt x (add a one)
        then sub one (mul (series 200 x a (div one a) (div one a)) scale)
        else mul scale (fraction 200 1 a bb (div one tiny) dd dd)

    unfoldable pub nakagami_link_probability : TwoRayBudget W → NakagamiProfile W → W → W → W
    nakagami_link_probability b n threshold distance =
        let m =
          if lt distance n.distance1_m
          then n.m0
          else if lt distance n.distance2_m
          then n.m1
          else n.m2 in
        let watts : W → W = λ dbm. pow ten (div (sub dbm (literal 30 0)) ten) in
        let p = watts (two_ray_rx_power_dbm b distance) in
        if le p nought then nought else gamma_upper_regularized m (div (mul m (watts threshold)) p)

  -- The bracket by doubling, for a probability of a distance. `none` is more rounds than allowed.
  unfoldable pub widen : ℕ → (W → W) → W → W → Option (W × W)
  widen zero probability lo hi = none
  widen (suc n) probability lo hi =
      let rest = widen n probability hi (mul hi (literal 2 0)) in
      if ge (probability hi) half && lt hi (literal (10 ^ 7) 0) then rest else some (lo, hi)

  unfoldable pub bisect : ℕ → (W → W) → W → W → W
  bisect zero probability lo hi = lo
  bisect (suc n) probability lo hi =
      let mid = mul half (add lo hi) in
      let right = bisect n probability mid hi in
      let left = bisect n probability lo mid in if ge (probability mid) half then right else left

  abbrev pub start_width : TwoRayBudget W → W
  start_width b =
      if gt b.min_distance_m one then mul (literal 2 0) b.min_distance_m else literal 2 0

  unfoldable pub median_radius : ℕ → (W → W) → W → Option W
  median_radius fuel probability width =
      if lt (probability nought) half
      then some nought
      else elim (widen fuel probability nought width) [
        | none ↦ none
        | some (lo, hi) ↦ some (bisect 100 probability lo hi)
      ]

  unfoldable pub nakagami_median_radius :
      ⦃special : Special W⦄ → ℕ → TwoRayBudget W → NakagamiProfile W → W → Option W
  nakagami_median_radius fuel b n threshold =
      median_radius fuel (nakagami_link_probability b n threshold) (start_width b)
