-- ===== src/Metric.antt =====
-- The link metrics of core/include/anthocnet/core/link_metric.h and the link-lifetime prediction of
-- core/include/anthocnet/core/link_lifetime.h.
use ant_hoc_net.Double.{Double, ge, gt, nought, one}
use ant_hoc_net.Message.{Kinematics}
use ant_hoc_net.Prelude.{Bool, false, if◌then◌else◌, not, true, ◌||◌}

pub record LinkObservation (W : Type 0) : Type 0 where
  pub hops : W
  pub path_time : W
  pub hop_time : W

pub record HopSignals (W : Type 0) : Type 0 where
  pub sinr_db : W
  pub residual_energy : W
  pub sinr_critical_db : W
  pub sinr_penalty_cost : W
  pub energy_floor : W

-- `ILinkMetric`: the strategy that a router is given
pub record LinkMetric (W : Type 0) : Type 0 where
  pub pheromone : LinkObservation W → W
  pub uses_link_quality : Bool
  pub hop_cost : HopSignals W → W

module _ {W : Type 0} ⦃d : Double W⦄ where
  open d use {literal, neg, add, sub, mul, div, pow, sqrt, lt, le, is_nan, infinity}

  unfoldable pub classic_pheromone : LinkObservation W → W
  classic_pheromone o = pow (div (add o.path_time (mul o.hops o.hop_time)) (literal 2 0)) (neg one)

  abbrev pub classic_metric : LinkMetric W
  classic_metric = record {
    pheromone = classic_pheromone;
    uses_link_quality = false;
    hop_cost = λ s. one;
  }

  -- the inverse of the route's cost, which is at least the hop count
  unfoldable pub inverse_cost : LinkObservation W → W
  inverse_cost o =
      let cost = if gt o.path_time o.hops then o.path_time else o.hops in
      if gt cost nought then div one cost else nought

  unfoldable pub sinr_link_cost : W → W → W → W
  sinr_link_cost sinr_db critical_db penalty =
      if is_nan sinr_db || gt sinr_db critical_db then one else penalty

  abbrev pub sinr_metric : LinkMetric W
  sinr_metric = record {
    pheromone = inverse_cost;
    uses_link_quality = true;
    hop_cost = λ s. sinr_link_cost s.sinr_db s.sinr_critical_db s.sinr_penalty_cost;
  }

  unfoldable pub energy_hop_cost : HopSignals W → W
  energy_hop_cost s =
      let e = if lt s.residual_energy s.energy_floor then s.energy_floor else s.residual_energy in
      if is_nan s.residual_energy then one else if ge e one then one else div one e

  abbrev pub energy_metric : LinkMetric W
  energy_metric = record {
    pheromone = inverse_cost;
    uses_link_quality = true;
    hop_cost = energy_hop_cost;
  }

  abbrev dot : (a b c x y z : W) → W
  dot a b c x y z = add (add (mul a x) (mul b y)) (mul c z)

  unfoldable pub link_expiry_time : Kinematics W → Kinematics W → W → W
  link_expiry_time a b range =
      let dx = sub b.x a.x in
      let dy = sub b.y a.y in
      let dz = sub b.z a.z in
      let vx = sub b.vx a.vx in
      let vy = sub b.vy a.vy in
      let vz = sub b.vz a.vz in
      let c = sub (dot dx dy dz dx dy dz) (mul range range) in
      let qa = dot vx vy vz vx vy vz in
      let qb = mul (literal 2 0) (dot dx dy dz vx vy vz) in
      if gt c nought
      then nought
      else if le qa nought
      then infinity
      else div (add (neg qb) (sqrt (sub (mul qb qb) (mul (mul (literal 4 0) qa) c))))
          (mul (literal 2 0) qa)

  unfoldable pub link_lifetime_weight : W → W → W → W
  link_lifetime_weight lifetime horizon floor =
      let w = div lifetime horizon in
      if not (gt horizon nought) || ge lifetime horizon
      then one
      else if lt w floor
      then floor
      else w
