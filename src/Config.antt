-- ===== src/Config.antt =====
-- `Config` of core/include/anthocnet/core/config.h: every field, and the defaults.
use ant_hoc_net.Double.{Double}
use ant_hoc_net.Prelude.{Bool, false, negsuc, pos, true, ℕ, ℤ}

pub record Config (W : Type 0) : Type 0 where
  pub alpha : W
  pub hop_count_alpha : W
  pub gamma : W
  pub beta_ants : W
  pub beta_data : W
  pub hop_time_sec : W
  pub enable_mac_metric : Bool
  pub sinr_critical_db : W
  pub sinr_penalty_cost : W
  pub energy_cost_floor : W
  pub min_pheromone : W
  pub enable_evaporation : Bool
  pub evaporation_interval : W
  pub enable_adaptive_evaporation : Bool
  pub adaptive_evap_ref_churn : W
  pub adaptive_evap_min : W
  pub adaptive_evap_max : W
  pub adaptive_evap_tau : W
  pub reactive_retry_interval : W
  pub enable_proactive : Bool
  pub enable_diffusion : Bool
  pub max_hello_adverts : ℕ
  pub enable_reactive : Bool
  pub enable_repair : Bool
  pub enable_link_fail : Bool
  pub enable_directed_reactive : Bool
  pub share_kinematics : Bool
  pub enable_link_lifetime : Bool
  pub link_lifetime_range : W
  pub link_lifetime_horizon : W
  pub link_lifetime_floor : W
  pub enable_quiet_mode : Bool
  pub quiet_tolerance : W
  pub quiet_backoff_factor : W
  pub quiet_max_backoff : ℤ
  pub proactive_broadcast_prob : W
  pub session_ttl : W
  pub proactive_virtual_margin : W
  pub hello_interval : W
  pub proactive_interval : W
  pub life_ant : W
  pub allowed_hello_loss : ℤ
  pub repair_max_broadcasts : ℤ
  pub linkfail_notify_interval : W
  pub tx_failure_threshold : ℤ
  pub reactive_max_broadcasts : ℤ
  pub enable_multipath : Bool
  pub ant_acceptance_factor : W
  pub ant_acceptance_factor_new_hop : W
  pub proactive_max_broadcasts : ℤ
  pub repair_wait_factor : W
  pub repair_timeout : W
  pub network_diameter : ℤ
  pub max_path_length : ℕ
  pub max_history : ℕ

abbrev pub default_config : {W : Type 0} ⦃d : Double W⦄ → Config W
default_config ⦃d⦄ = record {
  alpha = d.literal 7 1;
  hop_count_alpha = d.literal 0 0;
  gamma = d.literal 7 1;
  beta_ants = d.literal 20 0;
  beta_data = d.literal 20 0;
  hop_time_sec = d.literal 3 3;
  enable_mac_metric = false;
  sinr_critical_db = d.literal 17 0;
  sinr_penalty_cost = d.literal 3 0;
  energy_cost_floor = d.literal 1 2;
  min_pheromone = d.literal 1 5;
  enable_evaporation = true;
  evaporation_interval = d.literal 1 0;
  enable_adaptive_evaporation = false;
  adaptive_evap_ref_churn = d.literal 1 1;
  adaptive_evap_min = d.literal 25 2;
  adaptive_evap_max = d.literal 4 0;
  adaptive_evap_tau = d.literal 10 0;
  reactive_retry_interval = d.literal 1 0;
  enable_proactive = true;
  enable_diffusion = true;
  max_hello_adverts = 10;
  enable_reactive = true;
  enable_repair = true;
  enable_link_fail = true;
  enable_directed_reactive = false;
  share_kinematics = false;
  enable_link_lifetime = false;
  link_lifetime_range = d.literal 250 0;
  link_lifetime_horizon = d.literal 3 0;
  link_lifetime_floor = d.literal 5 2;
  enable_quiet_mode = true;
  quiet_tolerance = d.literal 2 1;
  quiet_backoff_factor = d.literal 2 0;
  quiet_max_backoff = pos 8;
  proactive_broadcast_prob = d.literal 1 1;
  session_ttl = d.literal 5 0;
  proactive_virtual_margin = d.literal 0 0;
  hello_interval = d.literal 1 0;
  proactive_interval = d.literal 10 0;
  life_ant = d.literal 2 0;
  allowed_hello_loss = pos 2;
  repair_max_broadcasts = pos 2;
  linkfail_notify_interval = d.literal 5 0;
  tx_failure_threshold = pos 3;
  reactive_max_broadcasts = negsuc 0;
  enable_multipath = true;
  ant_acceptance_factor = d.literal 9 1;
  ant_acceptance_factor_new_hop = d.literal 2 0;
  proactive_max_broadcasts = pos 2;
  repair_wait_factor = d.literal 5 0;
  repair_timeout = d.literal 1 0;
  network_diameter = pos 30;
  max_path_length = 100;
  max_history = 4096;
}
