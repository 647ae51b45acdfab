-- ===== src/Adaptive/Bounded/Calls.antt =====
-- The tables that the calls of `BoundedPheromoneTable` lead to.
use ant_hoc_net.Adaptive.{rate}
use ant_hoc_net.Adaptive.Bounded.{
  BoundedPheromoneTable, add_destination, add_neighbor, configured, deposit, get, prune,
  remove_neighbor,
}
use ant_hoc_net.Adaptive.Bounded.Inside.{IsTuned}
use ant_hoc_net.Adaptive.Bounded.Kept.{
  IsTable, add_destination-IsTable, add_neighbor-IsTable, deposit-IsTable, get-IsTable,
  prune-IsTable, remove_neighbor-IsTable,
}
use ant_hoc_net.Collections.Key.{Key}
use ant_hoc_net.Double.{Double, nought}
use ant_hoc_net.Prelude.{true, ◌≡◌}

module _ {K W : Type 0} ⦃key : Key K⦄ ⦃d : Double W⦄ where
  -- the tables that the calls of a program lead to, from one that is configured and empty
  pub data IsReached : BoundedPheromoneTable K W → Type 0 where
    reached_start :
        (rate initial floor ceiling : W)
        → IsTuned W rate initial floor ceiling
        → IsReached (configured rate initial floor ceiling)
    reached_add_neighbor :
        (t : BoundedPheromoneTable K W) (nb : K) (now : W)
        → IsReached t
        → IsReached (add_neighbor t nb now)
    reached_add_destination :
        (t : BoundedPheromoneTable K W) (dst : K) (now : W)
        → IsReached t
        → IsReached (add_destination t dst now)
    reached_deposit :
        (t : BoundedPheromoneTable K W) (dst nb : K) (delta now : W)
        → IsReached t
        → d.le nought delta ≡ true
        → IsReached (deposit t dst nb delta now)
    reached_get :
        (t : BoundedPheromoneTable K W) (dst nb : K) (now : W)
        → IsReached t
        → IsReached (get t dst nb now).1
    reached_remove_neighbor :
        (t : BoundedPheromoneTable K W) (nb : K) → IsReached t → IsReached (remove_neighbor t nb)
    reached_prune :
        (t : BoundedPheromoneTable K W) (now : W) → IsReached t → IsReached (prune t now).1

  -- In every table that `AddNeighbor`, `AddDestination`, `Deposit`, `Get`, `RemoveNeighbor` and `Prune`
  -- lead to, in any order, from one configured with 0 <= floor <= initial <= ceiling, deposits of zero
  -- or more, and numbers in IEEE order under which neither a decay raises nor a deposit lowers a value
  -- from 0 up to the ceiling, every cell is between the floor and the ceiling, every column has a cell
  -- for each neighbour and for no other address, and the same holds of the settings.
  pub IsReached-IsTable : (t : BoundedPheromoneTable K W) → IsReached t → IsTable t
  IsReached-IsTable _ (reached_start rate initial floor ceiling u) = (u, tt)
  IsReached-IsTable _ (reached_add_neighbor t nb now r) =
      add_neighbor-IsTable t nb now (IsReached-IsTable t r)
  IsReached-IsTable _ (reached_add_destination t dst now r) =
      (add_destination-IsTable t dst now (IsReached-IsTable t r)).0
  IsReached-IsTable _ (reached_deposit t dst nb delta now r positive) =
      deposit-IsTable t dst nb delta now (IsReached-IsTable t r) positive
  IsReached-IsTable _ (reached_get t dst nb now r) =
      get-IsTable t dst nb now (IsReached-IsTable t r)
  IsReached-IsTable _ (reached_remove_neighbor t nb r) =
      remove_neighbor-IsTable t nb (IsReached-IsTable t r)
  IsReached-IsTable _ (reached_prune t now r) = prune-IsTable t now (IsReached-IsTable t r)
