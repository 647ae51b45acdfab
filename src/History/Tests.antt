-- ===== src/History/Tests.antt =====
-- The memory of handled ants, with a cap of two.
use ant_hoc_net.Collections.Set
use ant_hoc_net.Address.{node}
use ant_hoc_net.Collections.Key.{nat_key, pair_key}
use ant_hoc_net.History.{AntHistory, empty_history, record_ant, seen}
use ant_hoc_net.History.Memory.{
  IsValid, empty-IsValid, record_all, record_ant-IsValid, record_ant_new, record_remembers,
}
use ant_hoc_net.Prelude.{[], arith, false, inr, not, refl, true, ◌∷◌, ◌≡◌}

abbrev small : AntHistory
small = empty_history 2

record_ant-IsValid_example : IsValid (record_ant small (node 1, 7)).0
record_ant-IsValid_example = record_ant-IsValid small (node 1, 7) (empty-IsValid 2)

record_ant_new_example :
    ((record_ant small (node 1, 7)).1 ≡ not (seen small (node 1, 7)))
    × (seen (record_ant small (node 1, 7)).0 (node 1, 7) ≡ true)
record_ant_new_example = record_ant_new small (node 1, 7) (empty-IsValid 2)

new_at_first : seen small (node 1, 7) ≡ false
unfolding seen Set.contains
new_at_first = refl

record_remembers_example :
    seen (record_all (record_ant small (node 1, 7)).0 ((node 2, 1) ∷ [])) (node 1, 7) ≡ true
record_remembers_example =
    record_remembers small (node 1, 7) ((node 2, 1) ∷ []) (empty-IsValid 2) new_at_first
      (inr (omega arith))
