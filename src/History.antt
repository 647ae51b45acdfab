-- ===== src/History.antt =====
-- `AntHistoryTracker` of core/include/anthocnet/core/ant_history.h and core/src/ant_history.cpp: the
-- bounded memory of the (source, sequence number) pairs of the ants that a node has handled.
pub mod Fifo
pub mod Memory
mod Tests
use ant_hoc_net.Collections.Set
use ant_hoc_net.Address.{NodeAddress}
use ant_hoc_net.Collections.Key.{nat_key, pair_key}
use ant_hoc_net.Collections.Set.{OrderedSet}
use ant_hoc_net.Prelude.{
  Bool, List, [], false, if◌then◌else◌, length, ltb, true, ℕ, ◌++◌, ◌==◌, ◌∷◌,
}

-- (src, seqNum)
abbrev pub Generation : Type 0
Generation = NodeAddress × ℕ

pub record AntHistory : Type 0 where
  pub max_entries : ℕ
  pub entries : OrderedSet Generation
  -- oldest first
  pub order : List Generation

abbrev pub empty_history : ℕ → AntHistory
empty_history max = record { max_entries = max; entries = []; order = [] }

-- while (insertionOrder_.size() > maxEntries_), with the erase of the container that is bounded
unfoldable pub evict {ℓ} :
    {C : Type ℓ} → (Generation → C → C) → ℕ → List Generation → C → List Generation × C
evict remove max [] kept = ([], kept)
evict remove max (k ∷ ks) kept =
    let rest = evict remove max ks (remove k kept) in
    if ltb max (length (k ∷ ks)) then rest else (k ∷ ks, kept)

-- the eviction, which a cap of 0 switches off
unfoldable pub bound {ℓ} :
    {C : Type ℓ} → (Generation → C → C) → ℕ → List Generation → C → List Generation × C
bound remove max order kept = if max == 0 then (order, kept) else evict remove max order kept

unfoldable pub seen : AntHistory → Generation → Bool
seen h key = Set.contains key h.entries

-- `true` if the pair was new
unfoldable pub record_ant : AntHistory → Generation → AntHistory × Bool
record_ant h key =
    if Set.contains key h.entries
    then (h, false)
    else let (order, entries) =
        bound Set.erase h.max_entries (h.order ++ (key ∷ [])) (Set.insert key h.entries) in
      (record h { entries = entries; order = order }, true)

unfoldable pub clear : AntHistory → AntHistory
clear h = record h { entries = []; order = [] }
