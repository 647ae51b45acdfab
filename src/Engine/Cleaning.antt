-- ===== src/Engine/Cleaning.antt =====
-- What `cleanNeighbor` leaves of a lost neighbour.
use ant_hoc_net.Collections.Map
use ant_hoc_net.Collections.Set
use ant_hoc_net.Address.{NodeAddress}
use ant_hoc_net.Collections.Key.{nat_key, pair_key}
use ant_hoc_net.Collections.Map.{Map}
use ant_hoc_net.Collections.Set.{OrderedSet}
use ant_hoc_net.Collections.Visit.{contains→All, foldl_frame, foldl_inv, visit_once}
use ant_hoc_net.Config.{Config}
use ant_hoc_net.Double.{Double, nought}
use ant_hoc_net.Engine.{clean_neighbor, clean_regular, clean_virtual}
use ant_hoc_net.Prelude.{
  Option-cases, ap, arith, false, false≢true, foldl, if◌then◌else◌, inl, inr, not, refl, sym, ◌&&◌,
  ◌==◌, ◌∙◌, ◌≡◌,
}
use ant_hoc_net.Table.{
  PheromoneTable, get_pheromone_regular, get_pheromone_virtual, remove_neighbor,
  remove_pheromone_regular, remove_pheromone_virtual,
}
use ant_hoc_net.Table.Entries.{
  get-remove_regular, get-remove_virtual, get_regular-remove_virtual, get_virtual-remove_regular,
}
use ant_hoc_net.Table.Validity.{IsValid}

module _ {W : Type 0} ⦃d : Double W⦄ (c : Config W) (n : NodeAddress) where
  open d use {lt}

  -- an entry below `minPheromone` is skipped, and stays
  abbrev pub cleaned : W → W
  cleaned ph = if lt ph c.min_pheromone then ph else nought

  module _ (t : PheromoneTable W) (dest dest' n' : NodeAddress) where
    get-clean_regular : get_pheromone_regular (clean_regular c n t dest) dest' n' ≡ (
        if dest == dest'
        then (if n == n'
            then cleaned (get_pheromone_regular t dest' n')
            else get_pheromone_regular t dest' n')
        else get_pheromone_regular t dest' n')
    unfolding clean_regular
    get-clean_regular = ground (arith, get-remove_regular t dest n dest' n')

    get-clean_virtual : get_pheromone_virtual (clean_virtual c n t dest) dest' n' ≡ (
        if dest == dest'
        then (if n == n'
            then cleaned (get_pheromone_virtual t dest' n')
            else get_pheromone_virtual t dest' n')
        else get_pheromone_virtual t dest' n')
    unfolding clean_virtual
    get-clean_virtual = ground (arith, get-remove_virtual t dest n dest' n')

    get_virtual-clean_regular :
        get_pheromone_virtual (clean_regular c n t dest) dest' n' ≡ get_pheromone_virtual t dest' n'
    unfolding clean_regular
    get_virtual-clean_regular = ground (arith, get_virtual-remove_regular t dest n dest' n')

    get_regular-clean_virtual :
        get_pheromone_regular (clean_virtual c n t dest) dest' n' ≡ get_pheromone_regular t dest' n'
    unfolding clean_virtual
    get_regular-clean_virtual = ground (arith, get_regular-remove_virtual t dest n dest' n')

  -- the loops remove entries only
  abbrev SameSets : PheromoneTable W → PheromoneTable W → Type 0
  SameSets t u =
      (u.neighbors ≡ t.neighbors)
      × (u.dest_regular ≡ t.dest_regular)
      × (u.dest_virtual ≡ t.dest_virtual)

  clean_regular-SameSets :
      (t s : PheromoneTable W) (dest : NodeAddress)
      → SameSets t s
      → SameSets t (clean_regular c n s dest)
  unfolding clean_regular remove_pheromone_regular
  clean_regular-SameSets t s dest h = ground arith

  clean_virtual-SameSets :
      (t s : PheromoneTable W) (dest : NodeAddress)
      → SameSets t s
      → SameSets t (clean_virtual c n s dest)
  unfolding clean_virtual remove_pheromone_virtual
  clean_virtual-SameSets t s dest h = ground arith

  module _ (t : PheromoneTable W) (valid : IsValid t) where
    abbrev first : PheromoneTable W
    first = foldl (clean_regular c n) t t.dest_regular

    first-SameSets : SameSets t first
    first-SameSets =
        foldl_inv (SameSets t) (clean_regular c n) (λ s e. clean_regular-SameSets t s e) t
          t.dest_regular (refl, refl, refl)

    abbrev second : PheromoneTable W
    second = foldl (clean_virtual c n) first t.dest_virtual

    second-SameSets : SameSets t second
    second-SameSets =
        foldl_inv (SameSets t) (clean_virtual c n) (λ s e. clean_virtual-SameSets t s e) first
          t.dest_virtual first-SameSets

    clean_neighbor-eq : clean_neighbor c t n ≡ remove_neighbor second n
    unfolding clean_neighbor
    clean_neighbor-eq =
        ap (λ (s : OrderedSet NodeAddress). remove_neighbor (foldl (clean_virtual c n) first s) n)
          first-SameSets.2

    get-second_regular :
        (dest n' : NodeAddress)
        → get_pheromone_regular second dest n' ≡ (
            if Set.contains dest t.dest_regular
            then (if n == n'
                then cleaned (get_pheromone_regular t dest n')
                else get_pheromone_regular t dest n')
            else get_pheromone_regular t dest n')
    get-second_regular dest n' =
        foldl_frame (λ s. get_pheromone_regular s dest n') (clean_virtual c n)
          (λ s e. get_regular-clean_virtual s e dest n') first t.dest_virtual
        ∙ visit_once (clean_regular c n) (λ _. Unit {0}) (λ _. Unit {0}) (λ s m i f. tt)
            (λ s e. get_pheromone_regular s e n') (λ e ph. if n == n' then cleaned ph else ph)
            (λ s e e' i f. get-clean_regular s e e' n') t t.dest_regular dest tt
            (contains→All (λ _. Unit {0}) t.dest_regular (λ m e. tt)) valid.regular_ascending

    get-second_virtual :
        (dest n' : NodeAddress)
        → get_pheromone_virtual second dest n' ≡ (
            if Set.contains dest t.dest_virtual
            then (if n == n'
                then cleaned (get_pheromone_virtual t dest n')
                else get_pheromone_virtual t dest n')
            else get_pheromone_virtual t dest n')
    get-second_virtual dest n' = rw (
      visit_once (clean_virtual c n) (λ _. Unit {0}) (λ _. Unit {0}) (λ s m i f. tt)
          (λ s e. get_pheromone_virtual s e n') (λ e ph. if n == n' then cleaned ph else ph)
          (λ s e e' i f. get-clean_virtual s e e' n') first t.dest_virtual dest tt
          (contains→All (λ _. Unit {0}) t.dest_virtual (λ m e. tt)) valid.virtual_ascending,
      foldl_frame (λ s. get_pheromone_virtual s dest n') (clean_regular c n)
          (λ s e. get_virtual-clean_regular s e dest n') t t.dest_regular,
    )

    -- a value of a table whose destination is not known reads as 0
    unknown_regular :
        (dest n' : NodeAddress)
        → Set.contains dest t.dest_regular ≡ false
        → get_pheromone_regular t dest n' ≡ nought
    unfolding get_pheromone_regular
    unknown_regular dest n' h = elim (Option-cases (Map.lookup (n', dest) t.regular)) [
      | inl e ↦ rw e
      | inr (v, e) ↦ absurd (false≢true (sym h ∙ valid.regular_known n' dest v e))
    ]

    unknown_virtual :
        (dest n' : NodeAddress)
        → Set.contains dest t.dest_virtual ≡ false
        → get_pheromone_virtual t dest n' ≡ nought
    unfolding get_pheromone_virtual
    unknown_virtual dest n' h = elim (Option-cases (Map.lookup (n', dest) t.virtual)) [
      | inl e ↦ rw e
      | inr (v, e) ↦ absurd (false≢true (sym h ∙ valid.virtual_known n' dest v e))
    ]

    get-remove_neighbor :
        (s : PheromoneTable W) (dest n' : NodeAddress)
        → (get_pheromone_regular (remove_neighbor s n) dest n' ≡ get_pheromone_regular s dest n')
          × (get_pheromone_virtual (remove_neighbor s n) dest n' ≡ get_pheromone_virtual s dest n')
    unfolding get_pheromone_regular get_pheromone_virtual remove_neighbor
    get-remove_neighbor s dest n' = (refl, refl)

    -- In a valid table, after `cleanNeighbor` of `n` a value through `n` reads 0 if it did not lie
    -- below `minPheromone` (a value below stays), in both tables and for every destination; every
    -- value through another neighbour is as before; the neighbours are those before without `n`.
    pub clean_neighbor_lem :
        (dest n' : NodeAddress)
        → (get_pheromone_regular (clean_neighbor c t n) dest n' ≡ (
            if n == n'
            then cleaned (get_pheromone_regular t dest n')
            else get_pheromone_regular t dest n'))
          × (get_pheromone_virtual (clean_neighbor c t n) dest n' ≡ (
              if n == n'
              then cleaned (get_pheromone_virtual t dest n')
              else get_pheromone_virtual t dest n'))
          × (Set.contains n' (clean_neighbor c t n).neighbors
              ≡ (not (n == n') && Set.contains n' t.neighbors))
    clean_neighbor_lem dest n' = rw clean_neighbor-eq (
      ground (
        arith,
        get-remove_neighbor second dest n',
        get-second_regular dest n',
        unknown_regular dest n',
      ),
      ground (
        arith,
        get-remove_neighbor second dest n',
        get-second_virtual dest n',
        unknown_virtual dest n',
      ),
      unfold remove_neighbor in rw second-SameSets.0 (Set.contains-erase n n' t.neighbors),
    )
