-- ===== src/History/Memory.antt =====
-- What `AntHistoryTracker` remembers, and how much.
use ant_hoc_net.Collections.Set
use ant_hoc_net.Collections.Key.{nat_key, pair_key}
use ant_hoc_net.Collections.Set.{OrderedSet}
use ant_hoc_net.History.{AntHistory, Generation, bound, empty_history, record_ant, seen}
use ant_hoc_net.History.Fifo.{
  Agrees, Distinct-append, Within, Within-append, Within-bound, Within-last, Within-mono,
  Within→contains, bound-Agrees, contains-append, length-evict,
}
use ant_hoc_net.Prelude.{
  Bool-cases, List, [], arith, false, inl, inr, length, length-append, not, refl, sym, true, ℕ,
  ◌++◌, ◌+◌, ◌<◌, ◌∙◌, ◌∷◌, ◌≡◌, ◌≤◌, ◌⊎◌,
}

pub record IsValid (h : AntHistory) : Type 0 where
  -- the set and the queue hold the same pairs, each once
  pub agrees :
      Agrees Set.erase length Set.contains Set.contains-erase Set.length-erase_contained h.order
        h.entries
  -- the cap holds, where there is one
  pub capped : (h.max_entries ≡ 0) ⊎ (length h.order ≤ h.max_entries)

pub empty-IsValid : (max : ℕ) → IsValid (empty_history max)
unfolding Set.contains
empty-IsValid max = record {
  agrees = record { same = λ k. refl; distinct = tt; small = omega arith };
  capped = inr (omega arith);
}

abbrev pushed : AntHistory → Generation → List Generation
pushed h key = h.order ++ (key ∷ [])

module _ (h : AntHistory) (key : Generation) (valid : IsValid h) where
  pushed-Agrees :
      Set.contains key h.entries ≡ false
      → Agrees Set.erase length Set.contains Set.contains-erase Set.length-erase_contained
          (pushed h key)
          (Set.insert key h.entries)
  pushed-Agrees new = record {
    same = λ j.
        rw (Set.contains-insert key j h.entries, contains-append j key h.order, valid.agrees.same j)
          (ground arith);
    distinct =
        Distinct-append h.order key valid.agrees.distinct (sym (valid.agrees.same key) ∙ new);
    small = omega (
      arith,
      Set.length-insert key h.entries,
      length-append {0} h.order (key ∷ []),
      valid.agrees.small,
    );
  }

  bound_capped :
      (max : ℕ) (order : List Generation) (entries : OrderedSet Generation)
      → (max ≡ 0) ⊎ (length (bound Set.erase max order entries).0 ≤ max)
  unfolding bound
  bound_capped max order entries = ground (arith, length-evict Set.erase max order entries)

  -- Recording a pair keeps the tracker valid: its set and its queue hold the same pairs, the queue
  -- each of them once, and no more than the cap allows (a cap of 0 allows any number).
  pub record_ant-IsValid : IsValid (record_ant h key).0
  unfolding record_ant
  record_ant-IsValid = elim (Bool-cases (Set.contains key h.entries)) [
    | inl old ↦ rw old valid
    | inr new ↦ rw new (record {
      agrees =
          bound-Agrees Set.erase length Set.contains Set.contains-erase Set.length-erase_contained
            h.max_entries (pushed h key) (Set.insert key h.entries) (pushed-Agrees new);
      capped = bound_capped h.max_entries (pushed h key) (Set.insert key h.entries);
    })
  ]

  seen-eq :
      (seen h key ≡ Set.contains key h.order)
      × (seen (record_ant h key).0 key ≡ Set.contains key (record_ant h key).0.order)
  unfolding seen
  seen-eq = (valid.agrees.same key, record_ant-IsValid.agrees.same key)

  max_entries-record_ant : (record_ant h key).0.max_entries ≡ h.max_entries
  unfolding record_ant
  max_entries-record_ant = ground arith

  -- a pair that was in the queue has at most one more behind it
  Within-record_ant :
      (n : ℕ) (old : Generation)
      → (h.max_entries ≡ 0) ⊎ (n + 1 < h.max_entries)
      → Within n old h.order
      → Within (n + 1) old (record_ant h key).0.order
  unfolding record_ant
  Within-record_ant n old room w = elim (Bool-cases (Set.contains key h.entries)) [
    | inl e ↦ rw e (Within-mono n (n + 1) old h.order (omega arith) w)
    | inr e ↦ rw e (
        Within-bound Set.erase (n + 1) h.max_entries old (pushed h key) (Set.insert key h.entries)
          room (Within-append n old key h.order w))
  ]

  Within-record_ant_self : seen h key ≡ false → Within 0 key (record_ant h key).0.order
  unfolding record_ant seen
  Within-record_ant_self new = rw new (
      Within-bound Set.erase 0 h.max_entries key (pushed h key) (Set.insert key h.entries)
        (ground arith) (Within-last key h.order))

  -- In a valid tracker a pair is reported as new exactly if it was not seen, and after the call it is
  -- seen.
  pub record_ant_new :
      ((record_ant h key).1 ≡ not (seen h key)) × (seen (record_ant h key).0 key ≡ true)
  record_ant_new = (
    unfold record_ant seen in ground arith,
    elim (Bool-cases (seen h key)) [
      | inl old ↦ unfold record_ant seen in ground (arith, old)
      | inr new ↦
          seen-eq.1 ∙ Within→contains 0 key (record_ant h key).0.order (Within-record_ant_self new)
    ],
  )

-- the pairs recorded one after another
pub record_all : AntHistory → List Generation → AntHistory
record_all h [] = h
record_all h (k ∷ ks) = record_all (record_ant h k).0 ks

record_all-Within :
    (h : AntHistory) (ks : List Generation) (n : ℕ) (key : Generation)
    → IsValid h
    → (h.max_entries ≡ 0) ⊎ (n + length ks < h.max_entries)
    → Within n key h.order
    → seen (record_all h ks) key ≡ true
unfolding record_all
record_all-Within h [] n key valid room w =
    unfold seen in (valid.agrees.same key ∙ Within→contains n key h.order w)
record_all-Within h (k ∷ ks) n key valid room w =
    record_all-Within (record_ant h k).0 ks (n + 1) key (record_ant-IsValid h k valid)
      (rw (max_entries-record_ant h k valid) (ground arith))
      (Within-record_ant h k valid n key (ground arith) w)

-- A pair that is recorded for the first time in a valid tracker is still recognised after any further
-- pairs, new or not, as long as they are fewer than the cap; without a cap, after any number.
pub record_remembers :
    (h : AntHistory) (key : Generation) (ks : List Generation)
    → IsValid h
    → seen h key ≡ false
    → (h.max_entries ≡ 0) ⊎ (length ks < h.max_entries)
    → seen (record_all (record_ant h key).0 ks) key ≡ true
record_remembers h key ks valid new room =
    record_all-Within (record_ant h key).0 ks 0 key (record_ant-IsValid h key valid)
      (rw (max_entries-record_ant h key valid) (ground arith))
      (Within-record_ant_self h key valid new)
