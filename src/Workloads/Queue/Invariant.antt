-- ===== src/Workloads/Queue/Invariant.antt =====
-- src/runtime/resources/workload_queue.mts: the file of each participant beside its place, and what those
-- that have looked at another participant have found.
use rehearsal_db.Common.{
  ℕ, ◌≤◌, ◌≡◌, refl, ◌≢◌, ◌⊎◌, inl, inr, Bool, true, false, Option, none, List, [], ◌∷◌, Text,
  text_eq_iff, arith,
}
use rehearsal_db.Workloads.Queue.{
  choosing, queued, held, WorkloadTicket, StoredTicket, is_abandoned, earlier, blocks, Place, idle,
  linked, picking, ready, listing, checking, admitted, holding, finished, Participant, World,
  has_file, file_number,
}
use rehearsal_db.Workloads.Queue.Steps.{
  Change, ticket, link, begin_pick, read_pick, take_number, begin_list, read_list, end_list,
  pass_own, pass_abandoned, judge, wait, admit, hold, abandon, release, crash, discard, recover,
}

abbrev pub expected : Place → ℕ → Option WorkloadTicket
expected idle n = none
expected linked n = ticket choosing 0
expected (picking pending largest) n = ticket choosing 0
expected ready n = ticket queued n
expected (listing pending current) n = ticket queued n
expected (checking rest blocked) n = ticket queued n
expected admitted n = ticket queued n
expected holding n = ticket held n
expected finished n = none

-- The file is the one that the place asks for, or a dead participant's that was removed.
abbrev pub IsConsistent : Participant → Type 0
IsConsistent p = (p.file ≡ expected p.place p.number) ⊎ ((p.alive ≡ false) × (p.file ≡ none))

abbrev pub is_holding : Place → Bool
is_holding holding = true
is_holding _ = false

-- `u`, at a place with a number, comes after `t` with the number `n`, or will.
abbrev pub Later : Text → ℕ → Text → Place → ℕ → Type 0
Later t n u idle m = ⊥
Later t n u linked m = Unit
Later t n u (picking pending largest) m = (pending t ≡ true) ⊎ (n ≤ largest)
Later t n u ready m = earlier n t m u ≡ true
Later t n u (listing pending current) m = earlier n t m u ≡ true
Later t n u (checking rest blocked) m = earlier n t m u ≡ true
Later t n u admitted m = earlier n t m u ≡ true
Later t n u holding m = earlier n t m u ≡ true
Later t n u finished m = ⊥

-- `u` has no file, or is dead and holds nothing, or comes after `t`.
abbrev pub Ahead : Text → ℕ → Text → Participant → Type 0
Ahead t n u p =
    (p.file ≡ none)
    ⊎ ((p.alive ≡ false) × (is_holding p.place ≡ false))
    ⊎ Later t n u p.place p.number

abbrev pub Blocker : Text → ℕ → Text → List StoredTicket → Type 0
Blocker t n u [] = ⊥
Blocker t n u (e ∷ es) =
    ((e.token ≡ u) × (is_abandoned e ≡ false) × (blocks t n e ≡ true)) ⊎ Blocker t n u es

-- What `t` at its place knows of `u`.
abbrev pub Clear : Text → Place → ℕ → Text → Participant → Type 0
Clear t (listing pending current) n u p = (pending u ≡ true) ⊎ Ahead t n u p ⊎ Blocker t n u current
Clear t (checking rest blocked) n u p = Ahead t n u p ⊎ (blocked ≡ true) ⊎ Blocker t n u rest
Clear t admitted n u p = Ahead t n u p
Clear t holding n u p = Ahead t n u p
Clear t _ n u p = Unit

pub record Inv (w : World) : Type 0 where
  pub consistent : (t : Text) → IsConsistent (w t)
  pub clear :
      (t u : Text) → t ≢ u → has_file (w t) ≡ true → Clear t (w t).place (w t).number u (w u)

pub Change-IsConsistent :
    (w : World) (a : Text) (p q : Participant) → Change w a p q → IsConsistent p → IsConsistent q
Change-IsConsistent w a p q (link v e) c = inl refl
Change-IsConsistent w a p q (begin_pick v e) c = ground arith
Change-IsConsistent w a p q (read_pick r pending largest v e) c = ground arith
Change-IsConsistent w a p q (take_number pending largest v e d m) c = inl refl
Change-IsConsistent w a p q (begin_list v e) c = ground arith
Change-IsConsistent w a p q (read_list r b pending current v e d) c = ground arith
Change-IsConsistent w a p q (end_list pending current v e d o) c = ground arith
Change-IsConsistent w a p q (pass_own s rest blocked v e o) c = ground arith
Change-IsConsistent w a p q (pass_abandoned s rest blocked v e o d m) c = ground arith
Change-IsConsistent w a p q (judge s rest blocked v e o d) c = ground arith
Change-IsConsistent w a p q (wait v e) c = ground arith
Change-IsConsistent w a p q (admit v e) c = ground arith
Change-IsConsistent w a p q (hold v e) c = inl refl
Change-IsConsistent w a p q (abandon v e) c = inl refl
Change-IsConsistent w a p q (release v e) c = inl refl
Change-IsConsistent w a p q crash c = ground arith
Change-IsConsistent w a p q (discard r s rest blocked e o v k f h) c = inr (v, refl)
Change-IsConsistent w a p q (recover k v f h) c = inr (v, refl)

-- A participant with a file and a number stays ahead of another, whatever the other does.
module _ (w : World) (t a : Text) (n : ℕ) (ne : t ≢ a) (present : has_file (w t) ≡ true)
    (numbered : file_number (w t).file ≡ n) where
  pub Change-Ahead :
      (p q : Participant) → Change w a p q → IsConsistent p → Ahead t n a p → Ahead t n a q
  Change-Ahead p q (link v e) c h = inr (inr tt)
  Change-Ahead p q (begin_pick v e) c h = inr (inr (inl present))
  Change-Ahead p q (read_pick r pending largest v e) c h = ground (arith, text_eq_iff r t)
  Change-Ahead p q (take_number pending largest v e d m) c h = unfold earlier in ground (arith, d t)
  Change-Ahead p q (begin_list v e) c h = ground arith
  Change-Ahead p q (read_list r b pending current v e d) c h = ground arith
  Change-Ahead p q (end_list pending current v e d o) c h = ground arith
  Change-Ahead p q (pass_own s rest blocked v e o) c h = ground arith
  Change-Ahead p q (pass_abandoned s rest blocked v e o d m) c h = ground arith
  Change-Ahead p q (judge s rest blocked v e o d) c h = ground arith
  Change-Ahead p q (wait v e) c h = ground arith
  Change-Ahead p q (admit v e) c h = ground arith
  Change-Ahead p q (hold v e) c h = ground arith
  Change-Ahead p q (abandon v e) c h = inl refl
  Change-Ahead p q (release v e) c h = inl refl
  Change-Ahead p q crash c h = ground arith
  Change-Ahead p q (discard r s rest blocked e o v k f g) c h = inl refl
  Change-Ahead p q (recover k v f g) c h = inl refl
