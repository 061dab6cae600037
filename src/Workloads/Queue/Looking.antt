-- ===== src/Workloads/Queue/Looking.antt =====
-- What a participant learns of another by its own steps.
use rehearsal_db.Common.{
  ℕ, ◌≡◌, refl, sym, ◌≢◌, ◌⊎◌, inl, inr, Bool, true, false, List, Text, text_eq_iff,
  text_trichotomy, arith, text_lt_irrefl, text_lt_trans,
}
use rehearsal_db.Workloads.Queue.{
  StoredTicket, earlier, blocks, Place, idle, linked, picking, ready, listing, checking, admitted,
  holding, finished, Participant, World, has_file, observe,
}
use rehearsal_db.Workloads.Queue.Steps.{
  Change, link, begin_pick, read_pick, take_number, begin_list, read_list, end_list, pass_own,
  pass_abandoned, judge, wait, admit, hold, abandon, release, crash, discard, recover,
}
use rehearsal_db.Workloads.Queue.Invariant.{IsConsistent, Ahead, Blocker, Clear}

earlier_total : (m n : ℕ) (t u : Text) → t ≢ u → earlier m t n u ≡ false → earlier n u m t ≡ true
unfolding earlier
earlier_total m n t u ne h = elim (text_trichotomy t u) [
  | inl b ↦ ground arith
  | inr (inl e) ↦ absurd (ne e)
  | inr (inr b) ↦ ground arith
]

pub earlier_asym : (m n : ℕ) (t u : Text) → earlier m t n u ≡ true → earlier n u m t ≡ true → ⊥
unfolding earlier
earlier_asym m n t u h k = ground (arith, text_lt_trans t u t, text_lt_irrefl t)

-- One read of the file of `u` shows that `t` is ahead, or that `u` blocks.
judge_read :
    (t u : Text) (n : ℕ) (p : Participant) (seen_alive : Bool) (current : List StoredTicket)
    → t ≢ u
    → IsConsistent p
    → (seen_alive ≡ false → p.alive ≡ false)
    → Ahead t n u p ⊎ Blocker t n u (observe u p.file seen_alive current)
unfolding blocks
judge_read t u n p seen_alive current ne (inr (d, e)) s = inl (inl e)
judge_read t u n p seen_alive current ne (inl e) s = judge_place p.place refl
  where
    judge_place :
        (l : Place)
        → p.place ≡ l
        → Ahead t n u p ⊎ Blocker t n u (observe u p.file seen_alive current)
    judge_place idle l = ground arith
    judge_place linked l = ground arith
    judge_place (picking a b) l = ground arith
    judge_place ready l = ground (arith, earlier_total p.number n u t (λ q. ne (sym q)))
    judge_place (listing a b) l = ground (arith, earlier_total p.number n u t (λ q. ne (sym q)))
    judge_place (checking a b) l = ground (arith, earlier_total p.number n u t (λ q. ne (sym q)))
    judge_place admitted l = ground (arith, earlier_total p.number n u t (λ q. ne (sym q)))
    judge_place holding l = ground arith
    judge_place finished l = ground arith

-- The knowledge of `a` about `u` after a change of `a`.
module _ (w : World) (a u : Text) (ne : a ≢ u) (other : IsConsistent (w u)) where
  pub Change-Clear :
      (p q : Participant)
      → Change w a p q
      → IsConsistent p
      → has_file q ≡ true
      → (has_file p ≡ true → Clear a p.place p.number u (w u))
      → Clear a q.place q.number u (w u)
  Change-Clear p q (link v e) c f h = tt
  Change-Clear p q (begin_pick v e) c f h = tt
  Change-Clear p q (read_pick r pending largest v e) c f h = tt
  Change-Clear p q (take_number pending largest v e d m) c f h = tt
  Change-Clear p q (begin_list v e) c f h = ground arith
  Change-Clear p q (read_list r b pending current v e d) c f h =
      ground (arith, text_eq_iff r u, judge_read a u p.number (w u) b current ne other)
  Change-Clear p q (end_list pending current v e d o) c f h = ground (arith, d u)
  Change-Clear p q (pass_own s rest blocked v e o) c f h = ground arith
  Change-Clear p q (pass_abandoned s rest blocked v e o d m) c f h = ground arith
  Change-Clear p q (judge s rest blocked v e o d) c f h = ground arith
  Change-Clear p q (wait v e) c f h = tt
  Change-Clear p q (admit v e) c f h = ground arith
  Change-Clear p q (hold v e) c f h = ground arith
  Change-Clear p q (abandon v e) c f h = tt
  Change-Clear p q (release v e) c f h = tt
  Change-Clear p q crash c f h = h f
  Change-Clear p q (discard r s rest blocked e o v k g i) c f h = cc
  Change-Clear p q (recover k v g i) c f h = cc
