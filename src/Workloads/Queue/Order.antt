-- ===== src/Workloads/Queue/Order.antt =====
-- src/runtime/resources/workload_queue.mts: the order of numbers and tokens, and the loop over `current`.
use rehearsal_db.Common.{
  ℕ, ◌≡◌, refl, ◌≢◌, ◌⊎◌, inl, inr, Bool, true, false, ◌||◌, none, List, [], ◌∷◌, Text, text_eq,
  text_eq_iff, arith, Bool-cases, subst, All,
}
use rehearsal_db.Workloads.Queue.{
  queued, StoredTicket, is_abandoned, is_blocked, earlier, blocks, Place, idle, linked, picking,
  ready, listing, checking, admitted, holding, finished, Participant, World, has_file,
}
use rehearsal_db.Workloads.Queue.Steps.{Change, ticket, pass_own, pass_abandoned, judge, Reach}
use rehearsal_db.Workloads.Queue.Invariant.{Ahead, Clear, Inv}
use rehearsal_db.Workloads.Queue.Exclusion.{Reach-Inv}

-- Admission follows the tickets: when a live participant has been admitted, every other live
-- participant whose ticket is queued comes after it in the order of numbers, then tokens.
pub admission_in_order :
    {w : World} (t u : Text)
    → Reach w
    → ((w t).place ≡ admitted) ⊎ ((w t).place ≡ holding)
    → (w t).alive ≡ true
    → t ≢ u
    → (w u).alive ≡ true
    → (w u).file ≡ ticket queued (w u).number
    → earlier (w t).number t (w u).number u ≡ true
admission_in_order {w} t u r placed vt ne vu queued_u = by_place (w u).place refl ahead
  where
    i : Inv w
    i = Reach-Inv r

    present : has_file (w t) ≡ true
    present = ground (arith, i.consistent t)

    ahead : Ahead t (w t).number u (w u)
    ahead = elim placed [
      | inl p ↦ subst (λ l. Clear t l (w t).number u (w u)) p (i.clear t u ne present)
      | inr p ↦ subst (λ l. Clear t l (w t).number u (w u)) p (i.clear t u ne present)
    ]

    by_place :
        (l : Place)
        → (w u).place ≡ l
        → Ahead t (w t).number u (w u)
        → earlier (w t).number t (w u).number u ≡ true
    by_place idle e a = ground (arith, i.consistent u)
    by_place linked e a = ground (arith, i.consistent u)
    by_place (picking x y) e a = ground (arith, i.consistent u)
    by_place ready e a = ground arith
    by_place (listing x y) e a = ground arith
    by_place (checking x y) e a = ground arith
    by_place admitted e a = ground arith
    by_place holding e a = ground (arith, i.consistent u)
    by_place finished e a = ground (arith, i.consistent u)

-- The loop over `current`, once every abandoned ticket in it has been removed, comes to the end
-- with exactly the answer of `is_blocked`, whatever it had found before.
abbrev Removed : World → Text → StoredTicket → Type 0
Removed w t e = e.token ≢ t → is_abandoned e ≡ true → (w e.token).file ≡ none

pub data Loops (w : World) (t : Text) (n : ℕ) : List StoredTicket → Bool → Bool → Type 0 where
  ends : {b : Bool} → Loops w t n [] b b
  passes :
      {e : StoredTicket} {es : List StoredTicket} {b c r : Bool}
      → ((p : Participant)
          → p.alive ≡ true
          → p.number ≡ n
          → p.place ≡ checking (e ∷ es) b
          → Change w t p (record p { place = checking es c }))
      → Loops w t n es c r
      → Loops w t n (e ∷ es) b r

loops_lem :
    (w : World) (t : Text) (n : ℕ) (es : List StoredTicket) (b : Bool)
    → All (Removed w t) es
    → Loops w t n es b (is_blocked t n es || b)
unfolding is_blocked
loops_lem w t n [] b h = ends
loops_lem w t n (e ∷ es) b (h, hs) = elim (Bool-cases (text_eq e.token t)) [
  | inl own ↦ rw own (
      passes (λ p v _ l. pass_own e es b v l ((text_eq_iff e.token t).0 own))
        (loops_lem w t n es b hs))
  | inr other ↦
      let ne : e.token ≢ t = λ q. ground (arith, text_eq_iff e.token t) in
      elim (Bool-cases (is_abandoned e)) [
        | inl dead ↦
            rw (other, dead)
              (passes (λ p v _ l. pass_abandoned e es b v l ne dead (h ne dead))
                (loops_lem w t n es b hs))
        | inr live ↦
            rw (other, live)
              (passes
                (λ p v m l.
                  subst (λ k. Change w t p (record p { place = checking es (blocks t k e || b) })) m
                    (judge e es b v l ne live))
                (subst (Loops w t n es (blocks t n e || b))
                  (shuffle (blocks t n e) (is_blocked t n es) b)
                  (loops_lem w t n es (blocks t n e || b) hs)))
      ]
]
  where
    shuffle : (x y z : Bool) → (y || (x || z)) ≡ ((x || y) || z)
    shuffle x y z = ground arith

pub loop-is_blocked :
    (w : World) (t : Text) (n : ℕ) (es : List StoredTicket)
    → All (Removed w t) es
    → Loops w t n es false (is_blocked t n es)
loop-is_blocked w t n es h =
    subst (Loops w t n es false) (or_false (is_blocked t n es)) (loops_lem w t n es false h)
  where
    or_false : (x : Bool) → (x || false) ≡ x
    or_false x = ground arith
