-- ===== src/Workloads/Queue/Exclusion.antt =====
-- src/runtime/resources/workload_queue.mts: the participants that hold the queue.
use rehearsal_db.Common.{
  ℕ, ◌≡◌, refl, sym, ◌≢◌, ◌⊎◌, inl, inr, true, false, Text, text_eq, text_eq_iff, text_eq_self,
  arith, Bool-cases, subst, ◌∙◌,
}
use rehearsal_db.Workloads.Queue.{
  held, Place, idle, linked, picking, ready, listing, checking, admitted, holding, finished,
  Participant, World, has_file, file_number, put,
}
use rehearsal_db.Workloads.Queue.Steps.{Change, Step, step, ticket, start, Reach, here, next}
use rehearsal_db.Workloads.Queue.Invariant.{
  IsConsistent, Ahead, Clear, Inv, Change-IsConsistent, Change-Ahead,
}
use rehearsal_db.Workloads.Queue.Looking.{earlier_asym, Change-Clear}

-- A participant that knows something has a file with its number.
file_number_of_place :
    (t u : Text) (p q : Participant)
    → IsConsistent p
    → has_file p ≡ true
    → (Clear t p.place p.number u q → Unit {0})
    → (file_number p.file ≡ p.number) ⊎ Clear t p.place p.number u q
file_number_of_place t u p q c f _ = by_place p.place refl
  where
    by_place :
        (l : Place) → p.place ≡ l → (file_number p.file ≡ p.number) ⊎ Clear t p.place p.number u q
    by_place idle l = rw l (inr tt)
    by_place linked l = rw l (inr tt)
    by_place (picking a b) l = rw l (inr tt)
    by_place ready l = rw l (inr tt)
    by_place (listing a b) l = inl (ground arith)
    by_place (checking a b) l = inl (ground arith)
    by_place admitted l = inl (ground arith)
    by_place holding l = inl (ground arith)
    by_place finished l = rw l (inr tt)

-- The knowledge of `t` about `a` survives a change of `a`.
Clear-Change :
    (w : World) (t a : Text) (q : Participant)
    → Inv w
    → t ≢ a
    → has_file (w t) ≡ true
    → Change w a (w a) q
    → Clear t (w t).place (w t).number a q
Clear-Change w t a q i ne f c =
    elim (file_number_of_place t a (w t) q (i.consistent t) f (λ _. tt)) [
      | inr done ↦ done
      | inl same ↦ by_place (w t).place (w t).number same (i.clear t a ne f)
    ]
  where
    by_place :
        (l : Place) (n : ℕ) → file_number (w t).file ≡ n → Clear t l n a (w a) → Clear t l n a q
    by_place idle n s h = tt
    by_place linked n s h = tt
    by_place (picking x y) n s h = tt
    by_place ready n s h = tt
    by_place (listing x y) n s (inl h) = inl h
    by_place (listing x y) n s (inr (inl h)) =
        inr (inl (Change-Ahead w t a n ne f s (w a) q c (i.consistent a) h))
    by_place (listing x y) n s (inr (inr h)) = inr (inr h)
    by_place (checking x y) n s (inl h) =
        inl (Change-Ahead w t a n ne f s (w a) q c (i.consistent a) h)
    by_place (checking x y) n s (inr h) = inr h
    by_place admitted n s h = Change-Ahead w t a n ne f s (w a) q c (i.consistent a) h
    by_place holding n s h = Change-Ahead w t a n ne f s (w a) q c (i.consistent a) h
    by_place finished n s h = tt

put_self : (w : World) (a : Text) (p : Participant) → put w a p a ≡ p
put_self w a p = rw (text_eq_self a)

put_other : (w : World) (a t : Text) (p : Participant) → text_eq a t ≡ false → put w a p t ≡ w t
put_other w a t p h = rw h

Step-Inv : {w v : World} → Step w v → Inv w → Inv v
Step-Inv {w} (step a p c) i = record {
  consistent = λ t. elim (Bool-cases (text_eq a t)) [
    | inl same ↦
        subst (λ x. IsConsistent (put w a p x)) ((text_eq_iff a t).0 same)
          (rw (put_self w a p) (Change-IsConsistent w a (w a) p c (i.consistent a)))
    | inr other ↦ rw (put_other w a t p other) (i.consistent t)
  ];
  clear = λ t u ne f. elim (Bool-cases (text_eq a t)) [
    | inl mine ↦ clear_mine t u ((text_eq_iff a t).0 mine) ne f
    | inr theirs ↦ elim (Bool-cases (text_eq a u)) [
      | inl about ↦ clear_about t u theirs ((text_eq_iff a u).0 about) ne f
      | inr apart ↦
          rw (put_other w a t p theirs, put_other w a u p apart)
            (i.clear t u ne (rw (put_other w a t p theirs) at f))
    ]
  ];
}
  where
    apart : (t u : Text) → t ≢ u → text_eq t u ≡ false
    apart t u ne = ground (arith, text_eq_iff t u)

    clear_self :
        (u : Text)
        → a ≢ u
        → has_file (put w a p a) ≡ true
        → Clear a (put w a p a).place (put w a p a).number u (put w a p u)
    clear_self u ne f =
        rw (put_self w a p, put_other w a u p (apart a u ne))
          (Change-Clear w a u ne (i.consistent u) (w a) p c (i.consistent a)
            (rw (put_self w a p) at f) (i.clear a u ne))

    clear_mine :
        (t u : Text)
        → a ≡ t
        → t ≢ u
        → has_file (put w a p t) ≡ true
        → Clear t (put w a p t).place (put w a p t).number u (put w a p u)
    clear_mine t u e =
        subst
          (λ x.
            x ≢ u
            → has_file (put w a p x) ≡ true
            → Clear x (put w a p x).place (put w a p x).number u (put w a p u))
          e (clear_self u)

    clear_about :
        (t u : Text)
        → text_eq a t ≡ false
        → a ≡ u
        → t ≢ u
        → has_file (put w a p t) ≡ true
        → Clear t (put w a p t).place (put w a p t).number u (put w a p u)
    clear_about t u other e ne f =
        subst (λ x. Clear t (put w a p t).place (put w a p t).number x (put w a p x)) e
          (rw (put_self w a p, put_other w a t p other)
            (Clear-Change w t a p i (λ q. ne (q ∙ e)) (rw (put_other w a t p other) at f) c))

start-Inv : Inv start
start-Inv = record { consistent = λ t. inl refl; clear = λ t u ne f. cc }

-- Every interleaving of the file operations keeps the invariant.
pub Reach-Inv : {w : World} → Reach w → Inv w
Reach-Inv here = start-Inv
Reach-Inv (next r s) = Step-Inv s (Reach-Inv r)

-- Holding the queue: a live process whose acquireWorkload returned and that has not released.
abbrev pub Holds : World → Text → Type 0
Holds w t = ((w t).place ≡ holding) × ((w t).alive ≡ true)

holder_file :
    (p : Participant)
    → IsConsistent p
    → p.place ≡ holding
    → p.alive ≡ true
    → (has_file p ≡ true) × (p.file ≡ ticket held p.number)
holder_file p c e v = ground arith

-- In every reachable state of any number of processes, crashes, removals of abandoned tickets and
-- reviewed recoveries included, no two live participants hold the queue.
pub mutual_exclusion : {w : World} (t u : Text) → Reach w → Holds w t → Holds w u → t ≡ u
mutual_exclusion {w} t u r (pt, vt) (pu, vu) = elim (Bool-cases (text_eq t u)) [
  | inl same ↦ (text_eq_iff t u).0 same
  | inr other ↦ absurd (conflict (λ e. ground (arith, text_eq_iff t u)))
]
  where
    i : Inv w
    i = Reach-Inv r

    ahead : (x y : Text) → x ≢ y → Holds w x → Ahead x (w x).number y (w y)
    ahead x y ne (px, vx) =
        subst (λ l. Clear x l (w x).number y (w y)) px
          (i.clear x y ne (holder_file (w x) (i.consistent x) px vx).0)

    conflict : t ≢ u → ⊥
    conflict ne = ground (
      arith,
      ahead t u ne (pt, vt),
      ahead u t (λ e. ne (sym e)) (pu, vu),
      holder_file (w t) (i.consistent t) pt vt,
      holder_file (w u) (i.consistent u) pu vu,
      earlier_asym (w t).number (w u).number t u,
    )
