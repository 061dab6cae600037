-- ===== src/Tests/Queue.antt =====
-- Two participants of the workload queue: `a` holds it, and `b` waits with the next number.
use rehearsal_db.Common.{
  ◌≤◌, inr, ℕ, ◌≡◌, refl, ◌≢◌, inl, true, false, List, [], ◌∷◌, Text, text_eq, text_eq_iff, arith,
  codes, In, text_lt,
}
use rehearsal_db.Workloads.Queue.{
  choosing, queued, held, StoredTicket, Place, picking, listing, checking, ready, linked, admitted,
  holding, World, has_file, without, put, owns, earlier, is_blocked,
}
use rehearsal_db.Workloads.Queue.Steps.{
  Reach, here, next, step, start, ticket, link, begin_pick, read_pick, take_number, begin_list,
  read_list, end_list, pass_own, admit, hold,
}
use rehearsal_db.Workloads.Queue.Exclusion.{Holds, mutual_exclusion}
use rehearsal_db.Workloads.Queue.Order.{admission_in_order}
use rehearsal_db.Workloads.Queue.Waiting.{waiting_progress}

abbrev a : Text
a = codes "a"

abbrev b : Text
b = codes "b"

abbrev after_link : World → Text → World
after_link w t = put w t (record (w t) { file = ticket choosing 0; place = linked })

abbrev placed : World → Text → Place → World
placed w t l = put w t (record (w t) { place = l })

abbrev numbered : World → Text → ℕ → World
numbered w t n = put w t (record (w t) { file = ticket queued n; place = ready; number = n })

abbrev w1 : World
w1 = after_link start a

abbrev w2 : World
w2 = placed w1 a (picking (λ v. has_file (w1 v)) 0)

abbrev w3 : World
w3 = placed w2 a (picking (without a (λ v. has_file (w1 v))) 0)

abbrev w4 : World
w4 = numbered w3 a 1

abbrev w5 : World
w5 = placed w4 a (listing (λ v. has_file (w4 v)) [])

abbrev own : List StoredTicket
own = record { token = a; ticket = record { phase = queued; number = 1 }; alive = true } ∷ []

abbrev w6 : World
w6 = placed w5 a (listing (without a (λ v. has_file (w4 v))) own)

abbrev w7 : World
w7 = placed w6 a (checking own false)

abbrev w8 : World
w8 = placed w7 a (checking [] false)

abbrev w9 : World
w9 = placed w8 a admitted

abbrev w10 : World
w10 = put w9 a (record (w9 a) { file = ticket held 1; place = holding })

abbrev v1 : World
v1 = after_link w9 b

abbrev v2 : World
v2 = placed v1 b (picking (λ v. has_file (v1 v)) 0)

abbrev v3 : World
v3 = placed v2 b (picking (without a (λ v. has_file (v1 v))) 1)

abbrev v4 : World
v4 = placed v3 b (picking (without b (without a (λ v. has_file (v1 v)))) 1)

abbrev v5 : World
v5 = numbered v4 b 2

only_a : (v : Text) → without a (λ u. has_file (w1 u)) v ≡ false
only_a v = ground arith

still_only_a : (v : Text) → without a (λ u. has_file (w4 u)) v ≡ false
still_only_a v = ground arith

both_read : (v : Text) → without b (without a (λ u. has_file (v1 u))) v ≡ false
both_read v = ground arith

reach4 : Reach w4
unfolding text_eq
reach4 =
    next
      (next (next (next here (step a _ (link refl refl))) (step a _ (begin_pick refl refl)))
        (step a _ (read_pick a (λ v. has_file (w1 v)) 0 refl refl)))
      (step a _ (take_number (without a (λ v. has_file (w1 v))) 0 refl refl only_a (omega arith)))

reach7 : Reach w7
unfolding text_eq owns
reach7 =
    next
      (next (next reach4 (step a _ (begin_list refl refl)))
        (step a _ (read_list a true (λ v. has_file (w4 v)) [] refl refl (λ e. cc))))
      (step a _ (end_list (without a (λ v. has_file (w4 v))) own refl refl still_only_a refl))

reach9 : Reach w9
unfolding text_eq
reach9 =
    next (next reach7 (step a _ (pass_own _ [] false refl refl refl))) (step a _ (admit refl refl))

w10-Reach : Reach w10
unfolding text_eq
w10-Reach = next reach9 (step a _ (hold refl refl))

v5-Reach : Reach v5
unfolding text_eq
v5-Reach =
    next
      (next
        (next (next (next reach9 (step b _ (link refl refl))) (step b _ (begin_pick refl refl)))
          (step b _ (read_pick a (λ v. has_file (v1 v)) 0 refl refl)))
        (step b _ (read_pick b (without a (λ v. has_file (v1 v))) 1 refl refl)))
      (step b _ (
        take_number (without b (without a (λ v. has_file (v1 v)))) 1 refl refl both_read
          (omega arith)))

a-Holds : Holds w10 a
unfolding text_eq
a-Holds = (refl, refl)

a_ne_b : a ≢ b
a_ne_b = ground (arith, text_eq_iff a b)

mutual_exclusion_example : a ≡ a
mutual_exclusion_example = mutual_exclusion {w = w10} a a w10-Reach a-Holds a-Holds

admission_in_order_example : earlier (v5 a).number a (v5 b).number b ≡ true
unfolding text_eq
admission_in_order_example =
    admission_in_order {w = v5} a b v5-Reach (inl refl) refl a_ne_b refl refl

abbrev first : StoredTicket
first = record { token = b; ticket = record { phase = queued; number = 2 }; alive = true }

abbrev second : StoredTicket
second = record { token = a; ticket = record { phase = queued; number = 2 }; alive = true }

-- A participant that died while it waited, with the smallest number.
abbrev dead : StoredTicket
dead = record { token = codes "c"; ticket = record { phase = queued; number = 1 }; alive = false }

waiting_progress_example :
    (m : StoredTicket) × In m (dead ∷ first ∷ second ∷ [])
    × (m.alive ≡ true)
    × (is_blocked m.token m.ticket.number (dead ∷ first ∷ second ∷ []) ≡ false)
    × ((f : StoredTicket)
        → In f (dead ∷ first ∷ second ∷ [])
        → f.alive ≡ true
        → (m.ticket.number ≤ f.ticket.number)
          × (f.token ≢ m.token
              → is_blocked f.token f.ticket.number (dead ∷ first ∷ second ∷ []) ≡ true))
waiting_progress_example =
    waiting_progress first (dead ∷ first ∷ second ∷ [])
      (inl refl, (inr (refl, refl), (inr (refl, refl), tt))) (inr (inl refl)) refl

-- The same number: the smaller token goes first, and the dead participant is passed over.
blocked_tests :
    (is_blocked a 2 (dead ∷ first ∷ second ∷ []) ≡ false)
    × (is_blocked b 2 (dead ∷ first ∷ second ∷ []) ≡ true)
unfolding is_blocked text_eq earlier text_lt
blocked_tests = (refl, refl)
