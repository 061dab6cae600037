-- ===== src/Workloads/Queue/Waiting.antt =====
-- src/runtime/resources/workload_queue.mts: the queued tickets of a listing, and which of them are blocked.
use rehearsal_db.Common.{
  ◌≤◌, sym, keep, In-keep, In-keep_cases, All-In, ℕ, ◌≡◌, refl, ◌≢◌, ◌⊎◌, inl, inr, Bool, true,
  false, List, [], ◌∷◌, Text, text_eq_iff, text_trichotomy, arith, Bool-cases, if◌then◌else◌, subst,
  text_lt_irrefl, text_lt_trans, All, In,
}
use rehearsal_db.Workloads.Queue.{queued, StoredTicket, is_abandoned, is_blocked, earlier, blocks}

earlier_step :
    (m n k : ℕ) (t u v : Text)
    → earlier m t n u ≡ true
    → (earlier m t k v ≡ true) ⊎ (earlier k v n u ≡ true)
unfolding earlier
earlier_step m n k t u v h = elim (text_trichotomy t v) [
  | inl b ↦ ground (arith, text_trichotomy v u, text_lt_trans t v u)
  | inr (inl e) ↦ ground arith
  | inr (inr b) ↦ ground (arith, text_lt_trans v t u b)
]

earlier_trans :
    (m n k : ℕ) (t u v : Text)
    → earlier m t n u ≡ true
    → earlier n u k v ≡ true
    → earlier m t k v ≡ true
unfolding earlier
earlier_trans m n k t u v h g = ground (arith, text_lt_trans t u v)

abbrev before : StoredTicket → StoredTicket → Bool
before e f = earlier e.ticket.number e.token f.ticket.number f.token

least : StoredTicket → List StoredTicket → StoredTicket
least e [] = e
least e (f ∷ fs) =
    let left = least f fs in let right = least e fs in if before f e then left else right

abbrev NotBefore : StoredTicket → StoredTicket → Type 0
NotBefore m f = before f m ≡ false

abbrev IsLeast : StoredTicket → List StoredTicket → StoredTicket → Type 0
IsLeast e fs m = NotBefore m e × All (NotBefore m) fs × In m (e ∷ fs)

least_left :
    (e f : StoredTicket) (fs : List StoredTicket)
    → before f e ≡ true
    → least f fs ≡ least e (f ∷ fs)
unfolding least
least_left e f fs h = rw h

least_right :
    (e f : StoredTicket) (fs : List StoredTicket)
    → before f e ≡ false
    → least e fs ≡ least e (f ∷ fs)
unfolding least
least_right e f fs h = rw h

least_lem : (e : StoredTicket) (fs : List StoredTicket) → IsLeast e fs (least e fs)
unfolding least
least_lem e [] = (irrefl, tt, inl refl)
  where
    irrefl : before e e ≡ false
    irrefl = unfold earlier in ground (arith, text_lt_irrefl e.token)
least_lem e (f ∷ fs) = elim (Bool-cases (before f e)) [
  | inl smaller ↦
      let (a, b, c) = least_lem f fs in
      subst (IsLeast e (f ∷ fs)) (least_left e f fs smaller) (keep_e a smaller, (a, b), inr c)
  | inr larger ↦
      let (a, b, c) = least_lem e fs in
      subst (IsLeast e (f ∷ fs)) (least_right e f fs larger) (a, (keep_f a larger, b), skip c)
]
  where
    keep_e : NotBefore (least f fs) f → before f e ≡ true → NotBefore (least f fs) e
    keep_e a s = ground (
      arith,
      earlier_trans f.ticket.number e.ticket.number (least f fs).ticket.number f.token e.token
          (least f fs).token s,
    )

    keep_f : NotBefore (least e fs) e → before f e ≡ false → NotBefore (least e fs) f
    keep_f a s = ground (
      arith,
      earlier_step f.ticket.number (least e fs).ticket.number e.ticket.number f.token
          (least e fs).token e.token,
    )

    skip : In (least e fs) (e ∷ fs) → In (least e fs) (e ∷ f ∷ fs)
    skip (inl x) = inl x
    skip (inr x) = inr (inr x)

-- An entry that is passed over, or that waits for its turn.
abbrev pub IsWaiting : StoredTicket → Type 0
IsWaiting e = (is_abandoned e ≡ true) ⊎ ((e.alive ≡ true) × (e.ticket.phase ≡ queued))

not-is_blocked :
    (m : StoredTicket) (fs : List StoredTicket)
    → All IsWaiting fs
    → ((f : StoredTicket) → In f fs → f.alive ≡ true → NotBefore m f)
    → is_blocked m.token m.ticket.number fs ≡ false
unfolding is_blocked blocks
not-is_blocked m [] q h = refl
not-is_blocked m (f ∷ fs) (inl abandoned, q) h =
    ground (arith, not-is_blocked m fs q (λ g i. h g (inr i)))
not-is_blocked m (f ∷ fs) (inr (live, p), q) h =
    let n = h f (inl refl) live in ground (arith, not-is_blocked m fs q (λ g i. h g (inr i)))

is_blocked-In :
    (m : StoredTicket) (t : Text) (n : ℕ) (fs : List StoredTicket)
    → In m fs
    → m.alive ≡ true
    → t ≢ m.token
    → earlier m.ticket.number m.token n t ≡ true
    → is_blocked t n fs ≡ true
unfolding is_blocked blocks
is_blocked-In m t n [] i v ne e = elim i [ ]
is_blocked-In m t n (f ∷ fs) (inl same) v ne e =
    subst (λ g. is_blocked t n (g ∷ fs) ≡ true) (sym same) (ground (arith, text_eq_iff m.token t))
is_blocked-In m t n (f ∷ fs) (inr i) v ne e = ground (arith, is_blocked-In m t n fs i v ne e)

-- The numbers of two tickets of which the second is not before the first, and their order.
NotBefore_lem :
    (m f : StoredTicket)
    → NotBefore m f
    → (m.ticket.number ≤ f.ticket.number)
      × (f.token ≢ m.token → earlier m.ticket.number m.token f.ticket.number f.token ≡ true)
unfolding earlier
NotBefore_lem m f h = (
  ground arith,
  λ ne. elim (text_trichotomy m.token f.token) [
    | inl b ↦ ground arith
    | inr (inl e) ↦ absurd (ne (sym e))
    | inr (inr b) ↦ ground arith
  ],
)

least-In :
    (l : StoredTicket) (es : List StoredTicket)
    → In l es
    → (m : StoredTicket) × In m es × ((f : StoredTicket) → In f es → NotBefore m f)
least-In l [] i = elim i [ ]
least-In l (e ∷ es) i =
    let (a, b, c) = least_lem e es in
    let all : All (NotBefore (least e es)) (e ∷ es) = (a, b) in
    (least e es, c, λ f j. All-In (NotBefore (least e es)) f (e ∷ es) all j)

-- In a listing whose entries are abandoned or are queued tickets of live owners, with at least one of a
-- live owner, a ticket of a live owner is blocked by no entry. No live owner has a smaller number, and
-- every live owner with another token is blocked.
pub waiting_progress :
    (l : StoredTicket) (es : List StoredTicket)
    → All IsWaiting es
    → In l es
    → l.alive ≡ true
    → (m : StoredTicket) × In m es
      × (m.alive ≡ true)
      × (is_blocked m.token m.ticket.number es ≡ false)
      × ((f : StoredTicket)
          → In f es
          → f.alive ≡ true
          → (m.ticket.number ≤ f.ticket.number)
            × (f.token ≢ m.token → is_blocked f.token f.ticket.number es ≡ true))
waiting_progress l es q i v =
    let (m, j, first) = least-In l (keep (λ e. e.alive) es) (In-keep (λ e. e.alive) l es i v) in
    let (k, live) = In-keep_cases (λ e. e.alive) m es j in
    let ahead : (f : StoredTicket) → In f es → f.alive ≡ true → NotBefore m f =
      λ f j w. first f (In-keep (λ e. e.alive) f es j w) in
    (
      m,
      k,
      live,
      not-is_blocked m es q ahead,
      λ f j w.
          let (most, before) = NotBefore_lem m f (ahead f j w) in
          (most, λ ne. is_blocked-In m f.token f.ticket.number es k live ne (before ne)),
    )
