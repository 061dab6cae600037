-- ===== src/Migrations/Lexer/Progress.antt =====
-- migration_sql_lexer.mts: one iteration of the loop, its progress, the limits and the open brackets.
use rehearsal_db.Common.{
  ℕ, ◌<◌, ◌≤◌, ◌≡◌, refl, ap, Bool, true, false, ◌&&◌, Option, none, some, List, [], ◌∷◌, Text, leb,
  ◌==◌, if◌then◌else◌, length, drop, All, arith, Bool-cases, length-drop, ==_iff, inl, inr,
}
use rehearsal_db.Migrations.Lexer.Scanners.{
  ScanUnknownReason, malformed_sql, input_limit, Reasons, add_reason, max_tokens, max_depth,
}
use rehearsal_db.Migrations.Lexer.Machine.{
  TokenKind, symbol, SqlToken, Lexer, Outcome, go, stop, skip, because, because_if, emit,
  open_group, opening, closing, is_open, is_close,
}

-- The bracket that a token is, or 0.
abbrev pub bracket : TokenKind → Text → ℕ
bracket symbol (c ∷ []) = c
bracket _ _ = 0

abbrev close_step : ℕ → ℕ → List ℕ → Option (List ℕ)
close_step c d [] = none
close_step c d (g ∷ gs) = if g == opening c && d == length gs then some gs else none

-- The groups that are open after a token, `none` where its depth or its bracket does not fit.
abbrev pub nest_step : SqlToken → List ℕ → Option (List ℕ)
nest_step t gs =
    if is_open (bracket t.kind t.value)
    then (if t.depth == length gs then some (bracket t.kind t.value ∷ gs) else none)
    else if is_close (bracket t.kind t.value)
    then close_step (bracket t.kind t.value) t.depth gs
    else if t.depth == length gs
    then some gs
    else none

abbrev pub bind_nest : Option (List ℕ) → SqlToken → Option (List ℕ)
bind_nest none t = none
bind_nest (some gs) t = nest_step t gs

-- Over tokens with the last at the head.
abbrev pub nesting : List SqlToken → Option (List ℕ)
nesting [] = some []
nesting (t ∷ ts) = bind_nest (nesting ts) t

abbrev pub IsShallow : SqlToken → Type 0
IsShallow t = t.depth ≤ max_depth

pub record Inv (l : Lexer) : Type 0 where
  pub nested : nesting l.tokens ≡ some l.groups
  pub few : length l.tokens ≤ max_tokens
  pub shallow : length l.groups ≤ max_depth
  pub depths : All IsShallow l.tokens

-- `n` units are left before an iteration.
abbrev pub Keeps : ℕ → Outcome → Type 0
Keeps n (go next) = Inv next × (length next.rest < n)
Keeps n (stop last) =
    (0 < length last.reasons) × (length last.tokens ≤ max_tokens) × All IsShallow last.tokens

pub add_reason_pos : (r : ScanUnknownReason) (rs : Reasons) → 0 < length (add_reason r rs)
unfolding add_reason
add_reason_pos r [] = omega arith
add_reason_pos r (s ∷ rs) = ground arith

drop_shorter : (k : ℕ) (s : Text) (n : ℕ) → length s ≡ n → 0 < k → 0 < n → length (drop k s) < n
drop_shorter k s n e p q = omega (arith, length-drop k s)

pub skip-Keeps :
    (k n : ℕ) (l : Lexer) → length l.rest ≡ n → 0 < k → 0 < n → Inv l → Keeps n (go (skip k l))
skip-Keeps k n l e p q i = (
  record { nested = i.nested; few = i.few; shallow = i.shallow; depths = i.depths },
  drop_shorter k l.rest n e p q,
)

pub because-Inv : (r : ScanUnknownReason) (l : Lexer) → Inv l → Inv (because r l)
because-Inv r l i = record {
  nested = i.nested;
  few = i.few;
  shallow = i.shallow;
  depths = i.depths;
}

pub because_if-Inv : (b : Bool) (r : ScanUnknownReason) (l : Lexer) → Inv l → Inv (because_if b r l)
because_if-Inv true r l i = because-Inv r l i
because_if-Inv false r l i = i

pub because_if-rest :
    (b : Bool) (r : ScanUnknownReason) (l : Lexer) → length (because_if b r l).rest ≡ length l.rest
because_if-rest true r l = refl
because_if-rest false r l = refl

pub stop-Keeps : (n : ℕ) (r : ScanUnknownReason) (l : Lexer) → Inv l → Keeps n (stop (because r l))
stop-Keeps n r l i = (add_reason_pos r l.reasons, i.few, i.depths)

-- A token that is no bracket.
pub emit-Keeps :
    (kind : TokenKind) (value : Text) (k n : ℕ) (l : Lexer)
    → is_open (bracket kind value) ≡ false
    → is_close (bracket kind value) ≡ false
    → length l.rest ≡ n
    → 0 < k
    → 0 < n
    → Inv l
    → Keeps n (emit kind value k l)
unfolding emit
emit-Keeps kind value k n l no_open no_close e p q i =
    elim (Bool-cases (leb max_tokens (length l.tokens))) [
      | inl full ↦ rw full (stop-Keeps n input_limit l i)
      | inr room ↦ rw room (
        record {
          nested = rw (i.nested, no_open, no_close, (==_iff (length l.groups) _).1 refl) refl;
          few = ground (arith, i.few);
          shallow = i.shallow;
          depths = (i.shallow, i.depths);
        },
        drop_shorter k l.rest n e p q,
      )
    ]

pub open_group-Keeps :
    (c n : ℕ) (l : Lexer)
    → is_open c ≡ true
    → length l.rest ≡ n
    → 0 < n
    → Inv l
    → Keeps n (open_group c l)
unfolding open_group
open_group-Keeps c n l o e q i = elim (Bool-cases (leb max_depth (length l.groups))) [
  | inl deep ↦ rw deep (stop-Keeps n input_limit l i)
  | inr fine ↦ elim (Bool-cases (leb max_tokens (length l.tokens))) [
    | inl full ↦ rw (fine, full) (stop-Keeps n input_limit l i)
    | inr room ↦
        rw (fine, room)
          (
            record {
              nested = rw (i.nested, o, (==_iff (length l.groups) _).1 refl) refl;
              few = ground (arith, i.few);
              shallow = ground arith;
              depths = (i.shallow, i.depths);
            },
            drop_shorter 1 l.rest n e (omega arith) q,
          )
  ]
]

not_open_of_close : (c : ℕ) → is_close c ≡ true → is_open c ≡ false
not_open_of_close c h = ground arith

pub closing-Keeps :
    (c n : ℕ) (l : Lexer) (gs : List ℕ)
    → l.groups ≡ gs
    → is_close c ≡ true
    → length l.rest ≡ n
    → 0 < n
    → Inv l
    → Keeps n (closing c l gs)
unfolding emit
closing-Keeps c n l [] g o e q i = stop-Keeps n malformed_sql l i
closing-Keeps c n l (x ∷ xs) g o e q i = elim (Bool-cases (x == opening c)) [
  | inl fits ↦ elim (Bool-cases (leb max_tokens (length l.tokens))) [
    | inl full ↦ rw (fits, full) (add_reason_pos input_limit l.reasons, i.few, i.depths)
    | inr room ↦
        rw (fits, room)
          (
            record {
              nested =
                  rw (i.nested, g, not_open_of_close c o, o, fits, (==_iff (length xs) _).1 refl)
                    refl;
              few = ground (arith, i.few);
              shallow = omega (arith, ap length g, i.shallow);
              depths = (omega (arith, ap length g, i.shallow), i.depths);
            },
            drop_shorter 1 l.rest n e (omega arith) q,
          )
  ]
  | inr other ↦ rw other (add_reason_pos malformed_sql l.reasons, i.few, i.depths)
]
