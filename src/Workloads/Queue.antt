-- ===== src/Workloads/Queue.antt =====
-- src/runtime/resources/workload_queue.mts and workload_queue_store.mts: the ticket queue by which
-- processes admit one workload at a time (the bakery protocol over files). A participant is one
-- call of acquireWorkload, known by its token; a token is a fresh UUID, so each names one file.
pub mod Steps
pub mod Invariant
pub mod Looking
pub mod Exclusion
pub mod Order
pub mod Waiting
use Prim.Native.Nat.{max}
use rehearsal_db.Common.{
  ℕ, zero, suc, ◌+◌, ◌≡◌, Bool, true, false, not, ◌&&◌, ◌||◌, Option, none, some, List, [], ◌∷◌,
  Text, text_eq, text_lt, ltb, ◌==◌, if◌then◌else◌, keep, map,
}

pub data Phase : Type 0 where
  choosing queued held : Phase

-- The fields of WorkloadTicket that decide; the token is the participant's.
pub record WorkloadTicket : Type 0 where
  pub phase : Phase
  pub number : ℕ

-- StoredWorkloadTicket: what one read of a ticket file returns.
pub record StoredTicket : Type 0 where
  pub token : Text
  pub ticket : WorkloadTicket
  pub alive : Bool

abbrev pub is_held : Phase → Bool
is_held held = true
is_held _ = false

abbrev pub is_choosing : Phase → Bool
is_choosing choosing = true
is_choosing _ = false

abbrev pub is_queued : Phase → Bool
is_queued queued = true
is_queued _ = false

-- `earlier(left, right)`, over the number and the token of each.
unfoldable pub earlier : ℕ → Text → ℕ → Text → Bool
earlier m t n u = ltb m n || (m == n) && text_lt t u

-- `!entry.alive && entry.ticket.phase !== "held"`
abbrev pub is_abandoned : StoredTicket → Bool
is_abandoned e = not e.alive && not (is_held e.ticket.phase)

-- The last test of the loop over `current`.
unfoldable pub blocks : Text → ℕ → StoredTicket → Bool
unfolding earlier
blocks t n e =
    is_choosing e.ticket.phase || is_held e.ticket.phase || earlier e.ticket.number e.token n t

-- The loop over `current` as a whole: does some entry block the participant `t` with number `n`?
unfoldable pub is_blocked : Text → ℕ → List StoredTicket → Bool
unfolding blocks
is_blocked t n [] = false
is_blocked t n (e ∷ es) =
    let rest = is_blocked t n es in
    if text_eq e.token t then rest else if is_abandoned e then rest else blocks t n e || rest

-- `own`, and that its record is the one that was written.
unfoldable pub owns : Text → ℕ → List StoredTicket → Bool
owns t n [] = false
owns t n (e ∷ es) =
    if text_eq e.token t then is_queued e.ticket.phase && (e.ticket.number == n) else owns t n es

-- `entries.filter(({ alive, ticket }) => !alive && ticket.phase === "held")`
unfoldable pub eligible : List StoredTicket → List StoredTicket
eligible es = keep (λ e. not e.alive && is_held e.ticket.phase) es

-- Where a participant stands in acquireWorkload and after it. `pending` are the files that the
-- directory held when a listing began and that it has not read yet.
pub data Place : Type 0 where
  idle : Place
  linked : Place
  picking : (pending : Text → Bool) (largest : ℕ) → Place
  ready : Place
  listing : (pending : Text → Bool) (current : List StoredTicket) → Place
  checking : (rest : List StoredTicket) (blocked : Bool) → Place
  admitted : Place
  holding : Place
  finished : Place

-- A participant: its file, whether its process lives, its place and the number that it took.
pub record Participant : Type 0 where
  pub file : Option WorkloadTicket
  pub alive : Bool
  pub place : Place
  pub number : ℕ

abbrev pub World : Type 0
World = Text → Participant

abbrev pub has_file : Participant → Bool
has_file p = elim p.file [ none ↦ false | some k ↦ true ]

abbrev pub file_number : Option WorkloadTicket → ℕ
file_number none = 0
file_number (some k) = k.number

abbrev pub without : Text → (Text → Bool) → Text → Bool
without q pending v = if text_eq q v then false else pending v

-- What a read adds to the listing: nothing where the file is gone.
abbrev pub observe : Text → Option WorkloadTicket → Bool → List StoredTicket → List StoredTicket
observe q none alive current = current
observe q (some k) alive current = record { token = q; ticket = k; alive = alive } ∷ current

abbrev pub put : World → Text → Participant → World
put w a p v = if text_eq a v then p else w v
