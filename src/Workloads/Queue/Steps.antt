-- ===== src/Workloads/Queue/Steps.antt =====
-- The atomic file operations of acquireWorkload, release and recovery, and their interleavings.
-- A listing reads one file at a time: every file that stands in the directory from its beginning
-- is read or has been removed, and others may be read as well.
use Prim.Native.Nat.{max}
use rehearsal_db.Common.{
  max_safe_integer, ℕ, suc, ◌≤◌, ◌≡◌, ◌≢◌, Bool, true, false, ◌||◌, Option, none, some, List, [],
  ◌∷◌, Text,
}
use rehearsal_db.Workloads.Queue.{
  Phase, choosing, queued, held, WorkloadTicket, StoredTicket, is_held, is_abandoned, blocks, owns,
  Place, idle, linked, picking, ready, listing, checking, admitted, holding, finished, Participant,
  World, has_file, file_number, without, observe, put,
}

abbrev pub ticket : Phase → ℕ → Option WorkloadTicket
ticket p n = some (record { phase = p; number = n })

-- An acquisition that is under way: it ends by removing its ticket when it fails.
abbrev pub is_acquiring : Place → Bool
is_acquiring idle = false
is_acquiring holding = false
is_acquiring finished = false
is_acquiring _ = true

-- What the participant `a`, which is `p` in the world `w`, becomes by an operation of its own or,
-- for the last three, of its process, of another participant or of the operator.
pub data Change (w : World) (a : Text) (p : Participant) : Participant → Type 0 where
  -- `await store.write(ticket, true)`
  link :
      p.alive ≡ true
      → p.place ≡ idle
      → Change w a p (record p { file = ticket choosing 0; place = linked })
  -- `const entries = await store.list()`, and the largest number in it.
  begin_pick :
      p.alive ≡ true
      → p.place ≡ linked
      → Change w a p (record p { place = picking (λ v. has_file (w v)) 0 })
  read_pick :
      (q : Text) (pending : Text → Bool) (largest : ℕ)
      → p.alive ≡ true
      → p.place ≡ picking pending largest
      → Change w a p
          (record p { place = picking (without q pending) (max largest (file_number (w q).file)) })
  -- `ticket.phase = "queued"; await store.write(ticket)`
  take_number :
      (pending : Text → Bool) (largest : ℕ)
      → p.alive ≡ true
      → p.place ≡ picking pending largest
      → ((v : Text) → pending v ≡ false)
      → suc largest ≤ max_safe_integer
      → Change w a p
          (record p { file = ticket queued (suc largest); place = ready; number = suc largest })
  -- `const current = await store.list()`
  begin_list :
      p.alive ≡ true
      → p.place ≡ ready
      → Change w a p (record p { place = listing (λ v. has_file (w v)) [] })
  read_list :
      (q : Text) (seen_alive : Bool) (pending : Text → Bool) (current : List StoredTicket)
      → p.alive ≡ true
      → p.place ≡ listing pending current
      → (seen_alive ≡ false → (w q).alive ≡ false)
      → Change w a p (record p {
        place = listing (without q pending) (observe q (w q).file seen_alive current);
      })
  end_list :
      (pending : Text → Bool) (current : List StoredTicket)
      → p.alive ≡ true
      → p.place ≡ listing pending current
      → ((v : Text) → pending v ≡ false)
      → owns a p.number current ≡ true
      → Change w a p (record p { place = checking current false })
  -- The loop over `current`.
  pass_own :
      (e : StoredTicket) (rest : List StoredTicket) (blocked : Bool)
      → p.alive ≡ true
      → p.place ≡ checking (e ∷ rest) blocked
      → e.token ≡ a
      → Change w a p (record p { place = checking rest blocked })
  pass_abandoned :
      (e : StoredTicket) (rest : List StoredTicket) (blocked : Bool)
      → p.alive ≡ true
      → p.place ≡ checking (e ∷ rest) blocked
      → e.token ≢ a
      → is_abandoned e ≡ true
      → (w e.token).file ≡ none
      → Change w a p (record p { place = checking rest blocked })
  judge :
      (e : StoredTicket) (rest : List StoredTicket) (blocked : Bool)
      → p.alive ≡ true
      → p.place ≡ checking (e ∷ rest) blocked
      → e.token ≢ a
      → is_abandoned e ≡ false
      → Change w a p (record p { place = checking rest (blocks a p.number e || blocked) })
  wait : p.alive ≡ true → p.place ≡ checking [] true → Change w a p (record p { place = ready })
  admit :
      p.alive ≡ true → p.place ≡ checking [] false → Change w a p (record p { place = admitted })
  -- `ticket.phase = "held"; await store.write(ticket)`
  hold :
      p.alive ≡ true
      → p.place ≡ admitted
      → Change w a p (record p { file = ticket held p.number; place = holding })
  -- `finally { if (!held) await removeOwned() }`, after a timeout, an abort or any other error.
  abandon :
      p.alive ≡ true
      → is_acquiring p.place ≡ true
      → Change w a p (record p { file = none; place = finished })
  -- `lease.release()`
  release :
      p.alive ≡ true → p.place ≡ holding → Change w a p (record p { file = none; place = finished })
  crash : Change w a p (record p { alive = false })
  -- `store.remove(entry)` by the participant `r`, whose loop has come to an abandoned entry of `a`.
  discard :
      (r : Text) (e : StoredTicket) (rest : List StoredTicket) (blocked : Bool)
      → (w r).place ≡ checking (e ∷ rest) blocked
      → e.token ≡ a
      → p.alive ≡ false
      → (k : WorkloadTicket) → p.file ≡ some k
      → is_held k.phase ≡ false
      → Change w a p (record p { file = none })
  -- `recoverWorkloads`, of a holder that is dead.
  recover :
      (k : WorkloadTicket)
      → p.alive ≡ false
      → p.file ≡ some k
      → is_held k.phase ≡ true
      → Change w a p (record p { file = none })

pub data Step (w : World) : World → Type 0 where
  step : (a : Text) (p : Participant) → Change w a (w a) p → Step w (put w a p)

-- Nobody has begun yet.
abbrev pub start : World
start v = record { file = none; alive = true; place = idle; number = 0 }

pub data Reach : World → Type 0 where
  here : Reach start
  next : {w v : World} → Reach w → Step w v → Reach v
