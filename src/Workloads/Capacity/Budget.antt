-- ===== src/Workloads/Capacity/Budget.antt =====
-- src/runtime/resources/workload_capacity.mts: admission by measured capacity, and the budgets.
use rehearsal_db.Common.{
  ℕ, ◌+◌, ◌≤◌, ◌<◌, ◌≡◌, refl, true, Option, none, some, List, [], ◌∷◌, ok, guard, guard-eq-ok,
  >>=-eq-ok, >>-eq-ok, length, ltb, leb, arith, ◌&&◌, suc,
}
use rehearsal_db.Workloads.Capacity.{
  demand_unbounded, not_fresh, inconsistent, value, TargetMemory, Policy, active_policy, TargetKind,
  postgresql, supabase_application, supabase_full, unbudgeted, Demand, demand_of, demand, Snapshot,
  is_fresh, is_consistent, fits, evaluate_workload_capacity,
}

-- The reviewed budget and the containers of one target, and the sums over a selection.
abbrev pub memory_of : TargetMemory → TargetKind → ℕ
memory_of m postgresql = value m.postgresql
memory_of m supabase_application = value m.supabase_application
memory_of m supabase_full = value m.supabase_full
memory_of m unbudgeted = 0

abbrev pub containers_of : TargetKind → ℕ
containers_of postgresql = 1
containers_of supabase_application = 6
containers_of supabase_full = 13
containers_of unbudgeted = 0

abbrev pub sum_of : (TargetKind → ℕ) → List TargetKind → ℕ
sum_of f [] = 0
sum_of f (t ∷ ts) = f t + sum_of f ts

abbrev pub AllBudgeted : List TargetKind → Type 0
AllBudgeted [] = Unit
AllBudgeted (t ∷ ts) = (¬ (t ≡ unbudgeted)) × AllBudgeted ts

demand_of_sound :
    (m : TargetMemory) (t : TargetKind) (d : Demand)
    → demand_of m t ≡ ok d
    → (d.memory ≡ memory_of m t) × (d.containers ≡ containers_of t) × (¬ (t ≡ unbudgeted))
unfolding demand_of
demand_of_sound m postgresql d h = (ground arith, ground arith, λ e. cc)
demand_of_sound m supabase_application d h = (ground arith, ground arith, λ e. cc)
demand_of_sound m supabase_full d h = (ground arith, ground arith, λ e. cc)
demand_of_sound m unbudgeted d h = cc

demand_sound :
    (m : TargetMemory) (ts : List TargetKind) (d : Demand)
    → demand m ts ≡ ok d
    → (d.memory ≡ sum_of (memory_of m) ts)
      × (d.containers ≡ sum_of containers_of ts)
      × AllBudgeted ts
unfolding demand
demand_sound m [] d h = (ground arith, ground arith, tt)
demand_sound m (t ∷ ts) d h =
    let (one, eo, h1) = >>=-eq-ok (demand_of m t) _ h in
    let (rest, er, h2) = >>=-eq-ok (demand m ts) _ h1 in
    let (a, b, c) = demand_sound m ts rest er in
    let (x, y, z) = demand_of_sound m t one eo in (ground arith, ground arith, (z, c))

demand_total :
    (m : TargetMemory) (ts : List TargetKind)
    → AllBudgeted ts
    → demand m ts
      ≡ ok (record { memory = sum_of (memory_of m) ts; containers = sum_of containers_of ts })
unfolding demand
demand_total m [] h = refl
demand_total m (postgresql ∷ ts) (b, h) = rw (demand_total m ts h)
demand_total m (supabase_application ∷ ts) (b, h) = rw (demand_total m ts h)
demand_total m (supabase_full ∷ ts) (b, h) = rw (demand_total m ts h)
demand_total m (unbudgeted ∷ ts) (b, h) = absurd (b refl)

-- What is promised of an admitted selection.
pub record IsAdmitted (now : ℕ) (p : Policy) (ts : List TargetKind) (s : Snapshot) (d : Demand)
    : Type 0 where
  pub budgets : TargetMemory
  pub reviewed : p.target_memory_bytes ≡ some budgets
  pub enabled : p.enabled ≡ true
  pub budgeted : AllBudgeted ts
  pub memory : d.memory ≡ sum_of (memory_of budgets) ts
  pub containers : d.containers ≡ sum_of containers_of ts
  pub host : value p.host_reserve_bytes + d.memory ≤ value s.host_available
  pub engine : value p.engine_reserve_bytes + d.memory ≤ value s.engine_available
  pub engine_total : value s.engine_available ≤ value s.total_bytes
  pub running : value s.running_containers + d.containers ≤ value p.maximum_running_containers
  pub bounded : value p.maximum_running_containers ≤ 1024
  pub reserves : (0 < value p.host_reserve_bytes) × (0 < value p.engine_reserve_bytes)
  pub fresh : (at : ℕ) × (s.measured_at ≡ some at) × (at ≤ now + 1000) × (now ≤ at + 30000)

fits_sound :
    (p : Policy) (s : Snapshot) (d : Demand)
    → fits p s d ≡ ok tt
    → (value p.host_reserve_bytes + d.memory ≤ value s.host_available)
      × (value p.engine_reserve_bytes + d.memory ≤ value s.engine_available)
      × (value s.running_containers + d.containers ≤ value p.maximum_running_containers)
unfolding fits
fits_sound p s d h = ground arith

active_policy_sound :
    (p : Policy) (m : TargetMemory)
    → active_policy p ≡ ok m
    → (p.target_memory_bytes ≡ some m)
      × (p.enabled ≡ true)
      × (value p.maximum_running_containers ≤ 1024)
      × (0 < value p.host_reserve_bytes)
      × (0 < value p.engine_reserve_bytes)
unfolding active_policy
active_policy_sound p m h = ground arith

is_fresh_sound :
    (now : ℕ) (s : Snapshot)
    → is_fresh now s ≡ true
    → (at : ℕ) × (s.measured_at ≡ some at) × (at ≤ now + 1000) × (now ≤ at + 30000)
unfolding is_fresh
is_fresh_sound now s h = by_time s.measured_at refl
  where
    by_time :
        (o : Option ℕ)
        → s.measured_at ≡ o
        → (at : ℕ) × (s.measured_at ≡ some at) × (at ≤ now + 1000) × (now ≤ at + 30000)
    by_time none e = ground arith
    by_time (some at) e = (at, e, ground arith, ground arith)

is_consistent_sound :
    (n : ℕ) (s : Snapshot)
    → is_consistent n s ≡ true
    → value s.engine_available ≤ value s.total_bytes
unfolding is_consistent
is_consistent_sound n s h = ground arith

-- An admitted selection is one whose targets all have a reviewed budget, whose demand is the sum
-- of these budgets, and whose demand together with the positive reserves fits the fresh measured
-- headroom of the host and of the engine and the container limit.
pub evaluate_workload_capacity_sound :
    (now : ℕ) (p : Policy) (ts : List TargetKind) (s : Snapshot) (d : Demand)
    → evaluate_workload_capacity now p ts s ≡ ok d
    → IsAdmitted now p ts s d
unfolding evaluate_workload_capacity
evaluate_workload_capacity_sound now p ts s d h =
    let (m, em, h1) = >>=-eq-ok (active_policy p) _ h in
    let (_, h2) =
      >>-eq-ok (guard (ltb 0 (length ts) && leb (length ts) 32) demand_unbounded) _ h1 in
    let (found, ed, h3) = >>=-eq-ok (demand m ts) _ h2 in
    let (ef, h4) = >>-eq-ok (guard (is_fresh now s) not_fresh) _ h3 in
    let (ec, h5) = >>-eq-ok (guard (is_consistent found.memory s) inconsistent) _ h4 in
    let (et, h6) = >>-eq-ok (fits p s found) _ h5 in
    let same : found ≡ d = cc in
    let (reviewed, enabled, bounded, hr, er) = active_policy_sound p m em in
    let (memory, containers, budgeted) = demand_sound m ts found ed in
    let (host, engine, running) = fits_sound p s found et in
    rw (← same) (record {
      budgets = m;
      reviewed = reviewed;
      enabled = enabled;
      budgeted = budgeted;
      memory = memory;
      containers = containers;
      host = host;
      engine = engine;
      engine_total = is_consistent_sound found.memory s (guard-eq-ok _ _ ec);
      running = running;
      bounded = bounded;
      reserves = (hr, er);
      fresh = is_fresh_sound now s (guard-eq-ok _ _ ef);
    })

fewer_length :
    (n : ℕ)
    → guard (ltb 0 (suc (suc n)) && leb (suc (suc n)) 32) demand_unbounded ≡ ok tt
    → (ltb 0 (suc n) && leb (suc n) 32) ≡ true
fewer_length n e = ground arith

fewer_consistent :
    (a b : ℕ) (s : Snapshot) → b ≤ a → is_consistent a s ≡ true → is_consistent b s ≡ true
unfolding is_consistent
fewer_consistent a b s l e = ground arith

fewer_fits :
    (p : Policy) (s : Snapshot) (a b : Demand)
    → b.memory ≤ a.memory
    → b.containers ≤ a.containers
    → fits p s a ≡ ok tt
    → fits p s b ≡ ok tt
unfolding fits
fewer_fits p s a b l k e = ground arith

-- Dropping the first target of an admitted selection, while one is left, keeps it admitted, with
-- no larger demand.
pub evaluate_workload_capacity_fewer :
    (now : ℕ) (p : Policy) (t u : TargetKind) (ts : List TargetKind) (s : Snapshot) (d : Demand)
    → evaluate_workload_capacity now p (t ∷ u ∷ ts) s ≡ ok d
    → (e : Demand) × (evaluate_workload_capacity now p (u ∷ ts) s ≡ ok e)
      × (e.memory ≤ d.memory)
      × (e.containers ≤ d.containers)
unfolding evaluate_workload_capacity
evaluate_workload_capacity_fewer now p t u ts s d h =
    let (m, em, h1) = >>=-eq-ok (active_policy p) _ h in
    let (el, h2) =
      >>-eq-ok
        (guard (ltb 0 (length (t ∷ u ∷ ts)) && leb (length (t ∷ u ∷ ts)) 32) demand_unbounded) _
        h1 in
    let (found, ed, h3) = >>=-eq-ok (demand m (t ∷ u ∷ ts)) _ h2 in
    let (ef, h4) = >>-eq-ok (guard (is_fresh now s) not_fresh) _ h3 in
    let (ec, h5) = >>-eq-ok (guard (is_consistent found.memory s) inconsistent) _ h4 in
    let (et, h6) = >>-eq-ok (fits p s found) _ h5 in
    let same : found ≡ d = cc in
    let (memory, containers, budgeted) = demand_sound m (t ∷ u ∷ ts) found ed in
    let rest : Demand = record {
      memory = sum_of (memory_of m) (u ∷ ts);
      containers = sum_of containers_of (u ∷ ts);
    } in
    let less : rest.memory ≤ found.memory = omega arith in
    let fewer : rest.containers ≤ found.containers = omega arith in
    let consistent = guard-eq-ok (is_consistent found.memory s) inconsistent ec in
    (
      rest,
      rw (
        em,
        fewer_length (length ts) el,
        demand_total m (u ∷ ts) budgeted.1,
        guard-eq-ok (is_fresh now s) not_fresh ef,
        fewer_consistent found.memory rest.memory s less consistent,
        fewer_fits p s found rest less fewer et,
      ),
      rw (← same) less,
      rw (← same) fewer,
    )
