-- ===== src/Tabs/SettleGate/Phases.antt =====
-- The rule that the gate's header states, as phases of an attempt, and the gate's refinement of it.
use roamux.Base.{ℕ, ◌<◌, ◌≡◌, Bool, true, false, arith, ◌==◌, if◌then◌else◌}
use roamux.Tabs.SettleGate.{
  NavigationSettleGate, new_gate, Call, begins, issued, starts, stops, discards, resets, step,
}

-- An attempt: none, inside the load call with the last start seen there, issued and not started,
-- or started.
pub data Phase : Type 0 where
  nothing : Phase
  loading : ℕ → Phase
  pending : ℕ → Phase
  running : ℕ → Phase

-- What the rule says of each call; the flag says whether the stop settles the attempt.
unfoldable pub rule : Phase → Call → Phase × Bool
rule p begins = (loading 0, false)
rule (loading b) (issued id) =
    (if id == 0 then nothing else if b == id then running id else pending id, false)
rule p (issued id) = (p, false)
rule (loading b) (starts id) = (loading id, false)
rule (pending n) (starts id) = (if id == n then running n else pending n, false)
rule p (starts id) = (p, false)
rule (running n) stops = (nothing, true)
rule p stops = (p, false)
rule (pending n) discards = (nothing, false)
rule p discards = (p, false)
rule p resets = (nothing, false)

-- `issued` only ends a load call.
abbrev pub allowed : NavigationSettleGate → Call → Bool
allowed g (issued id) = g.in_load_call
allowed g _ = true

unfoldable pub phase : NavigationSettleGate → Phase
phase g =
    if g.in_load_call
    then loading g.buffered_start_id
    else if g.navigation_id == 0
    then nothing
    else if g.started
    then running g.navigation_id
    else pending g.navigation_id

pub record Inv (g : NavigationSettleGate) : Type 0 where
  pub call_is_fresh : g.in_load_call ≡ true → (g.navigation_id ≡ 0) × (g.started ≡ false)
  pub started_has_id : g.started ≡ true → 0 < g.navigation_id

pub new_gate-Inv : Inv new_gate
unfolding new_gate
new_gate-Inv = ground arith

pub step-Inv : (g : NavigationSettleGate) (c : Call) → allowed g c ≡ true → Inv g → Inv (step g c).0
unfolding step
step-Inv g begins a v = ground arith
step-Inv g _ a v = ground arith

-- The gate refines the rule: under every call that a load can make, its phase and its answer are
-- those of the rule.
pub step-rule :
    (g : NavigationSettleGate) (c : Call)
    → allowed g c ≡ true
    → Inv g
    → (phase (step g c).0 ≡ (rule (phase g) c).0) × ((step g c).1 ≡ (rule (phase g) c).1)
unfolding step phase rule
step-rule g begins a v = ground arith
step-rule g (issued id) a v = ground arith
step-rule g (starts id) a v = ground arith
step-rule g _ a v = ground arith
