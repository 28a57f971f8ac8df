-- ===== src/Tabs/SettleGate/Counts.antt =====
-- Whole sequences of calls: how often a refresh can settle, and that it does.
use roamux.Base.{
  ℕ, ◌+◌, ◌≤◌, ◌<◌, ◌≡◌, refl, Bool, true, false, not, ◌||◌, List, [], ◌∷◌, ◌++◌, arith, ◌==◌,
  if◌then◌else◌,
}
use roamux.Tabs.SettleGate.{
  NavigationSettleGate, new_gate, Call, begins, issued, starts, stops, step,
}
use roamux.Tabs.SettleGate.Phases.{allowed, Inv, new_gate-Inv, step-Inv}

unfoldable pub run : NavigationSettleGate → List Call → NavigationSettleGate
run g [] = g
run g (c ∷ cs) = run (step g c).0 cs

-- How many stops settle an attempt.
unfoldable pub settles : NavigationSettleGate → List Call → ℕ
settles g [] = 0
settles g (c ∷ cs) = (if (step g c).1 then 1 else 0) + settles (step g c).0 cs

abbrev pub is_begin : Call → Bool
is_begin begins = true
is_begin _ = false

unfoldable pub attempts : List Call → ℕ
attempts [] = 0
attempts (c ∷ cs) = (if is_begin c then 1 else 0) + attempts cs

-- Every call of the list is allowed where it is made.
abbrev pub AllowedAll : NavigationSettleGate → List Call → Type 0
AllowedAll g [] = Unit
AllowedAll g (c ∷ cs) = (allowed g c ≡ true) × AllowedAll (step g c).0 cs

-- An attempt is open: it may still settle.
abbrev pub credit : NavigationSettleGate → ℕ
credit g = if g.in_load_call || not (g.navigation_id == 0) then 1 else 0

settle_costs :
    (g : NavigationSettleGate) (c : Call)
    → allowed g c ≡ true
    → Inv g
    → (if (step g c).1 then 1 else 0) + credit (step g c).0
      ≤ credit g + (if is_begin c then 1 else 0)
unfolding step
settle_costs g begins a v = ground arith
settle_costs g _ a v = ground arith

settles-le-credit :
    (g : NavigationSettleGate) (cs : List Call)
    → AllowedAll g cs
    → Inv g
    → settles g cs ≤ credit g + attempts cs
unfolding settles attempts
settles-le-credit g [] a v = omega arith
settles-le-credit g (c ∷ cs) a v =
    omega
      (arith, settle_costs g c a.0 v, settles-le-credit (step g c).0 cs a.1 (step-Inv g c a.0 v))

-- No attempt settles twice: over any calls on a new gate, at most as many stops settle as attempts
-- were begun.
settles-le-attempts : (cs : List Call) → AllowedAll new_gate cs → settles new_gate cs ≤ attempts cs
settles-le-attempts cs a =
    unfold new_gate in omega (arith, settles-le-credit new_gate cs a new_gate-Inv)

-- Calls that neither end an attempt nor begin another: starts of other navigations.
unfoldable pub only_starts : List ℕ → List Call
only_starts [] = []
only_starts (n ∷ ns) = starts n ∷ only_starts ns

-- The last of the ids, 0 if there is none.
unfoldable pub last_or : ℕ → List ℕ → ℕ
last_or d [] = d
last_or d (n ∷ ns) = last_or n ns

unfoldable pub has : List ℕ → ℕ → Bool
has [] id = false
has (n ∷ ns) id = n == id || has ns id

run-append : (g : NavigationSettleGate) (cs ds : List Call) → run g (cs ++ ds) ≡ run (run g cs) ds
unfolding run
run-append g [] ds = refl
run-append g (c ∷ cs) ds = run-append (step g c).0 cs ds

run_loading :
    (b : ℕ) (ms : List ℕ)
    → run
        (record { in_load_call = true; buffered_start_id = b; navigation_id = 0; started = false })
        (only_starts ms)
      ≡ record {
        in_load_call = true;
        buffered_start_id = last_or b ms;
        navigation_id = 0;
        started = false;
      }
unfolding run step only_starts last_or
run_loading b [] = refl
run_loading b (m ∷ ms) = run_loading m ms

run_issued :
    (id : ℕ) (s : Bool) (ns : List ℕ)
    → 0 < id
    → run
        (record { in_load_call = false; buffered_start_id = 0; navigation_id = id; started = s })
        (only_starts ns)
      ≡ record {
        in_load_call = false;
        buffered_start_id = 0;
        navigation_id = id;
        started = s || has ns id;
      }
unfolding run step only_starts has
run_issued id s [] h = ground arith
run_issued id s (n ∷ ns) h = ground (arith, run_issued id s ns h, run_issued id true ns h)

-- An attempt settles exactly when its navigation started: the last start inside the load call, or
-- any start after the id came back, carries the id. Starts of other navigations make no difference.
pub stop-settles_iff_started :
    (g : NavigationSettleGate) (id : ℕ) (ms ns : List ℕ)
    → 0 < id
    → (step (run (step g begins).0 (only_starts ms ++ issued id ∷ only_starts ns)) stops).1
      ≡ (last_or 0 ms == id || has ns id)
stop-settles_iff_started g id ms ns h =
    rw (run-append (step g begins).0 (only_starts ms) (issued id ∷ only_starts ns)) (
      unfold run step in
      rw (run_loading 0 ms) (
        ground (
          arith,
          run_issued id (last_or 0 ms == id) ns h,
          run_issued id true ns h,
          run_issued id false ns h,
        )))
