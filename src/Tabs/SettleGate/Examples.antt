-- ===== src/Tabs/SettleGate/Examples.antt =====
-- The theorems about the gate at an attempt whose navigation 7 starts inside the load call.
use roamux.Base.{◌≡◌, refl, true, List, [], ◌∷◌, ◌++◌, arith}
use roamux.Tabs.SettleGate.{new_gate, Call, begins, issued, starts, stops, step}
use roamux.Tabs.SettleGate.Phases.{loading, rule, phase, new_gate-Inv, step-rule}
use roamux.Tabs.SettleGate.Counts.{run, only_starts, last_or, has, stop-settles_iff_started}

abbrev refresh : List Call
refresh = begins ∷ starts 7 ∷ issued 7 ∷ stops ∷ stops ∷ []

step-rule_example : phase (step new_gate begins).0 ≡ loading 0
unfolding new_gate phase rule
step-rule_example = (step-rule new_gate begins refl new_gate-Inv).0

stop-settles_iff_started_example :
    (step
      (run (step new_gate begins).0 (only_starts (7 ∷ []) ++ issued 7 ∷ only_starts []))
      stops).1
    ≡ true
unfolding new_gate last_or has
stop-settles_iff_started_example = stop-settles_iff_started new_gate 7 (7 ∷ []) [] (omega arith)
