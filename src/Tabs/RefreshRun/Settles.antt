-- ===== src/Tabs/RefreshRun/Settles.antt =====
-- Which items a run reports settled.
use mathlib.Core.Path.{subst}
use mathlib.Core.List.{Sublistᴰ}
use mathlib.Core.List.Sublistᴰ
use roamux.Base.{
  ℕ, ◌≡◌, refl, sym, ap, Bool, true, false, not, Option, none, some, List, [], ◌∷◌, ◌++◌, arith,
  leb, if◌then◌else◌, if_intro, length,
}
use roamux.Tabs.SettleGate.{on_stop_loading, on_attempt_discarded, reset}
use roamux.Tabs.RefreshRun.{
  RefreshRun, Found, load, load_found, start_item, did_start_navigation, is_alive, did_stop_loading,
  stop_observing, Message, starts_item, navigation_starts, loading_stops, ends, is_observed,
  receive,
}

-- The item whose contents are observed.
abbrev pub owed_to : Option ℕ → ℕ → List ℕ
owed_to none index = []
owed_to (some contents) index = index ∷ []

abbrev pub owed : RefreshRun → List ℕ
owed r = owed_to r.observed r.current_index

abbrev pub cons_if : Option ℕ → List ℕ → List ℕ
cons_if none xs = xs
cons_if (some x) xs = x ∷ xs

-- The index that a message asks to load.
abbrev pub asked : Message → ℕ
asked (starts_item index found) = index
asked (navigation_starts contents primary id) = 0
asked (loading_stops contents still_there) = 0
asked ends = 0

-- The items that are reported, and those whose load began, in order.
unfoldable pub settled : RefreshRun → List Message → List ℕ
settled r [] = []
settled r (m ∷ ms) = cons_if (receive r m).1.1 (settled (receive r m).0 ms)

unfoldable pub begun : RefreshRun → List Message → List ℕ
begun r [] = []
begun r (m ∷ ms) =
    let rest = begun (receive r m).0 ms in if (receive r m).1.0 then asked m ∷ rest else rest

weaken : (os xs ys : List ℕ) → Sublistᴰ xs ys → Sublistᴰ xs (os ++ ys)
weaken [] xs ys w = w
weaken (o ∷ os) xs ys w = Sublistᴰ.cons (weaken os xs ys w)

-- What a call of `StartItem` comes to.
data Started (r : RefreshRun) (index : ℕ) : RefreshRun × Bool → Type 0 where
  refused : Started r index (r, false)
  turned_down : (r' : RefreshRun) → r'.observed ≡ none → Started r index (r', false)
  loads : (r' : RefreshRun) → owed r' ≡ index ∷ [] → Started r index (r', true)

load-Started :
    (r cleared : RefreshRun) (index contents : ℕ) (ids : List ℕ) (handle : Option ℕ)
    → cleared.current_index ≡ index
    → Started r index (load cleared contents ids handle)
load-Started r cleared index contents ids none c =
    turned_down (load cleared contents ids none).0 refl
load-Started r cleared index contents ids (some id) c =
    loads (load cleared contents ids (some id)).0 (ap (λ i. i ∷ []) c)

load_found-Started :
    (r cleared : RefreshRun) (index : ℕ) (found : Found) (contents : Option ℕ)
    → cleared.current_index ≡ index
    → cleared.observed ≡ none
    → Started r index (load_found cleared found contents)
load_found-Started r cleared index found none c o = turned_down cleared o
load_found-Started r cleared index found (some contents) c o =
    let loaded = load cleared contents found.started_inside found.handle in
    let left : RefreshRun × Bool = (cleared, false) in
    if_intro (Started r index) (not found.in_strip) left
      (if found.audible then left else if not found.can_reload then left else loaded)
      (λ e. turned_down cleared o)
      (λ e.
        if_intro (Started r index) found.audible left
          (if not found.can_reload then left else loaded) (λ k. turned_down cleared o)
          (λ k.
            if_intro (Started r index) (not found.can_reload) left loaded
              (λ n. turned_down cleared o)
              (λ n. load-Started r cleared index contents found.started_inside found.handle c)))

start_item-Started :
    (r : RefreshRun) (index : ℕ) (found : Found) → Started r index (start_item r index found)
unfolding start_item
start_item-Started r index found =
    let cleared : RefreshRun = record r {
      current_index = index;
      pending_handle = none;
      settle_gate = reset r.settle_gate;
      observed = none;
    } in
    if_intro (Started r index) (leb (length r.snapshot) index) (r, false)
      (load_found cleared found found.contents) (λ e. refused)
      (λ e. load_found-Started r cleared index found found.contents refl refl)

-- What is reported by a start and what follows it.
after_start :
    (r : RefreshRun) (index : ℕ) (xs : List ℕ) (s : RefreshRun × Bool) (rest : List ℕ)
    → Started r index s
    → Sublistᴰ xs (owed s.0 ++ rest)
    → Sublistᴰ xs (owed r ++ (if s.1 then index ∷ rest else rest))
after_start r index xs _ rest refused w = w
after_start r index xs _ rest (turned_down r' o) w =
    weaken (owed r) xs rest (subst (λ c. Sublistᴰ xs (owed_to c r'.current_index ++ rest)) o w)
after_start r index xs _ rest (loads r' o) w =
    weaken (owed r) xs (index ∷ rest) (subst (λ os. Sublistᴰ xs (os ++ rest)) o w)

did_start_navigation-owed :
    (r : RefreshRun) (primary : Bool) (id : ℕ) → owed (did_start_navigation r primary id) ≡ owed r
unfolding did_start_navigation
did_start_navigation-owed r primary id = ground arith

-- What is reported by a stop and what follows it.
after_stop :
    (r : RefreshRun) (still_there : Bool) (c : ℕ) (xs rest : List ℕ)
    → r.observed ≡ some c
    → Sublistᴰ xs (owed (did_stop_loading r still_there).0 ++ rest)
    → Sublistᴰ (cons_if (did_stop_loading r still_there).1 xs) (owed r ++ rest)
unfolding did_stop_loading
after_stop r still_there c xs rest o =
    let gate =
      if not (is_alive r.pending_handle still_there)
      then on_attempt_discarded r.settle_gate
      else r.settle_gate in
    let stopped = on_stop_loading gate in
    let waits : RefreshRun × Option ℕ = (record r { settle_gate = stopped.0 }, none) in
    let reports : RefreshRun × Option ℕ = (
      record r { settle_gate = stopped.0; pending_handle = none; observed = none },
      some r.current_index,
    ) in
    if_intro
      (λ (s : RefreshRun × Option ℕ).
        Sublistᴰ xs (owed s.0 ++ rest) → Sublistᴰ (cons_if s.1 xs) (owed r ++ rest))
      (not stopped.1) waits reports (λ e w. w)
      (λ e w.
        subst (λ b. Sublistᴰ (r.current_index ∷ xs) (owed_to b r.current_index ++ rest)) (sym o)
          (Sublistᴰ.cons-cons refl w))

observed-some :
    (o : Option ℕ) (contents : ℕ) → is_observed o contents ≡ true → (c : ℕ) × (o ≡ some c)
observed-some none contents h = absurd (ground (arith, h))
observed-some (some c) contents h = (c, refl)

-- What a message adds to the report and what it leaves to be reported, before the rest.
abbrev Extends : RefreshRun → ℕ → List ℕ → List ℕ → RefreshRun × (Bool × Option ℕ) → Type 0
Extends r index xs rest s =
    Sublistᴰ xs (owed s.0 ++ rest)
    → Sublistᴰ (cons_if s.1.1 xs) (owed r ++ (if s.1.0 then index ∷ rest else rest))

receive-Extends :
    (r : RefreshRun) (m : Message) (xs rest : List ℕ) → Extends r (asked m) xs rest (receive r m)
unfolding receive stop_observing
receive-Extends r (starts_item index found) xs rest =
    after_start r index xs (start_item r index found) rest (start_item-Started r index found)
receive-Extends r (navigation_starts contents primary id) xs rest =
    if_intro (Extends r 0 xs rest) (is_observed r.observed contents)
      (did_start_navigation r primary id, (false, none)) (r, (false, none))
      (λ e w. subst (λ os. Sublistᴰ xs (os ++ rest)) (did_start_navigation-owed r primary id) w)
      (λ e w. w)
receive-Extends r (loading_stops contents still_there) xs rest =
    let stopped = did_stop_loading r still_there in
    if_intro (Extends r 0 xs rest) (is_observed r.observed contents) (stopped.0, (false, stopped.1))
      (r, (false, none))
      (λ e. let o = observed-some r.observed contents e in after_stop r still_there o.0 xs rest o.1)
      (λ e w. w)
receive-Extends r ends xs rest = λ w. weaken (owed r) xs rest w

-- Whatever messages a run receives, the items that it reports settled are, in order, some of those
-- whose load began, each load at most once, after the one under way.
pub settled-sublist :
    (r : RefreshRun) (ms : List Message) → Sublistᴰ (settled r ms) (owed r ++ begun r ms)
unfolding settled begun
settled-sublist r [] = Sublistᴰ.nil-sublist (owed r ++ [])
settled-sublist r (m ∷ ms) =
    receive-Extends r m (settled (receive r m).0 ms) (begun (receive r m).0 ms)
      (settled-sublist (receive r m).0 ms)
