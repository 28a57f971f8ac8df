-- ===== src/Tabs/GroupHeader/Flipped.antt =====
-- Toggles of a window's groups, and what `EqualExceptClickedFlipped` accepts.
use roamux.Base.{
  ℕ, suc, ◌≡◌, refl, ap, inl, inr, Bool, true, false, not, ◌||◌, Option, none, some, [], ◌∷◌, arith,
  ◌==◌, if◌then◌else◌, ==_iff, Option-cases, has_value, length,
}
use roamux.Tabs.GroupHeader.{
  GroupState, Snapshot, find_group, all_as_expected, equal_except_clicked_flipped,
}

unfoldable pub has_group : Snapshot → ℕ → Bool
has_group [] id = false
has_group (g ∷ gs) id = g.id == id || has_group gs id

-- The ids of a window's groups are distinct.
abbrev pub DistinctIds : Snapshot → Type 0
DistinctIds [] = Unit
DistinctIds (g ∷ gs) = (has_group gs g.id ≡ false) × DistinctIds gs

-- A toggle of one group by the strip's controller.
unfoldable pub flip_group : ℕ → Snapshot → Snapshot
flip_group id [] = []
flip_group id (g ∷ gs) =
    (if g.id == id then record g { collapsed = not g.collapsed } else g) ∷ flip_group id gs

pub has_group-flip : (id j : ℕ) (gs : Snapshot) → has_group (flip_group id gs) j ≡ has_group gs j
unfolding has_group flip_group
has_group-flip id j [] = refl
has_group-flip id j (g ∷ gs) = ground (arith, has_group-flip id j gs)

pub flip_group-DistinctIds :
    (id : ℕ) (gs : Snapshot) → DistinctIds gs → DistinctIds (flip_group id gs)
unfolding flip_group
flip_group-DistinctIds id [] d = tt
flip_group-DistinctIds id (g ∷ gs) d =
    ground (arith, has_group-flip id g.id gs, flip_group-DistinctIds id gs d.1)

pub length-flip : (id : ℕ) (gs : Snapshot) → length (flip_group id gs) ≡ length gs
unfolding flip_group
length-flip id [] = refl
length-flip id (g ∷ gs) = ap suc (length-flip id gs)

-- The collapsed state of the group with an id.
abbrev pub state_of : Option GroupState → Option Bool
state_of none = none
state_of (some g) = some g.collapsed

-- What a click on `clicked` makes of the state of the group with an id.
abbrev pub flipped_at : ℕ → ℕ → Option Bool → Option Bool
flipped_at clicked id none = none
flipped_at clicked id (some b) = some (if id == clicked then not b else b)

drop_group : Snapshot → ℕ → Snapshot
drop_group [] id = []
drop_group (g ∷ gs) id = if g.id == id then gs else g ∷ drop_group gs id

length-drop_group :
    (gs : Snapshot) (id : ℕ) (g : GroupState)
    → find_group gs id ≡ some g
    → suc (length (drop_group gs id)) ≡ length gs
unfolding find_group drop_group
length-drop_group [] id g h = cc
length-drop_group (x ∷ gs) id g h = ground (arith, length-drop_group gs id g)

find_group-drop_group :
    (gs : Snapshot) (id j : ℕ)
    → (j == id) ≡ false
    → find_group (drop_group gs id) j ≡ find_group gs j
unfolding find_group drop_group
find_group-drop_group [] id j h = refl
find_group-drop_group (x ∷ gs) id j h = ground (arith, find_group-drop_group gs id j h)

abbrev AllFound : Snapshot → Snapshot → Type 0
AllFound [] now = Unit
AllFound (b ∷ bs) now = (has_value (find_group now b.id) ≡ true) × AllFound bs now

AllFound-drop_group :
    (bs now : Snapshot) (id : ℕ)
    → has_group bs id ≡ false
    → AllFound bs now
    → AllFound bs (drop_group now id)
unfolding has_group
AllFound-drop_group [] now id h a = tt
AllFound-drop_group (b ∷ bs) now id h a =
    ground (arith, find_group-drop_group now id b.id, AllFound-drop_group bs now id)

-- Equally many groups, every old one still there: then no new one is there.
no_new_group :
    (bs now : Snapshot) (id : ℕ)
    → DistinctIds bs
    → length bs ≡ length now
    → AllFound bs now
    → find_group bs id ≡ none
    → find_group now id ≡ none
unfolding find_group
no_new_group [] [] id d l a h = refl
no_new_group [] (n ∷ now) id d l a h = absurd (omega arith)
no_new_group (b ∷ bs) now id d l a h = elim (Option-cases (find_group now b.id)) [
  | inl e ↦ absurd (ground arith)
  | inr (g, e) ↦
      let shorter = length-drop_group now b.id g e in
      let rest = AllFound-drop_group bs now b.id d.0 a.1 in
      let ih = no_new_group bs (drop_group now b.id) id d.1 (omega arith) rest (ground arith) in
      ground (arith, find_group-drop_group now b.id id)
]

all_as_expected-AllFound :
    (bs now : Snapshot) (clicked : ℕ) → all_as_expected bs now clicked ≡ true → AllFound bs now
unfolding all_as_expected
all_as_expected-AllFound [] now clicked h = tt
all_as_expected-AllFound (b ∷ bs) now clicked h =
    ground (arith, all_as_expected-AllFound bs now clicked)

all_as_expected-state :
    (bs now : Snapshot) (clicked id : ℕ) (b : GroupState)
    → all_as_expected bs now clicked ≡ true
    → find_group bs id ≡ some b
    → state_of (find_group now id) ≡ flipped_at clicked id (some b.collapsed)
unfolding all_as_expected find_group
all_as_expected-state [] now clicked id b h e = cc
all_as_expected-state (x ∷ bs) now clicked id b h e =
    ground (arith, all_as_expected-state bs now clicked id b, ==_iff x.id id)

-- If the recorded ids are distinct and the test accepts a window, that window has exactly the
-- recorded groups, each as collapsed as it was, but for the clicked one, which is flipped.
equal_except_clicked_flipped_sound :
    (before now : Snapshot) (clicked id : ℕ)
    → DistinctIds before
    → equal_except_clicked_flipped before now clicked ≡ true
    → state_of (find_group now id) ≡ flipped_at clicked id (state_of (find_group before id))
unfolding equal_except_clicked_flipped
equal_except_clicked_flipped_sound before now clicked id d h =
    elim (Option-cases (find_group before id)) [
      | inl e ↦
          let all = all_as_expected-AllFound before now clicked (ground arith) in
          ground (arith, no_new_group before now id d (ground arith) all e)
      | inr (b, e) ↦ ground (arith, all_as_expected-state before now clicked id b)
    ]

all_as_expected-cons :
    (bs now : Snapshot) (n : GroupState) (clicked : ℕ)
    → has_group bs n.id ≡ false
    → all_as_expected bs (n ∷ now) clicked ≡ all_as_expected bs now clicked
unfolding all_as_expected has_group find_group
all_as_expected-cons [] now n clicked h = refl
all_as_expected-cons (b ∷ bs) now n clicked h =
    ground (arith, all_as_expected-cons bs now n clicked)

all_as_expected-flip :
    (bs : Snapshot) (clicked : ℕ)
    → DistinctIds bs
    → all_as_expected bs (flip_group clicked bs) clicked ≡ true
unfolding all_as_expected find_group flip_group
all_as_expected-flip [] clicked d = refl
all_as_expected-flip (b ∷ bs) clicked d = ground (
  arith,
  all_as_expected-cons bs (flip_group clicked bs) b clicked,
  all_as_expected-cons bs (flip_group clicked bs) (record b { collapsed = not b.collapsed })
      clicked,
  all_as_expected-flip bs clicked,
)

-- A window whose ids are distinct is accepted after the toggle of the clicked group, and nothing
-- else, has happened to it.
pub equal_except_clicked_flipped-flip :
    (before : Snapshot) (clicked : ℕ)
    → DistinctIds before
    → equal_except_clicked_flipped before (flip_group clicked before) clicked ≡ true
unfolding equal_except_clicked_flipped
equal_except_clicked_flipped-flip before clicked d =
    ground (arith, length-flip clicked before, all_as_expected-flip before clicked d)
