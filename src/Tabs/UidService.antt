-- ===== src/Tabs/UidService.antt =====
-- The durable uids of tabs (roamux/browser/tabs/tab_uid_service.{h,cc}): two maps, from the ids of
-- tabs to uids and back. The random uid that base::Uuid generates and its test of a uid's form are
-- arguments.
pub mod Bijection
pub mod Runs
mod Examples
use roamux.Base.{
  ℕ, String, Bool, not, ◌||◌, Option, none, some, List, [], ◌∷◌, ◌==◌, if◌then◌else◌, has_value,
  str_eq, lookup, erase,
}

pub record TabUidService : Type 0 where
  pub uid_by_tab : List (ℕ × String)
  pub tab_by_uid : List (String × ℕ)

pub new_service : TabUidService
new_service = record { uid_by_tab = []; tab_by_uid = [] }

pub get_uid_for_tab : TabUidService → ℕ → Option String
get_uid_for_tab s tab = lookup ◌==◌ tab s.uid_by_tab

pub tab_of_uid : TabUidService → String → Option ℕ
tab_of_uid s uid = lookup str_eq uid s.tab_by_uid

pub is_live : TabUidService → String → Bool
unfolding tab_of_uid
is_live s uid = has_value (tab_of_uid s uid)

pub unregister : TabUidService → ℕ → TabUidService
unregister s tab = found (get_uid_for_tab s tab)
  where
    found : Option String → TabUidService
    found none = s
    found (some uid) = record {
      uid_by_tab = erase ◌==◌ tab s.uid_by_tab;
      tab_by_uid = erase str_eq uid s.tab_by_uid;
    }

-- `uid_by_tab_[tab] = uid; tab_by_uid_[uid] = tab;`.
pub bind : TabUidService → ℕ → String → TabUidService
bind s tab uid = record {
  uid_by_tab = (tab, uid) ∷ erase ◌==◌ tab s.uid_by_tab;
  tab_by_uid = (uid, tab) ∷ erase str_eq uid s.tab_by_uid;
}

pub mint_and_register : TabUidService → String → ℕ → TabUidService × String
unfolding unregister bind
mint_and_register s generated tab = (bind (unregister s tab) tab generated, generated)

pub adopt_or_restamp :
    (String → Bool) → TabUidService → String → ℕ → String → TabUidService × String
unfolding mint_and_register
adopt_or_restamp well_formed s generated tab restored =
    if not (well_formed restored) || is_live s restored
    then mint_and_register s generated tab
    else (bind (unregister s tab) tab restored, restored)
