-- ===== src/Tabs/InitialUrl.antt =====
-- The initial url of a tab (roamux/browser/tabs/tab_initial_url_helper.{h,cc}). GURL is the parameter
-- `UrlLibrary`. A tab's helper is optional, as its contents may have none; what is written to the
-- session is the list of texts that a call returns, and whether there is a session to write to an
-- argument.
pub mod ExtraData
pub mod Starts
pub mod Capture
pub mod Locked
pub mod Session
mod Examples
use Prim.Native.Char.{Char, code}
use roamux.Base.{
  ℕ, String, Bool, true, false, not, ◌&&◌, ◌||◌, Option, none, some, List, [], ◌∷◌, ltb, ◌==◌,
  if◌then◌else◌, str_eq, is_empty,
}

pub record UrlLibrary : Type 1 where
  pub Url : Type 0
  pub parse : String → Url
  pub spec : Url → String
  pub is_valid : Url → Bool
  pub url_is_empty : Url → Bool
  pub is_about_blank : Url → Bool
  pub scheme_is : Url → String → Bool

module _ (lib : UrlLibrary) where
  open lib use {Url, parse, spec, is_valid, url_is_empty, is_about_blank, scheme_is}

  pub record TabInitialUrlHelper : Type 0 where
    pub initial_url : Url
    pub captured : Bool
    pub user_locked : Bool
    pub pending_session_write : Bool

  -- What the helper reads of a navigation, and of the entries of its tab.
  pub record Navigation : Type 0 where
    pub in_primary_main_frame : Bool
    pub has_committed : Bool
    pub is_same_document : Bool
    pub from_back_forward_cache : Bool
    pub is_prerender_activation : Bool
    pub is_client_redirect : Bool
    pub is_renderer_initiated : Bool
    pub entry_count : ℕ
    pub last_entry_is_initial : Bool
    pub url : Url
    pub redirect_chain : List Url

  pub is_ignorable_start : Url → Bool
  is_ignorable_start url =
      url_is_empty url
      || is_about_blank url
      || str_eq (spec url) "chrome://newtab/"
      || str_eq (spec url) "chrome://new-tab-page/"
      || str_eq (spec url) "chrome://new-tab-page-third-party/"

  pub is_allowed_initial_url : Url → Bool
  is_allowed_initial_url url =
      if not (is_valid url)
      then false
      else if scheme_is url "http" || scheme_is url "https"
      then true
      else str_eq (spec url) "about:blank"

  -- A helper as it is created: no url, the empty one of GURL.
  pub new_helper : TabInitialUrlHelper
  new_helper = record {
    initial_url = parse "";
    captured = false;
    user_locked = false;
    pending_session_write = false;
  }

  abbrev pub lock_bit : Bool → Char
  lock_bit true = "1"
  lock_bit false = "0"

  pub encode_extra_data : Url → Bool → String
  encode_extra_data url locked = String.◌∷◌ (lock_bit locked) (spec url)

  -- Of a text of at least two characters: its first, and the rest.
  pub decode_parts : ℕ → Url → Option (Url × Bool)
  unfolding is_allowed_initial_url
  decode_parts first parsed =
      if not (first == b'0') && not (first == b'1')
      then none
      else if not (is_valid parsed)
      then none
      else if not (is_allowed_initial_url parsed)
      then none
      else some (parsed, first == b'1')

  pub decode_extra_data : String → Option (Url × Bool)
  unfolding decode_parts
  decode_extra_data String.[] = none
  decode_extra_data (String.◌∷◌ c rest) =
      if is_empty rest then none else decode_parts (code c) (parse rest)

  -- `PersistToSession`: what is written, if there is a session for the tab.
  pub persist_to_session : Bool → TabInitialUrlHelper → List String
  unfolding encode_extra_data
  persist_to_session has_session h =
      if has_session then encode_extra_data h.initial_url h.user_locked ∷ [] else []

  pub set_user_initial_url :
      Bool → TabInitialUrlHelper → Url → (TabInitialUrlHelper × Bool) × List String
  unfolding is_allowed_initial_url persist_to_session
  set_user_initial_url has_session h url =
      let h' : TabInitialUrlHelper = record h {
        initial_url = url;
        captured = true;
        user_locked = true;
      } in
      if not (is_allowed_initial_url url)
      then ((h, false), [])
      else ((h', true), persist_to_session has_session h')

  pub set_restored_initial_url : TabInitialUrlHelper → Url → Bool → TabInitialUrlHelper
  set_restored_initial_url h url locked = record {
    initial_url = url;
    captured = true;
    user_locked = locked;
    pending_session_write = true;
  }

  abbrev pub chain_head : Url → List Url → Url
  chain_head committed [] = committed
  chain_head committed (u ∷ us) = u

  -- The gates of `DidFinishNavigation` from the frame to the value, as one test.
  pub is_captured_from : Navigation → Bool
  unfolding is_ignorable_start
  is_captured_from n =
      if not n.in_primary_main_frame || not n.has_committed || n.is_same_document
      then false
      else if n.from_back_forward_cache || n.is_prerender_activation
      then false
      else if n.is_client_redirect
      then false
      else if n.is_renderer_initiated && (ltb 1 n.entry_count || n.last_entry_is_initial)
      then false
      else if is_ignorable_start n.url
      then false
      else not (is_ignorable_start (chain_head n.url n.redirect_chain))

  pub did_finish_navigation :
      Bool → TabInitialUrlHelper → Navigation → TabInitialUrlHelper × List String
  unfolding persist_to_session
  did_finish_navigation has_session h n =
      let written : TabInitialUrlHelper = record h { pending_session_write = false } in
      let taken : TabInitialUrlHelper = record h {
        initial_url = chain_head n.url n.redirect_chain;
        captured = true;
      } in
      if h.captured || h.user_locked
      then if h.pending_session_write && n.in_primary_main_frame && n.has_committed
        then (written, persist_to_session has_session written)
        else (h, [])
      else if not (is_captured_from n)
      then (h, [])
      else (taken, persist_to_session has_session taken)

  -- `MaybeCreateForWebContents`; no helper where the feature is off.
  pub maybe_create : Bool → Option TabInitialUrlHelper → Option TabInitialUrlHelper
  unfolding new_helper
  maybe_create feature (some h) = some h
  maybe_create feature none = if feature then some new_helper else none

  abbrev pub map_helper :
      (TabInitialUrlHelper → TabInitialUrlHelper)
      → Option TabInitialUrlHelper
      → Option TabInitialUrlHelper
  map_helper f none = none
  map_helper f (some h) = some (f h)

  -- The helper of the new contents after a discard of the old.
  pub will_discard_contents :
      Bool → Option TabInitialUrlHelper → Option TabInitialUrlHelper → Option TabInitialUrlHelper
  unfolding maybe_create
  will_discard_contents feature none new = new
  will_discard_contents feature (some old) new =
      map_helper
        (λ h. record h {
          initial_url = old.initial_url;
          captured = old.captured;
          user_locked = old.user_locked;
        })
        (maybe_create feature new)

  -- What is kept for a tab under `kExtraDataKey`.
  pub populate_extra_data : Option TabInitialUrlHelper → Option String
  unfolding encode_extra_data
  populate_extra_data none = none
  populate_extra_data (some h) =
      if h.captured then some (encode_extra_data h.initial_url h.user_locked) else none

  pub restore_decoded :
      Bool → Option TabInitialUrlHelper → Option (Url × Bool) → Option TabInitialUrlHelper
  unfolding maybe_create set_restored_initial_url
  restore_decoded feature tab none = tab
  restore_decoded feature tab (some (url, locked)) =
      map_helper (λ h. set_restored_initial_url h url locked) (maybe_create feature tab)

  pub set_pending_restored_initial_url :
      Bool → Option TabInitialUrlHelper → Option String → Option TabInitialUrlHelper
  unfolding restore_decoded decode_extra_data
  set_pending_restored_initial_url feature tab none = tab
  set_pending_restored_initial_url feature tab (some text) =
      restore_decoded feature tab (decode_extra_data text)

  -- The helper of the clone, and what it writes.
  pub on_tab_duplicated :
      Bool
      → Bool
      → Option TabInitialUrlHelper
      → Option TabInitialUrlHelper
      → Option TabInitialUrlHelper × List String
  unfolding maybe_create persist_to_session
  on_tab_duplicated feature has_session none new = (new, [])
  on_tab_duplicated feature has_session (some source) new =
      if not source.captured then (new, []) else inherit (maybe_create feature new)
    where
      inherit : Option TabInitialUrlHelper → Option TabInitialUrlHelper × List String
      inherit none = (none, [])
      inherit (some h) =
          let h' : TabInitialUrlHelper = record h {
            initial_url = source.initial_url;
            captured = source.captured;
            user_locked = source.user_locked;
          } in
          (some h', persist_to_session has_session h')
