-- ===== src/Tabs/InitialUrl/Examples.antt =====
-- The initial url over a small library of urls, which are their texts.
use roamux.Base.{
  String, ◌≡◌, refl, true, false, not, ◌&&◌, none, some, List, [], ◌∷◌, str_eq, is_empty,
}
use roamux.Tabs.InitialUrl.{
  UrlLibrary, TabInitialUrlHelper, Navigation, is_ignorable_start, is_allowed_initial_url,
  is_captured_from, did_finish_navigation, populate_extra_data, set_pending_restored_initial_url,
}
use roamux.Tabs.InitialUrl.ExtraData.{restore-populate}
use roamux.Tabs.InitialUrl.Capture.{finish_all, finish_all-sticky, Captured, finish_all-first}
use roamux.Tabs.InitialUrl.Session.{Input, creates, navigates, user_writes, duplicates}

abbrev small_lib : UrlLibrary
small_lib = record {
  Url = String;
  parse = λ s. s;
  spec = λ url. url;
  is_valid = λ url. not (is_empty url);
  url_is_empty = λ url. is_empty url;
  is_about_blank = λ url. str_eq url "about:blank";
  scheme_is = λ url scheme. str_eq url "https://a.example/" && str_eq scheme "https";
}

abbrev captured_tab : TabInitialUrlHelper small_lib
captured_tab = record {
  initial_url = "https://a.example/";
  captured = true;
  user_locked = true;
  pending_session_write = false;
}

abbrev typed_navigation : Navigation small_lib
typed_navigation = record {
  in_primary_main_frame = true;
  has_committed = true;
  is_same_document = false;
  from_back_forward_cache = false;
  is_prerender_activation = false;
  is_client_redirect = false;
  is_renderer_initiated = false;
  entry_count = 1;
  last_entry_is_initial = false;
  url = "https://b.example/";
  redirect_chain = "https://a.example/" ∷ "https://b.example/" ∷ [];
}

abbrev blank_navigation : Navigation small_lib
blank_navigation = record typed_navigation {
  url = "about:blank";
  redirect_chain = "about:blank" ∷ [];
}

abbrev fresh : TabInitialUrlHelper small_lib
fresh = record captured_tab { initial_url = ""; captured = false; user_locked = false }

allowed_example : is_allowed_initial_url small_lib "https://a.example/" ≡ true
unfolding is_allowed_initial_url
allowed_example = refl

file_not_allowed : is_allowed_initial_url small_lib "file:///etc" ≡ false
unfolding is_allowed_initial_url
file_not_allowed = refl

blank_is_skipped : is_captured_from small_lib blank_navigation ≡ false
unfolding is_captured_from is_ignorable_start
blank_is_skipped = refl

restore-populate_example :
    set_pending_restored_initial_url small_lib true none
      (populate_extra_data small_lib (some captured_tab))
    ≡ some (record captured_tab { pending_session_write = true })
restore-populate_example =
    restore-populate small_lib captured_tab refl allowed_example
      (record { parses = refl; present = refl })

finish_all-sticky_example :
    let after = finish_all small_lib captured_tab ((true, typed_navigation) ∷ []) in
    (after.initial_url ≡ "https://a.example/")
    × (after.captured ≡ true)
    × (after.user_locked ≡ true)
finish_all-sticky_example =
    finish_all-sticky small_lib captured_tab ((true, typed_navigation) ∷ []) refl

head_is_captured :
    (finish_all small_lib fresh
      ((true, blank_navigation) ∷ (true, typed_navigation) ∷ [])).initial_url
    ≡ "https://a.example/"
unfolding finish_all did_finish_navigation is_captured_from is_ignorable_start
head_is_captured = refl

finish_all-first_example :
    Captured small_lib
      ((true, blank_navigation) ∷ (true, typed_navigation) ∷ [])
      (finish_all small_lib fresh ((true, blank_navigation) ∷ (true, typed_navigation) ∷ []))
finish_all-first_example =
    finish_all-first small_lib fresh ((true, blank_navigation) ∷ (true, typed_navigation) ∷ []) refl
      refl

abbrev calls : List (Input small_lib)
calls =
    creates 0 true
    ∷ navigates 0 true blank_navigation
    ∷ user_writes 0 true "https://a.example/"
    ∷ duplicates 0 1 true false
    ∷ []
