-- ===== src/Importer/Bookmarks.antt =====
-- The bookmarks that the profile reader collects
-- (roamux/utility/importer/edge_profile_reader.cc). A dictionary of the file is what the reader looks
-- up in it; a list that is missing is the empty one, as the reader treats both alike. GURL and the
-- reading of numbers are the parameter `Values`, and titles keep their encoding.
pub mod Entries
pub mod Read
pub mod Collected
mod Examples
use roamux.Base.{
  ℕ, String, Bool, true, false, not, Option, none, some, List, [], ◌∷◌, ◌++◌, ◌==◌, if◌then◌else◌,
  str_eq, ℤ, pos, negsuc,
}

pub record Values : Type 1 where
  pub Url : Type 0
  pub parse : String → Url
  pub is_valid : Url → Bool
  -- What `StringToInt64` leaves in an output that was zero.
  pub string_to_int64 : String → ℤ

-- The values of `type`, `name`, `url`, `date_added` and `children`, in this order.
mutual
  pub data DictValue : Type 0 where
    dict : Option String → Option String → Option String → Option String → ListValue → DictValue

  pub data ListValue : Type 0 where
    no_values : ListValue
    dict_value : DictValue → ListValue → ListValue
    other_value : ListValue → ListValue

-- Microseconds since the epoch of Windows; `none` is the null time.
unfoldable pub from_chrome_time : ℤ → Option ℕ
from_chrome_time (pos n) = if n == 0 then none else some n
from_chrome_time (negsuc n) = none

abbrev pub is_empty_list : ListValue → Bool
is_empty_list no_values = true
is_empty_list (dict_value d ds) = false
is_empty_list (other_value ds) = false

-- The path of the children of a root: the name of the bar, or none.
abbrev pub seed : Bool → Option String → List String
seed true (some name) = name ∷ []
seed true none = "Bookmarks bar" ∷ []
seed false name = []

-- The dictionary `roots`.
pub record Roots : Type 0 where
  pub bookmark_bar : Option DictValue
  pub other : Option DictValue
  pub synced : Option DictValue

module _ (lib : Values) where
  open lib use {Url, parse, is_valid, string_to_int64}

  -- The url of a folder is the empty one of GURL, `none` here.
  pub record ImportedBookmarkEntry : Type 0 where
    pub in_toolbar : Bool
    pub is_folder : Bool
    pub url : Option Url
    pub path : List String
    pub title : String
    pub creation_time : Option ℕ

  unfoldable pub folder_entry : Bool → List String → String → ImportedBookmarkEntry
  folder_entry in_toolbar path title = record {
    in_toolbar = in_toolbar;
    is_folder = true;
    url = none;
    path = path;
    title = title;
    creation_time = none;
  }

  abbrev pub date_of : Option String → ℤ
  date_of none = pos 0
  date_of (some added) = string_to_int64 added

  unfoldable pub url_entry :
      Bool → List String → String → Url → Option String → ImportedBookmarkEntry
  unfolding from_chrome_time
  url_entry in_toolbar path title url added = record {
    in_toolbar = in_toolbar;
    is_folder = false;
    url = some url;
    path = path;
    title = title;
    creation_time = from_chrome_time (date_of added);
  }

  -- The entry of a link, if it has a url that is valid.
  unfoldable pub add_link :
      Bool
      → List String
      → String
      → Option String
      → Option String
      → List ImportedBookmarkEntry
      → List ImportedBookmarkEntry
  add_link in_toolbar path title none added out = out
  add_link in_toolbar path title (some url) added out =
      if is_valid (parse url)
      then out ++ url_entry in_toolbar path title (parse url) added ∷ []
      else out

  unfoldable mutual
    pub collect_bookmarks :
        Bool → DictValue → List String → List ImportedBookmarkEntry → List ImportedBookmarkEntry
    collect_bookmarks bar (dict none name url added children) path out = out
    collect_bookmarks bar (dict (some type) none url added children) path out = out
    collect_bookmarks bar (dict (some type) (some title) url added children) path out =
        let inside = collect_children bar children (path ++ title ∷ []) out in
        if str_eq type "folder"
        then if is_empty_list children then out ++ folder_entry bar path title ∷ [] else inside
        else if not (str_eq type "url")
        then out
        else add_link bar path title url added out

    -- The loop over the children: values that are no dictionaries are passed over.
    pub collect_children :
        Bool → ListValue → List String → List ImportedBookmarkEntry → List ImportedBookmarkEntry
    collect_children bar no_values path out = out
    collect_children bar (dict_value d ds) path out =
        collect_children bar ds path (collect_bookmarks bar d path out)
    collect_children bar (other_value ds) path out = collect_children bar ds path out

  unfoldable pub collect_root :
      Bool → DictValue → List ImportedBookmarkEntry → List ImportedBookmarkEntry
  collect_root bar (dict type name url added children) out =
      collect_children bar children (seed bar name) out

  unfoldable pub collect_found :
      Bool → Option DictValue → List ImportedBookmarkEntry → List ImportedBookmarkEntry
  collect_found bar none out = out
  collect_found bar (some root) out = collect_root bar root out

  -- From the file as parsed, as far as its roots; nothing of a file that cannot be read or has none.
  unfoldable pub read_bookmarks : Option Roots → List ImportedBookmarkEntry
  read_bookmarks none = []
  read_bookmarks (some roots) =
      collect_found false roots.synced
        (collect_found false roots.other (collect_found true roots.bookmark_bar []))
