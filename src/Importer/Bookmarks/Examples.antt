-- ===== src/Importer/Bookmarks/Examples.antt =====
-- A file with a link in a folder of the bar, and one that is not valid.
use mathlib.Core.List.{Memᴰ}
use roamux.Base.{
  String, ◌≡◌, refl, ◌↔◌, ◌⊎◌, true, false, not, none, some, List, [], ◌∷◌, is_empty, pos,
}
use roamux.Importer.Bookmarks.{
  Values, DictValue, dict, ListValue, no_values, dict_value, other_value, from_chrome_time, Roots,
  ImportedBookmarkEntry, folder_entry, url_entry, add_link, collect_bookmarks, collect_children,
  collect_root, collect_found, read_bookmarks,
}
use roamux.Importer.Bookmarks.Collected.{
  StandsUnder, read_bookmarks-stands_iff, bar_name, read_bookmarks-rooted,
}

abbrev small_values : Values
small_values = record {
  Url = String;
  parse = λ s. s;
  is_valid = λ url. not (is_empty url);
  string_to_int64 = λ s. pos 7;
}

abbrev link_to : String → DictValue
link_to url = dict (some "url") (some "A") (some url) (some "7") no_values

abbrev folder_of : ListValue → DictValue
folder_of children = dict (some "folder") (some "Work") none none children

abbrev bar_file : Roots
bar_file = record {
  bookmark_bar = some (
      dict (some "folder") (some "Bar") none none (
        dict_value
          (folder_of (dict_value (link_to "") (dict_value (link_to "https://a/") no_values)))
          (other_value no_values)));
  other = none;
  synced = some (folder_of (dict_value (folder_of no_values) no_values));
}

abbrev read_link : ImportedBookmarkEntry small_values
read_link = record {
  in_toolbar = true;
  is_folder = false;
  url = some "https://a/";
  path = "Bar" ∷ "Work" ∷ [];
  title = "A";
  creation_time = some 7;
}

read_bookmarks-bar_file :
    read_bookmarks small_values (some bar_file)
    ≡ read_link ∷ folder_entry small_values false [] "Work" ∷ []
unfolding read_bookmarks collect_found collect_root collect_children collect_bookmarks add_link
    url_entry folder_entry from_chrome_time
read_bookmarks-bar_file = refl

link_read : Memᴰ read_link (read_bookmarks small_values (some bar_file))
unfolding read_bookmarks collect_found collect_root collect_children collect_bookmarks add_link
    url_entry folder_entry from_chrome_time
link_read = Memᴰ.head refl

read_bookmarks-stands_iff_example : Memᴰ read_link (read_bookmarks small_values (some bar_file)) ↔ (
    StandsUnder small_values true bar_file.bookmark_bar read_link
    ⊎ (StandsUnder small_values false bar_file.other read_link
        ⊎ StandsUnder small_values false bar_file.synced read_link))
read_bookmarks-stands_iff_example = read_bookmarks-stands_iff small_values bar_file read_link

read_bookmarks-rooted_example :
    (rest : List String) × (read_link.path ≡ bar_name small_values bar_file.bookmark_bar ∷ rest)
read_bookmarks-rooted_example = read_bookmarks-rooted small_values bar_file read_link link_read refl
