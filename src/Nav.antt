-- ===== src/Nav.antt =====
-- src/blogin/nav.cpp and include/nav.h: the sections of a site as a menu. The folders below the
-- content directory are a parameter: a tree of the directories that are no symbolic links, as
-- `std::filesystem` lists them, sorted by path.
pub mod Find
use blogin.Common.{
  ℕ, Bool, true, false, not, ◌&&◌, ◌||◌, Option, none, some, List, [], ◌∷◌, ◌++◌, ◌==◌, ltb,
  if◌then◌else◌, is_empty, length, Bytes, byte_at, same_bytes, starts_with,
}
use blogin.Value.{ℤ, pos, same_int, less_int}
use blogin.Json.Writer.{less_bytes}
use blogin.Slug.{humanize}
use blogin.Common.Maps.{first_of}

-- The fields of `SectionConfig` that the menu reads.
pub record SectionConfig : Type 0 where
  pub name : Bytes
  pub label : Option Bytes
  pub order : Option ℤ
  pub nav : Option Bool

-- `Config::section`, on `Config::sections`
unfoldable pub section_named : List SectionConfig → Bytes → Option SectionConfig
section_named [] name = none
section_named (entry ∷ sections) name =
    if same_bytes entry.name name then some entry else section_named sections name

pub record Options : Type 0 where
  pub clean_urls : Bool
  pub url_prefix : Bytes

-- `NavNode` without its children.
pub record Section : Type 0 where
  pub name : Bytes
  pub label : Bytes
  pub path : Bytes
  pub url : Bytes
  pub order : ℤ

mutual
  pub data NavNode : Type 0 where
    nav_node : Section → NavNodes → NavNode

  -- `std::vector<NavNode>`
  pub data NavNodes : Type 0 where
    no_nodes : NavNodes
    also : NavNode → NavNodes → NavNodes

abbrev pub section_of : NavNode → Section
section_of (nav_node section children) = section

-- The folders of a directory: the first one, what is in it, and the others.
pub data Folders : Type 0 where
  no_folders : Folders
  folder : Bytes → Folders → Folders → Folders

unfoldable pub join_path : Bytes → Bytes → Bytes
join_path prefix name = if is_empty prefix then name else prefix ++ (b'/' ∷ name)

unfoldable pub url_for : Bytes → Options → Bytes
url_for path options =
    options.url_prefix ++ (b'/' ∷ (path ++ (if options.clean_urls then [] else b'/' ∷ [])))

-- The order of the menu.
unfoldable pub comes_before : Section → Section → Bool
comes_before left right =
    if not (same_int left.order right.order)
    then less_int left.order right.order
    else less_bytes left.name right.name

-- `std::stable_sort`: the first of two equal nodes stays first.
unfoldable pub insert_node : NavNode → NavNodes → NavNodes
insert_node node no_nodes = also node no_nodes
insert_node node (also first nodes) =
    if comes_before (section_of first) (section_of node)
    then also first (insert_node node nodes)
    else also node (also first nodes)

unfoldable pub sort_nodes : NavNodes → NavNodes
sort_nodes no_nodes = no_nodes
sort_nodes (also node nodes) = insert_node node (sort_nodes nodes)

abbrev pub is_hidden : Option SectionConfig → Bool
is_hidden none = false
is_hidden (some section) = elim section.nav [ none ↦ false | some shown ↦ not shown ]

abbrev pub label_of : Option SectionConfig → Bytes → Bytes
label_of none name = humanize name
label_of (some section) name = elim section.label [ none ↦ humanize name | some label ↦ label ]

abbrev pub order_of : Option SectionConfig → ℤ
order_of none = pos 0
order_of (some section) = elim section.order [ none ↦ pos 0 | some order ↦ order ]

module _ (sections : List SectionConfig) (options : Options) where
  -- The loop of `nodes_in` over the children of a directory.
  unfoldable pub collect : Bytes → Folders → NavNodes
  collect prefix no_folders = no_nodes
  collect prefix (folder name inside others) =
      let path = join_path prefix name in
      let section = section_named sections path in
      let children = sort_nodes (collect path inside) in
      let later = collect prefix others in
      let made : Section = record {
        name = name;
        label = label_of section name;
        path = path;
        url = url_for path options;
        order = order_of section;
      } in
      if is_hidden section then later else also (nav_node made children) later

  unfoldable pub nodes_in : Bytes → Folders → NavNodes
  nodes_in prefix folders = sort_nodes (collect prefix folders)

  unfoldable pub build_tree : Folders → NavNodes
  build_tree content = nodes_in [] content

unfoldable mutual
  pub find : NavNodes → Bytes → Option NavNode
  find no_nodes path = none
  find (also node nodes) path = first_of (find_in node path) (find nodes path)

  -- A round of the loop: the node, or one below it.
  pub find_in : NavNode → Bytes → Option NavNode
  find_in (nav_node section children) path =
      let below = find children path in
      if same_bytes section.path path then some (nav_node section children) else below

unfoldable pub is_current : Section → Bytes → Bool
is_current node section =
    same_bytes section node.path
    || (starts_with section node.path
        && (ltb (length node.path) (length section) && byte_at section (length node.path) == b'/'))
