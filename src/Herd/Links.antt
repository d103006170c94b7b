-- ===== src/Herd/Links.antt =====
-- internal/herd/herd.go: `parseLinks`, the sites that `herd links` lists.
use herd_wake.Prelude.{
  Bool, true, false, ◌||◌, List, [], ◌∷◌, ◌++◌, Option, none, some, ◌==◌, if◌then◌else◌, Bytes,
  codes, equal, is_empty, at_most, split,
}
use herd_wake.Prelude.Space.{trim_space}
use herd_wake.Config.Discovery.{after_prefix}
use herd_wake.Envfile.ChildEnv.{fold_case}
use herd_wake.Herd.{Web, Item, text_item, object_item, other_item, site_from_url}

-- The map `names` as its keys in order: `sortedKeys` of it is itself.
unfoldable pub add_name : Bytes → List Bytes → List Bytes
add_name n [] = n ∷ []
add_name n (m ∷ ms) =
    let rest = add_name n ms in
    if equal n m then m ∷ ms else if at_most n m then n ∷ m ∷ ms else m ∷ rest

unfoldable pub add_names : List Bytes → List Bytes → List Bytes
add_names [] names = names
add_names (n ∷ ns) names = add_names ns (add_name n names)

abbrev pub site_names : Option (Bytes × Bytes) → List Bytes
site_names none = []
site_names (some (host, name)) = name ∷ []

-- the names in the fields of an object
unfoldable pub name_fields : (field : Bytes → Option Bytes) → (keys : List Bytes) → List Bytes
name_fields field [] = []
name_fields field (k ∷ ks) = elim (field k) [
  | none ↦ name_fields field ks
  | some text ↦ let rest = name_fields field ks in if is_empty text then rest else text ∷ rest
]

unfoldable pub url_fields : Web → (field : Bytes → Option Bytes) → (keys : List Bytes) → List Bytes
url_fields w field [] = []
url_fields w field (k ∷ ks) = elim (field k) [
  | none ↦ url_fields w field ks
  | some text ↦ site_names (site_from_url w text) ++ url_fields w field ks
]

unfoldable pub item_names : Web → Item → List Bytes
item_names w (text_item text) = text ∷ []
item_names w (object_item field) =
    name_fields field (codes "site" ∷ codes "Site" ∷ codes "name" ∷ codes "Name" ∷ [])
    ++ url_fields w field (codes "url" ∷ codes "URL" ∷ codes "Url" ∷ [])
item_names w other_item = []

unfoldable pub items_names : Web → List Item → List Bytes
items_names w [] = []
items_names w (i ∷ is) = item_names w i ++ items_names w is

unfoldable pub trimmed_cells : List Bytes → List Bytes
trimmed_cells [] = []
trimmed_cells (c ∷ cs) =
    let rest = trimmed_cells cs in if is_empty (trim_space c) then rest else trim_space c ∷ rest

abbrev pub is_some : Option Bytes → Bool
is_some none = false
is_some (some s) = true

abbrev pub is_url_cell : Bytes → Bool
is_url_cell c =
    is_some (after_prefix (codes "http://") c) || is_some (after_prefix (codes "https://") c)

unfoldable pub url_cells : Web → List Bytes → List Bytes
url_cells w [] = []
url_cells w (c ∷ cs) =
    let rest = url_cells w cs in
    if is_url_cell c then site_names (site_from_url w c) ++ rest else rest

-- `strings.EqualFold(cell, "site")`
abbrev pub is_header : Bytes → Bool
is_header cell = equal (fold_case cell) (codes "SITE")

unfoldable pub row_names : Web → (cells : List Bytes) → List Bytes
row_names w [] = []
row_names w (c ∷ cs) = if is_header c then [] else c ∷ url_cells w cs

unfoldable pub has_bar : Bytes → Bool
has_bar [] = false
has_bar (c ∷ s) = if c == b'|' then true else has_bar s

unfoldable pub table_names : Web → (lines : List Bytes) → List Bytes
table_names w [] = []
table_names w (l ∷ ls) =
    let rest = table_names w ls in
    if has_bar l then row_names w (trimmed_cells (split b'|' l)) ++ rest else rest

abbrev pub items_of : Web → (text : Bytes) → Option (List Item)
items_of w [] = none
items_of w (c ∷ s) = if c == b'[' then w.json_items (c ∷ s) else none

-- `parseLinks`
unfoldable pub parse_links : Web → (output : Bytes) → List Bytes
parse_links w output =
    let text = trim_space output in
    elim (items_of w text) [
      | some items ↦ add_names (items_names w items) []
      | none ↦ add_names (table_names w (split b'\n' text)) []
    ]
