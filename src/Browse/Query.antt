-- ===== src/Browse/Query.antt =====
-- What a directory is asked for with: `browseWorkspaceFiles` in frontend/src/features/files/api.ts
-- and `browseFiles` in frontend/src/features/terminal/fileBrowserApi.ts. The parameters of
-- `URLSearchParams` are a list of names and values, before they are encoded.
use terminal_hub.Common.{
  ℕ, Bool, Option, none, some, List, [], ◌∷◌, ◌++◌, Text, codes, ◌==◌, if◌then◌else◌, length, trim,
}

-- `FilesWorkspaceEntry` and `FileBrowserEntry`
pub record Entry : Type 0 where
  pub name : Text
  pub path : Text
  pub is_directory : Bool
  pub size : ℕ
  pub modified_at : Text

-- `BrowseWorkspaceFilesResponse` and `BrowseFilesResponse`
pub record Listing : Type 0 where
  pub root : Text
  pub current : Text
  pub parent : Option Text
  pub entries : List Entry

abbrev pub Query : Type 0
Query = List (Text × Text)

-- `value.trim() === ""`
abbrev pub is_blank_text : Text → Bool
is_blank_text t = length (trim t) == 0

abbrev pub path_query : Option Text → Query
path_query none = []
path_query (some path) = if is_blank_text path then [] else (codes "path", trim path) ∷ []

abbrev pub hidden_query : Bool → Query
hidden_query show_hidden = if show_hidden then (codes "showHidden", codes "true") ∷ [] else []

-- `browseWorkspaceFiles`
unfoldable pub workspace_query : Option Text → Bool → Query
workspace_query path show_hidden = path_query path ++ hidden_query show_hidden

-- `browseFiles`
unfoldable pub session_query : Text → Option Text → Bool → Query
session_query session_id path show_hidden =
    ((codes "sessionId", session_id) ∷ path_query path) ++ hidden_query show_hidden

-- `currentPath.trim() === "" ? undefined : currentPath`
abbrev pub target_path : Text → Option Text
target_path path = if is_blank_text path then none else some path

abbrev pub or_no_text : Option Text → Text
or_no_text none = []
or_no_text (some t) = t
