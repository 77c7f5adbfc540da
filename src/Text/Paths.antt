-- ===== src/Text/Paths.antt =====
-- Paths as the standard library compares them on Unix: by their components, where
-- sandbox/core/src/{image,mount}.rs derive an equality of types with paths.
use digdir_agents.Base.{
  codes, if◌then◌else◌, list_eq, Str, same_text, list_is_empty, Bool, ◌||◌, List, [], ◌∷◌, ◌++◌,
}
use digdir_agents.Text.Splits.{split_on}

abbrev dot : Str
dot = codes "."

-- What a path begins with: the root, the current directory, or neither.
abbrev start_of : List Str → List Str
start_of ([] ∷ _ ∷ parts) = codes "/" ∷ []
start_of ((c ∷ cs) ∷ parts) = if same_text (c ∷ cs) dot then dot ∷ [] else []
start_of _ = []

-- The names in a path, the parent directory among them; an empty part and the current directory are none.
abbrev names_of : List Str → List Str
names_of [] = []
names_of (part ∷ parts) =
    if list_is_empty part || same_text part dot then names_of parts else part ∷ names_of parts

-- `Path::components`.
unfoldable pub path_components : Str → List Str
path_components path = let parts = split_on b'/' path in start_of parts ++ names_of parts

-- `PartialEq` of `Path` and of `PathBuf`.
unfoldable pub same_path : Str → Str → Bool
same_path p q = list_eq same_text (path_components p) (path_components q)
