-- ===== src/Config/Files.antt =====
-- `readFiles`, `ReadSnapshot` and `Parse` of config.go over a file system that is a parameter and does
-- not change meanwhile.
pub mod Read
pub mod Groups
mod Tests
use chalert.Prelude.{
  Reply, given, denied, ℕ, Bool, true, false, List, [], ◌∷◌, Text, text_Eq, Map, insert,
}
use chalert.Config.{Group}
use chalert.Config.Parsing.{Yaml, Parsed, parsed, parse_error, ParseError, parse}

-- The paths that match a pattern, whether a path is a directory, and what a file contains.
pub record FileSystem : Type 0 where
  pub glob : Text → Reply (List Text)
  pub is_dir : Text → Reply Bool
  pub read_file : Text → Reply Text

pub data FileError : Type 0 where
  invalid_pattern : Text → Text → FileError
  no_match : Text → FileError
  failed_to_stat : Text → Text → FileError
  failed_to_read : Text → Text → FileError

pub data ReadFiles : Type 0 where
  files_read : Map Text Text → ReadFiles
  not_read : FileError → ReadFiles

module _ (fs : FileSystem) where
  -- The loop over the paths that match a pattern: directories are skipped.
  read_paths : List Text → Map Text Text → ReadFiles
  read_paths [] files = files_read files
  read_paths (path ∷ paths) files = elim (fs.is_dir path) [
    | denied e ↦ not_read (failed_to_stat path e)
    | given d ↦ elim d [
      | true ↦ read_paths paths files
      | false ↦ elim (fs.read_file path) [
        | denied e ↦ not_read (failed_to_read path e)
        | given content ↦ read_paths paths (insert path content files)
      ]
    ]
  ]

  -- The loop over the patterns.
  read_patterns : List Text → Map Text Text → ReadFiles
  unfolding read_paths
  read_patterns [] files = files_read files
  read_patterns (pattern_ ∷ patterns) files = elim (fs.glob pattern_) [
    | denied e ↦ not_read (invalid_pattern pattern_ e)
    | given matches ↦ elim matches [
      | [] ↦ not_read (no_match pattern_)
      | path ∷ paths ↦ elim (read_paths (path ∷ paths) files) [
        | not_read e ↦ not_read e
        | files_read files' ↦ read_patterns patterns files'
      ]
    ]
  ]

  unfoldable pub read_files : List Text → ReadFiles
  unfolding read_patterns
  read_files patterns = read_patterns patterns []

-- What `Parse` returns: the groups, or an error of reading or of parsing.
pub data Loaded : Type 0 where
  loaded : List Group → Loaded
  unread : FileError → Loaded
  unparsed : ParseError → Loaded

abbrev of_parsed : Parsed (List Group) → Loaded
of_parsed (parsed gs) = loaded gs
of_parsed (parse_error e) = unparsed e

-- `Parse`.
pub parse_patterns : FileSystem → Yaml → ℕ → (Text → Text) → List Text → Loaded
unfolding read_files
parse_patterns fs yaml fuel getenv patterns = elim (read_files fs patterns) [
  | not_read e ↦ unread e
  | files_read files ↦ of_parsed (parse yaml fuel getenv files)
]
