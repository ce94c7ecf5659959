-- ===== src/Config/Files/Groups.antt =====
-- The groups that `Parse` of config.go returns for the files of its patterns.
use chalert.Prelude.{
  some, lookup-All, ℕ, ◌≡◌, ◌≢◌, refl, List, All, none, true, Text, text_Eq, Map, lookup, [], ◌∷◌,
  if◌then◌else◌, subst, arith,
}
use chalert.Config.{Group}
use chalert.Config.Parsing.{Yaml, Parsed, parsed, parse_error, parse}
use chalert.Config.Parsing.Loaded.{IsLoaded, IsParsed, HasDistinctNamesByFile, parse_sound}
use chalert.Config.Parsing.Complete.{HasFile, parse_complete}
use chalert.Config.Files.{
  FileSystem, ReadFiles, files_read, not_read, read_files, Loaded, loaded, unread, unparsed,
  of_parsed, parse_patterns,
}
use chalert.Config.Files.Read.{matches_one, content_of, HasMatches, read_files_lem}

module _ (fs : FileSystem) (patterns : List Text) where
  -- A group of a file that matches one of the patterns and can be read.
  abbrev pub IsOfFile : Group → Type 0
  IsOfFile g =
      IsLoaded g.file g × (matches_one fs g.file patterns ≡ true) × (content_of fs g.file ≢ none)

  IsOfFile-IsParsed :
      (files : Map Text Text) (g : Group)
      → ((path : Text)
          → lookup path files ≡ (if matches_one fs path patterns then content_of fs path else none))
      → IsParsed files g
      → IsOfFile g
  IsOfFile-IsParsed files g h p =
      (p.0, ground (arith, h g.file, p.1), (λ e. absurd (ground (arith, h g.file, p.1, e))))

  All-IsOfFile :
      (files : Map Text Text) (gs : List Group)
      → ((path : Text)
          → lookup path files ≡ (if matches_one fs path patterns then content_of fs path else none))
      → All (IsParsed files) gs
      → All IsOfFile gs
  All-IsOfFile files [] h p = tt
  All-IsOfFile files (g ∷ gs) h p = (IsOfFile-IsParsed files g h p.0, All-IsOfFile files gs h p.1)

  module _ (yaml : Yaml) (fuel : ℕ) (getenv : Text → Text) where
    -- What a result of `Parse` says of its groups.
    pub record AreGroups (gs : List Group) : Type 0 where
      pub of_files : All IsOfFile gs
      pub distinct : HasDistinctNamesByFile gs
      pub matched : HasMatches fs patterns
      pub complete :
          (path content : Text)
          → matches_one fs path patterns ≡ true
          → content_of fs path ≡ some content
          → HasFile yaml fuel getenv path content gs

    abbrev Ensured : Loaded → Type 0
    Ensured (loaded gs) = AreGroups gs
    Ensured (unread e) = Unit
    Ensured (unparsed e) = Unit

    parsed-Ensured :
        (files : Map Text Text) (r : Parsed (List Group))
        → read_files fs patterns ≡ files_read files
        → parse yaml fuel getenv files ≡ r
        → Ensured (of_parsed r)
    parsed-Ensured files (parse_error e) h h' = tt
    parsed-Ensured files (parsed gs) h h' =
        let read = read_files_lem fs patterns files h in
        let sound = parse_sound yaml fuel getenv files gs read.0 h' in
        record {
          of_files = All-IsOfFile files gs read.1 sound.0;
          distinct = sound.1;
          matched = read.2;
          complete = λ path content m c.
              lookup-All (λ p. HasFile yaml fuel getenv p.0 p.1 gs) path content files
                (ground (arith, read.1 path, m, c)) (parse_complete yaml fuel getenv files gs h');
        }

    read-Ensured :
        (r : ReadFiles)
        → read_files fs patterns ≡ r
        → Ensured (parse_patterns fs yaml fuel getenv patterns)
    unfolding parse_patterns
    read-Ensured (not_read e) h = rw (h, parse_patterns) tt
    read-Ensured (files_read files) h =
        rw (h, parse_patterns) (parsed-Ensured files (parse yaml fuel getenv files) h refl)

    -- If the files of the patterns are read and parsed without an error, then every pattern matches
    -- something; every group comes from a file that matches one of the patterns, is no directory and
    -- can be read; it is valid, and its rules have the identities of their contents; and no two groups
    -- of one file have one name. The other way round, every such file is decoded to its end after the
    -- substitution of environment variables, and each group of each of its documents is among the
    -- groups, with its file, its checksum and the identities of its rules.
    pub parse_patterns_lem :
        (gs : List Group) → parse_patterns fs yaml fuel getenv patterns ≡ loaded gs → AreGroups gs
    parse_patterns_lem gs h = subst Ensured h (read-Ensured (read_files fs patterns) refl)
