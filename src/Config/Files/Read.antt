-- ===== src/Config/Files/Read.antt =====
-- Which files `readFiles` of config.go reads, and what `Parse` gives of them.
use chalert.Prelude.{
  Reply, given, denied, Reply-cases, ◌≡◌, ◌≢◌, refl, subst, inl, inr, Bool, false, Bool-cases, ◌||◌,
  List, [], ◌∷◌, All, Option, none, some, Text, text_eq, text_eq_iff, text_Eq, Map, lookup, insert,
  lookup-insert, insert-IsDistinct, IsDistinct, arith, if◌then◌else◌,
}
use chalert.Config.Files.{
  FileSystem, ReadFiles, files_read, not_read, read_paths, read_patterns, read_files,
}

abbrev value : {A : Type 0} → Reply A → Option A
value (given a) = some a
value (denied e) = none

abbrev pub contains : Text → List Text → Bool
contains path [] = false
contains path (p ∷ paths) = text_eq p path || contains path paths

abbrev or_else : Option Text → Option Text → Option Text
or_else none o = o
or_else (some c) o = some c

module _ (fs : FileSystem) where
  -- The contents of a regular file.
  abbrev pub content_of : Text → Option Text
  content_of path = elim (fs.is_dir path) [
    | denied e ↦ none
    | given d ↦ if d then none else value (fs.read_file path)
  ]

  abbrev matches : Text → Text → Bool
  matches path pattern_ = elim (fs.glob pattern_) [
    | denied e ↦ false
    | given paths ↦ contains path paths
  ]

  abbrev pub matches_one : Text → List Text → Bool
  matches_one path [] = false
  matches_one path (p ∷ patterns) = matches path p || matches_one path patterns

  -- The files after a loop that meets the paths for which `met` holds.
  record IsFilled (met : Text → Bool) (before after : Map Text Text) : Type 0 where
    distinct : IsDistinct before → IsDistinct after
    filled :
        (path : Text)
        → lookup path after ≡ (
            if met path then or_else (content_of path) (lookup path before) else lookup path before)

  abbrev Fills : (Text → Bool) → Map Text Text → ReadFiles → Type 0
  Fills met before (files_read after) = IsFilled met before after
  Fills met before (not_read e) = Unit

  -- One more path, which is not read.
  skipped :
      (p : Text) (paths : List Text) (files : Map Text Text) (r : ReadFiles)
      → content_of p ≡ none
      → Fills (λ path. contains path paths) files r
      → Fills (λ path. contains path (p ∷ paths)) files r
  skipped p paths files (not_read e) h f = tt
  skipped p paths files (files_read after) h f = record {
    distinct = f.distinct;
    filled = λ path. elim (Bool-cases (text_eq p path)) [
      | inr other ↦ rw other (f.filled path)
      | inl same ↦
          let none_here : content_of path ≡ none =
            subst (λ x. content_of x ≡ none) ((text_eq_iff p path).0 same) h in
          rw (same, none_here) (ground (arith, f.filled path, none_here))
    ];
  }

  -- One more path, which is read.
  taken :
      (p c : Text) (paths : List Text) (files : Map Text Text) (r : ReadFiles)
      → content_of p ≡ some c
      → Fills (λ path. contains path paths) (insert p c files) r
      → Fills (λ path. contains path (p ∷ paths)) files r
  taken p c paths files (not_read e) h f = tt
  taken p c paths files (files_read after) h f = record {
    distinct = λ d. f.distinct (insert-IsDistinct p c files d);
    filled = λ path. elim (Bool-cases (text_eq p path)) [
      | inr other ↦ ground (arith, other, f.filled path, lookup-insert p path c files)
      | inl same ↦
          let here : content_of path ≡ some c =
            subst (λ x. content_of x ≡ some c) ((text_eq_iff p path).0 same) h in
          ground (arith, same, here, f.filled path, lookup-insert p path c files)
    ];
  }

  read_paths-Fills :
      (paths : List Text) (files : Map Text Text)
      → Fills (λ path. contains path paths) files (read_paths fs paths files)
  unfolding read_paths
  read_paths-Fills [] files = record { distinct = λ d. d; filled = λ path. refl }
  read_paths-Fills (p ∷ paths) files = elim (Reply-cases (fs.is_dir p)) [
    | inr (e, h) ↦ rw (h, read_paths) tt
    | inl (d, h) ↦ elim (Bool-cases d) [
      | inl dir ↦
          rw (h, read_paths, dir)
            (skipped p paths files (read_paths fs paths files) (ground (arith, h, dir))
              (read_paths-Fills paths files))
      | inr regular ↦ elim (Reply-cases (fs.read_file p)) [
        | inr (e, h') ↦ rw (h, read_paths, regular, h') tt
        | inl (c, h') ↦
            rw (h, read_paths, regular, h')
              (taken p c paths files (read_paths fs paths (insert p c files))
                (ground (arith, h, regular, h')) (read_paths-Fills paths (insert p c files)))
      ]
    ]
  ]

  -- Every pattern matches something.
  abbrev pub HasMatches : List Text → Type 0
  HasMatches patterns =
      All (λ p. (paths : List Text) × (fs.glob p ≡ given paths) × (paths ≢ [])) patterns

  abbrev FillsAll : List Text → Map Text Text → ReadFiles → Type 0
  FillsAll patterns before (files_read after) =
      IsFilled (λ path. matches_one path patterns) before after × HasMatches patterns
  FillsAll patterns before (not_read e) = Unit

  twice :
      (a b : Bool) (o l m n : Option Text)
      → m ≡ (if a then or_else o l else l)
      → n ≡ (if b then or_else o m else m)
      → n ≡ (if a || b then or_else o l else l)
  twice a b o l m n h h' = ground (arith, h, h')

  -- One more pattern, whose paths have been read.
  joined :
      (p : Text) (path : Text) (paths patterns : List Text) (before middle : Map Text Text)
      (r : ReadFiles)
      → fs.glob p ≡ given (path ∷ paths)
      → IsFilled (λ x. contains x (path ∷ paths)) before middle
      → FillsAll patterns middle r
      → FillsAll (p ∷ patterns) before r
  joined p path paths patterns before middle (not_read e) h f g = tt
  joined p path paths patterns before middle (files_read after) h f g = (
    record {
      distinct = λ d. g.0.distinct (f.distinct d);
      filled = λ x.
          let met : matches x p ≡ contains x (path ∷ paths) = ground (arith, h) in
          twice (matches x p) (matches_one x patterns) (content_of x) (lookup x before)
            (lookup x middle) (lookup x after) (rw met (f.filled x)) (g.0.filled x);
    },
    ((path ∷ paths, h, (λ e. absurd (ground (arith, e)))), g.1),
  )

  read_next :
      (p path : Text) (paths patterns : List Text) (before : Map Text Text) (r : ReadFiles)
      → fs.glob p ≡ given (path ∷ paths)
      → read_paths fs (path ∷ paths) before ≡ r
      → Fills (λ x. contains x (path ∷ paths)) before r
      → ((middle : Map Text Text) → FillsAll patterns middle (read_patterns fs patterns middle))
      → FillsAll (p ∷ patterns) before (read_patterns fs (p ∷ patterns) before)
  unfolding read_patterns
  read_next p path paths patterns before (not_read e) h h' f rest = rw (h, h', read_patterns) tt
  read_next p path paths patterns before (files_read middle) h h' f rest =
      rw (h, h', read_patterns)
        (joined p path paths patterns before middle (read_patterns fs patterns middle) h f
          (rest middle))

  read_pattern :
      (p : Text) (patterns : List Text) (before : Map Text Text) (paths : List Text)
      → fs.glob p ≡ given paths
      → ((middle : Map Text Text) → FillsAll patterns middle (read_patterns fs patterns middle))
      → FillsAll (p ∷ patterns) before (read_patterns fs (p ∷ patterns) before)
  unfolding read_patterns
  read_pattern p patterns before [] h rest = rw (h, read_patterns) tt
  read_pattern p patterns before (path ∷ paths) h rest =
      read_next p path paths patterns before (read_paths fs (path ∷ paths) before) h refl
        (read_paths-Fills (path ∷ paths) before) rest

  read_patterns-FillsAll :
      (patterns : List Text) (before : Map Text Text)
      → FillsAll patterns before (read_patterns fs patterns before)
  unfolding read_patterns
  read_patterns-FillsAll [] before = (record { distinct = λ d. d; filled = λ path. refl }, tt)
  read_patterns-FillsAll (p ∷ patterns) before = elim (Reply-cases (fs.glob p)) [
    | inr (e, h) ↦ rw (h, read_patterns) tt
    | inl (paths, h) ↦ read_pattern p patterns before paths h (read_patterns-FillsAll patterns)
  ]

  -- What `readFiles` returns without an error: each path once, exactly those that match one of the
  -- patterns and are no directory, each with its contents.
  pub read_files_lem :
      (patterns : List Text) (files : Map Text Text)
      → read_files fs patterns ≡ files_read files
      → IsDistinct files
        × ((path : Text)
            → lookup path files ≡ (if matches_one path patterns then content_of path else none))
        × HasMatches patterns
  unfolding read_files lookup
  read_files_lem patterns files h =
      let f = subst (FillsAll patterns []) h (read_patterns-FillsAll patterns []) in
      (f.0.distinct tt, (λ path. ground (arith, f.0.filled path)), f.1)
