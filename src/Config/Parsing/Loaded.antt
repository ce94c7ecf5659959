-- ===== src/Config/Parsing/Loaded.antt =====
-- What `parse` of config/config.go guarantees of the groups that it returns.
use chalert.Prelude.{
  ℕ, ◌≡◌, ◌≢◌, refl, ap, subst, ◌∙◌, inl, inr, false, Bool-cases, List, [], ◌∷◌, ◌++◌, All,
  All-append, Option, none, some, Option-cases, Text, text_eq_iff, text_Eq, Map, lookup, IsDistinct,
  arith,
}
use chalert.Config.{Rule, Group}
use chalert.Config.Identity.{hash_rule}
use chalert.Config.Validation.{validate_group}
use chalert.Config.Validation.Exact.{IsValidGroup, validate_group_iff}
use chalert.Config.Substitution.{env_substitute}
use chalert.Config.Parsing.{
  Yaml, Parsed, parsed, parse_error, ◌>>=◌, prepare, with_rule_ids, contains, parse_groups,
  all_groups, parse_file, parse,
}

-- A group of a file, valid, with the identities of its rules.
pub record IsLoaded (file : Text) (g : Group) : Type 0 where
  pub from_file : g.file ≡ file
  pub valid : IsValidGroup g
  pub identified : All (λ r. r.id ≡ hash_rule r) g.rules

-- No two groups have one name.
abbrev pub HasDistinctNames : List Group → Type 0
HasDistinctNames [] = Unit
HasDistinctNames (g ∷ gs) = All (λ h. h.name ≢ g.name) gs × HasDistinctNames gs

with_rule_ids_identified : (rules : List Rule) → All (λ r. r.id ≡ hash_rule r) (with_rule_ids rules)
unfolding with_rule_ids hash_rule
with_rule_ids_identified [] = tt
with_rule_ids_identified (r ∷ rules) = (refl, with_rule_ids_identified rules)

abbrev AreNew : List Text → List Group → Type 0
AreNew names gs = All (λ g. contains names g.name ≡ false) gs

-- What holds of a result, if it is one.
abbrev pub Ensures : {A : Type 0} → (A → Type 0) → Parsed A → Type 0
Ensures P (parsed a) = P a
Ensures P (parse_error e) = Unit

abbrev AreLoaded : Text → List Text → List Group → Type 0
AreLoaded file names gs = All (IsLoaded file) gs × AreNew names gs × HasDistinctNames gs

AreNew-tail :
    (n : Text) (names : List Text) (gs : List Group)
    → AreNew (n ∷ names) gs
    → AreNew names gs × All (λ h. h.name ≢ n) gs
unfolding contains
AreNew-tail n names [] h = (tt, tt)
AreNew-tail n names (g ∷ gs) h =
    let rest = AreNew-tail n names gs h.1 in
    ((ground (arith, h.0), rest.0), ((λ e. ground (arith, h.0, e, text_eq_iff n g.name)), rest.1))

module _ (yaml : Yaml) where
  prepare-IsLoaded :
      (file : Text) (d : Group)
      → validate_group (prepare yaml file d) ≡ none
      → IsLoaded file (prepare yaml file d)
  unfolding prepare
  prepare-IsLoaded file d h = record {
    from_file = refl;
    valid = (validate_group_iff (prepare yaml file d)).0 h;
    identified = with_rule_ids_identified d.rules;
  }

  parse_groups_cons :
      (file : Text) (names : List Text) (g : Group) (r : Parsed (List Group))
      → IsLoaded file g
      → contains names g.name ≡ false
      → Ensures (AreLoaded file (g.name ∷ names)) r
      → Ensures (AreLoaded file names) (r >>= λ gs. parsed (g ∷ gs))
  parse_groups_cons file names g (parsed gs) l new h =
      let rest = AreNew-tail g.name names gs h.1 in ((l, h.0), (new, rest.0), (rest.1, h.2))
  parse_groups_cons file names g (parse_error e) l new h = tt

  parse_groups-AreLoaded :
      (file : Text) (names : List Text) (ds : List Group) (e : Option Text)
      → Ensures (AreLoaded file names) (parse_groups yaml file names ds e)
  unfolding parse_groups
  parse_groups-AreLoaded file names [] none = (tt, tt, tt)
  parse_groups-AreLoaded file names [] (some e) = tt
  parse_groups-AreLoaded file names (d ∷ ds) e =
      let g = prepare yaml file d in
      elim (Option-cases (validate_group g)) [
        | inr (x, v) ↦ rw (v, parse_groups) tt
        | inl v ↦ elim (Bool-cases (contains names g.name)) [
          | inl dup ↦ rw (v, dup, parse_groups) tt
          | inr new ↦
              rw (v, new, parse_groups)
                (parse_groups_cons file names g (parse_groups yaml file (g.name ∷ names) ds e)
                  (prepare-IsLoaded file d v) new
                  (parse_groups-AreLoaded file (g.name ∷ names) ds e))
        ]
      ]

-- A group of one of the files.
abbrev pub IsParsed : Map Text Text → Group → Type 0
IsParsed files g = IsLoaded g.file g × (lookup g.file files ≢ none)

-- No two groups of one file have one name.
abbrev pub HasDistinctNamesByFile : List Group → Type 0
HasDistinctNamesByFile [] = Unit
HasDistinctNamesByFile (g ∷ gs) =
    All (λ h. h.file ≡ g.file → h.name ≢ g.name) gs × HasDistinctNamesByFile gs

of_one_file : (gs : List Group) → HasDistinctNames gs → HasDistinctNamesByFile gs
of_one_file [] d = tt
of_one_file (g ∷ gs) d = (weaken gs d.0, of_one_file gs d.1)
  where
    weaken :
        (hs : List Group)
        → All (λ h. h.name ≢ g.name) hs
        → All (λ h. h.file ≡ g.file → h.name ≢ g.name) hs
    weaken [] a = tt
    weaken (h ∷ hs) a = ((λ e. a.0), weaken hs a.1)

module _ (files : Map Text Text) (file content : Text) (fresh : lookup file files ≡ none) where
  here-IsParsed :
      (gs : List Group) → All (IsLoaded file) gs → All (IsParsed ((file, content) ∷ files)) gs
  unfolding lookup
  here-IsParsed [] h = tt
  here-IsParsed (g ∷ gs) h =
      let same = h.0.from_file in
      (
        (
          record { from_file = refl; valid = h.0.valid; identified = h.0.identified },
          ground (arith, same, text_eq_iff file g.file),
        ),
        here-IsParsed gs h.1,
      )

  there-IsParsed :
      (gs : List Group) → All (IsParsed files) gs → All (IsParsed ((file, content) ∷ files)) gs
  unfolding lookup
  there-IsParsed [] h = tt
  there-IsParsed (g ∷ gs) h = ((h.0.0, ground (arith, h.0.1)), there-IsParsed gs h.1)

  apart-append :
      (xs ys : List Group)
      → All (IsLoaded file) xs
      → HasDistinctNamesByFile xs
      → All (IsParsed files) ys
      → HasDistinctNamesByFile ys
      → HasDistinctNamesByFile (xs ++ ys)
  apart-append [] ys l dx p dy = dy
  apart-append (x ∷ xs) ys l dx p dy = (
    All-append (λ h. h.file ≡ x.file → h.name ≢ x.name) xs ys dx.0 (others ys p),
    apart-append xs ys l.1 dx.1 p dy,
  )
    where
      others :
          (hs : List Group)
          → All (IsParsed files) hs
          → All (λ h. h.file ≡ x.file → h.name ≢ x.name) hs
      others [] q = tt
      others (h ∷ hs) q = (
        (λ e. absurd (q.0.1 (ap (λ f. lookup f files) (e ∙ l.0.from_file) ∙ fresh))),
        others hs q.1,
      )

abbrev AreParsed : Map Text Text → List Group → Type 0
AreParsed files gs = All (IsParsed files) gs × HasDistinctNamesByFile gs

module _ (yaml : Yaml) (fuel : ℕ) (getenv : Text → Text) where
  parse_file-AreLoaded :
      (file content : Text) → Ensures (AreLoaded file []) (parse_file yaml fuel getenv file content)
  unfolding parse_file
  parse_file-AreLoaded file content = elim (Option-cases (env_substitute fuel getenv content)) [
    | inl e ↦ rw (e, parse_file) tt
    | inr (text, e) ↦
        let d = yaml.decode text in
        rw (e, parse_file)
          (parse_groups-AreLoaded yaml file [] (all_groups d.documents) d.end_error)
  ]

  join-AreParsed :
      (files : Map Text Text) (file content : Text) (first rest : Parsed (List Group))
      → lookup file files ≡ none
      → Ensures (AreLoaded file []) first
      → Ensures (AreParsed files) rest
      → Ensures
          (AreParsed ((file, content) ∷ files))
          (first >>= λ gs. rest >>= λ others. parsed (gs ++ others))
  join-AreParsed files file content (parse_error e) rest fresh h k = tt
  join-AreParsed files file content (parsed gs) (parse_error e) fresh h k = tt
  join-AreParsed files file content (parsed gs) (parsed others) fresh h k = (
    All-append (IsParsed ((file, content) ∷ files)) gs others
        (here-IsParsed files file content fresh gs h.0)
        (there-IsParsed files file content fresh others k.0),
    apart-append files file content fresh gs others h.0 (of_one_file gs h.2) k.0 k.1,
  )

  parse-AreParsed :
      (files : Map Text Text)
      → IsDistinct files
      → Ensures (AreParsed files) (parse yaml fuel getenv files)
  unfolding parse
  parse-AreParsed [] d = (tt, tt)
  parse-AreParsed ((file, content) ∷ files) d =
      join-AreParsed files file content (parse_file yaml fuel getenv file content)
        (parse yaml fuel getenv files) d.0 (parse_file-AreLoaded file content)
        (parse-AreParsed files d.1)

  -- If a snapshot, in which no path stands twice, is parsed without an error, then every group comes
  -- from one of its files, is valid, and has rules with the identities of their contents; and no two
  -- groups of one file have one name.
  pub parse_sound :
      (files : Map Text Text) (gs : List Group)
      → IsDistinct files
      → parse yaml fuel getenv files ≡ parsed gs
      → All (IsParsed files) gs × HasDistinctNamesByFile gs
  parse_sound files gs d h = subst (Ensures (AreParsed files)) h (parse-AreParsed files d)
