-- ===== src/Config/Parsing/Complete.antt =====
-- That `parse` of config/config.go leaves out no group of any document of a file.
use chalert.Prelude.{
  ℕ, ◌≡◌, refl, ap, subst, inl, inr, Bool-cases, List, [], ◌∷◌, ◌++◌, map, All, All-mono, All-split,
  In, In-append, sym, Option, none, some, Option-cases, Text, text_Eq, Map,
}
use chalert.Config.{Group}
use chalert.Config.Validation.{validate_group}
use chalert.Config.Substitution.{env_substitute}
use chalert.Config.Parsing.{
  Yaml, Parsed, parsed, parse_error, ◌>>=◌, prepare, contains, parse_groups, all_groups, parse_file,
  parse,
}
use chalert.Config.Parsing.Loaded.{Ensures}

module _ (yaml : Yaml) where
  -- The groups of a file are the decoded ones, each prepared, and the decoder came to the end.
  abbrev ArePrepared : Text → List Group → Option Text → List Group → Type 0
  ArePrepared file ds e gs = (gs ≡ map (prepare yaml file) ds) × (e ≡ none)

  parse_groups_cons :
      (file : Text) (d : Group) (ds : List Group) (e : Option Text) (r : Parsed (List Group))
      → Ensures (ArePrepared file ds e) r
      → Ensures (ArePrepared file (d ∷ ds) e) (r >>= λ gs. parsed (prepare yaml file d ∷ gs))
  parse_groups_cons file d ds e (parsed gs) h = (ap (λ l. prepare yaml file d ∷ l) h.0, h.1)
  parse_groups_cons file d ds e (parse_error x) h = tt

  parse_groups-ArePrepared :
      (file : Text) (names : List Text) (ds : List Group) (e : Option Text)
      → Ensures (ArePrepared file ds e) (parse_groups yaml file names ds e)
  unfolding parse_groups
  parse_groups-ArePrepared file names [] none = (refl, refl)
  parse_groups-ArePrepared file names [] (some e) = tt
  parse_groups-ArePrepared file names (d ∷ ds) e =
      let g = prepare yaml file d in
      elim (Option-cases (validate_group g)) [
        | inr (x, v) ↦ rw (v, parse_groups) tt
        | inl v ↦ elim (Bool-cases (contains names g.name)) [
          | inl dup ↦ rw (v, dup, parse_groups) tt
          | inr new ↦
              rw (v, new, parse_groups)
                (parse_groups_cons file d ds e (parse_groups yaml file (g.name ∷ names) ds e)
                  (parse_groups-ArePrepared file (g.name ∷ names) ds e))
        ]
      ]

  -- Each group of each document, with its file, its checksum and the identities of its rules.
  abbrev pub HasDocuments : Text → List (List Group) → List Group → Type 0
  HasDocuments file documents gs =
      All (λ document. All (λ d. In (prepare yaml file d) gs) document) documents

  prepared_there :
      (file : Text) (ds : List Group)
      → All (λ d. In (prepare yaml file d) (map (prepare yaml file) ds)) ds
  prepared_there file [] = tt
  prepared_there file (d ∷ ds) = (
    inl refl,
    All-mono _ (λ x. In (prepare yaml file x) (map (prepare yaml file) (d ∷ ds))) (λ x h. inr h) ds
        (prepared_there file ds),
  )

  of_documents :
      (P : Group → Type 0) (documents : List (List Group))
      → All P (all_groups documents)
      → All (λ document. All P document) documents
  unfolding all_groups
  of_documents P [] h = tt
  of_documents P (gs ∷ documents) h =
      let parts = All-split P gs (all_groups documents) h in
      (parts.0, of_documents P documents parts.1)

module _ (yaml : Yaml) (fuel : ℕ) (getenv : Text → Text) where
  -- The groups of a file are among others.
  pub record HasFile (file content : Text) (gs : List Group) : Type 0 where
    pub text : Text
    pub substituted : env_substitute fuel getenv content ≡ some text
    pub to_the_end : (yaml.decode text).end_error ≡ none
    pub documents : HasDocuments yaml file (yaml.decode text).documents gs

  parse_file-HasFile :
      (file content : Text)
      → Ensures (HasFile file content) (parse_file yaml fuel getenv file content)
  unfolding parse_file
  parse_file-HasFile file content = elim (Option-cases (env_substitute fuel getenv content)) [
    | inl e ↦ rw (e, parse_file) tt
    | inr (text, e) ↦
        let d = yaml.decode text in
        rw (e, parse_file)
          (prepared-HasFile file content text e
            (parse_groups yaml file [] (all_groups d.documents) d.end_error)
            (parse_groups-ArePrepared yaml file [] (all_groups d.documents) d.end_error))
  ]
    where
      prepared-HasFile :
          (f c text : Text)
          → env_substitute fuel getenv c ≡ some text
          → (r : Parsed (List Group))
          → Ensures
              (ArePrepared yaml f
                (all_groups (yaml.decode text).documents)
                (yaml.decode text).end_error)
              r
          → Ensures (HasFile f c) r
      prepared-HasFile f c text e (parse_error x) h = tt
      prepared-HasFile f c text e (parsed gs) h =
          let ds = all_groups (yaml.decode text).documents in
          record {
            text = text;
            substituted = e;
            to_the_end = h.1;
            documents =
                of_documents yaml (λ d. In (prepare yaml f d) gs) (yaml.decode text).documents
                  (subst (λ l. All (λ d. In (prepare yaml f d) l) ds) (sym h.0)
                    (prepared_there yaml f ds));
          }

  -- More groups do no harm.
  more-HasFile :
      (file content : Text) (gs hs : List Group)
      → ((g : Group) → In g gs → In g hs)
      → HasFile file content gs
      → HasFile file content hs
  more-HasFile file content gs hs more f = record {
    text = f.text;
    substituted = f.substituted;
    to_the_end = f.to_the_end;
    documents =
        All-mono _ (λ document. All (λ d. In (prepare yaml file d) hs) document)
          (λ document h. All-mono _ (λ d. In (prepare yaml file d) hs) (λ d. more _) document h)
          (yaml.decode f.text).documents f.documents;
  }

  join-HasFiles :
      (file content : Text) (files : Map Text Text) (first rest : Parsed (List Group))
      → Ensures (HasFile file content) first
      → Ensures (λ gs. All (λ p. HasFile p.0 p.1 gs) files) rest
      → Ensures
          (λ gs. All (λ p. HasFile p.0 p.1 gs) ((file, content) ∷ files))
          (first >>= λ gs. rest >>= λ others. parsed (gs ++ others))
  join-HasFiles file content files (parse_error e) rest h k = tt
  join-HasFiles file content files (parsed gs) (parse_error e) h k = tt
  join-HasFiles file content files (parsed gs) (parsed others) h k = (
    more-HasFile file content gs (gs ++ others) (λ g i. In-append g gs others (inl i)) h,
    All-mono _ (λ p. HasFile p.0 p.1 (gs ++ others))
        (λ p. more-HasFile p.0 p.1 others (gs ++ others) (λ g i. In-append g gs others (inr i)))
        files k,
  )

  parse-HasFiles :
      (files : Map Text Text)
      → Ensures (λ gs. All (λ p. HasFile p.0 p.1 gs) files) (parse yaml fuel getenv files)
  unfolding parse
  parse-HasFiles [] = tt
  parse-HasFiles ((file, content) ∷ files) =
      join-HasFiles file content files (parse_file yaml fuel getenv file content)
        (parse yaml fuel getenv files) (parse_file-HasFile file content) (parse-HasFiles files)

  -- If a snapshot is parsed without an error, then the decoder came to the end of each file, and each
  -- group of each document of each file is among the groups.
  pub parse_complete :
      (files : Map Text Text) (gs : List Group)
      → parse yaml fuel getenv files ≡ parsed gs
      → All (λ p. HasFile p.0 p.1 gs) files
  parse_complete files gs h =
      subst (Ensures (λ l. All (λ p. HasFile p.0 p.1 l) files)) h (parse-HasFiles files)
