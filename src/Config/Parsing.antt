-- ===== src/Config/Parsing.antt =====
-- `parse` and `Snapshot` of config.go. The YAML decoder and encoder, the format of the checksum and the
-- environment are parameters; so is reading the files, whose contents a snapshot holds by path.
pub mod Loaded
pub mod Complete
pub mod Order
use chalert.Prelude.{
  ℕ, Bool, true, false, List, [], ◌∷◌, ◌++◌, map, Option, none, some, Text, text_eq, text_Eq, Map,
  lookup, if◌then◌else◌,
}
use chalert.Hash.{write, offset_basis}
use chalert.Sort.{sort_strings}
use chalert.Config.{Rule, Group}
use chalert.Config.Identity.{hash_rule}
use chalert.Config.Validation.{GroupError, validate_group}
use chalert.Config.Substitution.{env_substitute}

-- What the decoder gives of a file: its documents up to the end of the file (`none`) or an error.
pub record Decoded : Type 0 where
  pub documents : List (List Group)
  pub end_error : Option Text

pub data ParseError : Type 0 where
  failed_to_parse : Text → Text → ParseError
  invalid_group : Text → Text → GroupError → ParseError
  duplicate_group : Text → Text → ParseError
  substitution_runs_on : Text → ParseError

pub data Parsed {ℓ} (A : Type ℓ) : Type ℓ where
  parsed : A → Parsed A
  parse_error : ParseError → Parsed A

infixl 5 ◌>>=◌
abbrev pub ◌>>=◌ : {A B : Type 0} → Parsed A → (A → Parsed B) → Parsed B
parsed a >>= f = f a
parse_error e >>= f = parse_error e

pub record Yaml : Type 0 where
  pub decode : Text → Decoded
  pub marshal : Group → Text
  pub hex : ℕ → Text

-- The groups of all documents in turn; the decoder's error comes after the groups before it.
all_groups : List (List Group) → List Group
all_groups [] = []
all_groups (gs ∷ documents) = gs ++ all_groups documents

contains : List Text → Text → Bool
contains [] name = false
contains (n ∷ names) name = if text_eq n name then true else contains names name

with_rule_ids : List Rule → List Rule
with_rule_ids rules = map (λ (r : Rule). record r { id = hash_rule r }) rules

module _ (yaml : Yaml) where
  -- A decoded group with its file, the identities of its rules and its checksum.
  pub prepare : Text → Group → Group
  unfolding with_rule_ids
  prepare file g =
      let identified = record g { file = file; rules = with_rule_ids g.rules } in
      record identified { checksum = yaml.hex (write offset_basis (yaml.marshal identified)) }

  -- The loops over the groups of a file.
  parse_groups : Text → List Text → List Group → Option Text → Parsed (List Group)
  unfolding prepare contains
  parse_groups file names [] none = parsed []
  parse_groups file names [] (some e) = parse_error (failed_to_parse file e)
  parse_groups file names (d ∷ ds) end_error =
      let g = prepare file d in
      elim (validate_group g) [
        | some e ↦ parse_error (invalid_group g.name file e)
        | none ↦ elim (contains names g.name) [
          | true ↦ parse_error (duplicate_group g.name file)
          | false ↦ parse_groups file (g.name ∷ names) ds end_error >>= λ gs. parsed (g ∷ gs)
        ]
      ]

  module _ (fuel : ℕ) (getenv : Text → Text) where
    parse_file : Text → Text → Parsed (List Group)
    unfolding parse_groups all_groups
    parse_file file content = elim (env_substitute fuel getenv content) [
      | none ↦ parse_error (substitution_runs_on file)
      | some text ↦
          let d = yaml.decode text in parse_groups file [] (all_groups d.documents) d.end_error
    ]

    -- `parse`, with `fuel` rounds for the substitution in each file.
    unfoldable pub parse : Map Text Text → Parsed (List Group)
    unfolding parse_file
    parse [] = parsed []
    parse ((file, content) ∷ files) = do
      gs ← parse_file file content
      rest ← parse files
      parsed (gs ++ rest)

abbrev content_or_empty : Option Text → Text
content_or_empty none = []
content_or_empty (some s) = s

write_files : Map Text Text → List Text → ℕ → ℕ
write_files files [] h = h
write_files files (path ∷ paths) h =
    write_files files paths (
      write (write (write (write h path) (0 ∷ [])) (content_or_empty (lookup path files))) (0 ∷ []))

-- `Fingerprint`.
pub fingerprint : Map Text Text → ℕ
unfolding write_files
fingerprint files = write_files files (sort_strings (map (λ p. p.0) files)) offset_basis
