-- ===== src/Chclient/TlsSettings.antt =====
-- chclient/client.go: the TLS settings of a connection. `P` is a pool of certificates and `K` a client
-- certificate; reading and parsing them are parameters.
use chalert.Prelude.{
  ◌≡◌, ◌⊎◌, refl, inl, inr, Bool, not, ◌&&◌, ◌||◌, List, [], ◌∷◌, Option, none, some, Text,
  is_empty, Reply, given, denied, if◌then◌else◌,
}

pub record TlsConfig : Type 0 where
  pub enabled : Bool
  pub ca_file : Text
  pub cert_file : Text
  pub key_file : Text
  pub server_name : Text
  pub insecure_skip_verify : Bool

-- `tls.Config` of crypto/tls, as far as it is set.
pub record Tls (P K : Type 0) : Type 0 where
  pub insecure_skip_verify : Bool
  pub server_name : Text
  pub root_cas : Option P
  pub certificates : List K

-- Reading a file, the pool of the certificates in a PEM text where there are any, and loading a key pair.
pub record Files (P K : Type 0) : Type 0 where
  pub read_file : Text → Reply Text
  pub pool_of_pem : Text → Option P
  pub load_key_pair : Text → Text → Reply K

pub data TlsError : Type 0 where
  reading_ca_file : Text → TlsError
  no_valid_certificates : Text → TlsError
  half_a_key_pair : TlsError
  loading_client_certificate : Text → TlsError

pub data Built (P K : Type 0) : Type 0 where
  built : Tls P K → Built P K
  not_built : TlsError → Built P K

pub Built-cases :
    {P K : Type 0} (b : Built P K)
    → ((t : Tls P K) × (b ≡ built t)) ⊎ ((e : TlsError) × (b ≡ not_built e))
Built-cases (built t) = inl (t, refl)
Built-cases (not_built e) = inr (e, refl)

-- `hasTLS`.
unfoldable pub has_tls : TlsConfig → Bool
has_tls t =
    t.enabled
    || not (is_empty t.ca_file)
    || not (is_empty t.cert_file)
    || not (is_empty t.key_file)
    || not (is_empty t.server_name)
    || t.insecure_skip_verify

module _ {P K : Type 0} (fs : Files P K) where
  add_pool : Text → Tls P K → Text → Built P K
  add_pool ca_file tls_cfg ca_pem = elim (fs.pool_of_pem ca_pem) [
    | none ↦ not_built (no_valid_certificates ca_file)
    | some pool ↦ built (record tls_cfg { root_cas = some pool })
  ]

  add_root_cas : TlsConfig → Tls P K → Built P K
  unfolding add_pool
  add_root_cas t tls_cfg =
      if is_empty t.ca_file then built tls_cfg else elim (fs.read_file t.ca_file) [
        | denied e ↦ not_built (reading_ca_file e)
        | given ca_pem ↦ add_pool t.ca_file tls_cfg ca_pem
      ]

  add_key_pair : TlsConfig → Tls P K → Built P K
  add_key_pair t tls_cfg =
      if is_empty t.cert_file && is_empty t.key_file
      then built tls_cfg
      else if is_empty t.cert_file || is_empty t.key_file
      then not_built half_a_key_pair
      else elim (fs.load_key_pair t.cert_file t.key_file) [
        | denied e ↦ not_built (loading_client_certificate e)
        | given cert ↦ built (record tls_cfg { certificates = cert ∷ [] })
      ]

  -- `buildTLSConfig`.
  unfoldable pub build_tls_config : TlsConfig → Built P K
  unfolding add_root_cas add_key_pair
  build_tls_config t =
      let tls_cfg : Tls P K = record {
        insecure_skip_verify = t.insecure_skip_verify;
        server_name = t.server_name;
        root_cas = none;
        certificates = [];
      } in
      elim (add_root_cas t tls_cfg) [
        | not_built e ↦ not_built e
        | built with_cas ↦ add_key_pair t with_cas
      ]
