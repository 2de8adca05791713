-- ===== src/Types/Tls/Checks.antt =====
-- What a TLS context that `TLSConfig.build_context` of fq/types.py returns is sure to have.
use fq_client_py.Prelude.{Bool, true, not, ◌≡◌, ◌⊎◌, [], ◌∷◌, some, arith, none, Str}
use fq_client_py.Errors.{ok}
use fq_client_py.Types.Tls.{TlsConfig, SslContext, Files, build_context, min_version_of, nonempty}

pub record IsChecked (c : TlsConfig) (context : SslContext) : Type 0 where
  pub minimum : min_version_of c.min_version ≡ some context.minimum_version
  pub keypair :
      (c.cert_file ≡ []) × (c.key_file ≡ []) × (context.cert_chain ≡ none)
      ⊎ (context.cert_chain ≡ some (c.cert_file, c.key_file))
        × (nonempty c.cert_file ≡ true)
        × (nonempty c.key_file ≡ true)
  pub verify : context.verify ≡ not c.skip_verify
  pub check_hostname : context.check_hostname ≡ not c.skip_verify

abbrev config : Str → Str → Str → Str → Bool → Str → TlsConfig
config ca cert key name skip version = record {
  ca_file = ca;
  cert_file = cert;
  key_file = key;
  server_name = name;
  skip_verify = skip;
  min_version = version;
}

IsChecked-by_fields :
    (files : Files) (ca cert key name version : Str) (skip : Bool) {context : SslContext}
    → build_context files (config ca cert key name skip version) ≡ ok context
    → IsChecked (config ca cert key name skip version) context
unfolding build_context
IsChecked-by_fields files ca [] [] name version skip e = ground arith
IsChecked-by_fields files ca [] (k ∷ key) name version skip e = ground arith
IsChecked-by_fields files ca (x ∷ cert) [] name version skip e = ground arith
IsChecked-by_fields files ca (x ∷ cert) (k ∷ key) name version skip e = ground arith

-- A context is built from a keypair that is given whole or not at all, with a minimum version from
-- the table, and it verifies the server and its name unless `skip_verify` is set.
pub build_context-IsChecked :
    (files : Files) (c : TlsConfig) {context : SslContext}
    → build_context files c ≡ ok context
    → IsChecked c context
build_context-IsChecked files c e =
    IsChecked-by_fields files c.ca_file c.cert_file c.key_file c.server_name c.min_version
      c.skip_verify e
