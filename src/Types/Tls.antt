-- ===== src/Types/Tls.antt =====
-- `TLSConfig` of fq/types.py. A context of the `ssl` module is a record of the settings that the
-- code makes; reading certificate files is the environment's, and may raise.
pub mod Checks
use fq_client_py.Prelude.{
  ℕ, Bool, true, false, not, List, [], ◌∷◌, Option, none, some, Str, text, str_eq, if◌then◌else◌,
}
use fq_client_py.Errors.{Result, ok, raise, value_error, ◌>>=◌, ◌>>◌}

pub data TlsVersion : Type 0 where
  tls_1_2 tls_1_3 : TlsVersion

pub record TlsConfig : Type 0 where
  pub ca_file : Str
  pub cert_file : Str
  pub key_file : Str
  pub server_name : Str
  pub skip_verify : Bool
  pub min_version : Str

pub record SslContext : Type 0 where
  pub ca_file : Option Str
  pub minimum_version : TlsVersion
  pub check_hostname : Bool
  pub verify : Bool
  pub cert_chain : Option (Str × Str)

-- What reading the files gives: nothing, or an exception of the `ssl` module.
pub record Files : Type 0 where
  pub load_ca : Option Str → Result (Unit {0})
  pub load_chain : Str → Str → Result (Unit {0})

-- `_TLS_MIN_VERSIONS.get(version)`
unfoldable pub min_version_of : Str → Option TlsVersion
unfolding str_eq
min_version_of v =
    if str_eq v (text "")
    then some tls_1_2
    else if str_eq v (text "1.2")
    then some tls_1_2
    else if str_eq v (text "1.3")
    then some tls_1_3
    else none

-- `bool(s)`
abbrev pub nonempty : Str → Bool
nonempty [] = false
nonempty (c ∷ s) = true

-- `s or None`
abbrev pub or_none : Str → Option Str
or_none [] = none
or_none (c ∷ s) = some (c ∷ s)

abbrev pub differ : Bool → Bool → Bool
differ true b = not b
differ false b = b

-- `ssl.create_default_context(ssl.Purpose.SERVER_AUTH, cafile=...)`, with the minimum version set
abbrev pub default_context : Option Str → TlsVersion → SslContext
default_context ca minimum = record {
  ca_file = ca;
  minimum_version = minimum;
  check_hostname = true;
  verify = true;
  cert_chain = none;
}

abbrev pub without_verification : Bool → SslContext → SslContext
without_verification true context = record context { check_hostname = false; verify = false }
without_verification false context = context

load_cert_chain : Files → Str → Str → SslContext → Result SslContext
load_cert_chain files [] key context = ok context
load_cert_chain files (c ∷ cert) key context = do
  files.load_chain (c ∷ cert) key
  ok (record context { cert_chain = some (c ∷ cert, key) })

abbrev pub or_value_error {ℓ} : {A : Type ℓ} → Option A → Result A
or_value_error none = raise value_error
or_value_error (some a) = ok a

unfoldable pub build_context : Files → TlsConfig → Result SslContext
unfolding min_version_of load_cert_chain
build_context files c =
    if differ (nonempty c.cert_file) (nonempty c.key_file) then raise value_error else do
      minimum ← or_value_error (min_version_of c.min_version)
      files.load_ca (or_none c.ca_file)
      load_cert_chain files c.cert_file c.key_file
          (without_verification c.skip_verify (default_context (or_none c.ca_file) minimum))
