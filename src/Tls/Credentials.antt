-- ===== src/Tls/Credentials.antt =====
-- protos/ssl.c: the context that torque_ssl_ctx makes of files. What OpenSSL answers is a parameter.
pub mod Serving
use libtorque.Base.{
  ℕ, ◌+◌, ◌-◌, Bool, true, false, ◌||◌, not, Option, none, some, Run, ok, err, if◌then◌else◌,
}

-- What RAND_bytes returns: 1, or 0 or a negative number where it could not fill the buffer.
pub data RandBytes : Type 0 where
  filled returns_zero negative : RandBytes

-- SSL_VERIFY_NONE, or SSL_VERIFY_PEER with SSL_VERIFY_FAIL_IF_NO_PEER_CERT.
pub data Verify : Type 0 where
  verify_none require_peer : Verify

pub data Filetype : Type 0 where
  pem asn1 : Filetype

-- A file's name is a number, and NULL is `none`. `use_key` and `use_chain` are asked with what they
-- are given.
pub record Openssl : Type 0 where
  pub new_works : Bool
  pub no_sslv2_set : Bool
  pub rand_bytes : RandBytes
  pub session_id_works : Bool
  pub load_ca : ℕ → Bool
  pub use_key : Option ℕ → Filetype → Bool
  pub use_chain : Option ℕ → Bool

-- SSL_CTX, as far as the library sets it up. `random_id` is whether its session id is random.
pub record SslCtx : Type 0 where
  pub no_sslv2 : Bool
  pub random_id : Bool
  pub trusted : Option ℕ
  pub verify : Verify
  pub key : Option (Option ℕ × Filetype)
  pub chain : Option (Option ℕ)

-- The context, or NULL, with the number of contexts that are held.
pub data Made : Type 0 where
  made : SslCtx → ℕ → Made
  null : ℕ → Made

-- `SSL_CTX_free(ret); return NULL;`
abbrev pub free_ctx : ℕ → Made
free_ctx held = null (held - 1)

abbrev pub is_filled : RandBytes → Bool
is_filled filled = true
is_filled returns_zero = false
is_filled negative = false

abbrev pub is_negative : RandBytes → Bool
is_negative filled = false
is_negative returns_zero = false
is_negative negative = true

abbrev pub is_given : Option ℕ → Bool
is_given none = false
is_given (some file) = true

-- With a private key of a type.
abbrev pub with_key : Openssl → Option ℕ → Option ℕ → Filetype → SslCtx → ℕ → Made
with_key o certfile keyfile type c held =
    if o.use_chain certfile
    then made (record c { key = some (keyfile, type); chain = some certfile }) held
    else free_ctx held

abbrev pub use_files : Openssl → Option ℕ → Option ℕ → SslCtx → ℕ → Made
use_files o certfile keyfile c held =
    if not (is_given keyfile || is_given certfile)
    then made c held
    else if o.use_key keyfile pem
    then with_key o certfile keyfile pem c held
    else if o.use_key keyfile asn1
    then with_key o certfile keyfile asn1 c held
    else free_ctx held

abbrev pub verify_of : Bool → Verify
verify_of cliver = if cliver then require_peer else verify_none

abbrev pub set_verify : Openssl → Option ℕ → Option ℕ → Bool → SslCtx → ℕ → Made
set_verify o certfile keyfile cliver c held =
    use_files o certfile keyfile (record c { verify = verify_of cliver }) held

abbrev pub with_ca : Openssl → Option ℕ → Option ℕ → Option ℕ → Bool → SslCtx → ℕ → Made
with_ca o certfile keyfile none cliver c held = set_verify o certfile keyfile cliver c held
with_ca o certfile keyfile (some cafile) cliver c held =
    if not (o.load_ca cafile)
    then free_ctx held
    else set_verify o certfile keyfile cliver (record c { trusted = some cafile }) held

-- A new context.
abbrev pub blank : SslCtx
blank = record {
  no_sslv2 = false;
  random_id = false;
  trusted = none;
  verify = verify_none;
  key = none;
  chain = none;
}

unfoldable pub torque_ssl_ctx : Openssl → (certfile keyfile cafile : Option ℕ) → Bool → ℕ → Made
torque_ssl_ctx o certfile keyfile cafile cliver held =
    if not o.new_works
    then null held
    else if not o.no_sslv2_set
    then free_ctx (held + 1)
    else if is_negative o.rand_bytes
    then free_ctx (held + 1)
    else if not o.session_id_works
    then free_ctx (held + 1)
    else with_ca o certfile keyfile cafile cliver
        (record blank { no_sslv2 = true; random_id = is_filled o.rand_bytes }) (held + 1)
