-- ===== src/Certificate.antt =====
-- The self-signed certificate of genpi/ssl_cert.py: the names it is made for, its generation, and what a
-- start does. `openssl` is a parameter: what its two commands do to the files and how they end.
-- What is logged is left out, and the two paths are those that the settings resolve to.
pub mod San
pub mod Private
pub mod Renewal
mod Tests
use generatorpi.Base.{
  if◌then◌else◌, is_some, ◌==◌, ℤ, pos, negsuc, Bytes, codes, strip, lower, ends_with, split,
  member, ℕ, suc, ◌+◌, ◌*◌, Bool, true, false, not, ◌&&◌, Option, none, some, List, [], ◌∷◌, ◌++◌,
  bytes_key, nat_key,
}
use generatorpi.Web.{show_number}

-- The names of the host, `none` if its name cannot be read.
unfoldable pub hostname_entries : (hostname : Option Bytes) → List Bytes
hostname_entries none = []
hostname_entries (some hn) =
    if hn == []
    then []
    else (codes "DNS:" ++ hn)
      ∷ (if ends_with (codes ".local") hn
          then []
          else (codes "DNS:" ++ (hn ++ codes ".local")) ∷ [])

unfoldable pub extra_entries : List Bytes → List Bytes
extra_entries [] = []
extra_entries (e ∷ es) =
    let rest = extra_entries es in let name = strip e in if name == [] then rest else name ∷ rest

unfoldable pub san_entries : (hostname : Option Bytes) → (extra : Bytes) → List Bytes
unfolding hostname_entries extra_entries
san_entries hostname extra =
    hostname_entries hostname
    ++ (codes "DNS:localhost"
        ∷ codes "IP:127.0.0.1"
        ∷ (if strip extra == [] then [] else extra_entries (split b',' (strip extra))))

-- The entries that were not seen, each at its first place.
unfoldable pub unseen : (seen : List Bytes) → List Bytes → List Bytes
unseen seen [] = []
unseen seen (e ∷ es) =
    let rest = unseen (if member e seen then seen else e ∷ seen) es in
    if member e seen then rest else e ∷ rest

-- `",".join(out)`
unfoldable pub comma_joined : List Bytes → Bytes
comma_joined [] = []
comma_joined (e ∷ []) = e
comma_joined (e ∷ f ∷ es) = e ++ (b',' ∷ comma_joined (f ∷ es))

unfoldable pub build_san : (hostname : Option Bytes) → (extra : Bytes) → Bytes
unfolding san_entries unseen comma_joined
build_san hostname extra = comma_joined (unseen [] (san_entries hostname extra))

-- How a command ended: with a code, or in an exception of `subprocess.run`.
pub data Ran : Type 0 where
  exited : ℤ → Ran
  raised : Ran

abbrev pub is_zero : ℤ → Bool
is_zero (pos n) = n == 0
is_zero (negsuc n) = false

pub record SslFile : Type 0 where
  pub content : Bytes
  pub mode : ℕ

pub record Disk : Type 0 where
  pub cert : Option SslFile
  pub key : Option SslFile

pub record SslProcess : Type 0 where
  pub umask : ℕ
  pub disk : Disk

-- `openssl x509 -checkend` on a certificate at a time, and `openssl req` under a umask.
pub record Openssl : Type 0 where
  pub checkend : (now : ℕ) → (seconds : ℤ) → Option SslFile → Ran
  pub request : (umask : ℕ) → (command : List Bytes) → Disk → Disk × Ran

-- The settings SSL_CERT_MODE, SSL_CERT_DAYS, SSL_RENEW_DAYS and SSL_SAN, and what the system answers.
pub record SslSetup : Type 0 where
  pub mode : Bytes
  pub cert_days : ℤ
  pub renew_days : ℤ
  pub extra : Bytes
  pub cert_path : Bytes
  pub key_path : Bytes
  pub hostname : Option Bytes
  pub can_chmod : Bool

abbrev pub seconds_of : (days : ℤ) → ℤ
seconds_of (pos n) = pos (n * 86400)
seconds_of (negsuc n) = negsuc (n * 86400 + 86399)

abbrev pub show_integer : ℤ → Bytes
show_integer (pos n) = show_number n
show_integer (negsuc n) = codes "-" ++ show_number (suc n)

abbrev pub base_command : SslSetup → List Bytes
base_command s =
    codes "openssl"
    ∷ codes "req"
    ∷ codes "-x509"
    ∷ codes "-newkey"
    ∷ codes "ec"
    ∷ codes "-pkeyopt"
    ∷ codes "ec_paramgen_curve:prime256v1"
    ∷ codes "-keyout"
    ∷ s.key_path
    ∷ codes "-out"
    ∷ s.cert_path
    ∷ codes "-days"
    ∷ show_integer s.cert_days
    ∷ codes "-nodes"
    ∷ codes "-subj"
    ∷ codes "/CN=generatorpi"
    ∷ []

unfoldable pub san_command : SslSetup → List Bytes
unfolding build_san
san_command s =
    let san = build_san s.hostname s.extra in
    if san == []
    then base_command s
    else base_command s ++ (codes "-addext" ∷ (codes "subjectAltName=" ++ san) ∷ [])

abbrev pub has_failed : Ran → Bool
has_failed (exited code) = not (is_zero code)
has_failed raised = false

abbrev pub set_umask : ℕ → SslProcess → SslProcess
set_umask umask p = record p { umask = umask }

abbrev pub owner_only : Option SslFile → Option SslFile
owner_only none = none
owner_only (some f) = some (record f { mode = 384 })

-- `os.chmod(SSL_KEY_PATH, 0o600)`, whose failure is passed over.
unfoldable pub chmod_key : (can_chmod : Bool) → Disk → Disk
chmod_key can_chmod d = if can_chmod then record d { key = owner_only d.key } else d

-- How the start goes on: to the server, to `sys.exit(1)`, or into an exception.
pub data SslEnding : Type 0 where
  ready exits fails : SslEnding

module _ (openssl : Openssl) where
  unfoldable pub cert_expires_within : (now : ℕ) → (days : ℤ) → Disk → Bool
  cert_expires_within now days d = elim (openssl.checkend now (seconds_of days) d.cert) [
    | exited code ↦ not (is_zero code)
    | raised ↦ true
  ]

  -- The run with the names, and the one without them if it failed.
  unfoldable pub run_request : SslSetup → (umask : ℕ) → Disk → Disk × Ran
  unfolding san_command
  run_request s umask d =
      let (d1, r) = openssl.request umask (san_command s) d in
      if has_failed r && not (build_san s.hostname s.extra == [])
      then openssl.request umask (base_command s) d1
      else (d1, r)

  unfoldable pub settle : (can_chmod : Bool) → SslProcess → Ran → SslProcess × SslEnding
  unfolding chmod_key
  settle can_chmod p raised = (p, fails)
  settle can_chmod p (exited code) =
      if is_zero code then (record p { disk = chmod_key can_chmod p.disk }, ready) else (p, fails)

  unfoldable pub generate_self_signed : SslSetup → SslProcess → SslProcess × SslEnding
  unfolding run_request settle
  generate_self_signed s p =
      let old_umask = p.umask in
      let p1 = set_umask 63 p in
      let (d, r) = run_request s p1.umask p1.disk in
      settle s.can_chmod (set_umask old_umask (record p1 { disk = d })) r

  abbrev pub has_files : Disk → Bool
  has_files d = is_some d.cert && is_some d.key

  abbrev pub cert_mode : Bytes → Bytes
  cert_mode mode = lower (strip (if mode == [] then codes "auto" else mode))

  unfoldable pub ensure_ssl_cert : SslSetup → (now : ℕ) → SslProcess → SslProcess × SslEnding
  unfolding generate_self_signed cert_expires_within
  ensure_ssl_cert s now p =
      if cert_mode s.mode == codes "manual"
      then (p, if has_files p.disk then ready else exits)
      else if has_files p.disk && not (cert_expires_within now s.renew_days p.disk)
      then (p, ready)
      else generate_self_signed s p
