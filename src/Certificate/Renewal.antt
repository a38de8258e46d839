-- ===== src/Certificate/Renewal.antt =====
-- Starts after one another of genpi/ssl_cert.py: what the later ones do with the files of the first.
use generatorpi.Base.{
  ◌==◌, codes, ℕ, ◌≡◌, ◌⊎◌, Bool, true, false, List, [], ◌∷◌, bytes_key, nat_key,
}
use generatorpi.Certificate.{
  Disk, SslProcess, Ran, exited, raised, is_zero, Openssl, SslSetup, SslEnding, ready,
  cert_expires_within, has_files, cert_mode, ensure_ssl_cert,
}

-- What a run of `openssl req` leaves: if it went well, a certificate and a key.
abbrev pub HasMade : Openssl → Disk × Ran → Type 0
HasMade openssl (d, exited code) = is_zero code ≡ true → has_files openssl d ≡ true
HasMade openssl (d, raised) = Unit

module _ (openssl : Openssl) (s : SslSetup) where
  abbrev pub is_manual : Bool
  is_manual = cert_mode openssl s.mode == codes "manual"

  -- At that time nothing has to be renewed: the files are the user's own, or the certificate is not
  -- within SSL_RENEW_DAYS of its end.
  abbrev pub IsCurrent : (now : ℕ) → Disk → Type 0
  IsCurrent now d = (is_manual ≡ true) ⊎ (cert_expires_within openssl now s.renew_days d ≡ false)

  -- Starts at these times.
  unfoldable pub start_all : List ℕ → SslProcess → SslProcess
  start_all [] p = p
  start_all (now ∷ nows) p = start_all nows (ensure_ssl_cert openssl s now p).0

  abbrev pub EndsMade : SslProcess × SslEnding → Type 0
  EndsMade t = t.1 ≡ ready → has_files openssl t.0.disk ≡ true
