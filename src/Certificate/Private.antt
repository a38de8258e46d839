-- ===== src/Certificate/Private.antt =====
-- The umask, the key and the files of `ensure_ssl_cert` of genpi/ssl_cert.py.
use generatorpi.Base.{
  is_some, if_either, ◌==◌, Bytes, codes, ℕ, ◌%◌, ◌≡◌, refl, Bool, not, ◌&&◌, Option, none, some,
  List, [], bytes_key, nat_key,
}
use generatorpi.Certificate.{
  Disk, SslProcess, build_san, Ran, exited, raised, is_zero, SslFile, Openssl, SslSetup,
  base_command, san_command, has_failed, owner_only, chmod_key, SslEnding, cert_expires_within,
  run_request, settle, generate_self_signed, has_files, cert_mode, ensure_ssl_cert,
}

-- Neither the group nor the others may do anything with the key.
abbrev pub IsPrivateKey : Option SslFile → Type 0
IsPrivateKey none = Unit
IsPrivateKey (some f) = f.mode % 64 ≡ 0

owner_only-IsPrivateKey : (k : Option SslFile) → IsPrivateKey (owner_only k)
owner_only-IsPrivateKey none = tt
owner_only-IsPrivateKey (some f) = refl

pub is_some-owner_only : (k : Option SslFile) → is_some (owner_only k) ≡ is_some k
is_some-owner_only none = refl
is_some-owner_only (some f) = refl

chmod_key-IsPrivateKey :
    (b : Bool) (d : Disk) → IsPrivateKey d.key → IsPrivateKey (chmod_key b d).key
unfolding chmod_key
chmod_key-IsPrivateKey b d h =
    if_either (λ (e : Disk). IsPrivateKey e.key) b (owner_only-IsPrivateKey d.key) h

module _ (openssl : Openssl) (s : SslSetup) where
  pub run_request-either :
      (umask : ℕ) (Before : Disk → Type 0) (After : Disk × Ran → Type 0)
      → ((command : List Bytes) (d : Disk) → Before d → After (openssl.request umask command d))
      → ((t : Disk × Ran) → After t → Before t.0)
      → (d : Disk) → Before d
      → After (run_request openssl s umask d)
  unfolding run_request
  run_request-either umask Before After step between d h =
      let t = openssl.request umask (san_command s) d in
      let one = step (san_command s) d h in
      if_either After (has_failed t.1 && not (build_san s.hostname s.extra == []))
        (step (base_command s) t.0 (between t one)) one

  abbrev pub Keeps : ℕ → SslProcess × SslEnding → Type 0
  Keeps umask t = (t.0.umask ≡ umask) × IsPrivateKey t.0.disk.key

  settle-Keeps :
      (b : Bool) (p : SslProcess) (r : Ran)
      → IsPrivateKey p.disk.key
      → Keeps p.umask (settle openssl b p r)
  unfolding settle
  settle-Keeps b p raised h = (refl, h)
  settle-Keeps b p (exited code) h =
      if_either (Keeps p.umask) (is_zero code) (refl, chmod_key-IsPrivateKey b p.disk h) (refl, h)

  -- However the start ends, and whether or not the files are closed after the fact: the umask is what it was,
  -- and a key that was not open to others before is not open to them after. The condition is
  -- that a run of `openssl req` under the umask 0o077 leaves such a key.
  pub ensure_ssl_cert_private :
      (now : ℕ) (p : SslProcess)
      → ((command : List Bytes) (d : Disk)
          → IsPrivateKey d.key
          → IsPrivateKey (openssl.request 63 command d).0.key)
      → IsPrivateKey p.disk.key
      → (let (q, ending) = ensure_ssl_cert openssl s now p in
          (q.umask ≡ p.umask) × IsPrivateKey q.disk.key)
  unfolding ensure_ssl_cert generate_self_signed
  ensure_ssl_cert_private now p closes h =
      let made =
        run_request-either 63 (λ d. IsPrivateKey d.key) (λ t. IsPrivateKey t.0.key) closes
          (λ t k. k) p.disk h in
      let t = run_request openssl s 63 p.disk in
      let q : SslProcess = record { umask = p.umask; disk = t.0 } in
      if_either (Keeps p.umask) (cert_mode openssl s.mode == codes "manual") (refl, h)
        (if_either (Keeps p.umask)
          (has_files openssl p.disk && not (cert_expires_within openssl now s.renew_days p.disk))
          (refl, h) (settle-Keeps s.can_chmod q t.1 made))
