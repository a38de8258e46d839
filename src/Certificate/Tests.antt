-- ===== src/Certificate/Tests.antt =====
-- A host with no certificate yet, and an `openssl` too old for the names.
use generatorpi.Base.{
  ltb, if◌then◌else◌, is_some, if_either, ◌==◌, pos, Bytes, codes, split, member, ℕ, ◌≡◌, refl,
  false, ◌&&◌, none, some, List, bytes_key, nat_key,
}
use generatorpi.Certificate.{
  Disk, SslSetup, Ran, exited, san_entries, build_san, SslFile, SslProcess, Openssl, ready,
  ensure_ssl_cert,
}
use generatorpi.Certificate.Private.{IsPrivateKey, ensure_ssl_cert_private}
use generatorpi.Web.{show_number}
use generatorpi.Certificate.San.{IsDistinct, build_san-lists}

abbrev setup : SslSetup
setup = record {
  mode = codes " Auto";
  cert_days = pos 825;
  renew_days = pos 30;
  extra = codes "IP:10.0.0.7, DNS:localhost ,";
  cert_path = codes "/srv/cert.pem";
  key_path = codes "/srv/key.pem";
  hostname = some (codes "pi");
  can_chmod = false;
}

abbrev made_under : (umask : ℕ) → Bytes → SslFile
made_under umask content = record { content = content; mode = if umask == 63 then 384 else 420 }

abbrev made : (umask : ℕ) → Disk × Ran
made umask = (
  record {
    cert = some (made_under umask (codes "cert"));
    key = some (made_under umask (codes "key"));
  },
  exited (pos 0),
)

-- It knows nothing of `-addext`.
abbrev old_openssl : Openssl
old_openssl = record {
  checkend = λ now seconds c. if is_some c && ltb now 1000 then exited (pos 0) else exited (pos 1);
  request = λ umask command d.
      if member (codes "-addext") command then (d, exited (pos 1)) else made umask;
}

abbrev fresh_host : SslProcess
fresh_host = record { umask = 18; disk = record { cert = none; key = none } }

abbrev provided : SslProcess
provided = record { umask = 18; disk = (made 63).0 }

build_san_text :
    build_san (some (codes "pi")) (codes "IP:10.0.0.7, DNS:localhost ,")
    ≡ codes "DNS:pi,DNS:pi.local,DNS:localhost,IP:127.0.0.1,IP:10.0.0.7"
unfolding build_san
build_san_text = refl

build_san-lists_example :
    (let names =
        split b',' (build_san (some (codes "pi")) (codes "IP:10.0.0.7, DNS:localhost ,")) in
      IsDistinct names
      × ((x : Bytes)
          → member x names
            ≡ member x (san_entries (some (codes "pi")) (codes "IP:10.0.0.7, DNS:localhost ,"))))
build_san-lists_example =
    build_san-lists (some (codes "pi")) (codes "IP:10.0.0.7, DNS:localhost ,") (refl, (refl, tt))

old_request-IsPrivateKey :
    (command : List Bytes) (d : Disk)
    → IsPrivateKey d.key
    → IsPrivateKey (old_openssl.request 63 command d).0.key
old_request-IsPrivateKey command d h =
    if_either (λ (t : Disk × Ran). IsPrivateKey t.0.key) (member (codes "-addext") command) h refl

ensure_ssl_cert_private_example :
    (let (q, ending) = ensure_ssl_cert old_openssl setup 100 fresh_host in
      (q.umask ≡ 18) × IsPrivateKey q.disk.key)
ensure_ssl_cert_private_example =
    ensure_ssl_cert_private old_openssl setup 100 fresh_host old_request-IsPrivateKey tt

-- Once the certificate is about to expire, a start makes it anew.
renewed_at_last :
    ensure_ssl_cert old_openssl setup 2000 (record provided {
      disk = record {
        cert = some (made_under 63 (codes "old"));
        key = some (made_under 63 (codes "old"));
      };
    })
    ≡ (provided, ready)
unfolding ensure_ssl_cert show_number
renewed_at_last = refl
