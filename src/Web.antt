-- ===== src/Web.antt =====
-- The request hooks of genpi/app.py: the check of a request's origin, the headers of a response, and the
-- line of the access audit. A header that is missing is `none`.
pub mod Origin
pub mod Audit
mod Tests
use generatorpi.Base.{
  leb, if◌then◌else◌, ◌==◌, Bytes, codes, starts_with, member, ℕ, zero, suc, ◌+◌, ◌/◌, ◌%◌, Bool,
  true, false, not, ◌&&◌, Option, none, some, List, [], ◌∷◌, ◌++◌, bytes_key, nat_key,
}

abbrev pub csrf_protected_methods : List Bytes
csrf_protected_methods = codes "POST" ∷ codes "PUT" ∷ codes "PATCH" ∷ codes "DELETE" ∷ []

-- What the guard sees of a request.
pub record Request : Type 0 where
  pub method : Bytes
  pub scheme : Bytes
  pub host : Bytes
  pub origin : Option Bytes
  pub referer : Option Bytes

-- The origin that a request was served on.
unfoldable pub expected_origin : Bytes → Bytes → Bytes
expected_origin scheme host = scheme ++ (codes "://" ++ host)

unfoldable pub referer_allowed : (expected : Bytes) → Option Bytes → Bool
referer_allowed expected none = true
referer_allowed expected (some r) =
    if not (r == expected) && not (starts_with (expected ++ codes "/") r) then false else true

unfoldable pub origin_allowed : (expected : Bytes) → (origin referer : Option Bytes) → Bool
unfolding referer_allowed
origin_allowed expected (some o) referer = o == expected
origin_allowed expected none referer = referer_allowed expected referer

-- Whether the request goes on to its handler.
unfoldable pub csrf_origin_guard : Request → Bool
unfolding origin_allowed expected_origin
csrf_origin_guard r =
    if not (member r.method csrf_protected_methods)
    then true
    else origin_allowed (expected_origin r.scheme r.host) r.origin r.referer

pub data Level : Type 0 where
  debug info warning error : Level

-- The digits of a number, in front of what follows. Every round takes a digit, so that one more round than
-- the number is enough.
unfoldable pub digits_before : (rounds : ℕ) → ℕ → Bytes → Bytes
digits_before zero n s = s
digits_before (suc rounds) n s =
    let digit = b'0' + n % 10 in
    let rest = digits_before rounds (n / 10) (digit ∷ s) in if n / 10 == 0 then digit ∷ s else rest

unfoldable pub show_number : ℕ → Bytes
unfolding digits_before
show_number n = digits_before (suc n) n []

unfoldable pub audit_line : (caller address method path : Bytes) → (status : ℕ) → Bytes
unfolding show_number
audit_line caller address method path status =
    caller
    ++ (codes "@"
        ++ (address
            ++ (codes " -> "
                ++ (method ++ (codes " " ++ (path ++ (codes " " ++ show_number status)))))))

unfoldable pub audit_level : (status : ℕ) → (record_http : Bool) → Level
audit_level status record_http =
    if leb 500 status
    then error
    else if leb 400 status
    then warning
    else if record_http
    then info
    else debug

-- `_access_audit_log`: the line and its level, if the request was authenticated.
unfoldable pub access_audit_log :
    (authenticated : Bool)
    → (caller address method path : Bytes) → (status : ℕ) → (record_http : Bool)
    → Option (Level × Bytes)
unfolding audit_line audit_level
access_audit_log authenticated caller address method path status record_http =
    if authenticated
    then some (audit_level status record_http, audit_line caller address method path status)
    else none
