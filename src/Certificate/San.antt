-- ===== src/Certificate/San.antt =====
-- `_build_san` of genpi/ssl_cert.py: the names that the certificate is made for.
use generatorpi.Base.{
  if◌then◌else◌, Bool-cases, if_either, if_true, if_false, All, ◌==◌, beq_refl, beq_eq, Bytes,
  codes, strip, ends_with, onto_first, split, all_chars, member, ℕ, ◌≡◌, refl, sym, ap, ◌∙◌, subst,
  inl, inr, Bool, true, false, not, ◌&&◌, ◌||◌, Option, none, some, List, [], ◌∷◌, ◌++◌, arith,
  bytes_key, nat_key,
}
use generatorpi.Config.Texts.{All-append, All-strip}
use generatorpi.Certificate.{
  unseen, san_entries, hostname_entries, extra_entries, comma_joined, build_san,
}

abbrev pub IsCommaless : Bytes → Type 0
IsCommaless s = All (λ c. (c == b',') ≡ false) s

-- No entry stands twice.
abbrev pub IsDistinct : List Bytes → Type 0
IsDistinct [] = Unit
IsDistinct (e ∷ es) = (member e es ≡ false) × IsDistinct es

abbrev pub IsNamed : Option Bytes → Type 0
IsNamed none = Unit
IsNamed (some hn) = IsCommaless hn

onto_first-IsCommaless :
    (c : ℕ) (r : List Bytes)
    → (c == b',') ≡ false
    → All IsCommaless r
    → All IsCommaless (onto_first c r)
onto_first-IsCommaless c [] e h = ((e, tt), tt)
onto_first-IsCommaless c (l ∷ r) e h = ((e, h.0), h.1)

split-IsCommaless : (s : Bytes) → All IsCommaless (split b',' s)
split-IsCommaless [] = (tt, tt)
split-IsCommaless (c ∷ s) = elim (Bool-cases (c == b',')) [
  | inl e ↦ subst (All IsCommaless) (sym (if_true (c == b',') _ _ e)) (tt, split-IsCommaless s)
  | inr e ↦
      subst (All IsCommaless) (sym (if_false (c == b',') _ _ e))
        (onto_first-IsCommaless c (split b',' s) e (split-IsCommaless s))
]

extra_entries-IsCommaless :
    (es : List Bytes) → All IsCommaless es → All IsCommaless (extra_entries es)
unfolding extra_entries
extra_entries-IsCommaless [] h = tt
extra_entries-IsCommaless (e ∷ es) h =
    let rest = extra_entries-IsCommaless es h.1 in
    if_either (All IsCommaless) (strip e == []) rest
      (All-strip (λ c. (c == b',') ≡ false) e h.0, rest)

has_no_comma : (s : Bytes) → all_chars (λ c. not (c == b',')) s ≡ true → IsCommaless s
has_no_comma [] h = tt
has_no_comma (c ∷ s) h = (ground arith, has_no_comma s (ground arith))

hostname_entries-IsCommaless :
    (hostname : Option Bytes) → IsNamed hostname → All IsCommaless (hostname_entries hostname)
unfolding hostname_entries
hostname_entries-IsCommaless none h = tt
hostname_entries-IsCommaless (some hn) h =
    let join = All-append (λ c. (c == b',') ≡ false) in
    let prefix = has_no_comma (codes "DNS:") refl in
    let local = join hn (codes ".local") h (has_no_comma (codes ".local") refl) in
    if_either (All IsCommaless) (hn == []) tt (
      join (codes "DNS:") hn prefix h,
      if_either (All IsCommaless) (ends_with (codes ".local") hn) tt
          (join (codes "DNS:") (hn ++ codes ".local") prefix local, tt),
    )

san_entries-IsCommaless :
    (hostname : Option Bytes) (extra : Bytes)
    → IsNamed hostname
    → All IsCommaless (san_entries hostname extra)
unfolding san_entries
san_entries-IsCommaless hostname extra h =
    let others = strip extra in
    All-append IsCommaless (hostname_entries hostname) _ (hostname_entries-IsCommaless hostname h) (
      has_no_comma (codes "DNS:localhost") refl,
      (
        has_no_comma (codes "IP:127.0.0.1") refl,
        if_either (All IsCommaless) (others == []) tt
            (extra_entries-IsCommaless (split b',' others) (split-IsCommaless others)),
      ),
    )

split-plain : (e : Bytes) → IsCommaless e → split b',' e ≡ e ∷ []
split-plain [] h = refl
split-plain (c ∷ e) h = if_false (c == b',') _ _ h.0 ∙ ap (onto_first c) (split-plain e h.1)

split-comma : (e s : Bytes) → IsCommaless e → split b',' (e ++ (b',' ∷ s)) ≡ e ∷ split b',' s
split-comma [] s h = refl
split-comma (c ∷ e) s h = if_false (c == b',') _ _ h.0 ∙ ap (onto_first c) (split-comma e s h.1)

split-comma_joined :
    (e : Bytes) (es : List Bytes)
    → All IsCommaless (e ∷ es)
    → split b',' (comma_joined (e ∷ es)) ≡ e ∷ es
unfolding comma_joined
split-comma_joined e [] h = split-plain e h.0
split-comma_joined e (f ∷ es) h =
    split-comma e (comma_joined (f ∷ es)) h.0 ∙ ap (λ t. e ∷ t) (split-comma_joined f es h.1)

All-unseen : (seen es : List Bytes) → All IsCommaless es → All IsCommaless (unseen seen es)
unfolding unseen
All-unseen seen [] h = tt
All-unseen seen (e ∷ es) h =
    let rest = All-unseen (if member e seen then seen else e ∷ seen) es h.1 in
    if_either (All IsCommaless) (member e seen) rest (h.0, rest)

unseen-again :
    (e : Bytes) (seen es : List Bytes)
    → member e seen ≡ true
    → unseen seen (e ∷ es) ≡ unseen seen es
unfolding unseen
unseen-again e seen es h = rw h refl

unseen-once :
    (e : Bytes) (seen es : List Bytes)
    → member e seen ≡ false
    → unseen seen (e ∷ es) ≡ e ∷ unseen (e ∷ seen) es
unfolding unseen
unseen-once e seen es h = rw h refl

seen_again :
    (same there seen : Bool)
    → (same ≡ true → seen ≡ true)
    → (there && not seen) ≡ ((same || there) && not seen)
seen_again true there seen h = ground (arith, h refl)
seen_again false there seen h = refl

seen_once :
    (same there seen : Bool)
    → (same ≡ true → seen ≡ false)
    → (same || (there && not (same || seen))) ≡ ((same || there) && not seen)
seen_once true there seen h = ground (arith, h refl)
seen_once false there seen h = refl

-- An entry stays if it is there and was not seen.
member-unseen :
    (x : Bytes) (seen es : List Bytes)
    → member x (unseen seen es) ≡ (member x es && not (member x seen))
unfolding unseen
member-unseen x seen [] = refl
member-unseen x seen (e ∷ es) = elim (Bool-cases (member e seen)) [
  | inl again ↦
      ap (member x) (unseen-again e seen es again)
      ∙ member-unseen x seen es
      ∙ seen_again (e == x) (member x es) (member x seen)
          (λ s. ap (λ y. member y seen) (sym (beq_eq e x s)) ∙ again)
  | inr once ↦
      ap (member x) (unseen-once e seen es once)
      ∙ ap (λ b. (e == x) || b) (member-unseen x (e ∷ seen) es)
      ∙ seen_once (e == x) (member x es) (member x seen)
          (λ s. ap (λ y. member y seen) (sym (beq_eq e x s)) ∙ once)
]

unseen-IsDistinct : (seen es : List Bytes) → IsDistinct (unseen seen es)
unfolding unseen
unseen-IsDistinct seen [] = tt
unseen-IsDistinct seen (e ∷ es) = elim (Bool-cases (member e seen)) [
  | inl again ↦ subst IsDistinct (sym (unseen-again e seen es again)) (unseen-IsDistinct seen es)
  | inr once ↦ subst IsDistinct (sym (unseen-once e seen es once)) (
    member-unseen e (e ∷ seen) es
        ∙ ap (λ b. member e es && not (b || member e seen)) (beq_refl e)
        ∙ ground arith,
    unseen-IsDistinct (e ∷ seen) es,
  )
]

member-behind : (x : Bytes) (fs bs : List Bytes) → member x bs ≡ true → member x (fs ++ bs) ≡ true
member-behind x [] bs h = h
member-behind x (f ∷ fs) bs h = ground (arith, member-behind x fs bs h)

localhost_entry :
    (hostname : Option Bytes) (extra : Bytes)
    → member (codes "DNS:localhost") (san_entries hostname extra) ≡ true
unfolding san_entries
localhost_entry hostname extra =
    member-behind (codes "DNS:localhost") (hostname_entries hostname) _ refl

and_true : (b : Bool) → (b && true) ≡ b
and_true true = refl
and_true false = refl

split_again :
    (x : Bytes) (es : List Bytes)
    → member x es ≡ true
    → All IsCommaless es
    → split b',' (comma_joined es) ≡ es
split_again x [] m h = absurd (cc)
split_again x (e ∷ es) m h = split-comma_joined e es h

-- The names in the text for the certificate, as a reader of the commas finds them: no name stands twice,
-- and the names are those of the host, of the machine itself, and of the settings. The condition is that
-- the name of the host, if it can be read, has no comma.
pub build_san-lists :
    (hostname : Option Bytes) (extra : Bytes)
    → IsNamed hostname
    → (let names = split b',' (build_san hostname extra) in
        IsDistinct names × ((x : Bytes) → member x names ≡ member x (san_entries hostname extra)))
unfolding build_san
build_san-lists hostname extra h =
    let entries = san_entries hostname extra in
    let stays = λ (x : Bytes). member-unseen x [] entries ∙ and_true (member x entries) in
    let names =
      split_again (codes "DNS:localhost") (unseen [] entries)
        (stays (codes "DNS:localhost") ∙ localhost_entry hostname extra)
        (All-unseen [] entries (san_entries-IsCommaless hostname extra h)) in
    (
      subst IsDistinct (sym names) (unseen-IsDistinct [] entries),
      λ x. ap (member x) names ∙ stays x,
    )
