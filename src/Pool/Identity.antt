-- ===== src/Pool/Identity.antt =====
-- The identity of a pooled connection: the start of `forward_request` in server/http_client.cpp and
-- `pool_key`.
use mathlib.Core.List.{append_assoc}
use epoll_gateway.Base.{
  Bool, true, not, [], ◌∷◌, ◌++◌, ◌≡◌, inl, inr, refl, subst, Bool-cases, ap, ◌∙◌, sym, arith,
  all-append, if◌then◌else◌, ◌==◌,
}
use epoll_gateway.Base.Bytes.{Bytes, ascii}
use epoll_gateway.Base.Decimal.{
  free_of, free_of-to_string, not-free_of-join, join-injective, to_string-injective,
}
use epoll_gateway.Base.Int.{ℤ, to_string}
use epoll_gateway.Pool.Defs.{pool_key}

pub record UpstreamTlsOptions : Type 0 where
  pub enable : Bool
  pub ca_file : Bytes
  pub server_name : Bytes
  pub skip_verify : Bool

unfoldable pub pool_scheme : UpstreamTlsOptions → Bytes
pool_scheme tls =
    if not tls.enable
    then []
    else if tls.skip_verify
    then ascii "tls/insecure|"
    else ascii "tls/" ++ (tls.ca_file ++ (b'|' ∷ (tls.server_name ++ b'|' ∷ [])))

-- How a connection was secured.
pub data Policy : Type 0 where
  plaintext unverified : Policy
  verified : Bytes → Bytes → Policy

pub policy : UpstreamTlsOptions → Policy
policy tls =
    if not tls.enable
    then plaintext
    else if tls.skip_verify
    then unverified
    else verified tls.ca_file tls.server_name

-- No bar in the names that the key joins, and no colon in the host.
pub record IsPlain (tls : UpstreamTlsOptions) (host : Bytes) : Type 0 where
  pub ca_file : free_of b'|' tls.ca_file ≡ true
  pub server_name : free_of b'|' tls.server_name ≡ true
  pub host_bar : free_of b'|' host ≡ true
  pub host_colon : free_of b':' host ≡ true

abbrev scheme_of : Policy → Bytes
scheme_of plaintext = []
scheme_of unverified = ascii "tls/insecure|"
scheme_of (verified ca name) = ascii "tls/" ++ (ca ++ (b'|' ∷ (name ++ b'|' ∷ [])))

pool_scheme-policy : (tls : UpstreamTlsOptions) → pool_scheme tls ≡ scheme_of (policy tls)
unfolding pool_scheme policy
pool_scheme-policy tls = ground arith

-- The parts of a key that hold no bar.
abbrev PlainPolicy : Policy → Type 0
PlainPolicy plaintext = Unit {0}
PlainPolicy unverified = Unit {0}
PlainPolicy (verified ca name) = (free_of b'|' ca ≡ true) × (free_of b'|' name ≡ true)

abbrev address : Bytes → ℤ → Bytes
address host port = host ++ (b':' ∷ to_string port)

free_of-address :
    (host : Bytes) (port : ℤ) → free_of b'|' host ≡ true → free_of b'|' (address host port) ≡ true
free_of-address host port h =
    all-append (λ x. not (x == b'|')) host (b':' ∷ to_string port) h
      (free_of-to_string b'|' port refl refl)

abbrev Same : Policy → Policy → Bytes → Bytes → ℤ → ℤ → Type 0
Same p q host host' port port' = (p ≡ q) × (host ≡ host') × (port ≡ port')

bare : (s a b : Bytes) → free_of b'|' s ≡ true → s ≡ a ++ (b'|' ∷ b) → ⊥
bare s a b h e = not-free_of-join b'|' a b (subst (λ x. free_of b'|' x ≡ true) e h)

verified_key :
    (ca name rest : Bytes)
    → scheme_of (verified ca name) ++ rest
      ≡ (ascii "tls/" ++ ca) ++ (b'|' ∷ (name ++ (b'|' ∷ rest)))
verified_key ca name rest = simp append_assoc

module _ (host host' : Bytes) (port port' : ℤ) (bar : free_of b'|' host ≡ true)
    (bar' : free_of b'|' host' ≡ true) (colon : free_of b':' host ≡ true)
    (colon' : free_of b':' host' ≡ true) where
  address-injective : address host port ≡ address host' port' → (host ≡ host') × (port ≡ port')
  address-injective e =
      let (hosts, ports) = join-injective b':' host host' _ _ colon colon' e in
      (hosts, to_string-injective port port' ports)

  no_bar : free_of b'|' (address host port) ≡ true
  no_bar = free_of-address host port bar

  no_bar' : free_of b'|' (address host' port') ≡ true
  no_bar' = free_of-address host' port' bar'

  key-injective :
      (p q : Policy)
      → PlainPolicy p
      → PlainPolicy q
      → scheme_of p ++ address host port ≡ scheme_of q ++ address host' port'
      → Same p q host host' port port'
  key-injective plaintext plaintext f g e = (refl, (address-injective e).0, (address-injective e).1)
  key-injective plaintext unverified f g e = absurd (bare _ (ascii "tls/insecure") _ no_bar e)
  key-injective plaintext (verified ca name) f g e =
      absurd (bare _ (ascii "tls/" ++ ca) _ no_bar (e ∙ verified_key ca name _))
  key-injective unverified plaintext f g e =
      absurd (bare _ (ascii "tls/insecure") _ no_bar' (sym e))
  key-injective unverified unverified f g e =
      let rest : address host port ≡ address host' port' = cc in
      (refl, (address-injective rest).0, (address-injective rest).1)
  key-injective unverified (verified ca name) f g e =
      let (_, rest) =
        join-injective b'|' (ascii "tls/insecure") (ascii "tls/" ++ ca) _ _ refl g.0
          (e ∙ verified_key ca name _) in
      absurd (bare _ name _ no_bar rest)
  key-injective (verified ca name) plaintext f g e =
      absurd (bare _ (ascii "tls/" ++ ca) _ no_bar' (sym e ∙ verified_key ca name _))
  key-injective (verified ca name) unverified f g e =
      let (_, rest) =
        join-injective b'|' (ascii "tls/insecure") (ascii "tls/" ++ ca) _ _ refl f.0
          (sym e ∙ verified_key ca name _) in
      absurd (bare _ name _ no_bar' rest)
  key-injective (verified ca name) (verified ca' name') f g e =
      let (cas, rest) =
        join-injective b'|' (ascii "tls/" ++ ca) (ascii "tls/" ++ ca') _ _ f.0 g.0
          (sym (verified_key ca name _) ∙ e ∙ verified_key ca' name' _) in
      let (names, addresses) = join-injective b'|' name name' _ _ f.1 g.1 rest in
      let same : ca ≡ ca' = cc cas in
      (cc (same, names), (address-injective addresses).0, (address-injective addresses).1)

policy-PlainPolicy :
    (tls : UpstreamTlsOptions) (host : Bytes) → IsPlain tls host → PlainPolicy (policy tls)
unfolding policy
policy-PlainPolicy tls host h = elim (Bool-cases tls.enable) [
  | inr off ↦ rw off tt
  | inl on ↦ elim (Bool-cases tls.skip_verify) [
    | inl skip ↦ rw on (rw skip tt)
    | inr check ↦ rw on (rw check (h.ca_file, h.server_name))
  ]
]

-- Two requests can share a pooled connection only if they secure it in the same way (not at all,
-- without verification, or verified against the same trust store for the same name) and go to the
-- same host and port: none of the names holds a bar, and no host a colon.
pub pool_key-injective :
    (tls tls' : UpstreamTlsOptions) (host host' : Bytes) (port port' : ℤ)
    → IsPlain tls host
    → IsPlain tls' host'
    → pool_key host port (pool_scheme tls) ≡ pool_key host' port' (pool_scheme tls')
    → (policy tls ≡ policy tls') × (host ≡ host') × (port ≡ port')
unfolding pool_key
pool_key-injective tls tls' host host' port port' h h' e =
    key-injective host host' port port' h.host_bar h'.host_bar h.host_colon h'.host_colon
      (policy tls) (policy tls') (policy-PlainPolicy tls host h) (policy-PlainPolicy tls' host' h')
      (ap (λ s. s ++ address host port) (sym (pool_scheme-policy tls))
        ∙ e
        ∙ ap (λ s. s ++ address host' port') (pool_scheme-policy tls'))
