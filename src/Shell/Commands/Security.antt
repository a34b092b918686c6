-- ===== src/Shell/Commands/Security.antt =====
-- When the tab is shown as secure.
use seaturtle.Common.{
  ℕ, ◌≤◌, ◌≡◌, refl, sym, ap, ◌∙◌, ◌≢◌, ◌↔◌, ◌⊎◌, inl, inr, Bool, true, false, not, Option, none,
  some, arith, ltb, ◌==◌, if◌then◌else◌, Bool-cases,
}
use seaturtle.Url.{UrlApi, krypton_scheme}
use seaturtle.Shell.Commands.{
  SslStatus, NavigationEntry, Page, ssl_status, bits_below_128, ssl_status_of_entry,
  get_ssl_status_of,
}

-- A certificate was checked, with a cipher suite, at least 128 bits, and TLS 1.0 or later.
abbrev pub IsStrong : ℕ → SslStatus → Type 0
IsStrong ssl_version_tls1 ssl =
    (ssl.is_authenticated ≡ true)
    × ((bits : ℕ) × (ssl.security_bits ≡ some bits) × (128 ≤ bits))
    × (ssl.cipher_suite ≢ 0)
    × (ssl_version_tls1 ≤ ssl.ssl_version)

-- There is no page yet, the page is one of the program's own, or its connection is strong.
abbrev pub IsTrusted : {Gurl : Type 0} → UrlApi Gurl → ℕ → Option (NavigationEntry Gurl) → Type 0
IsTrusted api tls1 none = Unit
IsTrusted api tls1 (some ne) =
    (api.scheme_is ne.entry_url krypton_scheme ≡ true) ⊎ IsStrong tls1 ne.ssl

-- The tests behind the one for the scheme, in the code's order.
abbrev is_weak : Bool → Option ℕ → ℕ → ℕ → ℕ → Bool
is_weak authenticated bits suite version tls1 =
    if not authenticated
    then true
    else if bits_below_128 bits
    then true
    else if suite == 0
    then true
    else ltb version tls1

is_weak_iff :
    (authenticated : Bool) (bits : Option ℕ) (suite version tls1 : ℕ)
    → (is_weak authenticated bits suite version tls1 ≡ false) ↔ (
        (authenticated ≡ true)
        × ((n : ℕ) × (bits ≡ some n) × (128 ≤ n))
        × (suite ≢ 0)
        × (tls1 ≤ version))
is_weak_iff false bits suite version tls1 = (λ e. cc, λ (auth, _, _, _). cc)
is_weak_iff true none suite version tls1 = (λ e. cc, λ (_, (n, e, _), _, _). cc)
is_weak_iff true (some n) suite version tls1 = (
  λ e. (refl, (n, refl, ground (arith, e)), ground (arith, e), ground (arith, e)),
  λ (_, (m, e, enough), some_suite, late).
      let same : n ≡ m = cc in ground (arith, same, enough, some_suite, late),
)

status-eq :
    {Gurl : Type 0} (api : UrlApi Gurl) (tls1 : ℕ) (ne : NavigationEntry Gurl)
    → ssl_status_of_entry api tls1 (some ne)
      ≡ ssl_status (
          if api.scheme_is ne.entry_url krypton_scheme
          then false
          else is_weak ne.ssl.is_authenticated ne.ssl.security_bits ne.ssl.cipher_suite
              ne.ssl.ssl_version tls1)
status-eq api tls1 ne = ground arith

insecure-eq_iff : (a : Bool) → (ssl_status a ≡ ssl_status false) ↔ (a ≡ false)
insecure-eq_iff a = (λ e. cc, λ e. cc)

-- A tab is shown as secure exactly when it has no page yet, its page is one of the program's own, or
-- the page came over a connection with a checked certificate, a cipher suite, 128 bits or more, and
-- TLS 1.0 or later.
pub get_ssl_status-IsTrusted_iff :
    {Gurl : Type 0} (api : UrlApi Gurl) (tls1 : ℕ) (page : Page Gurl)
    → (get_ssl_status_of api tls1 page ≡ ssl_status false) ↔ IsTrusted api tls1 page.last_committed
unfolding get_ssl_status_of
get_ssl_status-IsTrusted_iff api tls1 page = entry_iff page.last_committed
  where
    entry_iff :
        (o : Option (NavigationEntry _))
        → (ssl_status_of_entry api tls1 o ≡ ssl_status false) ↔ IsTrusted api tls1 o
    entry_iff none = (λ e. tt, λ t. refl)
    entry_iff (some ne) = elim (Bool-cases (api.scheme_is ne.entry_url krypton_scheme)) [
      | inl own ↦ (λ e. inl own, λ _. status-eq api tls1 ne ∙ ap ssl_status (rw own refl))
      | inr foreign ↦
          let weak : Bool =
            is_weak ne.ssl.is_authenticated ne.ssl.security_bits ne.ssl.cipher_suite
              ne.ssl.ssl_version tls1 in
          let weak_iff =
            is_weak_iff ne.ssl.is_authenticated ne.ssl.security_bits ne.ssl.cipher_suite
              ne.ssl.ssl_version tls1 in
          let step : ssl_status_of_entry api tls1 (some ne) ≡ ssl_status weak =
            status-eq api tls1 ne ∙ ap ssl_status (rw foreign refl) in
          (
            λ e. inr (weak_iff.0 ((insecure-eq_iff weak).0 (sym step ∙ e))),
            λ t. elim t [
              | inl own ↦ absurd (cc (sym own ∙ foreign))
              | inr strong ↦ step ∙ (insecure-eq_iff weak).1 (weak_iff.1 strong)
            ],
          )
    ]
