-- ===== src/Url.antt =====
-- What the program uses of Chromium's `GURL`, `net` and `content`, which are not in the repository.
use seaturtle.Common.{ℕ, List, Option, Bytes, Bool, lit}

-- The accessors of `GURL`. `parse` is the constructor from a string.
pub record UrlApi (Gurl : Type 0) : Type 0 where
  pub parse : Bytes → Gurl
  pub is_valid : Gurl → Bool
  pub spec : Gurl → Bytes
  pub scheme_is : Gurl → Bytes → Bool
  pub host : Gurl → Bytes
  pub path : Gurl → Bytes
  pub domain_is : Gurl → Bytes → Bool

-- extra/constants.cc
abbrev pub krypton_scheme : Bytes
krypton_scheme = lit "krypton"

-- The error codes of net that the code returns.
pub data NetError : Type 0 where
  net_ok err_blocked_by_client err_unsafe_redirect : NetError

-- What the code uses of `net::URLRequest`. `prev_rewrites` is the user data under
-- "seaturtle-https-rewrite", `none` before any is set; `is_autocomplete` says that there is user data
-- under "seaturtle-autocomplete-request"; `view` is the child and route id of its
-- ResourceRequestInfo, `none` where it has no such info.
pub record Request (Gurl : Type 0) : Type 0 where
  pub url : Gurl
  pub first_party_for_cookies : Gurl
  pub prev_rewrites : Option (List Bytes)
  pub is_autocomplete : Bool
  pub view : Option (ℕ × ℕ)
  pub referrer : Bytes
