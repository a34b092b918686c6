-- ===== src/Blocker.antt =====
-- block/blocker.h and block/blocker.cc: the whitelist, the blacklist of third parties and the
-- style sheets that hide page elements. The state is here, a child has each operation family.
pub mod Whitelist
pub mod Blacklist
pub mod Stylesheets
pub mod Loading
mod Tests
use seaturtle.Common.{ℕ, Bool, List, [], Bytes}

-- jni::WhitelistedHost
pub record WhitelistedHost : Type 0 where
  pub host : Bytes
  pub paths : List Bytes

-- blocking::Rule
pub record Rule : Type 0 where
  pub domain : Bytes
  pub selector : Bytes
  pub block_third_party : Bool

-- What a slot of `domain_blacklist_` keeps besides the bytes of its key. Each `new std::string` of
-- one update is named by the place of its rule in the list: `key_in` is the string that the key
-- (a StringPiece) points into, `held` the one that the slot's linked_ptr keeps alive.
pub record Backing : Type 0 where
  pub key_in : ℕ
  pub held : ℕ

abbrev pub WhitelistMap : Type 0
WhitelistMap = List (Bytes × List Bytes)

abbrev pub DomainBlacklist : Type 0
DomainBlacklist = List (Bytes × Backing)

-- A DomainStylesheetMap without the backing of its keys.
abbrev pub DomainStylesheets : Type 0
DomainStylesheets = List (Bytes × Bytes)

-- class Blocker. A `blink::WebString` is `W`.
pub record Blocker (W : Type 0) : Type 0 where
  pub file_path : Bytes
  pub domain_blacklist : DomainBlacklist
  pub global_stylesheets : List W
  pub domain_stylesheets : DomainStylesheets
  pub whitelist : WhitelistMap

-- Blocker::Blocker
pub new_blocker : (W : Type 0) → Blocker W
new_blocker W = record {
  file_path = [];
  domain_blacklist = [];
  global_stylesheets = [];
  domain_stylesheets = [];
  whitelist = [];
}
