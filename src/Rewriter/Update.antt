-- ===== src/Rewriter/Update.antt =====
-- The rules in the slots of the hosts after an update of the https rules, and which updates abort.
use seaturtle.Common.{
  ℕ, zero, suc, ◌≡◌, refl, ap, ◌∙◌, inl, inr, Bool, true, false, ◌&&◌, ◌||◌, not, Option, none,
  some, List, [], ◌∷◌, arith, leb, if◌then◌else◌, Option-cases, is_some, is_empty, length, drop,
  Bytes, bytes_eq, find_byte, lookup, lookup-insert, Abort, ok, crash, ◌>>=◌, check, >>=-eq-ok,
}
use seaturtle.Rewriter.{
  HttpsRule, RuleSet, Re2Api, CompiledRuleSet, HttpsRewriter, compile_rules, add_host, add_hosts,
  add_rule_sets, update_rules,
}

abbrev pub is_ok {ℓ} : {A : Type ℓ} → Abort A → Bool
is_ok (ok a) = true
is_ok crash = false

-- The place of the first star in the host, if any, is the first byte, and a byte follows.
abbrev pub host_is_good : Option ℕ → Bytes → Bool
host_is_good none host = true
host_is_good (some zero) host = leb 2 (length host)
host_is_good (some (suc pos)) host = false

abbrev pub names_exact : Option ℕ → Bytes → Bytes → Bool
names_exact none host h = bytes_eq host h
names_exact (some pos) host h = false

abbrev pub names_super : Option ℕ → Bytes → Bytes → Bool
names_super none host h = false
names_super (some pos) host h = bytes_eq (drop 2 host) h

-- Some entry without a star is `h`.
abbrev pub lists_exact : Bytes → List Bytes → Bool
lists_exact h [] = false
lists_exact h (host ∷ hosts) = names_exact (find_byte b'*' host) host h || lists_exact h hosts

-- Some entry with a star has `h` behind its first two bytes.
abbrev pub lists_super : Bytes → List Bytes → Bool
lists_super h [] = false
lists_super h (host ∷ hosts) = names_super (find_byte b'*' host) host h || lists_super h hosts

abbrev pub all_hosts_good : List Bytes → Bool
all_hosts_good [] = true
all_hosts_good (host ∷ hosts) = host_is_good (find_byte b'*' host) host && all_hosts_good hosts

abbrev both :
    {Re : Type 0} → Bytes → Option Re → Option (CompiledRuleSet Re) → Option (CompiledRuleSet Re)
both to (some re) (some rest) = some ((re, to) ∷ rest)
both to (some re) none = none
both to none rest = none

module _ {Re : Type 0} (re2 : Re2Api Re) where
  -- The compiled rules, `none` if RE2 refuses one of them.
  abbrev pub compiled : List HttpsRule → Option (CompiledRuleSet Re)
  compiled [] = some []
  compiled (rule ∷ rules) = both rule.to (re2.compile rule.from) (compiled rules)

  -- The rules of the last rule set that lists the host, by one of the two kinds of entries.
  abbrev pub last_listing :
      (Bytes → List Bytes → Bool)
      → Bytes
      → List RuleSet
      → Option (CompiledRuleSet Re)
      → Option (CompiledRuleSet Re)
  last_listing lists h [] o = o
  last_listing lists h (rs ∷ rl) o =
      last_listing lists h rl (if lists h rs.hosts then compiled rs.rules else o)

  compile_rules-ok :
      (rules : List HttpsRule) (crs : CompiledRuleSet Re)
      → compile_rules re2 rules ≡ ok crs
      → compiled rules ≡ some crs
  unfolding compile_rules
  compile_rules-ok [] crs h = cc
  compile_rules-ok (rule ∷ rules) crs h = elim (Option-cases (re2.compile rule.from)) [
    | inl e ↦ ground (arith, e, h)
    | inr (re, e) ↦
        let (rest, first, last) =
          >>=-eq-ok (compile_rules re2 rules) (λ rest. ok ((re, rule.to) ∷ rest))
            (rw (e, compile_rules) at h) in
        ground (arith, e, compile_rules-ok rules rest first, last)
  ]

  add_host-ok :
      (i : ℕ) (host : Bytes) (crs : CompiledRuleSet Re) (r r' : HttpsRewriter Re) (h : Bytes)
      → add_host re2 i host crs r ≡ ok r'
      → (lookup h r'.exact_host
          ≡ (if names_exact (find_byte b'*' host) host h then some crs else lookup h r.exact_host))
        × (lookup h r'.super_host ≡ (
            if names_super (find_byte b'*' host) host h then some crs else lookup h r.super_host))
  unfolding add_host
  add_host-ok i host crs r r' h e =
      ground (
        arith,
        lookup-insert host h crs r.exact_host,
        lookup-insert (drop 2 host) h crs r.super_host,
      )

  add_hosts-ok :
      (i : ℕ) (hosts : List Bytes) (crs : CompiledRuleSet Re) (r r' : HttpsRewriter Re) (h : Bytes)
      → add_hosts re2 i hosts crs r ≡ ok r'
      → (lookup h r'.exact_host ≡ (if lists_exact h hosts then some crs else lookup h r.exact_host))
        × (lookup h r'.super_host
            ≡ (if lists_super h hosts then some crs else lookup h r.super_host))
  unfolding add_hosts
  add_hosts-ok i [] crs r r' h e = ground arith
  add_hosts-ok i (host ∷ hosts) crs r r' h e =
      let (r1, first, rest) = >>=-eq-ok (add_host re2 i host crs r) (add_hosts re2 i hosts crs) e in
      ground (arith, add_host-ok i host crs r r1 h first, add_hosts-ok i hosts crs r1 r' h rest)

  add_rule_sets-ok :
      (i : ℕ) (rl : List RuleSet) (r r' : HttpsRewriter Re) (h : Bytes)
      → add_rule_sets re2 i rl r ≡ ok r'
      → (lookup h r'.exact_host ≡ last_listing lists_exact h rl (lookup h r.exact_host))
        × (lookup h r'.super_host ≡ last_listing lists_super h rl (lookup h r.super_host))
  unfolding add_rule_sets
  add_rule_sets-ok i [] r r' h e = ground arith
  add_rule_sets-ok i (rs ∷ rl) r r' h e =
      let (crs, compiles, e1) = >>=-eq-ok (compile_rules re2 rs.rules) _ e in
      let (_, full, e2) = >>=-eq-ok (check (not (is_empty crs))) _ e1 in
      let (r1, added, e3) =
        >>=-eq-ok (add_hosts re2 i rs.hosts crs r) (add_rule_sets re2 (suc i) rl) e2 in
      let (exact, super) = add_hosts-ok i rs.hosts crs r r1 h added in
      let (exact', super') = add_rule_sets-ok (suc i) rl r1 r' h e3 in
      rw (compile_rules-ok rs.rules crs compiles) (
        exact' ∙ ap (last_listing lists_exact h rl) exact,
        super' ∙ ap (last_listing lists_super h rl) super,
      )

-- The rules in the slots, for keys that are compared as the strings that they were made from.
pub lookup-hosts :
    {Re : Type 0} (re2 : Re2Api Re) (rl : List RuleSet) (r : HttpsRewriter Re) (h : Bytes)
    → update_rules re2 rl ≡ ok r
    → (lookup h r.exact_host ≡ last_listing re2 lists_exact h rl none)
      × (lookup h r.super_host ≡ last_listing re2 lists_super h rl none)
unfolding update_rules lookup
lookup-hosts re2 rl r h e = add_rule_sets-ok re2 0 rl _ r h e

-- The rules of the set are there and RE2 takes them all, and so is each host.
abbrev pub is_full : {Re : Type 0} → Option (CompiledRuleSet Re) → Bool
is_full none = false
is_full (some []) = false
is_full (some (rule ∷ rules)) = true

abbrev pub all_rule_sets_good : {Re : Type 0} → Re2Api Re → List RuleSet → Bool
all_rule_sets_good re2 [] = true
all_rule_sets_good re2 (rs ∷ rl) =
    is_full (compiled re2 rs.rules) && (all_hosts_good rs.hosts && all_rule_sets_good re2 rl)

is_ok-bind {ℓ κ} :
    {A : Type ℓ} {B : Type κ} (m : Abort A) (k : A → Abort B) (b : Bool)
    → ((a : A) → m ≡ ok a → is_ok (k a) ≡ b)
    → is_ok (m >>= k) ≡ (is_ok m && b)
is_ok-bind (ok a) k b h = h a refl
is_ok-bind crash k b h = refl

check_full :
    {Re : Type 0} (crs : CompiledRuleSet Re)
    → is_ok (check (not (is_empty crs))) ≡ is_full (some crs)
check_full [] = refl
check_full (rule ∷ crs) = refl

full_is_some :
    {Re : Type 0} (o : Option (CompiledRuleSet Re)) (b : Bool)
    → (is_some o && (is_full o && b)) ≡ (is_full o && b)
full_is_some none b = refl
full_is_some (some crs) b = refl

module _ {Re : Type 0} (re2 : Re2Api Re) where
  add_host-is_ok :
      (i : ℕ) (host : Bytes) (crs : CompiledRuleSet Re) (r : HttpsRewriter Re)
      → is_ok (add_host re2 i host crs r) ≡ host_is_good (find_byte b'*' host) host
  unfolding add_host
  add_host-is_ok i host crs r = ground arith

  compile_rules-is_ok :
      (rules : List HttpsRule) → is_ok (compile_rules re2 rules) ≡ is_some (compiled re2 rules)
  unfolding compile_rules
  compile_rules-is_ok [] = refl
  compile_rules-is_ok (rule ∷ rules) = ground (arith, compile_rules-is_ok rules)

  add_hosts-is_ok :
      (i : ℕ) (hosts : List Bytes) (crs : CompiledRuleSet Re) (r : HttpsRewriter Re)
      → is_ok (add_hosts re2 i hosts crs r) ≡ all_hosts_good hosts
  unfolding add_hosts
  add_hosts-is_ok i [] crs r = refl
  add_hosts-is_ok i (host ∷ hosts) crs r =
      is_ok-bind (add_host re2 i host crs r) (add_hosts re2 i hosts crs) (all_hosts_good hosts)
        (λ r1 _. add_hosts-is_ok i hosts crs r1)
      ∙ ap (λ b. b && all_hosts_good hosts) (add_host-is_ok i host crs r)

  add_rule_sets-is_ok :
      (i : ℕ) (rl : List RuleSet) (r : HttpsRewriter Re)
      → is_ok (add_rule_sets re2 i rl r) ≡ all_rule_sets_good re2 rl
  unfolding add_rule_sets
  add_rule_sets-is_ok i [] r = refl
  add_rule_sets-is_ok i (rs ∷ rl) r =
      let good = all_hosts_good rs.hosts && all_rule_sets_good re2 rl in
      is_ok-bind (compile_rules re2 rs.rules) _ (is_full (compiled re2 rs.rules) && good) (λ crs e.
        is_ok-bind (check (not (is_empty crs))) _ good (λ _ _.
          is_ok-bind (add_hosts re2 i rs.hosts crs r) (add_rule_sets re2 (suc i) rl)
            (all_rule_sets_good re2 rl) (λ r1 _. add_rule_sets-is_ok (suc i) rl r1)
          ∙ ap (λ b. b && all_rule_sets_good re2 rl) (add_hosts-is_ok i rs.hosts crs r))
        ∙ ap (λ b. b && good) (rw (compile_rules-ok re2 rs.rules crs e) (check_full crs)))
      ∙ ap (λ b. b && (is_full (compiled re2 rs.rules) && good)) (compile_rules-is_ok rs.rules)
      ∙ full_is_some (compiled re2 rs.rules) good

-- An update aborts the process unless every rule set has at least one rule, RE2 takes all its rules,
-- and each of its hosts has no star, or its first star in front with a byte at least behind it.
pub is_ok-update_rules :
    {Re : Type 0} (re2 : Re2Api Re) (rl : List RuleSet)
    → is_ok (update_rules re2 rl) ≡ all_rule_sets_good re2 rl
unfolding update_rules
is_ok-update_rules re2 rl = add_rule_sets-is_ok re2 0 rl _
