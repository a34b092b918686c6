-- ===== src/Rewriter/Keys.antt =====
-- Which rule set each host has after an update of the https rules, and whose strings the keys of the
-- hash maps point into.
use seaturtle.Common.{
  ℕ, suc, ◌≤◌, ◌<◌, ◌≡◌, refl, sym, ap, ◌∙◌, ◌↔◌, inl, inr, Bool, true, false, not, Option, none,
  some, List, [], ◌∷◌, arith, ◌==◌, ==_iff, if◌then◌else◌, Bool-cases, is_empty, drop, Bytes,
  bytes_eq, bytes_eq_iff, find_byte, lookup, lookup-insert, ok, check, >>=-eq-ok,
}
use seaturtle.Rewriter.{
  RuleSet, Re2Api, CompiledRuleSet, HttpsRewriter, KeyOwner, KeyOwners, next_owner, own_key,
  compile_rules, add_host, add_hosts, add_rule_sets, update_rules,
}
use seaturtle.Rewriter.Update.{
  names_exact, names_super, lists_exact, lists_super, last_listing, lookup-hosts,
}

-- How many rule sets list the host, by one of the two kinds of entries.
abbrev pub count_listing : (Bytes → List Bytes → Bool) → Bytes → List RuleSet → ℕ
count_listing lists h [] = 0
count_listing lists h (rs ∷ rl) =
    let rest = count_listing lists h rl in if lists h rs.hosts then suc rest else rest

abbrev touch : ℕ → Option KeyOwner → Option KeyOwner
touch i o = some (next_owner i o)

touch_twice : (i : ℕ) (o : Option KeyOwner) → touch i (touch i o) ≡ touch i o
touch_twice i none = refl
touch_twice i (some owner) = refl

-- The owner of one key, followed through the rule sets.
follow : (Bytes → List Bytes → Bool) → Bytes → ℕ → List RuleSet → Option KeyOwner → Option KeyOwner
follow lists h i [] o = o
follow lists h i (rs ∷ rl) o = follow lists h (suc i) rl (if lists h rs.hosts then touch i o else o)

lookup-own_key :
    (i : ℕ) (host h : Bytes) (m : KeyOwners)
    → lookup h (own_key i host m) ≡ (if bytes_eq host h then touch i (lookup h m) else lookup h m)
unfolding own_key
lookup-own_key i host h m =
    ground (arith, bytes_eq_iff host h, lookup-insert host h (next_owner i (lookup host m)) m)

module _ {Re : Type 0} (re2 : Re2Api Re) where
  add_host-owners :
      (i : ℕ) (host : Bytes) (crs : CompiledRuleSet Re) (r r' : HttpsRewriter Re) (h : Bytes)
      → add_host re2 i host crs r ≡ ok r'
      → (lookup h r'.exact_owners ≡ (
          if names_exact (find_byte b'*' host) host h
          then touch i (lookup h r.exact_owners)
          else lookup h r.exact_owners))
        × (lookup h r'.super_owners ≡ (
            if names_super (find_byte b'*' host) host h
            then touch i (lookup h r.super_owners)
            else lookup h r.super_owners))
  unfolding add_host
  add_host-owners i host crs r r' h e = ground (
    arith,
    lookup-own_key i host h r.exact_owners,
    lookup-own_key i (drop 2 host) h r.super_owners,
  )

  add_hosts-owners :
      (i : ℕ) (hosts : List Bytes) (crs : CompiledRuleSet Re) (r r' : HttpsRewriter Re) (h : Bytes)
      → add_hosts re2 i hosts crs r ≡ ok r'
      → (lookup h r'.exact_owners ≡ (
          if lists_exact h hosts
          then touch i (lookup h r.exact_owners)
          else lookup h r.exact_owners))
        × (lookup h r'.super_owners ≡ (
            if lists_super h hosts
            then touch i (lookup h r.super_owners)
            else lookup h r.super_owners))
  unfolding add_hosts
  add_hosts-owners i [] crs r r' h e = ground arith
  add_hosts-owners i (host ∷ hosts) crs r r' h e =
      let (r1, first, rest) = >>=-eq-ok (add_host re2 i host crs r) (add_hosts re2 i hosts crs) e in
      ground (
        arith,
        add_host-owners i host crs r r1 h first,
        add_hosts-owners i hosts crs r1 r' h rest,
        touch_twice i (lookup h r.exact_owners),
        touch_twice i (lookup h r.super_owners),
      )

  add_rule_sets-owners :
      (i : ℕ) (rl : List RuleSet) (r r' : HttpsRewriter Re) (h : Bytes)
      → add_rule_sets re2 i rl r ≡ ok r'
      → (lookup h r'.exact_owners ≡ follow lists_exact h i rl (lookup h r.exact_owners))
        × (lookup h r'.super_owners ≡ follow lists_super h i rl (lookup h r.super_owners))
  unfolding add_rule_sets follow
  add_rule_sets-owners i [] r r' h e = ground arith
  add_rule_sets-owners i (rs ∷ rl) r r' h e =
      let (crs, compiles, e1) = >>=-eq-ok (compile_rules re2 rs.rules) _ e in
      let (_, full, e2) = >>=-eq-ok (check (not (is_empty crs))) _ e1 in
      let (r1, added, e3) =
        >>=-eq-ok (add_hosts re2 i rs.hosts crs r) (add_rule_sets re2 (suc i) rl) e2 in
      let (exact, super) = add_hosts-owners i rs.hosts crs r r1 h added in
      let (exact', super') = add_rule_sets-owners (suc i) rl r1 r' h e3 in
      (
        exact' ∙ ap (follow lists_exact h (suc i) rl) exact,
        super' ∙ ap (follow lists_super h (suc i) rl) super,
      )

module _ (lists : Bytes → List Bytes → Bool) (h : Bytes) where
  -- The number of the last rule set that lists the host, `held` if none does.
  last_set : ℕ → List RuleSet → ℕ → ℕ
  last_set i [] held = held
  last_set i (rs ∷ rl) held = last_set (suc i) rl (if lists h rs.hosts then i else held)

  follow-some :
      (i : ℕ) (rl : List RuleSet) (owner : KeyOwner)
      → follow lists h i rl (some owner) ≡ some (record owner { held = last_set i rl owner.held })
  unfolding follow last_set
  follow-some i [] owner = refl
  follow-some i (rs ∷ rl) owner = elim (Bool-cases (lists h rs.hosts)) [
    | inl on ↦ rw on (follow-some (suc i) rl (record owner { held = i }))
    | inr off ↦ rw off (follow-some (suc i) rl owner)
  ]

  last_set_bounds :
      (i : ℕ) (rl : List RuleSet) (held : ℕ)
      → ((count_listing lists h rl ≡ 0) → last_set i rl held ≡ held)
        × (1 ≤ count_listing lists h rl → i ≤ last_set i rl held)
  unfolding last_set
  last_set_bounds i [] held = (λ _. refl, λ l. absurd (omega arith))
  last_set_bounds i (rs ∷ rl) held =
      ground (arith, last_set_bounds (suc i) rl i, last_set_bounds (suc i) rl held)

  follow-none_bounds :
      (i : ℕ) (rl : List RuleSet) (owner : KeyOwner)
      → follow lists h i rl none ≡ some owner
      → (owner.key_in ≤ owner.held) × ((owner.key_in < owner.held) ↔ (2 ≤ count_listing lists h rl))
  unfolding follow
  follow-none_bounds i [] owner e = cc
  follow-none_bounds i (rs ∷ rl) owner e = elim (Bool-cases (lists h rs.hosts)) [
    | inl on ↦ ground (
      arith,
      on,
      follow-some (suc i) rl (record { key_in = i; held = i }),
      last_set_bounds (suc i) rl i,
    )
    | inr off ↦ rw off (follow-none_bounds (suc i) rl owner (rw off at e))
  ]

-- The slot, if there is one, keeps the rule set alive whose string is its key.
abbrev pub owner_is_held : Option KeyOwner → Bool
owner_is_held none = true
owner_is_held (some owner) = owner.key_in == owner.held

module _ (lists : Bytes → List Bytes → Bool) (h : Bytes) where
  follow-none :
      (i : ℕ) (rl : List RuleSet) → follow lists h i rl none ≡ none → count_listing lists h rl ≡ 0
  unfolding follow
  follow-none i [] e = refl
  follow-none i (rs ∷ rl) e = elim (Bool-cases (lists h rs.hosts)) [
    | inl on ↦
        ground (arith, on, e, follow-some lists h (suc i) rl (record { key_in = i; held = i }))
    | inr off ↦ rw off (follow-none (suc i) rl (rw off at e))
  ]

  lost_iff :
      (i : ℕ) (rl : List RuleSet) (found : Option KeyOwner)
      → follow lists h i rl none ≡ found
      → (owner_is_held found ≡ false) ↔ (2 ≤ count_listing lists h rl)
  lost_iff i rl none e = let zero = follow-none i rl e in (λ x. cc, λ l. absurd (omega arith))
  lost_iff i rl (some owner) e =
      let (older, freed) = follow-none_bounds lists h i rl owner e in
      ground (arith, older, freed, ==_iff owner.key_in owner.held)

-- After an update that does not abort, the slot of a host, among the exact hosts or the super hosts,
-- no longer keeps the rule set alive whose string is its key exactly when two rule sets or more list
-- the host by an entry of this kind.
pub owner_is_lost_iff :
    {Re : Type 0} (re2 : Re2Api Re) (rl : List RuleSet) (r : HttpsRewriter Re) (h : Bytes)
    → update_rules re2 rl ≡ ok r
    → ((owner_is_held (lookup h r.exact_owners) ≡ false) ↔ (2 ≤ count_listing lists_exact h rl))
      × ((owner_is_held (lookup h r.super_owners) ≡ false) ↔ (2 ≤ count_listing lists_super h rl))
unfolding update_rules lookup
owner_is_lost_iff re2 rl r h e =
    let (exact, super) = add_rule_sets-owners re2 0 rl _ r h e in
    (lost_iff lists_exact h 0 rl _ (sym exact), lost_iff lists_super h 0 rl _ (sym super))

-- Where no two rule sets list one host by entries of one kind, an update that does not abort leaves
-- each slot with the owner of its key, and each host with the rules of the rule set that lists it, if
-- any: among the exact hosts by an entry without a star, and among the super hosts by an entry that
-- begins with a star, of which the first two bytes are cut off.
pub lookup-update_rules :
    {Re : Type 0} (re2 : Re2Api Re) (rl : List RuleSet) (r : HttpsRewriter Re)
    → ((h : Bytes) → count_listing lists_exact h rl ≤ 1)
    → ((h : Bytes) → count_listing lists_super h rl ≤ 1)
    → update_rules re2 rl ≡ ok r
    → (h : Bytes)
    → ((owner_is_held (lookup h r.exact_owners) ≡ true)
        × (lookup h r.exact_host ≡ last_listing re2 lists_exact h rl none))
      × ((owner_is_held (lookup h r.super_owners) ≡ true)
          × (lookup h r.super_host ≡ last_listing re2 lists_super h rl none))
lookup-update_rules re2 rl r once_exact once_super e h =
    let (exact, super) = lookup-hosts re2 rl r h e in
    let (exact_lost, super_lost) = owner_is_lost_iff re2 rl r h e in
    (
      (ground (arith, exact_lost, once_exact h), exact),
      (ground (arith, super_lost, once_super h), super),
    )
