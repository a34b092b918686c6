-- ===== src/Blocker/Whitelist/Laws.antt =====
-- What a whitelist update makes of the hosts that it is given, in the words of the update alone.
use seaturtle.Common.{
  ◌≡◌, refl, ◌↔◌, ◌⊎◌, inl, inr, true, Option, none, some, List, [], ◌∷◌, ◌++◌, map, append-nil,
  append_assoc, arith, if◌then◌else◌, Bool-cases, Option-cases, Bytes, to_lower_ascii, bytes_eq,
  bytes_eq_iff, lookup, lookup-insert, contains, Any, All,
}
use seaturtle.Url.{UrlApi, krypton_scheme}
use seaturtle.Blocker.{WhitelistedHost, WhitelistMap, Blocker}
use seaturtle.Blocker.Whitelist.{add_host, add_hosts, update_whitelist, allows_path, is_whitelisted}

-- The entry is about this host.
abbrev pub IsFor : Bytes → WhitelistedHost → Type 0
IsFor host wh = to_lower_ascii wh.host ≡ host

-- The entry lists this path of this host.
abbrev pub Lists : Bytes → Bytes → WhitelistedHost → Type 0
Lists host path wh = IsFor host wh × Any (λ p. to_lower_ascii p ≡ path) wh.paths

abbrev join : Option (List Bytes) → List Bytes → List Bytes
join none paths = paths
join (some current) paths = current ++ paths

-- The paths that the entries list for a host, in order.
listed : Bytes → List WhitelistedHost → List Bytes
listed host [] = []
listed host (wh ∷ ubw) =
    if bytes_eq (to_lower_ascii wh.host) host
    then map to_lower_ascii wh.paths ++ listed host ubw
    else listed host ubw

lookup-add_host :
    (host : Bytes) (wh : WhitelistedHost) (m : WhitelistMap)
    → lookup host (add_host wh m) ≡ (
        if bytes_eq (to_lower_ascii wh.host) host
        then some (join (lookup host m) (map to_lower_ascii wh.paths))
        else lookup host m)
unfolding add_host
lookup-add_host host wh m =
    let key = to_lower_ascii wh.host in
    let paths = map to_lower_ascii wh.paths in
    elim (Option-cases (lookup key m)) [
      | inl e ↦ ground (arith, e, bytes_eq_iff key host, lookup-insert key host paths m)
      | inr (current, e) ↦
          ground (arith, e, bytes_eq_iff key host, lookup-insert key host (current ++ paths) m)
    ]

add_hosts-some :
    (host : Bytes) (ubw : List WhitelistedHost) (m : WhitelistMap) (ps : List Bytes)
    → lookup host m ≡ some ps
    → lookup host (add_hosts ubw m) ≡ some (ps ++ listed host ubw)
unfolding add_hosts listed
add_hosts-some host [] m ps h = rw (append-nil ps) h
add_hosts-some host (wh ∷ ubw) m ps h = elim (Bool-cases (bytes_eq (to_lower_ascii wh.host) host)) [
  | inl same ↦
      rw (same, ← append_assoc ps (map to_lower_ascii wh.paths) (listed host ubw))
        (add_hosts-some host ubw (add_host wh m) (ps ++ map to_lower_ascii wh.paths)
          (rw (lookup-add_host host wh m, same, h) refl))
  | inr other ↦
      rw other
        (add_hosts-some host ubw (add_host wh m) ps (rw (lookup-add_host host wh m, other) h))
]

-- Either no entry is about the host, or the map holds the paths that the entries list.
add_hosts-none :
    (host : Bytes) (ubw : List WhitelistedHost) (m : WhitelistMap)
    → lookup host m ≡ none
    → ((lookup host (add_hosts ubw m) ≡ none) × (Any (IsFor host) ubw → ⊥))
      ⊎ ((lookup host (add_hosts ubw m) ≡ some (listed host ubw)) × Any (IsFor host) ubw)
unfolding add_hosts listed
add_hosts-none host [] m h = inl (h, λ e. e)
add_hosts-none host (wh ∷ ubw) m h = elim (Bool-cases (bytes_eq (to_lower_ascii wh.host) host)) [
  | inl same ↦ inr (
    rw same (
        add_hosts-some host ubw (add_host wh m) (map to_lower_ascii wh.paths)
          (rw (lookup-add_host host wh m, same, h) refl)),
    inl ((bytes_eq_iff _ host).0 same),
  )
  | inr other ↦
      let ih = add_hosts-none host ubw (add_host wh m) (rw (lookup-add_host host wh m, other) h) in
      let differs : IsFor host wh → ⊥ =
        λ e. ground (arith, e, other, bytes_eq_iff (to_lower_ascii wh.host) host) in
      elim ih [
        | inl (e, absent) ↦
            inl (e, λ a. elim a [ inl here ↦ differs here | inr there ↦ absent there ])
        | inr (e, present) ↦ inr (rw other e, inr present)
      ]
]

contains_iff : (path : Bytes) (ps : List Bytes) → (contains path ps ≡ true) ↔ Any (λ p. p ≡ path) ps
unfolding contains
contains_iff path [] = (λ h. cc, λ h. absurd h)
contains_iff path (p ∷ ps) = ground (arith, bytes_eq_iff p path, contains_iff path ps)

map-append-nil :
    (paths rest : List Bytes) → map to_lower_ascii paths ++ rest ≡ [] → (paths ≡ []) × (rest ≡ [])
map-append-nil [] rest h = (refl, h)
map-append-nil (p ∷ paths) rest h = cc

listed-eq-nil_iff :
    (host : Bytes) (ubw : List WhitelistedHost)
    → (listed host ubw ≡ []) ↔ All (λ wh. IsFor host wh → wh.paths ≡ []) ubw
unfolding listed
listed-eq-nil_iff host [] = (λ h. tt, λ h. refl)
listed-eq-nil_iff host (wh ∷ ubw) =
    let ih = listed-eq-nil_iff host ubw in
    let key = bytes_eq_iff (to_lower_ascii wh.host) host in
    elim (Bool-cases (bytes_eq (to_lower_ascii wh.host) host)) [
      | inl same ↦ rw same (
        λ e. (
          λ _. (map-append-nil wh.paths (listed host ubw) e).0,
          ih.0 (map-append-nil wh.paths (listed host ubw) e).1,
        ),
        λ (here, later). rw (here (key.0 same), ih.1 later) refl,
      )
      | inr other ↦ rw other (
        λ e. (λ same. absurd (ground (arith, same, other, key)), ih.0 e),
        λ (_, later). ih.1 later,
      )
    ]

Any-map-append_iff :
    (path : Bytes) (paths rest : List Bytes)
    → Any (λ p. p ≡ path) (map to_lower_ascii paths ++ rest)
      ↔ (Any (λ p. to_lower_ascii p ≡ path) paths ⊎ Any (λ p. p ≡ path) rest)
Any-map-append_iff path [] rest =
    (λ h. inr h, λ h. elim h [ inl absent ↦ absurd absent | inr r ↦ r ])
Any-map-append_iff path (p ∷ paths) rest =
    let ih = Any-map-append_iff path paths rest in
    (
      λ h. elim h [
        | inl here ↦ inl (inl here)
        | inr later ↦ elim (ih.0 later) [ inl x ↦ inl (inr x) | inr x ↦ inr x ]
      ],
      λ h. elim h [
        | inl (inl here) ↦ inl here
        | inl (inr later) ↦ inr (ih.1 (inl later))
        | inr later ↦ inr (ih.1 (inr later))
      ],
    )

Any-listed_iff :
    (host path : Bytes) (ubw : List WhitelistedHost)
    → Any (λ p. p ≡ path) (listed host ubw) ↔ Any (Lists host path) ubw
unfolding listed
Any-listed_iff host path [] = (λ h. h, λ h. h)
Any-listed_iff host path (wh ∷ ubw) =
    let ih = Any-listed_iff host path ubw in
    let key = bytes_eq_iff (to_lower_ascii wh.host) host in
    let split = Any-map-append_iff path wh.paths (listed host ubw) in
    elim (Bool-cases (bytes_eq (to_lower_ascii wh.host) host)) [
      | inl same ↦ rw same (
        λ h. elim (split.0 h) [ inl here ↦ inl (key.0 same, here) | inr later ↦ inr (ih.0 later) ],
        λ h. split.1 (elim h [ inl here ↦ inl here.1 | inr later ↦ inr (ih.1 later) ]),
      )
      | inr other ↦ rw other (
        λ h. inr (ih.0 h),
        λ h. elim h [
          | inl here ↦ absurd (ground (arith, here.0, other, key))
          | inr later ↦ ih.1 later
        ],
      )
    ]

allows_path_iff :
    (ps : List Bytes) (path : Bytes)
    → (allows_path (some ps) path ≡ true) ↔ ((ps ≡ []) ⊎ Any (λ p. p ≡ path) ps)
allows_path_iff [] path = (λ _. inl refl, λ _. refl)
allows_path_iff (p ∷ ps) path = (
  λ h. inr ((contains_iff path (p ∷ ps)).0 h),
  λ h. elim h [ inl e ↦ absurd (cc e) | inr m ↦ (contains_iff path (p ∷ ps)).1 m ],
)

allowed_iff :
    (host path : Bytes) (ubw : List WhitelistedHost)
    → (allows_path (lookup host (add_hosts ubw [])) path ≡ true) ↔ (
        Any (IsFor host) ubw
        × (All (λ wh. IsFor host wh → wh.paths ≡ []) ubw ⊎ Any (Lists host path) ubw))
unfolding lookup
allowed_iff host path ubw = elim (add_hosts-none host ubw [] refl) [
  | inl (e, absent) ↦ rw e (λ h. cc, λ (present, _). absurd (absent present))
  | inr (e, present) ↦
      let allows = allows_path_iff (listed host ubw) path in
      rw e (
        λ h. (
          present,
          elim (allows.0 h) [
            | inl bare ↦ inl ((listed-eq-nil_iff host ubw).0 bare)
            | inr there ↦ inr ((Any-listed_iff host path ubw).0 there)
          ],
        ),
        λ (_, h). allows.1 (elim h [
          | inl bare ↦ inl ((listed-eq-nil_iff host ubw).1 bare)
          | inr there ↦ inr ((Any-listed_iff host path ubw).1 there)
        ]),
      )
]

-- After an update that names the entries `ubw`, a URL is whitelisted exactly when its scheme is
-- krypton, or some entry is about its host and either no entry about that host lists a path or one
-- of them lists the URL's path. Hosts and paths are compared in lower case.
pub is_whitelisted-update_iff :
    {Gurl W : Type 0} (api : UrlApi Gurl) (b : Blocker W) (ubw : List WhitelistedHost) (url : Gurl)
    → let host = to_lower_ascii (api.host url) in
      let path = to_lower_ascii (api.path url) in
      (is_whitelisted api (update_whitelist b ubw) url ≡ true) ↔ (
        (api.scheme_is url krypton_scheme ≡ true)
        ⊎ (Any (IsFor host) ubw
            × (All (λ wh. IsFor host wh → wh.paths ≡ []) ubw ⊎ Any (Lists host path) ubw)))
unfolding is_whitelisted update_whitelist
is_whitelisted-update_iff api b ubw url = elim (Bool-cases (api.scheme_is url krypton_scheme)) [
  | inl krypton ↦ rw krypton (λ _. inl refl, λ _. refl)
  | inr other ↦ rw other (
    λ h. inr ((allowed_iff _ _ ubw).0 h),
    λ h. elim h [ inl e ↦ cc | inr x ↦ (allowed_iff _ _ ubw).1 x ],
  )
]
