-- ===== src/StateStore/Router/Bounded.antt =====
-- What the router keeps open.
use mathlib.Core.List.{Permᴰ}
use mathlib.Core.List.Permᴰ
use multi_agent_workflow.Prelude.{
  ℕ, zero, suc, ◌≤◌, String, true, none, some, List, [], ◌∷◌, ◌++◌, leb, length, if◌then◌else◌,
  Result, ok, raise, ◌≡◌, refl, sym, ap, ◌∙◌, subst, arith, eq_iff, eq_refl, ◌==◌, Bool-cases,
  Option-cases, inl, inr,
}
use multi_agent_workflow.Prelude.Dict.{
  Dict, lookup, insert, remove, Unique, Entries, Entries-lookup, lookup-remove,
}
use multi_agent_workflow.StateStore.Router.{
  TenantStores, Router, move_to_end, evict, next, store_new, after_build, get, close_each, aclose,
}

abbrev pub numbers : Dict TenantStores → List ℕ
numbers [] = []
numbers ((k, b) ∷ d) = b.number ∷ numbers d

-- The numbers below one.
abbrev pub below : ℕ → List ℕ
below zero = []
below (suc n) = n ∷ below n

-- At most `max_size` tenants are in the cache, none twice and each with a bundle of its own; and
-- each bundle that was built is either in the cache or was closed, once.
pub record Bounded (max_size : ℕ) (r : Router) : Type 0 where
  pub unique : Unique r.cache
  pub own : Entries (λ k b. b.tenant_id ≡ k) r.cache
  pub small : length r.cache ≤ max_size
  pub accounted : Permᴰ (numbers r.cache ++ r.closed) (below r.built)

abbrev last : String → TenantStores → Dict TenantStores → Dict TenantStores
last k b d = d ++ (k, b) ∷ []

insert-new :
    (k : String) (b : TenantStores) (d : Dict TenantStores)
    → lookup k d ≡ none
    → insert k b d ≡ last k b d
unfolding insert lookup
insert-new k b [] e = refl
insert-new k b ((j, a) ∷ d) e = elim (Bool-cases (j == k)) [
  | inl same ↦ absurd (let f = rw same at e in cc)
  | inr other ↦ rw other (ap (λ d. (j, a) ∷ d) (insert-new k b d (rw other at e)))
]

lookup-last :
    (k j : String) (b : TenantStores) (d : Dict TenantStores)
    → lookup j (last k b d)
      ≡ elim (lookup j d) [ none ↦ (if k == j then some b else none) | some a ↦ some a ]
unfolding lookup
lookup-last k j b [] = refl
lookup-last k j b ((i, a) ∷ d) = elim (Bool-cases (i == j)) [
  | inl same ↦ rw same refl
  | inr other ↦ rw other (lookup-last k j b d)
]

last-Unique :
    (k : String) (b : TenantStores) (d : Dict TenantStores)
    → lookup k d ≡ none
    → Unique d
    → Unique (last k b d)
unfolding lookup
last-Unique k b [] e u = (refl, tt)
last-Unique k b ((j, a) ∷ d) e u = (
  ground (arith, e, u.0, lookup-last k j b d, eq_iff j k, eq_iff k j),
  last-Unique k b d (ground (arith, e)) u.1,
)

last-own :
    (k : String) (b : TenantStores) (d : Dict TenantStores)
    → b.tenant_id ≡ k
    → Entries (λ k b. b.tenant_id ≡ k) d
    → Entries (λ k b. b.tenant_id ≡ k) (last k b d)
last-own k b [] e h = (e, tt)
last-own k b ((j, a) ∷ d) e h = (h.0, last-own k b d e h.1)

length-last :
    (k : String) (b : TenantStores) (d : Dict TenantStores) → length (last k b d) ≡ suc (length d)
length-last k b [] = refl
length-last k b (e ∷ d) = ap suc (length-last k b d)

last-Perm :
    (k : String) (b : TenantStores) (d : Dict TenantStores) (closed : List ℕ)
    → Permᴰ (numbers (last k b d) ++ closed) (b.number ∷ numbers d ++ closed)
last-Perm k b [] closed = Permᴰ.refl _
last-Perm k b ((j, a) ∷ d) closed =
    Permᴰ.trans (Permᴰ.cons refl (last-Perm k b d closed)) (Permᴰ.swap refl refl)

absent-remove : (k : String) (d : Dict TenantStores) → lookup k d ≡ none → remove k d ≡ d
unfolding lookup remove
absent-remove k [] e = refl
absent-remove k ((j, a) ∷ d) e = elim (Bool-cases (j == k)) [
  | inl same ↦ absurd (let f = rw same at e in cc)
  | inr other ↦ rw other (ap (λ d. (j, a) ∷ d) (absent-remove k d (rw other at e)))
]

remove-Perm :
    (k : String) (b : TenantStores) (d : Dict TenantStores) (closed : List ℕ)
    → Unique d
    → lookup k d ≡ some b
    → Permᴰ (b.number ∷ numbers (remove k d) ++ closed) (numbers d ++ closed)
unfolding lookup remove
remove-Perm k b [] closed u e = cc
remove-Perm k b ((j, a) ∷ d) closed u e = elim (Bool-cases (j == k)) [
  | inl same ↦
      let found : some a ≡ some b = rw same at e in
      let q : a ≡ b = cc in
      let gone = absent-remove k d (subst (λ k. lookup k d ≡ none) ((eq_iff j k).0 same) u.0) in
      rw (same, gone) (Permᴰ.cons (ap (λ x. x.number) (sym q)) (Permᴰ.refl _))
  | inr other ↦ rw other (
      Permᴰ.trans (Permᴰ.swap refl refl)
        (Permᴰ.cons refl (remove-Perm k b d closed u.1 (rw other at e))))
]

remove_own :
    (k : String) (P : String → TenantStores → Type 0) (d : Dict TenantStores)
    → Entries P d
    → Entries P (remove k d)
unfolding remove
remove_own k P [] h = tt
remove_own k P ((j, a) ∷ d) h = elim (Bool-cases (j == k)) [
  | inl same ↦ rw same (remove_own k P d h.1)
  | inr other ↦ rw other (h.0, remove_own k P d h.1)
]

remove-Unique : (k : String) (d : Dict TenantStores) → Unique d → Unique (remove k d)
unfolding remove lookup
remove-Unique k [] u = tt
remove-Unique k ((j, a) ∷ d) u = elim (Bool-cases (j == k)) [
  | inl same ↦ rw same (remove-Unique k d u.1)
  | inr other ↦ rw other (ground (arith, lookup-remove k j d, u.0), remove-Unique k d u.1)
]

length-remove :
    (k : String) (b : TenantStores) (d : Dict TenantStores)
    → Unique d
    → lookup k d ≡ some b
    → suc (length (remove k d)) ≡ length d
unfolding lookup remove
length-remove k b [] u e = cc
length-remove k b ((j, a) ∷ d) u e = elim (Bool-cases (j == k)) [
  | inl same ↦
      let gone = absent-remove k d (subst (λ k. lookup k d ≡ none) ((eq_iff j k).0 same) u.0) in
      rw (same, gone) refl
  | inr other ↦ rw other (ap suc (length-remove k b d u.1 (rw other at e)))
]

-- A tenant that is in the cache is moved to its end.
moved-Bounded :
    (max_size : ℕ) (tenant : String) (b : TenantStores) (r : Router)
    → lookup tenant r.cache ≡ some b
    → Bounded max_size r
    → Bounded max_size (record r { cache = move_to_end tenant b r.cache })
moved-Bounded max_size tenant b r e h =
    let rest = remove tenant r.cache in
    let gone : lookup tenant rest ≡ none =
      ground (arith, lookup-remove tenant tenant r.cache, eq_refl tenant) in
    record {
      unique = last-Unique tenant b rest gone (remove-Unique tenant r.cache h.unique);
      own =
          last-own tenant b rest (Entries-lookup _ tenant b r.cache h.own e)
            (remove_own tenant _ r.cache h.own);
      small =
          omega
            (arith, length-last tenant b rest, length-remove tenant b r.cache h.unique e, h.small);
      accounted =
          Permᴰ.trans (last-Perm tenant b rest r.closed)
            (Permᴰ.trans (remove-Perm tenant b r.cache r.closed h.unique e) h.accounted);
    }

module _ (max_size : ℕ) where
  -- After the eviction of the oldest, the rest is as it was.
  record Left (d : Dict TenantStores) (closed : List ℕ) (r : Dict TenantStores × List ℕ)
      : Type 0 where
    unique : Unique r.0
    own : Entries (λ k b. b.tenant_id ≡ k) r.0
    small : length r.0 ≤ max_size
    accounted : Permᴰ (numbers r.0 ++ r.1) (numbers d ++ closed)

  evict-Left :
      (d : Dict TenantStores) (closed : List ℕ)
      → Unique d
      → Entries (λ k b. b.tenant_id ≡ k) d
      → Left d closed (evict max_size d closed)
  unfolding evict
  evict-Left [] closed u o = record {
    unique = tt;
    own = tt;
    small = omega arith;
    accounted = Permᴰ.refl _;
  }
  evict-Left ((k, b) ∷ d) closed u o = elim (Bool-cases (leb (suc (length d)) max_size)) [
    | inl fits ↦
        rw (fits, evict)
          (record { unique = u; own = o; small = ground (arith, fits); accounted = Permᴰ.refl _ })
    | inr large ↦
        let l = evict-Left d (b.number ∷ closed) u.1 o.1 in
        rw (large, evict)
          (record {
            unique = l.unique;
            own = l.own;
            small = l.small;
            accounted = Permᴰ.trans l.accounted (Permᴰ.middle b.number (numbers d) closed);
          })
  ]

  -- The newest bundle is not evicted.
  evict-last :
      (k : String) (b : TenantStores) (d : Dict TenantStores) (closed : List ℕ)
      → lookup k d ≡ none
      → 1 ≤ max_size
      → lookup k (evict max_size (last k b d) closed).0 ≡ some b
  unfolding evict lookup
  evict-last k b [] closed e one =
      let fits : leb 1 max_size ≡ true = ground (arith, one) in
      rw (fits, evict) (rw (eq_refl k) refl)
  evict-last k b ((j, a) ∷ d) closed e one =
      elim (Bool-cases (leb (suc (length (last k b d))) max_size)) [
        | inl fits ↦ rw (fits, evict) (lookup-last k k b ((j, a) ∷ d) ∙ rw e (rw (eq_refl k) refl))
        | inr large ↦
            rw (large, evict) (evict-last k b d (a.number ∷ closed) (ground (arith, e)) one)
      ]

  stored-Bounded :
      (tenant : String) (r : Router)
      → lookup tenant r.cache ≡ none
      → Bounded max_size r
      → Bounded max_size (store_new max_size tenant r)
  unfolding store_new
  stored-Bounded tenant r e h =
      let b = next tenant r in
      let l =
        evict-Left (last tenant b r.cache) r.closed (last-Unique tenant b r.cache e h.unique)
          (last-own tenant b r.cache refl h.own) in
      rw (insert-new tenant b r.cache e, store_new)
        (record {
          unique = l.unique;
          own = l.own;
          small = l.small;
          accounted =
              Permᴰ.trans l.accounted
                (Permᴰ.trans (last-Perm tenant b r.cache r.closed) (Permᴰ.cons refl h.accounted));
        })

  -- What a call gives, and what is in the cache behind it.
  abbrev pub Gives : String → Router → Result TenantStores × Router → Type 0
  Gives tenant r (raise e, s) = s ≡ r
  Gives tenant r (ok b, s) =
      (b.tenant_id ≡ tenant) × (lookup tenant s.cache ≡ some b) × Bounded max_size s

  built-Gives :
      (tenant : String) (r : Router) (answer : Result (Unit {0}))
      → 1 ≤ max_size
      → lookup tenant r.cache ≡ none
      → Bounded max_size r
      → Gives tenant r (after_build max_size tenant r answer)
  unfolding store_new
  built-Gives tenant r (raise x) one e h = refl
  built-Gives tenant r (ok u) one e h = (
    refl,
    rw (insert-new tenant (next tenant r) r.cache e, store_new)
        (evict-last tenant (next tenant r) r.cache r.closed e one),
    stored-Bounded tenant r e h,
  )

  -- If the router may keep a bundle of stores, a call keeps these: at most `max_size` tenants are
  -- in the cache, none twice and each with its own bundle, and each bundle that was built is either
  -- in the cache or was closed, once. A call that succeeds gives the bundle of its tenant, which is
  -- in the cache then; one that cannot build a bundle changes nothing.
  pub get-Gives :
      (ready : String → Result (Unit {0})) (tenant : String) (r : Router)
      → 1 ≤ max_size
      → Bounded max_size r
      → Gives tenant r (get max_size ready tenant r)
  unfolding get
  get-Gives ready tenant r one h = elim (Option-cases (lookup tenant r.cache)) [
    | inr (b, e) ↦
        let rest = remove tenant r.cache in
        let gone : lookup tenant rest ≡ none =
          ground (arith, lookup-remove tenant tenant r.cache, eq_refl tenant) in
        rw (e, get)
          (
            Entries-lookup _ tenant b r.cache h.own e,
            lookup-last tenant tenant b rest ∙ rw gone (rw (eq_refl tenant) refl),
            moved-Bounded max_size tenant b r e h,
          )
    | inl e ↦ rw (e, get) (built-Gives tenant r (ready tenant) one e h)
  ]

close_each-Perm :
    (d : Dict TenantStores) (closed : List ℕ) → Permᴰ (close_each d closed) (numbers d ++ closed)
unfolding close_each
close_each-Perm [] closed = Permᴰ.refl closed
close_each-Perm ((k, b) ∷ d) closed =
    Permᴰ.trans (close_each-Perm d (b.number ∷ closed)) (Permᴰ.middle b.number (numbers d) closed)

-- When the router is closed, each bundle that was ever built is closed.
aclose-closed :
    (max_size : ℕ) (r : Router) → Bounded max_size r → Permᴰ (aclose r).closed (below r.built)
unfolding aclose
aclose-closed max_size r h = Permᴰ.trans (close_each-Perm r.cache r.closed) h.accounted
