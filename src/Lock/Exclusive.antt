-- ===== src/Lock/Exclusive.antt =====
-- Sequences of calls of the in-memory lock.
use multi_agent_workflow.Prelude.{
  ℕ, ◌+◌, ◌<◌, String, true, false, some, List, [], ◌∷◌, ◌==◌, All, ◌≡◌, arith, eq_iff, eq_refl,
}
use multi_agent_workflow.Prelude.Dict.{lookup, lookup-insert, lookup-remove}
use multi_agent_workflow.Lock.{Holders, acquire, release, refresh, is_locked}

-- A call of the lock, with its key and the time of the loop's clock.
pub data Call : Type 0 where
  acquires refreshes : String → ℕ → ℕ → Call
  releases : String → Call
  asks : String → ℕ → Call

unfoldable pub perform : Call → Holders → Holders
perform (acquires key ttl now) h = (acquire key ttl now h).0
perform (refreshes key ttl now) h = (refresh key ttl now h).0
perform (releases key) h = release key h
perform (asks key now) h = (is_locked key now h).0

unfoldable pub perform_all : List Call → Holders → Holders
perform_all [] h = h
perform_all (call ∷ calls) h = perform_all calls (perform call h)

-- A call before the time `until` that neither releases the key nor renews its lease.
abbrev pub Respects : String → ℕ → Call → Type 0
Respects key until (acquires k ttl now) = now < until
Respects key until (refreshes k ttl now) = (k == key) ≡ false
Respects key until (releases k) = (k == key) ≡ false
Respects key until (asks k now) = now < until

perform-held :
    (key : String) (until : ℕ) (call : Call) (h : Holders)
    → Respects key until call
    → lookup key h ≡ some until
    → lookup key (perform call h) ≡ some until
unfolding perform acquire release refresh is_locked
perform-held key until (acquires k ttl now) h r e =
    ground (arith, eq_iff k key, lookup-insert k key (now + ttl) h)
perform-held key until (refreshes k ttl now) h r e =
    ground (arith, eq_iff k key, lookup-insert k key (now + ttl) h)
perform-held key until (releases k) h r e = ground (arith, lookup-remove k key h)
perform-held key until (asks k now) h r e = ground (arith, eq_iff k key, lookup-remove k key h)

perform_all-held :
    (key : String) (until : ℕ) (calls : List Call) (h : Holders)
    → All (Respects key until) calls
    → lookup key h ≡ some until
    → lookup key (perform_all calls h) ≡ some until
unfolding perform_all
perform_all-held key until [] h r e = e
perform_all-held key until (call ∷ calls) h r e =
    perform_all-held key until calls (perform call h) r.1 (perform-held key until call h r.0 e)

-- After an `acquire` that succeeded at `now` for `ttl`, and any calls by anybody that neither
-- release nor refresh this key, all before the lease ends, a second `acquire` of the key before
-- that end fails.
pub acquire-exclusive :
    (key : String) (ttl now later ttl' : ℕ) (calls : List Call) (h : Holders)
    → (acquire key ttl now h).1 ≡ true
    → All (Respects key (now + ttl)) calls
    → later < now + ttl
    → (acquire key ttl' later (perform_all calls (acquire key ttl now h).0)).1 ≡ false
unfolding acquire
acquire-exclusive key ttl now later ttl' calls h won r before =
    let e : lookup key (acquire key ttl now h).0 ≡ some (now + ttl) =
      ground (arith, lookup-insert key key (now + ttl) h, eq_refl key) in
    let f = perform_all-held key (now + ttl) calls (acquire key ttl now h).0 r e in
    ground (arith, f)
