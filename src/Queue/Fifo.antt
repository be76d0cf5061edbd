-- ===== src/Queue/Fifo.antt =====
-- The order of the messages of a topic, over any sequence of calls of the queue.
use multi_agent_workflow.Prelude.{
  String, Bool, true, false, Option, none, some, List, [], ◌∷◌, ◌++◌, ◌==◌, if◌then◌else◌, ◌≡◌,
  refl, sym, ap, ◌∙◌, eq_iff, Bool-cases, inl, inr, subst,
}
use multi_agent_workflow.Prelude.Dict.{lookup, insert, lookup-insert_same, lookup-insert_other}
use multi_agent_workflow.Queue.{Topics, or_empty, publish, popleft, take_first}

-- A call of the queue, by any producer or consumer.
pub data Call {ℓ} (M : Type ℓ) : Type ℓ where
  publishes : String → String → M → Call M
  takes : String → Call M

module _ {ℓ} {M : Type ℓ} where
  abbrev pub perform : Call M → Topics M → Topics M
  perform (publishes topic key message) q = publish topic key message q
  perform (takes topic) q = (take_first topic q).1

  unfoldable pub perform_all : List (Call M) → Topics M → Topics M
  perform_all [] q = q
  perform_all (call ∷ calls) q = perform_all calls (perform call q)

  -- What waits on a topic.
  abbrev pub waiting : String → Topics M → List (String × M)
  waiting topic q = or_empty (lookup topic q)

  -- What the calls publish on a topic, in their order.
  unfoldable pub published : String → List (Call M) → List (String × M)
  published topic [] = []
  published topic (publishes t key message ∷ calls) =
      let rest = published topic calls in if t == topic then (key, message) ∷ rest else rest
  published topic (takes t ∷ calls) = published topic calls

  abbrev onto : Option (String × M) → List (String × M) → List (String × M)
  onto none ms = ms
  onto (some m) ms = m ∷ ms

  -- What the calls on a topic are given, in their order.
  unfoldable pub delivered : String → List (Call M) → Topics M → List (String × M)
  delivered topic [] q = []
  delivered topic (publishes t key message ∷ calls) q =
      delivered topic calls (publish t key message q)
  delivered topic (takes t ∷ calls) q =
      let rest = delivered topic calls (take_first t q).1 in
      if t == topic then onto (take_first t q).0 rest else rest

  append_assoc : (xs ys zs : List (String × M)) → (xs ++ ys) ++ zs ≡ xs ++ (ys ++ zs)
  append_assoc [] ys zs = refl
  append_assoc (x ∷ xs) ys zs = ap (λ ws. x ∷ ws) (append_assoc xs ys zs)

  append_nil : (xs : List (String × M)) → xs ++ [] ≡ xs
  append_nil [] = refl
  append_nil (x ∷ xs) = ap (λ ws. x ∷ ws) (append_nil xs)

  -- One more message at the end of what waits, before the messages that follow.
  published_first :
      (topic t : String) (m : String × M) (xs ys : List (String × M))
      → xs ++ (if t == topic then m ∷ ys else ys) ≡ (if t == topic then xs ++ m ∷ [] else xs) ++ ys
  published_first topic t m xs ys = elim (Bool-cases (t == topic)) [
    | inl same ↦ rw same (sym (append_assoc xs (m ∷ []) ys))
    | inr other ↦ rw other refl
  ]

  -- A message that is taken goes to the front of what is delivered.
  taken_first :
      (own : Bool) (o : Option (String × M)) (xs ys ds ws : List (String × M))
      → xs ++ ys ≡ ds ++ ws
      → (if own then onto o xs else xs) ++ ys ≡ (if own then onto o ds else ds) ++ ws
  taken_first false o xs ys ds ws e = e
  taken_first true none xs ys ds ws e = e
  taken_first true (some m) xs ys ds ws e = ap (λ zs. m ∷ zs) e

  waiting-publish :
      (topic t key : String) (message : M) (q : Topics M)
      → waiting topic (publish t key message q)
        ≡ (if t == topic then waiting topic q ++ (key, message) ∷ [] else waiting topic q)
  unfolding publish
  waiting-publish topic t key message q = elim (Bool-cases (t == topic)) [
    | inl same ↦ rw same (
        subst
          (λ k.
            waiting k (insert t (waiting t q ++ (key, message) ∷ []) q)
            ≡ waiting k q ++ (key, message) ∷ [])
          ((eq_iff t topic).0 same) (ap or_empty (lookup-insert_same t _ q)))
    | inr other ↦ rw other (ap or_empty (lookup-insert_other t topic _ q other))
  ]

  -- What is taken first, and what waits then.
  waiting-popleft :
      (topic t : String) (q : Topics M) (ms : List (String × M))
      → waiting t q ≡ ms
      → waiting topic q ≡ (
          if t == topic
          then onto (popleft t q ms).0 (waiting topic (popleft t q ms).1)
          else waiting topic (popleft t q ms).1)
  waiting-popleft topic t q ms e = elim (Bool-cases (t == topic)) [
    | inl same ↦ rw same (
        subst (λ k. waiting k q ≡ onto (popleft t q ms).0 (waiting k (popleft t q ms).1))
          ((eq_iff t topic).0 same) (own ms e))
    | inr other ↦ rw other (others ms other)
  ]
    where
      own :
          (ns : List (String × M))
          → waiting t q ≡ ns
          → waiting t q ≡ onto (popleft t q ns).0 (waiting t (popleft t q ns).1)
      own [] f = f ∙ sym (ap or_empty (lookup-insert_same t [] q))
      own (n ∷ ns) f = f ∙ ap (λ rest. n ∷ rest) (sym (ap or_empty (lookup-insert_same t ns q)))

      others :
          (ns : List (String × M))
          → (t == topic) ≡ false
          → waiting topic q ≡ waiting topic (popleft t q ns).1
      others [] o = sym (ap or_empty (lookup-insert_other t topic [] q o))
      others (n ∷ ns) o = sym (ap or_empty (lookup-insert_other t topic ns q o))

  -- On each topic the messages are delivered in the order in which they were published, none twice
  -- and none lost: over any calls by any producers and consumers, what waited at first, followed by
  -- what was published, is what was delivered, followed by what still waits.
  pub delivered-fifo :
      (topic : String) (calls : List (Call M)) (q : Topics M)
      → waiting topic q ++ published topic calls
        ≡ delivered topic calls q ++ waiting topic (perform_all calls q)
  unfolding published delivered perform_all take_first
  delivered-fifo topic [] q = append_nil (waiting topic q)
  delivered-fifo topic (publishes t key message ∷ calls) q =
      published_first topic t (key, message) (waiting topic q) (published topic calls)
      ∙ ap (λ ms. ms ++ published topic calls) (sym (waiting-publish topic t key message q))
      ∙ delivered-fifo topic calls (publish t key message q)
  delivered-fifo topic (takes t ∷ calls) q =
      ap (λ ms. ms ++ published topic calls) (waiting-popleft topic t q (waiting t q) refl)
      ∙ taken_first (t == topic) (take_first t q).0 (waiting topic (take_first t q).1)
          (published topic calls) (delivered topic calls (take_first t q).1)
          (waiting topic (perform_all calls (take_first t q).1))
          (delivered-fifo topic calls (take_first t q).1)
