-- ===== src/Store/Race.antt =====
-- Requests that run CreateAndEnqueue at the same time. The test of the depth and the transaction
-- are two calls to Redis, so several requests may pass the test before the first one writes.
use worker_thoth.Base.{
  ℕ, suc, ◌+◌, ◌≤◌, ◌<◌, ◌≡◌, refl, ap, ◌∙◌, inl, inr, none, Option-cases, Text, List, [], ◌∷◌,
  ◌++◌, arith, length, length-append, pos, ◌≤ℤ◌, subst, sym,
}
use worker_thoth.Job.{Job}
use worker_thoth.Redis.{Ops, Laws, Command, expire, xadd, SomeOf, nothing, skipped, done, apply_all}
use worker_thoth.Store.{Store, stream_key, job_key, create_commands, check_depth, push_job}
use worker_thoth.Store.Queue.{
  depth, check_depth-room, push-depth, create_commands-entries, wrap_reply-state,
}

module _ (o : Ops) (s : Store) where
  open o use {Db, exec}

  -- The state of Redis, and the jobs of the requests between the two calls.
  pub record Requests : Type 0 where
    pub db : Db
    pub passed : List Job

  -- One call of one request, or of anyone else: a request passes the test while fewer than
  -- `limit` are under way, or runs its transaction, which may fail; the workers and the expiry of
  -- keys add no entry to the queue.
  pub data Step (limit : ℕ) (x y : Requests) : Type 0 where
    pass :
        (j : Job)
        → check_depth o s x.db ≡ none
        → length x.passed < limit
        → y.db ≡ x.db
        → y.passed ≡ j ∷ x.passed
        → Step limit x y
    push :
        (front back : List Job) (j : Job)
        → x.passed ≡ front ++ j ∷ back
        → y.db ≡ (push_job o s j x.db).1
        → y.passed ≡ front ++ back
        → Step limit x y
    other : depth o y.db ≤ depth o x.db → y.passed ≡ x.passed → Step limit x y

  pub data Reach (limit : ℕ) (x : Requests) : Requests → Type 0 where
    here : Reach limit x x
    next : {y z : Requests} → Reach limit x y → Step limit y z → Reach limit x z

module _ (o : Ops) (l : Laws o) (s : Store) where
  open o use {Db, exec, entries}

  -- Of the three commands of a new job, only XADD adds an entry to the stream.
  xadd-depth-le :
      (kvs : List (Text × Text)) (q db : Db) (part : List Command)
      → entries q stream_key ≡ entries db stream_key
      → SomeOf part (xadd stream_key kvs ∷ [])
      → depth o (apply_all o part q) ≤ suc (depth o db)
  xadd-depth-le kvs q db part same (skipped nothing) = omega (arith, ap length same)
  xadd-depth-le kvs q db part same (done nothing) =
      rw (l.xadd-entries)
        (omega (arith, length-append (entries q stream_key) (_ ∷ []), ap length same))

  expire-depth-le :
      (id : Text) (kvs : List (Text × Text)) (q db : Db) (part : List Command)
      → entries q stream_key ≡ entries db stream_key
      → SomeOf part (expire (job_key id) s.job_ttl ∷ xadd stream_key kvs ∷ [])
      → depth o (apply_all o part q) ≤ suc (depth o db)
  expire-depth-le id kvs q db part same (skipped {part = rest} more) =
      xadd-depth-le kvs q db rest same more
  expire-depth-le id kvs q db part same (done {part = rest} more) =
      xadd-depth-le kvs (o.apply (expire (job_key id) s.job_ttl) q) db rest
        (l.expire-entries (job_key id) s.job_ttl q stream_key refl ∙ same) more

  some-depth-le :
      (j : Job) (db : Db) (part : List Command)
      → SomeOf part (create_commands s j)
      → depth o (apply_all o part db) ≤ suc (depth o db)
  some-depth-le j db part (skipped {part = rest} more) = expire-depth-le j.id _ db db rest refl more
  some-depth-le j db part (done {c = c} {part = rest} more) =
      expire-depth-le j.id _ (o.apply c db) db rest (l.hset-entries _ _ db stream_key) more

  push-depth-le : (j : Job) (db : Db) → depth o (push_job o s j db).1 ≤ suc (depth o db)
  unfolding push_job
  push-depth-le j db =
      let cs = create_commands s j in
      rw (wrap_reply-state _ (exec cs db)) (elim (Option-cases (exec cs db).0) [
        | inl all ↦ omega (
          arith,
          ap length ((l.exec_done cs db all).same_entries stream_key),
          create_commands-entries o l s j db,
        )
        | inr (e, failed) ↦
            let (part, some_of, view) = l.exec_failed cs db e failed in
            omega (arith, ap length (view.same_entries stream_key), some-depth-le j db part some_of)
      ])

  abbrev Bounded : ℕ → ℕ → Requests o s → Type 0
  Bounded q limit x = depth o x.db + length x.passed < q + limit

  Step-Bounded :
      (q limit : ℕ) {x y : Requests o s}
      → s.queue_size ≡ pos q
      → Step o s limit x y
      → Bounded q limit x
      → Bounded q limit y
  Step-Bounded q limit {x} {y} size (pass j room free same more) b =
      let fits =
        subst (λ z. pos (suc (depth o x.db)) ≤ℤ z) size (check_depth-room o l s x.db room) in
      rw (same, more) (omega arith)
  Step-Bounded q limit {x} {y} size (push front back j all db' rest) b =
      rw (db', rest)
        (omega (
          arith,
          push-depth-le j x.db,
          ap length all,
          length-append front (j ∷ back),
          length-append front back,
        ))
  Step-Bounded q limit size (other fewer same) b = rw same (omega arith)

  Reach-Bounded :
      (q limit : ℕ) {x y : Requests o s}
      → s.queue_size ≡ pos q
      → Bounded q limit x
      → Reach o s limit x y
      → Bounded q limit y
  Reach-Bounded q limit size b here = b
  Reach-Bounded q limit size b (next r st) =
      Step-Bounded q limit size st (Reach-Bounded q limit size b r)

  -- If at most `limit` requests are between the test of the depth and the transaction at once, and
  -- none is at the start, with the depth within the size, then the depth stays below the size plus
  -- `limit`, however the requests interleave: one request at a time keeps it within the size.
  pub depth-lt :
      (q limit : ℕ) (x y : Requests o s)
      → s.queue_size ≡ pos q
      → 0 < limit
      → depth o x.db ≤ q
      → x.passed ≡ []
      → Reach o s limit x y
      → depth o y.db < q + limit
  depth-lt q limit x y size some_limit within none_passed r =
      omega (arith, Reach-Bounded q limit {x = x} size (rw none_passed (omega arith)) r)

  -- With one place left in the queue, two requests may both pass the test of the depth, and if both
  -- transactions then succeed the queue holds more entries than its size.
  pub two_requests_overshoot :
      (q : ℕ) (j k : Job) (db db1 db2 : Db)
      → s.queue_size ≡ pos q
      → suc (depth o db) ≡ q
      → check_depth o s db ≡ none
      → push_job o s j db ≡ (none, db1)
      → push_job o s k db1 ≡ (none, db2)
      → Reach o s 2 (record { db = db; passed = [] }) (record { db = db2; passed = [] })
        × (q < depth o db2)
  two_requests_overshoot q j k db db1 db2 size full room first second = (
    next
        (next
          (next (next here (pass j room (omega arith) refl refl))
            (pass k room (omega arith) refl refl))
          (push (k ∷ []) [] j refl (sym (ap (λ r. r.1) first)) refl))
        (push [] [] k refl (sym (ap (λ r. r.1) second)) refl),
    omega (arith, push-depth o l s j db db1 first, push-depth o l s k db1 db2 second),
  )
