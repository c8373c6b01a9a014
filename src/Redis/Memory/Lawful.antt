-- ===== src/Redis/Memory/Lawful.antt =====
-- The server in memory meets the documented behaviour of Redis.
use worker_thoth.Base.{
  ◌≡◌, refl, ap, ◌∙◌, inl, inr, Bool, true, false, Bool-cases, subst, sym, Option, none, some, List,
  [], ◌∷◌, ◌++◌, arith, Text, decimal, text_eq, text_eq_iff, if◌then◌else◌, ℤ, pos, ltb_ℤ, GoError,
  ok, ok-injective,
}
use worker_thoth.Base.Dict.{lookup, insert, lookup-insert, lookup-insert_self, lookup-delete}
use worker_thoth.Redis.{
  Command, hset, expire, xadd, xdel, XMessage, or_else, without, Laws, apply_all, SameView,
  SameView-refl, SomeOf, SomeOf-nothing,
}
use worker_thoth.Redis.Memory.{
  Server, list_or_empty, hash_of, queue_of, insert_all, run_command, run_all, exec_reply, run_exec,
  answer, server_ops, memory, steady,
}

lookup-insert_all :
    (f : Text) (kvs h : List (Text × Text))
    → lookup f (insert_all kvs h) ≡ or_else (lookup f kvs) (lookup f h)
lookup-insert_all f [] h = refl
lookup-insert_all f ((g, v) ∷ kvs) h =
    ground (arith, lookup-insert g f v (insert_all kvs h), lookup-insert_all f kvs h)

exec_reply-done :
    (down : Bool) (before after : Server)
    → (exec_reply down before after).0 ≡ none
    → after ≡ (exec_reply down before after).1
exec_reply-done true before after h = absurd (cc)
exec_reply-done false before after h = refl

exec_reply-failed :
    (down : Bool) (before after : Server) {e : GoError}
    → (exec_reply down before after).0 ≡ some e
    → before ≡ (exec_reply down before after).1
exec_reply-failed true before after h = refl
exec_reply-failed false before after h = absurd (cc)

answer-eq-ok {ℓ} : {A : Type ℓ} (down : Bool) (a b : A) → answer down a ≡ ok b → a ≡ b
answer-eq-ok true a b h = absurd (cc)
answer-eq-ok false a b h = ok-injective h

lookup-list_or_empty_if :
    (b : Bool) (f : Text) (o : Option (List (Text × Text)))
    → lookup f (list_or_empty (if b then none else o))
      ≡ (if b then none else lookup f (list_or_empty o))
lookup-list_or_empty_if true f o = refl
lookup-list_or_empty_if false f o = refl

queue_of-insert :
    (k j : Text) (xs : List XMessage) (queues : List (Text × List XMessage))
    → list_or_empty (lookup j (insert k xs queues))
      ≡ (if text_eq k j then xs else list_or_empty (lookup j queues))
queue_of-insert k j xs queues = ground (arith, lookup-insert k j xs queues)

memory-hset-field :
    (k : Text) (kvs : List (Text × Text)) (db : Server) (j f : Text)
    → lookup f (hash_of (run_command (hset k kvs) db) j) ≡ (
        if text_eq k j
        then or_else (lookup f kvs) (lookup f (hash_of db j))
        else lookup f (hash_of db j))
memory-hset-field k kvs db j f = elim (Bool-cases (text_eq k j)) [
  | inl same ↦
      rw (lookup-insert k j (insert_all kvs (hash_of db k)) db.hashes, same)
        (lookup-insert_all f kvs (hash_of db k)
          ∙ ap (λ i. or_else (lookup f kvs) (lookup f (hash_of db i))) ((text_eq_iff k j).0 same))
  | inr other ↦ rw (lookup-insert k j (insert_all kvs (hash_of db k)) db.hashes, other)
]

memory-expire-field :
    (k : Text) (d : ℤ) (db : Server) (j f : Text)
    → lookup f (hash_of (run_command (expire k d) db) j) ≡ (
        if ltb_ℤ (pos 0) d
        then lookup f (hash_of db j)
        else if text_eq k j
        then none
        else lookup f (hash_of db j))
memory-expire-field k d db j f = elim (Bool-cases (ltb_ℤ (pos 0) d)) [
  | inl lives ↦ rw lives
  | inr dead ↦
      rw (dead, lookup-delete k j db.hashes)
        (lookup-list_or_empty_if (text_eq k j) f (lookup j db.hashes))
]

memory-expire-ttl :
    (k : Text) (d : ℤ) (db : Server)
    → ltb_ℤ (pos 0) d ≡ true
    → lookup k (run_command (expire k d) db).ttls ≡ some d
memory-expire-ttl k d db lives = rw lives (lookup-insert_self k d db.ttls)

memory-expire-entries :
    (k : Text) (d : ℤ) (db : Server) (j : Text)
    → text_eq k j ≡ false
    → queue_of (run_command (expire k d) db) j ≡ queue_of db j
memory-expire-entries k d db j other = elim (Bool-cases (ltb_ℤ (pos 0) d)) [
  | inl lives ↦ rw lives
  | inr dead ↦ rw (dead, lookup-delete k j db.queues, other)
]

memory-xadd-entries :
    (k : Text) (kvs : List (Text × Text)) (db : Server) (j : Text)
    → queue_of (run_command (xadd k kvs) db) j ≡ (
        if text_eq k j
        then queue_of db j ++ record { id = decimal db.next; values = kvs } ∷ []
        else queue_of db j)
memory-xadd-entries k kvs db j = ground (
  arith,
  queue_of-insert k j (queue_of db k ++ record { id = decimal db.next; values = kvs } ∷ [])
      db.queues,
  text_eq_iff k j,
)

memory-xdel-entries :
    (k i : Text) (db : Server) (j : Text)
    → queue_of (run_command (xdel k i) db) j
      ≡ (if text_eq k j then without i (queue_of db j) else queue_of db j)
memory-xdel-entries k i db j =
    ground (arith, queue_of-insert k j (without i (queue_of db k)) db.queues, text_eq_iff k j)

module _ (fails : Server → Bool) where
  run_all-apply_all :
      (cs : List Command) (db : Server) → apply_all (server_ops fails) cs db ≡ run_all cs db
  run_all-apply_all [] db = refl
  run_all-apply_all (c ∷ cs) db = run_all-apply_all cs (run_command c db)

  same_view : {db db' : Server} → db ≡ db' → SameView (server_ops fails) db db'
  same_view {db} e = subst (SameView (server_ops fails) db) e (SameView-refl (server_ops fails) db)

  memory-exec_done :
      (cs : List Command) (db : Server)
      → (run_exec fails cs db).0 ≡ none
      → SameView (server_ops fails) (apply_all (server_ops fails) cs db) (run_exec fails cs db).1
  memory-exec_done cs db h =
      same_view (run_all-apply_all cs db ∙ exec_reply-done (fails db) db (run_all cs db) h)

  memory-exec_failed :
      (cs : List Command) (db : Server) (e : GoError)
      → (run_exec fails cs db).0 ≡ some e
      → (part : List Command) × SomeOf part cs
        × SameView
            (server_ops fails)
            (apply_all (server_ops fails) part db)
            (run_exec fails cs db).1
  memory-exec_failed cs db e h =
      ([], SomeOf-nothing cs, same_view (exec_reply-failed (fails db) db (run_all cs db) h))

  server_ops-Laws : Laws (server_ops fails)
  server_ops-Laws = record {
    xlen-entries = λ db k n h. sym (answer-eq-ok (fails db) _ _ h);
    hgetall-field = λ db k kvs h f. ap (lookup f) (sym (answer-eq-ok (fails db) _ _ h));
    exec_done = memory-exec_done;
    exec_failed = memory-exec_failed;
    hset-field = memory-hset-field;
    hset-entries = λ k kvs db j. refl;
    expire-field = memory-expire-field;
    expire-ttl = λ k d db f v h e. memory-expire-ttl k d db h;
    expire-entries = memory-expire-entries;
    xadd-field = λ k kvs db j f. refl;
    xadd-ttl = λ k kvs db j h. refl;
    xadd-entries = memory-xadd-entries;
    xdel-field = λ k i db j f. refl;
    xdel-entries = memory-xdel-entries;
    xack-view = λ k g i db. SameView-refl (server_ops fails) db;
    read_group-view = λ g c k n block db. SameView-refl (server_ops fails) db;
    auto_claim-view = λ k g c idle start n db. SameView-refl (server_ops fails) db;
  }

pub memory-Laws : Laws memory
memory-Laws = server_ops-Laws (λ db. db.down)

pub steady-Laws : Laws steady
steady-Laws = server_ops-Laws (λ db. false)

-- No transaction of the steady server fails.
pub steady-exec : (cs : List Command) (db : Server) → (steady.exec cs db).0 ≡ none
steady-exec cs db = refl
