-- ===== src/Redis/Memory.antt =====
-- A small server in memory, which shows that the laws can hold. It may be down.
pub mod Lawful
use worker_thoth.Base.{
  ℕ, suc, ◌≡◌, refl, ap, ◌∙◌, inl, inr, Bool, true, false, Bool-cases, ◌⊎◌, subst, sym, Option,
  none, some, List, [], ◌∷◌, ◌++◌, arith, Text, codes, decimal, text_eq, text_eq_iff, if◌then◌else◌,
  ℤ, pos, ltb_ℤ, GoError, message, Result, ok, err, length, ok-injective,
}
use worker_thoth.Base.Dict.{
  lookup, insert, delete, lookup-insert, lookup-insert_self, lookup-delete,
}
use worker_thoth.Redis.{
  Command, hset, expire, xadd, xack, xdel, XMessage, nil, or_else, without, Ops, Laws, apply_all,
  SameView, SameView-refl,
}

pub record Server : Type 0 where
  pub hashes : List (Text × List (Text × Text))
  pub ttls : List (Text × ℤ)
  pub queues : List (Text × List XMessage)
  pub next : ℕ
  pub down : Bool

abbrev pub list_or_empty {ℓ} : {A : Type ℓ} → Option (List A) → List A
list_or_empty none = []
list_or_empty (some xs) = xs

abbrev pub hash_of : Server → Text → List (Text × Text)
hash_of db k = list_or_empty (lookup k db.hashes)

abbrev pub queue_of : Server → Text → List XMessage
queue_of db k = list_or_empty (lookup k db.queues)

abbrev pub insert_all : List (Text × Text) → List (Text × Text) → List (Text × Text)
insert_all [] h = h
insert_all ((f, v) ∷ kvs) h = insert f v (insert_all kvs h)

abbrev pub run_command : Command → Server → Server
run_command (hset k kvs) db = record db {
  hashes = insert k (insert_all kvs (hash_of db k)) db.hashes;
}
run_command (expire k d) db =
    if ltb_ℤ (pos 0) d then record db { ttls = insert k d db.ttls } else record db {
      hashes = delete k db.hashes;
      ttls = delete k db.ttls;
      queues = delete k db.queues;
    }
run_command (xadd k kvs) db = record db {
  queues = insert k (queue_of db k ++ record { id = decimal db.next; values = kvs } ∷ []) db.queues;
  next = suc db.next;
}
run_command (xack k g i) db = db
run_command (xdel k i) db = record db { queues = insert k (without i (queue_of db k)) db.queues }

abbrev pub run_all : List Command → Server → Server
run_all [] db = db
run_all (c ∷ cs) db = run_all cs (run_command c db)

abbrev pub unreachable : GoError
unreachable = message (codes "connection refused")

-- A server that is down answers no call and carries out no transaction.
abbrev pub exec_reply : Bool → Server → Server → Option GoError × Server
exec_reply true before after = (some unreachable, before)
exec_reply false before after = (none, after)

abbrev pub run_exec : (Server → Bool) → List Command → Server → Option GoError × Server
run_exec fails cs db = exec_reply (fails db) db (run_all cs db)

abbrev pub answer {ℓ} : {A : Type ℓ} → Bool → A → Result GoError A
answer true a = err unreachable
answer false a = ok a

-- `fails` says in which states a call fails.
abbrev pub server_ops : (Server → Bool) → Ops
server_ops fails = record {
  Db = Server;
  ping = λ db. if fails db then some unreachable else none;
  group_create = λ k g start db. (none, db);
  xlen = λ db k. answer (fails db) (length (queue_of db k));
  hgetall = λ db k. answer (fails db) (hash_of db k);
  exec = run_exec fails;
  read_group = λ g c k n block db. (nil, db);
  auto_claim = λ k g c idle start n db. (ok [], db);
  field = λ db k f. lookup f (hash_of db k);
  ttl = λ db k. lookup k db.ttls;
  entries = queue_of;
  apply = run_command;
  new_id = λ db k. decimal db.next;
  seconds = λ d. d;
}

abbrev pub memory : Ops
memory = server_ops (λ db. db.down)

-- The server that is never down.
abbrev pub steady : Ops
steady = server_ops (λ db. false)

abbrev pub empty_server : Server
empty_server = record { hashes = []; ttls = []; queues = []; next = 1; down = false }
