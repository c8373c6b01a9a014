-- ===== src/Redis.antt =====
-- The Redis server behind the client github.com/redis/go-redis/v9, which internal/redisstore calls.
-- Neither is code of the repository: the operations are a parameter, and the laws state what the
-- documentation of the commands says of them.
pub mod Memory
use worker_thoth.Base.{
  ℕ, ◌<◌, ◌≡◌, refl, ◌⊎◌, Bool, true, false, Option, none, some, List, [], ◌∷◌, ◌++◌, Text, text_eq,
  if◌then◌else◌, ℤ, pos, ◌≤ℤ◌, ltb_ℤ, GoError, Result, ok, err, length,
}
use worker_thoth.Base.Dict.{lookup}

-- The commands that the worker sends in a MULTI/EXEC transaction. EXPIRE takes nanoseconds.
pub data Command : Type 0 where
  hset : Text → List (Text × Text) → Command
  expire : Text → ℤ → Command
  xadd : Text → List (Text × Text) → Command
  xack : Text → Text → Text → Command
  xdel : Text → Text → Command

-- redis.XMessage, of which every value is a string.
pub record XMessage : Type 0 where
  pub id : Text
  pub values : List (Text × Text)

-- redis.XStream.
pub record XStream : Type 0 where
  pub stream : Text
  pub messages : List XMessage

-- The reply to a blocking XREADGROUP: redis.Nil, another error, or messages.
pub data ReadReply : Type 0 where
  nil : ReadReply
  failed : GoError → ReadReply
  streams : List XStream → ReadReply

abbrev pub or_else {ℓ} : {A : Type ℓ} → Option A → Option A → Option A
or_else none y = y
or_else (some x) y = some x

pub or_else-none {ℓ} : {A : Type ℓ} (x : Option A) → or_else x none ≡ x
or_else-none none = refl
or_else-none (some x) = refl

-- The entries of a stream that are left by XDEL.
abbrev pub without : Text → List XMessage → List XMessage
without i [] = []
without i (x ∷ xs) = if text_eq x.id i then without i xs else x ∷ without i xs

-- The operations. A value of Db is the state of the server and of the connection to it; whether
-- a call fails is decided by it. `field`, `ttl` and `entries` are what can be observed.
pub record Ops : Type 1 where
  pub Db : Type 0
  pub ping : Db → Option GoError
  pub group_create : Text → Text → Text → Db → Option GoError × Db
  pub xlen : Db → Text → Result GoError ℕ
  pub hgetall : Db → Text → Result GoError (List (Text × Text))
  pub exec : List Command → Db → Option GoError × Db
  pub read_group : Text → Text → Text → ℕ → ℕ → Db → ReadReply × Db
  pub auto_claim : Text → Text → Text → ℕ → Text → ℕ → Db → Result GoError (List XMessage) × Db
  pub field : Db → Text → Text → Option Text
  pub ttl : Db → Text → Option ℤ
  pub entries : Db → Text → List XMessage
  -- What one command of a transaction does, and the ID that XADD gives to a new entry.
  pub apply : Command → Db → Db
  pub new_id : Db → Text → Text
  -- The whole seconds that the client sends for a duration in nanoseconds.
  pub seconds : ℤ → ℤ

-- Some of the commands, in their order.
pub data SomeOf : List Command → List Command → Type 0 where
  nothing : SomeOf [] []
  skipped : {c : Command} {part cs : List Command} → SomeOf part cs → SomeOf part (c ∷ cs)
  done : {c : Command} {part cs : List Command} → SomeOf part cs → SomeOf (c ∷ part) (c ∷ cs)

pub SomeOf-nothing : (cs : List Command) → SomeOf [] cs
SomeOf-nothing [] = nothing
SomeOf-nothing (c ∷ cs) = skipped (SomeOf-nothing cs)

module _ (o : Ops) where
  open o use {Db, field, ttl, entries, apply}

  abbrev pub apply_all : List Command → Db → Db
  apply_all [] db = db
  apply_all (c ∷ cs) db = apply_all cs (apply c db)

  -- Two states that cannot be told apart by what is stored.
  pub record SameView (db db' : Db) : Type 0 where
    pub same_field : (k f : Text) → field db' k f ≡ field db k f
    pub same_ttl : (k : Text) → ttl db' k ≡ ttl db k
    pub same_entries : (k : Text) → entries db' k ≡ entries db k

  pub SameView-refl : (db : Db) → SameView db db
  SameView-refl db = record {
    same_field = λ k f. refl;
    same_ttl = λ k. refl;
    same_entries = λ k. refl;
  }

-- The documented behaviour. A transaction that is answered without an error was carried out whole.
-- Where the call failed, any of its commands may have been carried out, in their order: the
-- connection may be lost, and a command that fails does not undo the others.
pub record Laws (o : Ops) : Type 0 where
  pub xlen-entries :
      (db : o.Db) (k : Text) (n : ℕ) → o.xlen db k ≡ ok n → n ≡ length (o.entries db k)
  pub hgetall-field :
      (db : o.Db) (k : Text) (kvs : List (Text × Text))
      → o.hgetall db k ≡ ok kvs
      → (f : Text) → lookup f kvs ≡ o.field db k f
  pub exec_done :
      (cs : List Command) (db : o.Db)
      → (o.exec cs db).0 ≡ none
      → SameView o (apply_all o cs db) (o.exec cs db).1
  pub exec_failed :
      (cs : List Command) (db : o.Db) (e : GoError)
      → (o.exec cs db).0 ≡ some e
      → (part : List Command) × SomeOf part cs × SameView o (apply_all o part db) (o.exec cs db).1
  -- HSET writes the given fields and keeps the others, and the key's time to live.
  pub hset-field :
      (k : Text) (kvs : List (Text × Text)) (db : o.Db) (j f : Text)
      → o.field (o.apply (hset k kvs) db) j f
        ≡ (if text_eq k j then or_else (lookup f kvs) (o.field db j f) else o.field db j f)
  pub hset-entries :
      (k : Text) (kvs : List (Text × Text)) (db : o.Db) (j : Text)
      → o.entries (o.apply (hset k kvs) db) j ≡ o.entries db j
  -- EXPIRE sets the time to live of a key that exists; one that is not positive removes the key.
  pub expire-field :
      (k : Text) (d : ℤ) (db : o.Db) (j f : Text)
      → o.field (o.apply (expire k d) db) j f
        ≡ (if ltb_ℤ (pos 0) d then o.field db j f else if text_eq k j then none else o.field db j f)
  pub expire-ttl :
      (k : Text) (d : ℤ) (db : o.Db) (f v : Text)
      → ltb_ℤ (pos 0) d ≡ true
      → o.field db k f ≡ some v
      → o.ttl (o.apply (expire k d) db) k ≡ some (o.seconds d)
  pub expire-entries :
      (k : Text) (d : ℤ) (db : o.Db) (j : Text)
      → text_eq k j ≡ false
      → o.entries (o.apply (expire k d) db) j ≡ o.entries db j
  -- XADD appends an entry, and XDEL removes the entry of an ID. Hashes are not touched.
  pub xadd-field :
      (k : Text) (kvs : List (Text × Text)) (db : o.Db) (j f : Text)
      → o.field (o.apply (xadd k kvs) db) j f ≡ o.field db j f
  pub xadd-ttl :
      (k : Text) (kvs : List (Text × Text)) (db : o.Db) (j : Text)
      → text_eq k j ≡ false
      → o.ttl (o.apply (xadd k kvs) db) j ≡ o.ttl db j
  pub xadd-entries :
      (k : Text) (kvs : List (Text × Text)) (db : o.Db) (j : Text)
      → o.entries (o.apply (xadd k kvs) db) j ≡ (
          if text_eq k j
          then o.entries db j ++ record { id = o.new_id db k; values = kvs } ∷ []
          else o.entries db j)
  pub xdel-field :
      (k i : Text) (db : o.Db) (j f : Text) → o.field (o.apply (xdel k i) db) j f ≡ o.field db j f
  pub xdel-entries :
      (k i : Text) (db : o.Db) (j : Text)
      → o.entries (o.apply (xdel k i) db) j
        ≡ (if text_eq k j then without i (o.entries db j) else o.entries db j)
  -- The bookkeeping of consumer groups is not observed.
  pub xack-view : (k g i : Text) (db : o.Db) → SameView o db (o.apply (xack k g i) db)
  pub read_group-view :
      (g c k : Text) (n block : ℕ) (db : o.Db) → SameView o db (o.read_group g c k n block db).1
  pub auto_claim-view :
      (k g c : Text) (idle : ℕ) (start : Text) (n : ℕ) (db : o.Db)
      → SameView o db (o.auto_claim k g c idle start n db).1
