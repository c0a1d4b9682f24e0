-- ===== src/Connections/Database.antt =====
-- backend/src/config/database.js: the options of the connection and `connectDB`. Mongoose's `connect` is a
-- parameter, its answer to each attempt.
pub mod Laws
use code_arena.Prelude.{
  ℕ, zero, suc, ◌≡◌, refl, ap, ◌∙◌, ◌+◌, ◌-◌, ◌*◌, ◌^◌, ◌<◌, ◌≤◌, Bool, true, ◌||◌, Option, none,
  some, List, [], ◌∷◌, Result, ok, err, if◌then◌else◌, ◌==◌, length, arith,
}
use code_arena.Prelude.Text.{Text, codes, trim, starts_with, includes}
use code_arena.Prelude.Optional.{is_given, or_else, or_text}

-- The settings of MongoDB.
pub record MongoSettings : Type 0 where
  pub uri : Option Text
  pub replica_set : Option Text
  pub read_preference : Option Text
  pub retry_writes : Option Bool

-- The options of the connection: the overrides of the call with what is set for them.
pub record MongooseOptions : Type 0 where
  pub server_selection_timeout : ℕ
  pub uri : Option Text
  pub replica_set : Option Text
  pub read_preference : Option Text
  pub retry_writes : Option Bool

pub record Overrides : Type 0 where
  pub server_selection_timeout : Option ℕ
  pub uri : Option Text
  pub replica_set : Option Text
  pub read_preference : Option Text
  pub retry_writes : Option Bool

abbrev or_value {ℓ} : {A : Type ℓ} → Option A → A → A
or_value none b = b
or_value (some a) b = a

abbrev or_option {ℓ} : {A : Type ℓ} → Option A → Option A → Option A
or_option none b = b
or_option (some a) b = some a

-- the defaults under the overrides
abbrev pub base_options : Overrides → MongooseOptions
base_options o = record {
  server_selection_timeout = or_value o.server_selection_timeout 5000;
  uri = o.uri;
  replica_set = o.replica_set;
  read_preference = o.read_preference;
  retry_writes = o.retry_writes;
}

-- the preferences that are set, over the defaults
abbrev pub with_explicit : MongooseOptions → Option Text → Option Bool → MongooseOptions
with_explicit base read_preference retry_writes = record base {
  read_preference = if is_given read_preference then read_preference else base.read_preference;
  retry_writes = or_option retry_writes base.retry_writes;
}

-- the topology of a replica set that is asked for; without one, of a managed and of a single server alike
unfoldable pub get_mongoose_options : MongoSettings → Overrides → MongooseOptions
get_mongoose_options config o =
    let base = base_options o in
    let replica_set = or_else o.replica_set config.replica_set in
    let read_preference = or_else o.read_preference config.read_preference in
    let retry_writes = or_option o.retry_writes config.retry_writes in
    if is_given replica_set
    then record base {
      replica_set = replica_set;
      read_preference = some (or_text read_preference (codes "primaryPreferred"));
      retry_writes = some (or_value retry_writes true);
    }
    else let uri = trim (or_text (or_else o.uri config.uri) []) in
      if starts_with (codes "mongodb+srv://") uri || includes (codes "replicaSet=") uri
      then with_explicit base read_preference retry_writes
      else with_explicit base read_preference retry_writes

-- What a call of `connectDB` came to, with the milliseconds that it waited between its attempts.
pub record Connecting {ℓ κ} (E : Type ℓ) (C : Type κ) : Type (ℓ ⊔ κ) where
  pub outcome : Result E (Option C)
  pub waits : List ℕ

abbrev after_wait {ℓ κ} : {E : Type ℓ} {C : Type κ} → ℕ → Connecting E C → Connecting E C
after_wait ms rest = record { outcome = rest.outcome; waits = ms ∷ rest.waits }

-- the loop, with the attempts that are left and the number of those made
unfoldable pub attempts {ℓ κ} :
    {E : Type ℓ} {C : Type κ} → (ℕ → Result E C) → ℕ → ℕ → ℕ → Connecting E C
attempts connect delay zero made = record { outcome = ok none; waits = [] }
attempts connect delay (suc left) made = elim (connect (made + 1)) [
  | ok c ↦ record { outcome = ok (some c); waits = [] }
  | err e ↦
      if left == 0
      then record { outcome = err e; waits = [] }
      else after_wait (delay * 2 ^ made) (attempts connect delay left (made + 1))
]

abbrev pub max_retries : Bool → ℕ → ℕ
max_retries is_test retries = if is_test then 1 else retries

unfoldable pub connect_db {ℓ κ} :
    {E : Type ℓ} {C : Type κ} → (ℕ → Result E C) → Bool → ℕ → ℕ → Connecting E C
connect_db connect is_test retries delay = attempts connect delay (max_retries is_test retries) 0
