-- ===== src/Tests/Data.antt =====
-- A small server for the tests.
use soft_serve.Base.{true, false, none, some, [], ◌∷◌, str}
use soft_serve.Env.{Env}
use soft_serve.Store.Schema.{User, Repo, AccessToken, Db, empty_db}
use soft_serve.Backend.Users.{ProtoUser}
use soft_serve.Backend.Repos.{Host}
use soft_serve.Backend.Collabs.{Hooks}

-- no escapes, no letters or digits above ASCII, keys as they are, and a hash that marks the token
abbrev pub env : Env
env = record {
  strip = λ s. s;
  letter = λ c. false;
  digit = λ c. false;
  lower = λ c. c;
  marshal_key = λ k. k;
  parse_key = some;
  hash_token = λ t. 35 ∷ t;
  sqlx_in = λ ns. elim ns [ [] ↦ none | n ∷ rest ↦ some (n ∷ rest) ];
}

-- an empty cache, and every path there
abbrev pub host : Host
host = record { cached = λ name. none; exists = λ path. true; data_path = str "data" ∷ [] }

abbrev pub hooks : Hooks
hooks = record { new_event = λ r name. true; send_event = λ r name. true }

abbrev pub ann : User
ann = record { id = 1; username = str "ann"; admin = false; password = none }

abbrev pub bob : User
bob = record { id = 2; username = str "bob"; admin = false; password = none }

abbrev pub ann_session : ProtoUser
ann_session = record { user = ann; public_keys = [] }

abbrev pub bob_session : ProtoUser
bob_session = record { user = bob; public_keys = [] }

abbrev pub open_repo : Repo
open_repo = record {
  id = 1;
  name = str "a";
  project_name = [];
  description = [];
  private = false;
  mirror = false;
  hidden = false;
  user_id = 1;
}

abbrev pub secret_repo : Repo
secret_repo = record open_repo { id = 2; name = str "b"; private = true }

abbrev pub old_token : AccessToken
old_token = record { id = 1; name = str "ci"; user_id = 1; token = str "#x"; expires_at = some 10 }

abbrev pub bob_token : AccessToken
bob_token = record { id = 2; name = str "me"; user_id = 2; token = str "#y"; expires_at = none }

-- ann owns a public and a private repository and each user has a token; anonymous users may write
abbrev pub db : Db
db = record empty_db {
  users = ann ∷ bob ∷ [];
  next_user = 3;
  repos = open_repo ∷ secret_repo ∷ [];
  next_repo = 3;
  access_tokens = old_token ∷ bob_token ∷ [];
  next_token = 3;
  anon_access = some (str "read-write");
}
