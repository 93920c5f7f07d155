-- ===== src/System/Cache.antt =====
-- The cache of repositories by name (pkg/backend/cache.go). The least-recently-used cache that it
-- wraps comes from outside the repository: C is the type of its states.
use soft_serve.Base.{false, Option, none, some, ◌≡◌, Text, text_eq}
use soft_serve.Store.Schema.{Repo}

-- lru.Cache: Get, Add and Remove. A hit makes the entry the most recent one.
pub record Lru (C : Type 0) : Type 0 where
  pub get : Text → C → Option Repo × C
  pub add : Text → Repo → C → C
  pub remove : Text → C → C

module _ {C : Type 0} (lru : Lru C) where
  -- what Get returns
  abbrev pub hit : Text → C → Option Repo
  hit name c = (lru.get name c).0

  -- What the documentation of the cache says: an added entry is found, one that is found was there
  -- before, as it is, if it is not the one just added, and one that is removed is not found.
  pub record LruLaws : Type 0 where
    pub hit-get : (name other : Text) (c : C) → hit other (lru.get name c).1 ≡ hit other c
    pub hit-add : (name : Text) (r : Repo) (c : C) → hit name (lru.add name r c) ≡ some r
    pub hit-add_other :
        (name other : Text) (r s : Repo) (c : C)
        → text_eq name other ≡ false
        → hit other (lru.add name r c) ≡ some s
        → hit other c ≡ some s
    pub hit-remove : (name : Text) (c : C) → hit name (lru.remove name c) ≡ none
    pub hit-remove_other :
        (name other : Text) (s : Repo) (c : C)
        → hit other (lru.remove name c) ≡ some s
        → hit other c ≡ some s
