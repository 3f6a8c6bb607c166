-- ===== src/Hash.antt =====
-- udt4/src/queue.h and queue.cpp: `CHash`, the sockets of a receiving queue by their ids.
-- The nodes that are linked from a place of the table are a list. Ids are not negative.
pub mod Stacks
mod Tests
use udt_patch_for_epoll.Prelude.{
  ℕ, ◌%◌, Bool, true, false, Option, none, some, List, [], ◌∷◌, ◌==◌, if◌then◌else◌,
}

-- `CBucket` without the link to the next.
pub record Bucket : Type 0 where
  pub id : ℕ
  pub udt : ℕ

pub record Hash : Type 0 where
  pub bucket : ℕ → List Bucket
  pub hash_size : ℕ

-- `init` after the constructor.
unfoldable pub new_hash : ℕ → Hash
new_hash size = record { bucket = λ i. []; hash_size = size }

abbrev pub place : Hash → ℕ → ℕ
place h id = id % h.hash_size

-- The loop of `lookup`.
unfoldable pub find_id : ℕ → List Bucket → Option ℕ
find_id id [] = none
find_id id (b ∷ bs) = let rest = find_id id bs in if id == b.id then some b.udt else rest

-- `lookup`
unfoldable pub lookup_id : Hash → ℕ → Option ℕ
lookup_id h id = find_id id (h.bucket (place h id))

abbrev pub set_bucket : Hash → ℕ → List Bucket → Hash
set_bucket h i bs = record h { bucket = λ j. if i == j then bs else h.bucket j }

-- `insert`
unfoldable pub insert_id : Hash → ℕ → ℕ → Hash
insert_id h id u = set_bucket h (place h id) (record { id = id; udt = u } ∷ h.bucket (place h id))

-- The loop of `remove`.
unfoldable pub unlink : ℕ → List Bucket → List Bucket
unlink id [] = []
unlink id (b ∷ bs) = let rest = unlink id bs in if id == b.id then bs else b ∷ rest

-- `remove`
unfoldable pub remove_id : Hash → ℕ → Hash
remove_id h id = set_bucket h (place h id) (unlink id (h.bucket (place h id)))
