-- ===== src/Tests/Data.antt =====
-- A small deployment: digests, two objects, two in-memory backends and their schedules.
use replica_t.Common.{ℕ, suc, pos, Text, text, ◌≡◌, refl, ltb, List, [], ◌∷◌, ◌++◌, length, arith}
use replica_t.Crypto.{Crypto}
use replica_t.Config.Modes.{ReadMode, multi_sync}
use replica_t.Types.Error.{S3Error, Result, ok, err, internal_error, returned}
use replica_t.Types.Models.{DateTime, ObjectMetadata}
use replica_t.Storage.Backend.{Bytes, StorageBackend}
use replica_t.Storage.HashMap.{get, insert}
use replica_t.Storage.Schedule.{IsSchedule, contains}
use replica_t.Storage.InMemory.{InMemoryStorage, read_body, put_object, stored}
use replica_t.Storage.InMemory.Objects.{IsWellFormed, put_object-IsWellFormed}
use replica_t.Storage.Cluster.{Cluster, backends_from}
use replica_t.Storage.MultiBackend.{MultiBackend}

-- Stand-ins for the digests: a checksum of the length, printed as it is.
abbrev pub crypto : Crypto
crypto = record {
  sha256 = λ b. length b ∷ [];
  hmac = λ k b. returned (k ++ b);
  hex_encode = λ b. b;
}

abbrev pub now : DateTime
now = pos 7

abbrev pub key : Text
key = 97 ∷ []

abbrev pub other_key : Text
other_key = 98 ∷ []

abbrev pub chunks : List Bytes
chunks = (1 ∷ 2 ∷ []) ∷ (3 ∷ []) ∷ []

abbrev pub empty : InMemoryStorage
empty = []

pub empty-IsWellFormed : IsWellFormed crypto empty
unfolding get
empty-IsWellFormed = record { unique = tt; consistent = λ k o h. ground (arith, h) }

-- A map with the object `other_key`.
abbrev pub one_object : InMemoryStorage
one_object = (other_key, stored crypto now other_key (5 ∷ [])) ∷ []

pub one_object-IsWellFormed : IsWellFormed crypto one_object
unfolding put_object read_body insert
one_object-IsWellFormed =
    put_object-IsWellFormed crypto now other_key (ok (5 ∷ []) ∷ []) empty empty-IsWellFormed

-- Each backend reads a time of its own.
abbrev pub clock : ℕ → DateTime
clock i = pos i

abbrev pub cluster : Cluster
cluster = record { stores = empty ∷ one_object ∷ []; clock = clock }

abbrev pub replicated : ReadMode → MultiBackend Cluster
replicated mode = record {
  backends = backends_from crypto 0 2;
  primary_index = 1;
  read_mode = mode;
  write_mode = multi_sync;
}

-- Backend 1 completes before backend 0.
abbrev pub order : List ℕ
order = 1 ∷ 0 ∷ []

order-covers : (i : ℕ) → contains i order ≡ ltb i 2
unfolding contains
order-covers i = ground arith

pub order-IsSchedule : IsSchedule 2 order
unfolding contains
order-IsSchedule = record { covers = order-covers; once = (refl, (refl, tt)) }

abbrev pub broken : S3Error
broken = internal_error (text "down")

-- The object `key` as some backend has it, with a given ETag.
abbrev pub metadata : Text → ObjectMetadata
metadata etag = record { key = key; size = 1; etag = etag; last_modified = now; content_type = [] }

-- A backend that answers HEAD with `r`, fails at all else, and counts the calls.
abbrev pub answering : Result ObjectMetadata → StorageBackend ℕ
answering r = record {
  head_bucket = λ w. (err broken, suc w);
  list_objects = λ prefix max_keys w. (err broken, suc w);
  head_object = λ k w. (r, suc w);
  get_object = λ k w. (err broken, suc w);
  put_object = λ k body w. (err broken, suc w);
  delete_object = λ k w. (err broken, suc w);
}

-- The primary, backend 0, is down; backend 1 has the object.
abbrev pub one_down : ReadMode → MultiBackend ℕ
one_down mode = record {
  backends = answering (err broken) ∷ answering (ok (metadata [])) ∷ [];
  primary_index = 0;
  read_mode = mode;
  write_mode = multi_sync;
}
