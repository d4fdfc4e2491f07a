-- ===== src/Store/Tests.antt =====
-- The theorems on internal/store at small inputs.

use go_mcache.Base.Assoc.{find, put}
use go_mcache.Base.{ℕ, ◌≡◌, refl, inl, none, some, ℕ_discrete}
use go_mcache.Store.Sharded.{
  Entry, ShardedStore, new_sharded_store, with_hash, exchange, next_power_of2, set_entry, get,
  peek_by_hash, delete, delete_by_hash, collect_expired, delete_if_expired,
}
use go_mcache.Store.Sharded.Inv.{IsValid, Changed, entry_of, new_sharded_store-IsValid}
use go_mcache.Store.Sharded.Map.{set_entry-Changed, delete-Changed}
use go_mcache.Store.Sharded.Readers.{collect_expired-get}
use go_mcache.Store.Sharded.Expiry.{Purged, collect_expired-Purged}

-- a key hashes to itself
abbrev hash_of : ℕ → ℕ
hash_of k = k

abbrev four_shards : ShardedStore ℕ ℕ
four_shards = new_sharded_store 4

four_shards-IsValid : IsValid ℕ_discrete hash_of four_shards
four_shards-IsValid = (new_sharded_store-IsValid ℕ_discrete hash_of 4 6).0

-- an entry for the key 6 that expires at 100
abbrev six : Entry ℕ ℕ
six = record { key = 6; value = 60; key_hash = 0; expire_at = 100; cost = 1 }

set_entry-Changed_example :
    ((set_entry ℕ_discrete hash_of four_shards six).0 ≡ entry_of ℕ_discrete hash_of four_shards 6)
    × Changed ℕ_discrete hash_of 6
        (some (with_hash hash_of six))
        four_shards
        (set_entry ℕ_discrete hash_of four_shards six).1
set_entry-Changed_example =
    set_entry-Changed ℕ_discrete hash_of four_shards four_shards-IsValid six (inl refl)

abbrev one_entry : ShardedStore ℕ ℕ
one_entry = (set_entry ℕ_discrete hash_of four_shards six).1

one_entry-IsValid : IsValid ℕ_discrete hash_of one_entry
one_entry-IsValid =
    (set_entry-Changed ℕ_discrete hash_of four_shards four_shards-IsValid six (inl refl)).1.valid

delete-Changed_example :
    (delete_by_hash ℕ_discrete one_entry 6 6 ≡ delete ℕ_discrete hash_of one_entry 6)
    × ((delete ℕ_discrete hash_of one_entry 6).0 ≡ entry_of ℕ_discrete hash_of one_entry 6)
    × Changed ℕ_discrete hash_of 6 none one_entry (delete ℕ_discrete hash_of one_entry 6).1
delete-Changed_example = delete-Changed ℕ_discrete hash_of one_entry one_entry-IsValid 6

collect_expired-get_example :
    (get ℕ_discrete hash_of (collect_expired ℕ_discrete one_entry 150).1 200 6
      ≡ get ℕ_discrete hash_of one_entry 200 6)
    × (get ℕ_discrete hash_of (delete_if_expired ℕ_discrete one_entry 6 6 100 150).1 200 6
        ≡ get ℕ_discrete hash_of one_entry 200 6)
    × (peek_by_hash ℕ_discrete (collect_expired ℕ_discrete one_entry 150).1 6 6
        ≡ get ℕ_discrete hash_of one_entry 150 6)
collect_expired-get_example =
    collect_expired-get ℕ_discrete hash_of one_entry one_entry-IsValid 150 200 refl 6 6 100

collect_expired-Purged_example :
    Purged ℕ_discrete hash_of 150 one_entry
      (collect_expired ℕ_discrete one_entry 150).0
      (collect_expired ℕ_discrete one_entry 150).1
collect_expired-Purged_example =
    collect_expired-Purged ℕ_discrete hash_of one_entry one_entry-IsValid 150

abbrev stored_six : Entry ℕ ℕ
stored_six = record six { key_hash = 6 }

six_stored : entry_of ℕ_discrete hash_of one_entry 6 ≡ some stored_six
unfolding set_entry exchange with_hash new_sharded_store next_power_of2 find put ℕ_discrete
six_stored = refl
