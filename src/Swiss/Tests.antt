-- ===== src/Swiss/Tests.antt =====
-- internal/hashtable/swiss.go: the theorems at a table of one group.
use go_mcache.Base.{ℕ, ◌≤◌, ◌≡◌, refl, not, ◌&&◌, some, none, arith, ◌==◌, if◌then◌else◌}
use go_mcache.Swiss.{
  SwissTable, empty_table, insert_no_lock, insert, get, delete, update, find_locked, find_loop,
  match_group, free_loop, free_in_group, group_at, num_groups, h1, h2,
}
use go_mcache.Swiss.Inv.{IsValid}
use go_mcache.Swiss.Map.{
  empty_table-IsValid, empty_table-held, empty_table-size, insert_no_lock-Put,
}
use go_mcache.Swiss.Api.{is_absent, insert-get, delete-get, update-get}

abbrev one_key : SwissTable
one_key = (insert_no_lock (empty_table 16) 5 7).0

one_key-IsValid : IsValid 0 one_key
one_key-IsValid =
    (insert_no_lock-Put 0 (empty_table 16) (empty_table-IsValid 0) 5 7 (empty_table-held 0 5)
      (omega (arith, empty_table-size 16)) (omega arith)).1.valid

insert-get_example :
    ((insert one_key 133 9).1 ≡ is_absent (get one_key 133))
    × (k : ℕ) × (0 ≤ k)
    × IsValid k (insert one_key 133 9).0
    × ((h : ℕ) → get (insert one_key 133 9).0 h ≡ (if 133 == h then some 9 else get one_key h))
insert-get_example = insert-get 0 one_key one_key-IsValid 133 9 (omega arith)

delete-get_example :
    ((delete one_key 5).1 ≡ get one_key 5)
    × IsValid 0 (delete one_key 5).0
    × ((h : ℕ) → get (delete one_key 5).0 h ≡ (if 5 == h then none else get one_key h))
delete-get_example = delete-get 0 one_key one_key-IsValid 5 (omega arith)

update-get_example :
    ((update one_key 5 8).1 ≡ not (is_absent (get one_key 5)))
    × IsValid 0 (update one_key 5 8).0
    × ((h : ℕ)
        → get (update one_key 5 8).0 h
          ≡ (if (update one_key 5 8).1 && (5 == h) then some 8 else get one_key h))
update-get_example = update-get 0 one_key one_key-IsValid 5 8

-- 5 and 133 have the same control byte
collision : (get (insert one_key 133 9).0 5 ≡ some 7) × (get (insert one_key 133 9).0 133 ≡ some 9)
unfolding insert insert_no_lock get empty_table find_locked find_loop match_group free_loop
    free_in_group group_at num_groups h1 h2
collision = (refl, refl)
