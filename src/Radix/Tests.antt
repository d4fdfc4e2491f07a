-- ===== src/Radix/Tests.antt =====
-- internal/radix/tree.go: the theorems at small trees.
use go_mcache.Base.{◌≡◌, true, List, [], ◌∷◌, length, if◌then◌else◌, ◌==◌, ◌%◌, ◌^◌, ◌++◌}
use go_mcache.Base.Assoc.{find}
use go_mcache.Radix.{new, insert, delete, has}
use go_mcache.Radix.Has.{is_some}
use go_mcache.Radix.Walk.{find_by_prefix, walk_prefix}
use go_mcache.Radix.Refines.{Call, call_insert, call_delete, run, changes, same_key, run-Refines}
use go_mcache.Radix.Reports.{Reports, find_by_prefix-Reports, walk_prefix_lem}

-- ab, abc and ad, and ab taken out again
abbrev calls : List Call
calls =
    call_insert (97 ∷ 98 ∷ []) 1
    ∷ call_insert (97 ∷ 98 ∷ 99 ∷ []) 2
    ∷ call_insert (97 ∷ 100 ∷ []) 3
    ∷ call_delete (97 ∷ 98 ∷ [])
    ∷ []

run-Refines_example :
    (has (run calls new) (97 ∷ 100 ∷ [])
      ≡ is_some (find same_key (97 ∷ 100 ∷ []) (changes calls [])))
    × ((delete (run calls new) (97 ∷ 100 ∷ [])).0
        ≡ is_some (find same_key (97 ∷ 100 ∷ []) (changes calls [])))
    × (has (insert (run calls new) (97 ∷ 100 ∷ []) 4) (97 ∷ 100 ∷ []) ≡ true)
    × ((run calls new).size ≡ length (changes calls []) % 2 ^ 64)
run-Refines_example = run-Refines calls (97 ∷ 100 ∷ []) 4

find_by_prefix-Reports_example :
    Reports
      (λ rest. find same_key ((97 ∷ []) ++ rest) (changes calls []))
      (if 5 == 0 then 100 else 5)
      (find_by_prefix (run calls new) (97 ∷ []) 5)
find_by_prefix-Reports_example = find_by_prefix-Reports calls (97 ∷ []) 5

walk_prefix_lem_example :
    walk_prefix (insert new (97 ∷ (98 ∷ []) ++ 99 ∷ []) 7) (97 ∷ 98 ∷ []) (λ k h. true)
    ≡ (97 ∷ 98 ∷ [], 7) ∷ []
walk_prefix_lem_example = walk_prefix_lem 97 99 7 (98 ∷ []) [] (λ k h. true)
