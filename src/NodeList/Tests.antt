-- ===== src/NodeList/Tests.antt =====
-- Runs of lib/list.c, and its theorems at a list of two nodes.
use os_store.Base.{ℕ, ◌≡◌, refl, none, some, List, [], ◌∷◌, ◌==◌, if◌then◌else◌, arith, done, ◌+◌}
use os_store.NodeList.{
  Nodes, ListT, list_push, list_insert_sort, list_remove, list_size, list_pop, list_pushback,
  list_search,
}
use os_store.NodeList.Chain.{Holds}
use os_store.NodeList.Edit.{Spares}
use os_store.NodeList.Order.{insert_by, IsSorted, list_insert_sort-Holds}
use os_store.NodeList.Calls.{
  Call, push, pushback, pop, remove, search, size, run, sequence_run, Alone, call,
}
use os_store.NodeList.Run.{run-sequence_run}

abbrev ends : ListT
ends = record { head = 1; tail = 2 }

-- 1 ⇄ 7 ⇄ 9 ⇄ 2
abbrev two : Nodes
two = record {
  next = λ q. if q == 1 then some 7 else if q == 7 then some 9 else if q == 9 then some 2 else none;
  prev = λ q. if q == 2 then some 9 else if q == 9 then some 7 else if q == 7 then some 1 else none;
}

two-Holds : Holds two ends (7 ∷ 9 ∷ [])
two-Holds = record {
  links = (refl, refl, (refl, refl, (refl, refl)));
  distinct = (refl, (refl, (refl, (refl, tt))));
}

two-Alone : Alone two ends (7 ∷ 9 ∷ [])
two-Alone = record { holds = two-Holds; clean = λ q o. (ground (arith, o), ground (arith, o)) }

abbrev calls : List Call
calls = push 4 ∷ pushback 5 ∷ size ∷ remove 7 ∷ pop ∷ search 9 ∷ []

calls-run : run 20 ends calls two ≡ done (0 ∷ 0 ∷ 4 ∷ 0 ∷ 4 ∷ 1 ∷ [])
unfolding run call list_push list_pushback list_size list_pop list_search list_remove
calls-run = refl

run-sequence_run_example : run 20 ends calls two ≡ sequence_run calls (7 ∷ 9 ∷ [])
run-sequence_run_example =
    run-sequence_run 20 ends calls two (7 ∷ 9 ∷ []) (refl, (refl, (tt, (refl, (tt, (tt, tt))))))
      two-Alone (omega arith) (omega arith)

abbrev key : ℕ → ℕ
key q = q + 10

list_insert_sort_example :
    (g : Nodes) × (list_insert_sort 5 ends key 8 two ≡ done g)
    × Holds g ends (insert_by key 8 (7 ∷ 9 ∷ []))
    × Spares ends (insert_by key 8 (7 ∷ 9 ∷ [])) two g
    × (IsSorted key (7 ∷ 9 ∷ []) → IsSorted key (insert_by key 8 (7 ∷ 9 ∷ [])))
list_insert_sort_example =
    list_insert_sort-Holds 5 key 8 two ends (7 ∷ 9 ∷ []) two-Holds refl refl refl (omega arith)
