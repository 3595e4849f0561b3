-- ===== src/Tests/Store.antt =====
-- A key-value store, with the keys and the values in bytes.
use miniraft_cpp.Prelude.{◌≡◌, [], ◌∷◌, arith, ok, Returns}
use miniraft_cpp.Rsm.Dummy.{empty_response}
use miniraft_cpp.Rsm.Kv.{
  Kv, lookup, found, read, write, prepare, set_request, del_request, get_request,
}
use miniraft_cpp.Rsm.Kv.Commands.{write_set_get, write_set_get_other, write_del_get}

abbrev store : Kv
store = record { h = (1 ∷ 2 ∷ [], 7 ∷ []) ∷ (3 ∷ [], 8 ∷ []) ∷ []; last_applied_index = 4 }

write_set_get_example :
    Returns (write (prepare (set_request (1 ∷ 2 ∷ []) (9 ∷ 9 ∷ []))) 5 store) (λ r.
      read (get_request 0 (1 ∷ 2 ∷ [])) 6 r.0
      ≡ ok (r.0, record (empty_response 6) { data_bytes = 9 ∷ 9 ∷ [] }))
write_set_get_example =
    write_set_get (1 ∷ 2 ∷ []) 5 store (omega arith, omega arith) (omega arith) (9 ∷ 9 ∷ []) 0 6
      (omega arith, omega arith)

write_set_get_other_example :
    Returns (write (prepare (set_request (1 ∷ 2 ∷ []) (9 ∷ 9 ∷ []))) 5 store) (λ r.
      (read (get_request 0 (3 ∷ [])) 6 r.0 ≡ ok (r.0, found 6 (lookup (3 ∷ []) store.h)))
      × (read (get_request 0 (3 ∷ [])) 6 store ≡ ok (store, found 6 (lookup (3 ∷ []) store.h))))
write_set_get_other_example =
    write_set_get_other (1 ∷ 2 ∷ []) 5 store (omega arith, omega arith) (omega arith) (9 ∷ 9 ∷ [])
      (3 ∷ []) 0 6 (omega arith, omega arith) (omega arith, omega arith) (λ e. cc)

write_del_get_example :
    Returns
      (write (prepare (del_request (1 ∷ 2 ∷ []))) 5 store)
      (λ r. read (get_request 0 (1 ∷ 2 ∷ [])) 6 r.0 ≡ ok (r.0, empty_response 6))
write_del_get_example =
    write_del_get (1 ∷ 2 ∷ []) 5 store (omega arith, omega arith) (omega arith) 0 6
