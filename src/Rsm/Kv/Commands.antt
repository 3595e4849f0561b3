-- ===== src/Rsm/Kv/Commands.antt =====
-- examples/kv.cpp: what a client's commands do to the store, through the bytes of the log entry.
use miniraft_cpp.Prelude.{
  ℕ, ◌+◌, ◌*◌, ◌/◌, ◌%◌, ◌^◌, ◌<◌, ◌≡◌, ◌≢◌, refl, ap, ◌∙◌, inl, inr, List, [], ◌∷◌, ◌++◌, true,
  false, none, some, lt→ltb, le→leb, ◌==◌, if◌then◌else◌, length, arith, length-append, take_all,
  Bool-cases, ok, Returns,
}
use miniraft_cpp.Prelude.Bytes.{take-length_append, drop-length_append}
use miniraft_cpp.Rsm.Dummy.{copy, empty_response}
use miniraft_cpp.Rsm.Kv.{
  Kv, same_bytes, lookup, assign, discard, kv_entry, read_kv, found, read, apply, write, prepare,
  uint16, set_request, del_request, get_request,
}

same_bytes_refl : (k : List ℕ) → same_bytes k k ≡ true
unfolding same_bytes
same_bytes_refl [] = refl
same_bytes_refl (x ∷ k) = ground (arith, same_bytes_refl k)

same_bytes_eq : (j k : List ℕ) → same_bytes j k ≡ true → j ≡ k
unfolding same_bytes
same_bytes_eq [] [] h = refl
same_bytes_eq [] (y ∷ k) h = absurd (ground arith)
same_bytes_eq (x ∷ j) [] h = absurd (ground arith)
same_bytes_eq (x ∷ j) (y ∷ k) h =
    let e : x ≡ y = ground arith in let rest = same_bytes_eq j k (ground arith) in cc

lookup-assign :
    (k j v : List ℕ) (h : List (List ℕ × List ℕ))
    → lookup j (assign k v h) ≡ (if same_bytes k j then some v else lookup j h)
unfolding lookup assign
lookup-assign k j v [] = refl
lookup-assign k j v ((i, w) ∷ h) = elim (Bool-cases (same_bytes i k)) [
  | inl same ↦ let e = same_bytes_eq i k same in rw (same, e) (ground arith)
  | inr apart ↦ elim (Bool-cases (same_bytes i j)) [
    | inl hit ↦
        let e = same_bytes_eq i j hit in
        let miss : same_bytes k j ≡ false = elim (Bool-cases (same_bytes k j)) [
          | inl eq ↦ absurd (
              let f = same_bytes_eq k j eq in
              let g : same_bytes i k ≡ true = rw (e, f) (same_bytes_refl j) in cc)
          | inr ne ↦ ne
        ] in
        rw (apart, hit, miss) refl
    | inr other ↦ rw (apart, other) (lookup-assign k j v h)
  ]
]

lookup-discard :
    (k j : List ℕ) (h : List (List ℕ × List ℕ))
    → lookup j (discard k h) ≡ (if same_bytes k j then none else lookup j h)
unfolding lookup discard
lookup-discard k j [] = ground arith
lookup-discard k j ((i, w) ∷ h) = elim (Bool-cases (same_bytes i k)) [
  | inl same ↦ let e = same_bytes_eq i k same in rw (same, e) (lookup-discard k j h ∙ ground arith)
  | inr apart ↦ elim (Bool-cases (same_bytes i j)) [
    | inl hit ↦
        let e = same_bytes_eq i j hit in
        let miss : same_bytes k j ≡ false = elim (Bool-cases (same_bytes k j)) [
          | inl eq ↦ absurd (
              let f = same_bytes_eq k j eq in
              let g : same_bytes i k ≡ true = rw (e, f) (same_bytes_refl j) in cc)
          | inr ne ↦ ne
        ] in
        rw (apart, hit, miss) refl
    | inr other ↦ rw (apart, other) (lookup-discard k j h)
  ]
]

copy-append : (k rest : List ℕ) → copy (length k) (k ++ rest) ≡ ok k
unfolding copy
copy-append k rest =
    rw (le→leb (length k) (length (k ++ rest)) (omega (arith, length-append k rest)))
      (ap ok (take-length_append k rest))

copy_all : (v : List ℕ) → copy (length v) v ≡ ok v
unfolding copy
copy_all v =
    rw (le→leb (length v) (length v) (omega arith)) (ap ok (take_all (length v) v (omega arith)))

-- A size that fits its field.
abbrev pub Fits : List ℕ → Type 0
Fits k = (0 < length k) × (length k < 2 ^ 16)

decode : (n : ℕ) → n < 2 ^ 16 → n % 256 + 256 * (n / 256 % 256) ≡ n
decode n h = omega arith

kv_entry-set_request :
    (k v : List ℕ)
    → Fits k
    → Fits v
    → kv_entry (set_request k v).data_bytes ≡ ok (length k, length v, k ++ v)
unfolding kv_entry set_request uint16
kv_entry-set_request k v fk fv = rw (decode (length k) fk.1, decode (length v) fv.1) refl

kv_entry-del_request :
    (k : List ℕ) → Fits k → kv_entry (del_request k).data_bytes ≡ ok (length k, 0, k)
unfolding kv_entry del_request uint16
kv_entry-del_request k fk = rw (decode (length k) fk.1) refl

read_kv-get_request :
    (flags : ℕ) (k : List ℕ)
    → Fits k
    → read_kv (get_request flags k).data_bytes ≡ ok (length k, k ++ 0 ∷ 0 ∷ [])
unfolding read_kv get_request uint16
read_kv-get_request flags k fk = rw (decode (length k) fk.1) refl

write-set_request :
    (k v : List ℕ) (i : ℕ) (kv : Kv)
    → Fits k
    → Fits v
    → kv.last_applied_index < i
    → write (prepare (set_request k v)) i kv
      ≡ ok (record { h = assign k v kv.h; last_applied_index = i }, none)
unfolding write apply prepare
write-set_request k v i kv fk fv new =
    let some_value : (length v == 0) ≡ false = ground arith in
    rw
      (
        lt→ltb kv.last_applied_index i new,
        kv_entry-set_request k v fk fv,
        copy-append k v,
        some_value,
        drop-length_append k v,
        copy_all v,
      )
      refl

write-del_request :
    (k : List ℕ) (i : ℕ) (kv : Kv)
    → Fits k
    → kv.last_applied_index < i
    → write (prepare (del_request k)) i kv
      ≡ ok (record { h = discard k kv.h; last_applied_index = i }, none)
unfolding write apply prepare
write-del_request k i kv fk new =
    rw (lt→ltb kv.last_applied_index i new, kv_entry-del_request k fk, copy_all k) refl

read-get_request :
    (flags : ℕ) (k : List ℕ) (n : ℕ) (kv : Kv)
    → Fits k
    → read (get_request flags k) n kv ≡ ok (kv, found n (lookup k kv.h))
unfolding read
read-get_request flags k n kv fk =
    let some_key : (length k == 0) ≡ false = ground arith in
    rw (read_kv-get_request flags k fk, some_key, copy-append k (0 ∷ 0 ∷ [])) refl

module _ (k : List ℕ) (i : ℕ) (kv : Kv) (fits : Fits k) (new : kv.last_applied_index < i) where
  -- After a client's set of a value, applied at a new index, a get of that key answers the value,
  -- through the bytes of the commands and of the log entry. The key and the value are not empty,
  -- and their sizes fit 16 bits.
  pub write_set_get :
      (v : List ℕ) (flags n : ℕ)
      → Fits v
      → Returns (write (prepare (set_request k v)) i kv) (λ r.
        read (get_request flags k) n r.0 ≡ ok (r.0, record (empty_response n) { data_bytes = v }))
  write_set_get v flags n fv =
      let after : Kv = record { h = assign k v kv.h; last_applied_index = i } in
      rw (write-set_request k v i kv fits fv new) (
        read-get_request flags k n after fits
        ∙ ap (λ o. ok (after, found n o))
            (lookup-assign k k v kv.h
              ∙ ap (λ b. if b then some v else lookup k kv.h) (same_bytes_refl k)))

  -- After a client's set of one key, applied at a new index, a get of any other key answers what it
  -- would have answered before. The keys and the value are not empty, and their sizes fit 16 bits.
  pub write_set_get_other :
      (v j : List ℕ) (flags n : ℕ)
      → Fits v
      → Fits j
      → k ≢ j
      → Returns (write (prepare (set_request k v)) i kv) (λ r.
        (read (get_request flags j) n r.0 ≡ ok (r.0, found n (lookup j kv.h)))
        × (read (get_request flags j) n kv ≡ ok (kv, found n (lookup j kv.h))))
  write_set_get_other v j flags n fv fj apart =
      let after : Kv = record { h = assign k v kv.h; last_applied_index = i } in
      rw (write-set_request k v i kv fits fv new) (
        read-get_request flags j n after fj
            ∙ ap (λ o. ok (after, found n o))
                (lookup-assign k j v kv.h
                  ∙ ap (λ b. if b then some v else lookup j kv.h) (different j apart)),
        read-get_request flags j n kv fj,
      )
    where
      different : (j : List ℕ) → k ≢ j → same_bytes k j ≡ false
      different j apart = elim (Bool-cases (same_bytes k j)) [
        | inl same ↦ absurd (apart (same_bytes_eq k j same))
        | inr ne ↦ ne
      ]

  -- After a client's del of a key, applied at a new index, a get of that key answers no bytes. The
  -- key is not empty, and its size fits 16 bits.
  pub write_del_get :
      (flags n : ℕ)
      → Returns
          (write (prepare (del_request k)) i kv)
          (λ r. read (get_request flags k) n r.0 ≡ ok (r.0, empty_response n))
  write_del_get flags n =
      let after : Kv = record { h = discard k kv.h; last_applied_index = i } in
      rw (write-del_request k i kv fits new) (
        read-get_request flags k n after fits
        ∙ ap (λ o. ok (after, found n o))
            (lookup-discard k k kv.h
              ∙ ap (λ b. if b then none else lookup k kv.h) (same_bytes_refl k)))
