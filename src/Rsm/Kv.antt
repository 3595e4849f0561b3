-- ===== src/Rsm/Kv.antt =====
-- examples/kv.h and kv.cpp, TKv: a key-value store as a state machine, and the commands of its client.
pub mod Commands
use miniraft_cpp.Prelude.{
  ℕ, zero, suc, ◌+◌, ◌*◌, ◌/◌, ◌%◌, ◌^◌, List, [], ◌∷◌, ◌++◌, Bool, true, false, ◌&&◌, Option, none,
  some, ltb, ◌==◌, if◌then◌else◌, length, drop, Result, ok, err, out_of_bounds, ◌>>=◌,
}
use miniraft_cpp.Messages.{LogEntry, CommandRequest, CommandResponse}
use miniraft_cpp.Rsm.{Rsm}
use miniraft_cpp.Rsm.Dummy.{copy, empty_response}

-- std::string's operator==
unfoldable pub same_bytes : List ℕ → List ℕ → Bool
same_bytes [] [] = true
same_bytes [] (y ∷ ys) = false
same_bytes (x ∷ xs) [] = false
same_bytes (x ∷ xs) (y ∷ ys) = x == y && same_bytes xs ys

-- TKv. `h` is the map H in the order of iteration.
pub record Kv : Type 0 where
  pub h : List (List ℕ × List ℕ)
  pub last_applied_index : ℕ

unfoldable pub lookup : List ℕ → List (List ℕ × List ℕ) → Option (List ℕ)
lookup k [] = none
lookup k ((j, v) ∷ h) = if same_bytes j k then some v else lookup k h

-- `H[k] = v`
unfoldable pub assign : List ℕ → List ℕ → List (List ℕ × List ℕ) → List (List ℕ × List ℕ)
assign k v [] = (k, v) ∷ []
assign k v ((j, w) ∷ h) = if same_bytes j k then (j, v) ∷ h else (j, w) ∷ assign k v h

-- `H.erase(k)`
unfoldable pub discard : List ℕ → List (List ℕ × List ℕ) → List (List ℕ × List ℕ)
discard k [] = []
discard k ((j, w) ∷ h) = let rest = discard k h in if same_bytes j k then rest else (j, w) ∷ rest

-- `k + " = " + v + "\n"` for each pair.
unfoldable pub listing : List (List ℕ × List ℕ) → List ℕ
listing [] = []
listing ((k, v) ∷ h) = k ++ 32 ∷ 61 ∷ 32 ∷ v ++ 10 ∷ listing h

-- The fields of TKvEntry: KeySize, ValSize, and the bytes of Data.
unfoldable pub kv_entry : List ℕ → Result (ℕ × ℕ × List ℕ)
kv_entry (k₀ ∷ k₁ ∷ v₀ ∷ v₁ ∷ bytes) = ok (k₀ + 256 * k₁, v₀ + 256 * v₁, bytes)
kv_entry _ = err out_of_bounds

-- The fields of TReadKv.
unfoldable pub read_kv : List ℕ → Result (ℕ × List ℕ)
read_kv (k₀ ∷ k₁ ∷ bytes) = ok (k₀ + 256 * k₁, bytes)
read_kv _ = err out_of_bounds

abbrev pub found : ℕ → Option (List ℕ) → CommandResponse
found index none = empty_response index
found index (some v) = record (empty_response index) { data_bytes = v }

-- TKv::Read
unfoldable pub read : CommandRequest → ℕ → Kv → Result (Kv × CommandResponse)
unfolding read_kv lookup listing
read m index kv = do
  q ← read_kv m.data_bytes
  if q.0 == 0
      then ok (kv, record (empty_response index) { data_bytes = listing kv.h })
      else copy q.0 q.1 >>= λ k. ok (kv, found index (lookup k kv.h))

-- The body of TKv::Write.
unfoldable pub apply : List ℕ → ℕ → Kv → Result (Kv × Option CommandResponse)
unfolding kv_entry assign discard
apply bytes index kv = do
  q ← kv_entry bytes
  k ← copy q.0 q.2
  if q.1 == 0
      then ok (record { h = discard k kv.h; last_applied_index = index }, none)
      else copy q.1 (drop q.0 q.2) >>= λ v.
          ok (record { h = assign k v kv.h; last_applied_index = index }, none)

-- TKv::Write
unfoldable pub write : LogEntry → ℕ → Kv → Result (Kv × Option CommandResponse)
unfolding apply
write e index kv =
    if ltb kv.last_applied_index index then apply e.data_bytes index kv else ok (kv, none)

-- TKv::Prepare
unfoldable pub prepare : CommandRequest → LogEntry
prepare m = record { term = 1; flags = 0; data_bytes = m.data_bytes }

abbrev pub kv_rsm : Rsm
kv_rsm = record {
  Machine = Kv;
  last_applied = λ kv. kv.last_applied_index;
  set_last_applied = λ i kv. record kv { last_applied_index = i };
  read = read;
  write = write;
  prepare = prepare;
}

-- A uint16_t in memory, low byte first; a longer size is cut.
unfoldable pub uint16 : ℕ → List ℕ
uint16 n = n % 256 ∷ n / 256 % 256 ∷ []

-- The client's `set`, `del`, `get` and `list`.
unfoldable pub set_request : List ℕ → List ℕ → CommandRequest
unfolding uint16
set_request k v = record {
  flags = 1;
  cookie = 0;
  data_bytes = uint16 (length k) ++ uint16 (length v) ++ k ++ v;
}

unfoldable pub del_request : List ℕ → CommandRequest
unfolding uint16
del_request k = record { flags = 1; cookie = 0; data_bytes = uint16 (length k) ++ 0 ∷ 0 ∷ k }

-- The struct is two bytes longer than its fields; those two follow the key, and nothing reads them.
unfoldable pub get_request : ℕ → List ℕ → CommandRequest
unfolding uint16
get_request flags k = record {
  flags = flags;
  cookie = 0;
  data_bytes = uint16 (length k) ++ k ++ 0 ∷ 0 ∷ [];
}

unfoldable pub list_request : ℕ → CommandRequest
list_request flags = record { flags = flags; cookie = 0; data_bytes = 0 ∷ 0 ∷ 0 ∷ 0 ∷ [] }
