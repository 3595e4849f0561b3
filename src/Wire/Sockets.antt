-- ===== src/Wire/Sockets.antt =====
-- What the coroio library's sockets are relied on for by miniraft/net/server.cpp.
use miniraft_cpp.Prelude.{ℕ, ◌+◌, ◌≤◌, ◌≡◌, List, ◌++◌, length, take, drop, Returns}
use miniraft_cpp.Wire.{Socket}

-- A connection that stays up: `incoming` are the bytes that the peer has sent and that were not read,
-- the first `arrived` of which are there, and `outgoing` those that were written. ReadSome gives the
-- bytes that are there, at most as many as it is asked for; a reader and a writer take as many as they
-- are asked for, and wait for them.
pub record IsReliable (sock : Socket) : Type 0 where
  pub incoming : sock.Connection → List ℕ
  pub arrived : sock.Connection → ℕ
  pub outgoing : sock.Connection → List ℕ
  pub read_some_bytes :
      (n : ℕ) (s : sock.Connection)
      → incoming s ≡ (sock.read_some n s).1 ++ incoming (sock.read_some n s).0
  pub read_some_bounded : (n : ℕ) (s : sock.Connection) → length (sock.read_some n s).1 ≤ n
  pub read_some_arrived :
      (n : ℕ) (s : sock.Connection) → n ≤ arrived s → length (sock.read_some n s).1 ≡ n
  pub read_some_left :
      (n : ℕ) (s : sock.Connection) → arrived s ≤ arrived (sock.read_some n s).0 + n
  pub read_all_bytes :
      (n : ℕ) (s : sock.Connection)
      → n ≤ length (incoming s)
      → Returns (sock.read_all n s) (λ r.
        (r.1 ≡ take n (incoming s))
        × (incoming r.0 ≡ drop n (incoming s))
        × (arrived s ≤ arrived r.0 + n))
  pub write_all_bytes :
      (bytes : List ℕ) (s : sock.Connection)
      → Returns (sock.write_all bytes s) (λ t. outgoing t ≡ outgoing s ++ bytes)
