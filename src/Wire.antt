-- ===== src/Wire.antt =====
-- miniraft/net/server.cpp, TMessageWriter and TMessageReader: messages as bytes on a socket. The socket
-- and the readers and writers on it are those of the coroio library, a parameter here.
pub mod Sockets
pub mod Structs
pub mod Fields
pub mod Decoded
pub mod Transfer
pub mod Exchange
pub mod Segments
use miniraft_cpp.Prelude.{
  ℕ, zero, suc, ◌+◌, ◌-◌, List, [], ◌∷◌, ◌++◌, ◌==◌, leb, if◌then◌else◌, length, take, drop, Result,
  ok, err, ◌>>=◌, ◌>>◌, guard, assert_failed, out_of_bounds, runtime_error, out_of_fuel,
}
use miniraft_cpp.Prelude.Bytes.{from_bytes, to_bytes}
use miniraft_cpp.Messages.{message_size}

-- TMessageHolder<TMessage> as the network sees it: the type, the bytes of Value, the payload. `Len` is
-- the size of the header and of Value.
mutual
  pub data Frame : Type 0 where
    frame : ℕ → List ℕ → Frames → Frame

  pub data Frames : Type 0 where
    no_frames : Frames
    more_frames : Frame → Frames → Frames

-- What the code uses of a socket: ReadSome, TByteReader::Read and TByteWriter::Write.
pub record Socket : Type 1 where
  pub Connection : Type 0
  pub read_some : ℕ → Connection → Connection × List ℕ
  pub read_all : ℕ → Connection → Result (Connection × List ℕ)
  pub write_all : List ℕ → Connection → Result Connection

-- TMessage as bytes: Type, Len, Value.
unfoldable pub message_bytes : ℕ → List ℕ → List ℕ
message_bytes type value = to_bytes 4 type ++ (to_bytes 4 (message_size + length value) ++ value)

-- TAppendEntriesRequest::Nentries, the last field of the struct, after 52 bytes of Value.
unfoldable pub nentries_of : List ℕ → Result ℕ
nentries_of value =
    if leb 56 (length value) then ok (from_bytes (take 4 (drop 52 value))) else err out_of_bounds

-- The number of messages that follow a message of the type: only AppendEntries has a payload.
unfoldable pub payload_size : ℕ → List ℕ → Result ℕ
payload_size type value = if type == 4 then nentries_of value else ok 0

-- The loop of TMessageReader::Read over the payload.
unfoldable pub read_payload {ℓ} :
    {S : Type ℓ} → (S → Result (S × Frame)) → ℕ → S → Result (S × Frames)
read_payload read zero s = ok (s, no_frames)
read_payload read (suc n) s = do
  first ← read s
  others ← read_payload read n first.0
  ok (others.0, more_frames first.1 others.1)

module _ (sock : Socket) where
  open sock use {Connection, read_some, read_all, write_all}

  -- TMessageWriter::Write
  unfoldable mutual
    pub write : Frame → Connection → Result Connection
    write (frame type value payload) s = do
      s₁ ← write_all (message_bytes type value) s
      write_payload payload s₁

    pub write_payload : Frames → Connection → Result Connection
    write_payload no_frames s = ok s
    write_payload (more_frames f fs) s = do s₁ ← write f s; write_payload fs s₁

  -- Four bytes of the header: a ReadSome that gives fewer is taken for the end of the connection.
  unfoldable pub read_word : Connection → Result (Connection × ℕ)
  read_word s =
      let t = read_some 4 s in guard (length t.1 == 4) runtime_error >> ok (t.0, from_bytes t.1)

  -- TMessageReader::Read. The fuel bounds the depth of the payload, which the code does not.
  unfoldable pub read : ℕ → Connection → Result (Connection × Frame)
  read zero s = err out_of_fuel
  read (suc fuel) s = do
    type ← read_word s
    len ← read_word type.0
    guard (leb message_size len.1) assert_failed
    value ← read_all (len.1 - message_size) len.0
    nentries ← payload_size type.1 value.1
    payload ← read_payload (read fuel) nentries value.0
    ok (payload.0, frame type.1 value.1 payload.1)
