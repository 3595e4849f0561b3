-- ===== src/Wire/Exchange.antt =====
-- miniraft/net/server.cpp and miniraft/messages.h: a message of the library, sent by one server and
-- received by another.
use miniraft_cpp.Prelude.{
  ℕ, suc, ◌+◌, ◌^◌, ◌≤◌, ◌<◌, ◌≡◌, inl, inr, refl, ap, sym, ◌∙◌, List, [], ◌∷◌, ◌++◌, length, take,
  take_all, drop, All, Result, ok, ◌>>=◌, Returns, Returns_bind, arith, le→leb,
}
use miniraft_cpp.Prelude.Bytes.{
  to_bytes, length-to_bytes, from_bytes-to_bytes, append_assoc, drop-length_append,
}
use miniraft_cpp.Messages.{
  LogEntry, MessageEx, AppendEntriesRequest, Message, log_entry, request_vote_request,
  request_vote_response, append_entries_request, append_entries_response, command_request,
  command_response, other, message_type,
}
use miniraft_cpp.Disk.Layout.{FitsEntry}
use miniraft_cpp.Disk.Entries.{length-value_bytes}
use miniraft_cpp.Wire.{Socket, nentries_of, payload_size, write, read}
use miniraft_cpp.Wire.Structs.{ex_bytes, value_of, entry_frames, payload_of, encode, decode}
use miniraft_cpp.Wire.Sockets.{IsReliable}
use miniraft_cpp.Wire.Fields.{FitsFields}
use miniraft_cpp.Wire.Decoded.{decode-encode, value_size, length-value_of}
use miniraft_cpp.Wire.Transfer.{
  count, depth, depth_payload, IsWellFormed, AreWellFormed, written-incoming, written-length,
  read-frame_bytes,
}

-- A request counts the entries that it carries.
abbrev pub CountsEntries : Message → Type 0
CountsEntries (append_entries_request x m es) = m.nentries ≡ length es
CountsEntries _ = Unit

-- The numbers of a message fit their fields, `Len` fits 32 bits, and its entries are counted.
pub record FitsMessage (m : Message) : Type 0 where
  pub fields : FitsFields m
  pub size : 8 + length (value_of m) < 2 ^ 32
  pub counted : CountsEntries m

count-entry_frames : (es : List LogEntry) → count (entry_frames es) ≡ length es
unfolding count entry_frames
count-entry_frames [] = refl
count-entry_frames (e ∷ es) = ap suc (count-entry_frames es)

entry_frames-AreWellFormed :
    (es : List LogEntry) → All FitsEntry es → AreWellFormed (entry_frames es)
unfolding AreWellFormed entry_frames payload_size count
entry_frames-AreWellFormed [] fits = tt
entry_frames-AreWellFormed (e ∷ es) fits = (
  (omega arith, omega (arith, length-value_bytes e, fits.0.2), refl, tt),
  entry_frames-AreWellFormed es fits.1,
)

depth-entry_frames : (es : List LogEntry) → depth_payload (entry_frames es) ≤ 1
unfolding depth entry_frames
depth-entry_frames [] = omega arith
depth-entry_frames (e ∷ es) = omega (arith, depth-entry_frames es)

-- The struct of a request up to its last field.
before_nentries : MessageEx → AppendEntriesRequest → List ℕ
before_nentries x m = ex_bytes x (
    to_bytes 8 m.prev_log_index
    ++ (to_bytes 8 m.prev_log_term ++ (to_bytes 8 m.leader_commit ++ to_bytes 4 m.leader_id)))

length-before_nentries :
    (x : MessageEx) (m : AppendEntriesRequest) → length (before_nentries x m) ≡ 52
unfolding before_nentries ex_bytes to_bytes
length-before_nentries x m = omega arith

value_of-before_nentries :
    (x : MessageEx) (m : AppendEntriesRequest) (es : List LogEntry)
    → value_of (append_entries_request x m es) ≡ before_nentries x m ++ to_bytes 4 m.nentries
unfolding value_of before_nentries ex_bytes
value_of-before_nentries x m es = simp append_assoc

nentries_of-value_of :
    (x : MessageEx) (m : AppendEntriesRequest) (es : List LogEntry)
    → m.nentries < 2 ^ 32
    → nentries_of (value_of (append_entries_request x m es)) ≡ ok m.nentries
unfolding nentries_of value_size
nentries_of-value_of x m es small =
    let front = before_nentries x m in
    let nentries = to_bytes 4 m.nentries in
    let value = value_of (append_entries_request x m es) in
    let width = length-to_bytes 4 m.nentries in
    let split = value_of-before_nentries x m es in
    let last : drop 52 value ≡ nentries =
      ap (drop 52) split
      ∙ ap (λ k. drop k (front ++ nentries)) (sym (length-before_nentries x m))
      ∙ drop-length_append front nentries in
    let all : take 4 nentries ≡ nentries = take_all 4 nentries (omega (arith, width)) in
    rw
      (
        le→leb 56 (length value) (length-value_of (append_entries_request x m es)),
        last,
        all,
        from_bytes-to_bytes 4 m.nentries small,
      )
      refl

encode-IsWellFormed : (m : Message) → FitsMessage m → IsWellFormed (encode m)
unfolding IsWellFormed encode message_type payload_of payload_size count
encode-IsWellFormed (log_entry e) f = (omega arith, f.size, refl, tt)
encode-IsWellFormed (request_vote_request x m) f = (omega arith, f.size, refl, tt)
encode-IsWellFormed (request_vote_response x m) f = (omega arith, f.size, refl, tt)
encode-IsWellFormed (append_entries_request x m es) f = (
  omega arith,
  f.size,
  nentries_of-value_of x m es f.fields.5 ∙ ap ok (f.counted ∙ sym (count-entry_frames es)),
  entry_frames-AreWellFormed es f.fields.6,
)
encode-IsWellFormed (append_entries_response x m) f = (omega arith, f.size, refl, tt)
encode-IsWellFormed (command_request m) f = (omega arith, f.size, refl, tt)
encode-IsWellFormed (command_response m) f = (omega arith, f.size, refl, tt)
encode-IsWellFormed (other t) f = elim f.fields [
  | inl h ↦ (omega (arith, h), f.size, rw h refl, tt)
  | inr h ↦ (omega (arith, h), f.size, rw h refl, tt)
]

depth-encode : (m : Message) → depth (encode m) ≤ 2
unfolding depth encode payload_of
depth-encode (log_entry e) = omega arith
depth-encode (request_vote_request x m) = omega arith
depth-encode (request_vote_response x m) = omega arith
depth-encode (append_entries_request x m es) = omega (arith, depth-entry_frames es)
depth-encode (append_entries_response x m) = omega arith
depth-encode (command_request m) = omega arith
depth-encode (command_response m) = omega arith
depth-encode (other t) = omega arith

-- What a server does with the bytes of a message: TMessageReader::Read, and the cast by the type.
unfoldable pub receive : (sock : Socket) → sock.Connection → Result (sock.Connection × Message)
receive sock s = do t ← read sock 2 s; m ← decode t.1; ok (t.0, m)

module _ (sock : Socket) (reliable : IsReliable sock) where
  open reliable use {incoming, arrived, outgoing}

  -- A message that one server writes is the message that the other one reads, with its header, its
  -- fields, its data and its entries, and what follows is left to read, if all bytes of the message
  -- have arrived when the reader starts. The numbers fit the fields of the structs, a request
  -- counts its entries, and the connection stays up.
  pub write-receive :
      (m : Message) (a sent b : sock.Connection) (rest : List ℕ)
      → FitsMessage m
      → write sock (encode m) a ≡ ok sent
      → outgoing a ++ incoming b ≡ outgoing sent ++ rest
      → length (outgoing sent) ≤ length (outgoing a) + arrived b
      → Returns (receive sock b) (λ r. (r.1 ≡ m) × (incoming r.0 ≡ rest))
  unfolding receive
  write-receive m a sent b rest fits written arrives in_time =
      let well = encode-IsWellFormed m fits in
      let there = written-incoming sock reliable (encode m) a sent b rest written arrives in
      let size = written-length sock reliable (encode m) a sent written in
      Returns_bind (read sock 2 b) _ _ _
        (read-frame_bytes sock reliable (encode m) 2 rest b (depth-encode m) well there
          (omega (arith, size, in_time)))
        (λ t h. rw (ap decode h.0 ∙ decode-encode m fits.fields) (refl, h.1))
