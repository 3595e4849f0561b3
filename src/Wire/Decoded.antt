-- ===== src/Wire/Decoded.antt =====
-- Every message is decoded from the bytes of its struct.
use miniraft_cpp.Prelude.{ℕ, ◌≤◌, ◌≡◌, inl, inr, refl, ap, ◌∙◌, length, ok, arith}
use miniraft_cpp.Prelude.Bytes.{to_bytes}
use miniraft_cpp.Messages.{
  LogEntry, Message, log_entry, request_vote_request, request_vote_response, append_entries_request,
  append_entries_response, command_request, command_response, other, message_type,
}
use miniraft_cpp.Disk.Entries.{value_bytes, entry_of-value_bytes}
use miniraft_cpp.Wire.Structs.{
  ex_bytes, value_of, payload_of, encode, request_vote_request_of, request_vote_response_of,
  append_entries_request_of, append_entries_response_of, command_request_of, command_response_of,
  decode,
}
use miniraft_cpp.Wire.Fields.{
  FitsFields, long_enough, entries_from-entry_frames, request_vote_request_lem,
  request_vote_response_lem, append_entries_request_lem, append_entries_response_lem,
  command_request_lem, command_response_lem,
}

log_entry_value : (e : LogEntry) → value_of (log_entry e) ≡ value_bytes e
unfolding value_of
log_entry_value e = refl

-- The sizes of the structs, less that of TMessage.
unfoldable pub value_size : Message → ℕ
value_size (log_entry e) = 16
value_size (request_vote_request x m) = 48
value_size (request_vote_response x m) = 32
value_size (append_entries_request x m es) = 56
value_size (append_entries_response x m) = 40
value_size (command_request m) = 8
value_size (command_response m) = 16
value_size (other t) = 0

pub length-value_of : (m : Message) → value_size m ≤ length (value_of m)
unfolding value_size value_of ex_bytes to_bytes
length-value_of (log_entry e) = omega arith
length-value_of (request_vote_request x m) = omega arith
length-value_of (request_vote_response x m) = omega arith
length-value_of (append_entries_request x m es) = omega arith
length-value_of (append_entries_response x m) = omega arith
length-value_of (command_request m) = omega arith
length-value_of (command_response m) = omega arith
length-value_of (other t) = omega arith

-- Every message that is encoded is decoded to itself, if its numbers fit their fields.
pub decode-encode : (m : Message) → FitsFields m → decode (encode m) ≡ ok m
unfolding decode encode payload_of message_type value_size
decode-encode (log_entry e) fits = rw (log_entry_value e, entry_of-value_bytes e fits) refl
decode-encode (request_vote_request x m) fits =
    let mes = request_vote_request x m in
    long_enough 48 (value_of mes) (request_vote_request_of (value_of mes)) (length-value_of mes)
    ∙ ap ok (request_vote_request_lem x fits.0 m fits)
decode-encode (request_vote_response x m) fits =
    let mes = request_vote_response x m in
    long_enough 32 (value_of mes) (request_vote_response_of (value_of mes)) (length-value_of mes)
    ∙ ap ok (request_vote_response_lem x fits m)
decode-encode (append_entries_request x m es) fits =
    let mes = append_entries_request x m es in
    rw (entries_from-entry_frames es fits.6) (
      long_enough 56 (value_of mes) (append_entries_request_of (value_of mes) es)
        (length-value_of mes)
      ∙ ap ok (append_entries_request_lem x fits.0 m es fits))
decode-encode (append_entries_response x m) fits =
    let mes = append_entries_response x m in
    long_enough 40 (value_of mes) (append_entries_response_of (value_of mes)) (length-value_of mes)
    ∙ ap ok (append_entries_response_lem x fits.0 m fits.1)
decode-encode (command_request m) fits =
    let mes = command_request m in
    long_enough 8 (value_of mes) (command_request_of (value_of mes)) (length-value_of mes)
    ∙ ap ok (command_request_lem m fits)
decode-encode (command_response m) fits =
    let mes = command_response m in
    long_enough 16 (value_of mes) (command_response_of (value_of mes)) (length-value_of mes)
    ∙ ap ok (command_response_lem m fits)
decode-encode (other t) (inl h) = rw h refl
decode-encode (other t) (inr h) = rw h refl
