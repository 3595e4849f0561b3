-- ===== src/Tests/Wires.antt =====
-- miniraft/net/server.cpp: a message that arrives in one segment, and one that arrives in two.
use miniraft_cpp.Prelude.{
  ◌≡◌, refl, [], ◌∷◌, ◌++◌, take, drop, All, length-append, arith, ok, err, runtime_error, Returns,
}
use miniraft_cpp.Prelude.Bytes
use miniraft_cpp.Prelude.Bytes.{append_nil}
use miniraft_cpp.Messages.{Message, MessageEx, append_entries_request}
use miniraft_cpp.Wire
use miniraft_cpp.Wire.{Socket, write}
use miniraft_cpp.Wire.Structs
use miniraft_cpp.Wire.Structs.{encode}
use miniraft_cpp.Wire.Transfer.{frame_bytes}
use miniraft_cpp.Wire.Exchange.{FitsMessage, receive, write-receive}
use miniraft_cpp.Wire.Fields.{FitsEx, FitsFields}
use miniraft_cpp.Wire.Decoded.{decode-encode}
use miniraft_cpp.Wire.Segments.{Line, concat, line_socket, line_socket-IsReliable, receive_split}
use miniraft_cpp.Disk.Layout.{FitsEntry}
use miniraft_cpp.Tests.Files.{first_entry, second_entry, first_fits, second_fits}

abbrev request_header : MessageEx
request_header = record { src = 1; dst = 2; term = 3; seqno = 4 }

abbrev request : Message
request =
    append_entries_request request_header
      (record {
        prev_log_index = 5;
        prev_log_term = 2;
        leader_commit = 4;
        leader_id = 1;
        nentries = 2;
      })
      (first_entry ∷ second_entry ∷ [])

request_fields : FitsFields request
request_fields =
    let header : FitsEx request_header = (omega arith, omega arith, omega arith, omega arith) in
    let entries : All FitsEntry (first_entry ∷ second_entry ∷ []) =
      (first_fits, (second_fits, tt)) in
    (header, omega arith, omega arith, omega arith, omega arith, omega arith, entries)

request_fits : FitsMessage request
unfolding Structs.value_of Structs.ex_bytes Bytes.to_bytes
request_fits = record { fields = request_fields; size = omega arith; counted = refl }

-- The bytes of the request, and one more, which arrive in one segment.
abbrev written_line : Line
written_line = record { segments = []; sent = frame_bytes (encode request) }

abbrev whole_line : Line
whole_line = record { segments = (frame_bytes (encode request) ++ 1 ∷ []) ∷ []; sent = [] }

request_written :
    write line_socket (encode request) (record { segments = []; sent = [] }) ≡ ok written_line
unfolding write frame_bytes encode Structs.payload_of Structs.entry_frames Wire.message_bytes
    Bytes.to_bytes Structs.value_of Structs.ex_bytes
request_written = refl

write-receive_example :
    Returns (receive line_socket whole_line) (λ r. (r.1 ≡ request) × (concat r.0.segments ≡ 1 ∷ []))
unfolding line_socket-IsReliable
write-receive_example =
    write-receive line_socket line_socket-IsReliable request (record { segments = []; sent = [] })
      written_line whole_line (1 ∷ []) request_fits request_written
      (append_nil (frame_bytes (encode request) ++ 1 ∷ []))
      (omega (arith, length-append (frame_bytes (encode request)) (1 ∷ [])))

decode-encode_example : Structs.decode (encode request) ≡ ok request
decode-encode_example = decode-encode request request_fields

receive_split_example :
    receive line_socket (record {
      segments = take 6 (frame_bytes (encode request)) ∷ drop 6 (frame_bytes (encode request)) ∷ [];
      sent = [];
    })
    ≡ err runtime_error
receive_split_example = receive_split request 6 (omega arith) (omega arith)
