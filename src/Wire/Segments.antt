-- ===== src/Wire/Segments.antt =====
-- miniraft/net/server.cpp: the reader on a connection whose bytes arrive in segments, as those of TCP do.
use miniraft_cpp.Prelude.{
  ℕ, ◌+◌, ◌≤◌, ◌<◌, ◌≡◌, ◌≢◌, refl, ap, sym, ◌∙◌, List, [], ◌∷◌, ◌++◌, leb, ◌==◌, true, false,
  if◌then◌else◌, length, take, drop, take-append-drop, length-take, length-drop, length-append,
  le→leb, ok, err, runtime_error, arith, dec_lt,
}
use miniraft_cpp.Prelude.Bytes.{from_bytes, append_assoc, append_nil}
use miniraft_cpp.Messages.{Message}
use miniraft_cpp.Wire.{Socket, Frame, frame, read_word, read}
use miniraft_cpp.Wire.Structs.{encode}
use miniraft_cpp.Wire.Sockets.{IsReliable}
use miniraft_cpp.Wire.Transfer.{frame_bytes, length-frame_bytes}
use miniraft_cpp.Wire.Exchange.{receive}

-- The segments that have arrived or will, and the bytes that were sent.
pub record Line : Type 0 where
  pub segments : List (List ℕ)
  pub sent : List ℕ

abbrev pub concat : List (List ℕ) → List ℕ
concat [] = []
concat (segment ∷ segments) = segment ++ concat segments

-- What is left of a segment.
unfoldable pub left_over : List ℕ → List (List ℕ) → List (List ℕ)
left_over [] segments = segments
left_over (b ∷ bytes) segments = (b ∷ bytes) ∷ segments

-- ReadSome takes from one segment.
unfoldable pub read_segment : ℕ → List (List ℕ) → List (List ℕ) × List ℕ
read_segment n [] = ([], [])
read_segment n (segment ∷ segments) = (left_over (drop n segment) segments, take n segment)

abbrev pub line_socket : Socket
line_socket = record {
  Connection = Line;
  read_some = λ n s. let t = read_segment n s.segments in (record s { segments = t.0 }, t.1);
  read_all = λ n s.
      let bytes = concat s.segments in
      if leb n (length bytes)
      then ok (record s { segments = left_over (drop n bytes) [] }, take n bytes)
      else err runtime_error;
  write_all = λ bytes s. ok (record s { sent = s.sent ++ bytes });
}

pub concat-left_over :
    (bytes : List ℕ) (segments : List (List ℕ))
    → concat (left_over bytes segments) ≡ bytes ++ concat segments
unfolding left_over
concat-left_over [] segments = refl
concat-left_over (b ∷ bytes) segments = refl

pub concat-read_segment :
    (n : ℕ) (segments : List (List ℕ))
    → concat segments ≡ (read_segment n segments).1 ++ concat (read_segment n segments).0
unfolding read_segment
concat-read_segment n [] = refl
concat-read_segment n (segment ∷ segments) =
    ap (λ b. b ++ concat segments) (sym (take-append-drop n segment))
    ∙ append_assoc (take n segment) (drop n segment) (concat segments)
    ∙ ap (λ b. take n segment ++ b) (sym (concat-left_over (drop n segment) segments))

pub length-read_segment :
    (n : ℕ) (segments : List (List ℕ)) → length (read_segment n segments).1 ≤ n
unfolding read_segment
length-read_segment n [] = omega arith
length-read_segment n (segment ∷ segments) = omega (arith, length-take n segment)

-- What is there to read: the first segment.
abbrev pub arrived_segment : List (List ℕ) → ℕ
arrived_segment [] = 0
arrived_segment (segment ∷ segments) = length segment

pub left_over-arrived :
    (bytes : List ℕ) (segments : List (List ℕ))
    → length bytes ≤ arrived_segment (left_over bytes segments)
unfolding left_over
left_over-arrived [] segments = omega arith
left_over-arrived (b ∷ bytes) segments = omega arith

pub read_segment-arrived :
    (n : ℕ) (segments : List (List ℕ))
    → n ≤ arrived_segment segments
    → length (read_segment n segments).1 ≡ n
unfolding read_segment
read_segment-arrived n [] h = omega (arith, h)
read_segment-arrived n (segment ∷ segments) h = omega (arith, h, length-take n segment)

pub read_segment-left :
    (n : ℕ) (segments : List (List ℕ))
    → arrived_segment segments ≤ arrived_segment (read_segment n segments).0 + n
unfolding read_segment
read_segment-left n [] = omega arith
read_segment-left n (segment ∷ segments) =
    omega (arith, length-drop n segment, left_over-arrived (drop n segment) segments)

pub arrived_segment-concat :
    (segments : List (List ℕ)) → arrived_segment segments ≤ length (concat segments)
arrived_segment-concat [] = omega arith
arrived_segment-concat (segment ∷ segments) = omega (arith, length-append segment (concat segments))

-- The line behaves as the code relies on.
unfoldable pub line_socket-IsReliable : IsReliable line_socket
line_socket-IsReliable = record {
  incoming = λ s. concat s.segments;
  arrived = λ s. arrived_segment s.segments;
  outgoing = λ s. s.sent;
  read_some_bytes = λ n s. concat-read_segment n s.segments;
  read_some_bounded = λ n s. length-read_segment n s.segments;
  read_some_arrived = λ n s. read_segment-arrived n s.segments;
  read_some_left = λ n s. read_segment-left n s.segments;
  read_all_bytes = λ n s long. rw (le→leb n (length (concat s.segments)) long) (
    refl,
    concat-left_over (drop n (concat s.segments)) [] ∙ append_nil (drop n (concat s.segments)),
    omega (
      arith,
      arrived_segment-concat s.segments,
      length-drop n (concat s.segments),
      left_over-arrived (drop n (concat s.segments)) [],
    ),
  );
  write_all_bytes = λ bytes s. refl;
}

-- Fewer than four bytes in the first segment.
read_word-short :
    (segment : List ℕ) (segments : List (List ℕ)) (sent : List ℕ)
    → length segment < 4
    → read_word line_socket (record { segments = segment ∷ segments; sent = sent })
      ≡ err runtime_error
unfolding read_word read_segment
read_word-short segment segments sent short =
    let fewer : (length (take 4 segment) == 4) ≡ false = ground (arith, length-take 4 segment) in
    rw fewer refl

left_over_some :
    (bytes : List ℕ) (segments : List (List ℕ))
    → 0 < length bytes
    → left_over bytes segments ≡ bytes ∷ segments
unfolding left_over
left_over_some [] segments h = absurd (omega (arith, h))
left_over_some (b ∷ bytes) segments h = refl

-- More than four bytes in the first segment: the rest of it comes next.
read_word-long :
    (segment : List ℕ) (segments : List (List ℕ)) (sent : List ℕ)
    → 4 < length segment
    → read_word line_socket (record { segments = segment ∷ segments; sent = sent })
      ≡ ok (
        record { segments = drop 4 segment ∷ segments; sent = sent },
        from_bytes (take 4 segment),
      )
unfolding read_word read_segment
read_word-long segment segments sent long =
    let whole : (length (take 4 segment) == 4) ≡ true = ground (arith, length-take 4 segment) in
    rw (whole, left_over_some (drop 4 segment) segments (omega (arith, length-drop 4 segment))) refl

frame_bytes-header : (f : Frame) → 8 ≤ length (frame_bytes f)
frame_bytes-header (frame type value payload) = omega (arith, length-frame_bytes type value payload)

-- A message whose bytes arrive in two segments, the first of which ends within a field of the
-- header, is taken for the end of the connection, although all of it arrives.
pub receive_split :
    (m : Message) (k : ℕ)
    → k < 8
    → k ≢ 4
    → receive line_socket (record {
      segments = take k (frame_bytes (encode m)) ∷ drop k (frame_bytes (encode m)) ∷ [];
      sent = [];
    })
      ≡ err runtime_error
unfolding receive read
receive_split m k header apart =
    let bytes = frame_bytes (encode m) in
    let first = take k bytes in
    let others = drop k bytes ∷ [] in
    let width : length first ≡ k =
      omega (arith, length-take k bytes, frame_bytes-header (encode m)) in
    elim (dec_lt k 4) [
      | yes early ↦ rw (read_word-short first others [] (omega (arith, width))) refl
      | no late ↦
          let past : 4 < k = ground arith in
          rw
            (
              read_word-long first others [] (omega (arith, width)),
              read_word-short (drop 4 first) others [] (omega (arith, length-drop 4 first, width)),
            )
            refl
    ]
