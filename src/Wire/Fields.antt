-- ===== src/Wire/Fields.antt =====
-- miniraft/messages.h: a message keeps its fields through the bytes of its struct.
use miniraft_cpp.Prelude.{
  ℕ, ◌+◌, ◌^◌, ◌≤◌, ◌<◌, ◌≡◌, ◌⊎◌, refl, ap, sym, ◌∙◌, List, [], ◌∷◌, ◌++◌, Bool, true, false, not,
  ◌==◌, le→leb, length, take, drop, All, ok, arith,
}
use miniraft_cpp.Prelude.Bytes.{
  to_bytes, length-to_bytes, from_bytes-to_bytes, take-length_append, drop-length_append,
  append_nil,
}
use miniraft_cpp.Messages.{
  LogEntry, MessageEx, RequestVoteRequest, RequestVoteResponse, AppendEntriesRequest,
  AppendEntriesResponse, CommandRequest, CommandResponse, Message, log_entry, request_vote_request,
  request_vote_response, append_entries_request, append_entries_response, command_request,
  command_response, other,
}
use miniraft_cpp.Disk.Layout.{FitsEntry}
use miniraft_cpp.Disk.Entries.{entry_of-value_bytes}
use miniraft_cpp.Wire.Structs.{
  from_bool, sized, ex_bytes, value_of, entry_frames, field, read_ex, entries_from,
  request_vote_request_of, request_vote_response_of, append_entries_request_of,
  append_entries_response_of, command_request_of, command_response_of,
}

abbrev pub FitsEx : MessageEx → Type 0
FitsEx x = (x.src < 2 ^ 32) × (x.dst < 2 ^ 32) × (x.term < 2 ^ 64) × (x.seqno < 2 ^ 64)

-- The numbers of a message fit the fields of its struct; a message of no known struct has a type that
-- no struct has.
abbrev pub FitsFields : Message → Type 0
FitsFields (log_entry e) = FitsEntry e
FitsFields (request_vote_request x m) =
    FitsEx x × (m.last_log_index < 2 ^ 64) × (m.last_log_term < 2 ^ 64) × (m.candidate_id < 2 ^ 32)
FitsFields (request_vote_response x m) = FitsEx x
FitsFields (append_entries_request x m es) =
    FitsEx x
    × (m.prev_log_index < 2 ^ 64)
    × (m.prev_log_term < 2 ^ 64)
    × (m.leader_commit < 2 ^ 64)
    × (m.leader_id < 2 ^ 32)
    × (m.nentries < 2 ^ 32)
    × All FitsEntry es
FitsFields (append_entries_response x m) = FitsEx x × (m.match_index < 2 ^ 64)
FitsFields (command_request m) = (m.flags < 2 ^ 32) × (m.cookie < 2 ^ 32)
FitsFields (command_response m) = (m.index < 2 ^ 64) × (m.cookie < 2 ^ 32) × (m.error_code < 2 ^ 32)
FitsFields (other t) = (t ≡ 6) ⊎ (t ≡ 7)

field-to_bytes :
    (w n : ℕ) (rest : List ℕ) → n < 256 ^ w → field w (to_bytes w n ++ rest) ≡ (n, rest)
unfolding field
field-to_bytes w n rest small =
    let bytes = to_bytes w n in
    let width = length-to_bytes w n in
    let front : take w (bytes ++ rest) ≡ bytes =
      ap (λ k. take k (bytes ++ rest)) (sym width) ∙ take-length_append bytes rest in
    let back : drop w (bytes ++ rest) ≡ rest =
      ap (λ k. drop k (bytes ++ rest)) (sym width) ∙ drop-length_append bytes rest in
    rw (front, back, from_bytes-to_bytes w n small) refl

-- The last field of a struct without data.
field-to_bytes_end : (w n : ℕ) → n < 256 ^ w → field w (to_bytes w n) ≡ (n, [])
field-to_bytes_end w n small =
    ap (field w) (sym (append_nil (to_bytes w n))) ∙ field-to_bytes w n [] small

read_ex-ex_bytes :
    (x : MessageEx) (rest : List ℕ) → FitsEx x → read_ex (ex_bytes x rest) ≡ (x, rest)
unfolding read_ex ex_bytes
read_ex-ex_bytes x rest fits =
    let tail₃ = to_bytes 8 x.seqno ++ rest in
    let tail₂ = to_bytes 8 x.term ++ tail₃ in
    let tail₁ = to_bytes 4 x.dst ++ tail₂ in
    rw
      (
        field-to_bytes 4 x.src tail₁ fits.0,
        field-to_bytes 4 x.dst tail₂ fits.1,
        field-to_bytes 8 x.term tail₃ fits.2,
        field-to_bytes 8 x.seqno rest fits.3,
      )
      refl

bool-from_bool : (b : Bool) → not (from_bool b == 0) ≡ b
bool-from_bool true = refl
bool-from_bool false = refl

small-from_bool : (b : Bool) → from_bool b < 256 ^ 4
small-from_bool true = omega arith
small-from_bool false = omega arith

pub entries_from-entry_frames :
    (es : List LogEntry) → All FitsEntry es → entries_from (entry_frames es) ≡ ok es
unfolding entries_from entry_frames
entries_from-entry_frames [] fits = refl
entries_from-entry_frames (e ∷ es) fits =
    rw (entry_of-value_bytes e fits.0, entries_from-entry_frames es fits.1) refl

length-ex_bytes : (x : MessageEx) (rest : List ℕ) → length (ex_bytes x rest) ≡ 24 + length rest
unfolding ex_bytes to_bytes
length-ex_bytes x rest = omega arith

-- A struct that is long enough is cast.
pub long_enough : (n : ℕ) (value : List ℕ) (m : Message) → n ≤ length value → sized n value m ≡ ok m
long_enough n value m h = rw (le→leb n (length value) h) refl

module _ (x : MessageEx) (fits_ex : FitsEx x) where
  pub request_vote_request_lem :
      (m : RequestVoteRequest)
      → FitsFields (request_vote_request x m)
      → request_vote_request_of (value_of (request_vote_request x m)) ≡ request_vote_request x m
  unfolding request_vote_request_of value_of
  request_vote_request_lem m fits =
      let tail₃ = to_bytes 4 0 in
      let tail₂ = to_bytes 4 m.candidate_id ++ tail₃ in
      let tail₁ = to_bytes 8 m.last_log_term ++ tail₂ in
      rw
        (
          read_ex-ex_bytes x (to_bytes 8 m.last_log_index ++ tail₁) fits_ex,
          field-to_bytes 8 m.last_log_index tail₁ fits.1,
          field-to_bytes 8 m.last_log_term tail₂ fits.2,
          field-to_bytes 4 m.candidate_id tail₃ fits.3,
        )
        refl

  pub request_vote_response_lem :
      (m : RequestVoteResponse)
      → request_vote_response_of (value_of (request_vote_response x m)) ≡ request_vote_response x m
  unfolding request_vote_response_of value_of
  request_vote_response_lem m =
      let tail₁ = to_bytes 4 0 in
      let granted = from_bool m.vote_granted in
      rw
        (
          read_ex-ex_bytes x (to_bytes 4 granted ++ tail₁) fits_ex,
          field-to_bytes 4 granted tail₁ (small-from_bool m.vote_granted),
          bool-from_bool m.vote_granted,
        )
        refl

  pub append_entries_request_lem :
      (m : AppendEntriesRequest) (es : List LogEntry)
      → FitsFields (append_entries_request x m es)
      → append_entries_request_of (value_of (append_entries_request x m es)) es
        ≡ append_entries_request x m es
  unfolding append_entries_request_of value_of
  append_entries_request_lem m es fits =
      let tail₄ = to_bytes 4 m.nentries in
      let tail₃ = to_bytes 4 m.leader_id ++ tail₄ in
      let tail₂ = to_bytes 8 m.leader_commit ++ tail₃ in
      let tail₁ = to_bytes 8 m.prev_log_term ++ tail₂ in
      rw
        (
          read_ex-ex_bytes x (to_bytes 8 m.prev_log_index ++ tail₁) fits_ex,
          field-to_bytes 8 m.prev_log_index tail₁ fits.1,
          field-to_bytes 8 m.prev_log_term tail₂ fits.2,
          field-to_bytes 8 m.leader_commit tail₃ fits.3,
          field-to_bytes 4 m.leader_id tail₄ fits.4,
          field-to_bytes_end 4 m.nentries fits.5,
        )
        refl

  pub append_entries_response_lem :
      (m : AppendEntriesResponse)
      → m.match_index < 2 ^ 64
      → append_entries_response_of (value_of (append_entries_response x m))
        ≡ append_entries_response x m
  unfolding append_entries_response_of value_of
  append_entries_response_lem m fits =
      let tail₂ = to_bytes 4 0 in
      let success = from_bool m.success in
      let tail₁ = to_bytes 4 success ++ tail₂ in
      rw
        (
          read_ex-ex_bytes x (to_bytes 8 m.match_index ++ tail₁) fits_ex,
          field-to_bytes 8 m.match_index tail₁ fits,
          field-to_bytes 4 success tail₂ (small-from_bool m.success),
          bool-from_bool m.success,
        )
        refl

pub command_request_lem :
    (m : CommandRequest)
    → FitsFields (command_request m)
    → command_request_of (value_of (command_request m)) ≡ command_request m
unfolding command_request_of value_of
command_request_lem m fits =
    rw
      (
        field-to_bytes 4 m.flags (to_bytes 4 m.cookie ++ m.data_bytes) fits.0,
        field-to_bytes 4 m.cookie m.data_bytes fits.1,
      )
      refl

pub command_response_lem :
    (m : CommandResponse)
    → FitsFields (command_response m)
    → command_response_of (value_of (command_response m)) ≡ command_response m
unfolding command_response_of value_of
command_response_lem m fits =
    let tail₂ = to_bytes 4 m.error_code ++ m.data_bytes in
    let tail₁ = to_bytes 4 m.cookie ++ tail₂ in
    rw
      (
        field-to_bytes 8 m.index tail₁ fits.0,
        field-to_bytes 4 m.cookie tail₂ fits.1,
        field-to_bytes 4 m.error_code m.data_bytes fits.2,
      )
      refl
