-- ===== src/Tests/Files.antt =====
-- miniraft/persist.cpp: a TDiskState on files that start out missing, and on files with one entry.
use miniraft_cpp.Prelude.{
  ◌+◌, ◌^◌, ◌<◌, ◌≡◌, refl, List, [], ◌∷◌, ◌++◌, some, get_last?, arith, ok, err, Returns,
  null_message, runtime_error,
}
use miniraft_cpp.Prelude.Bytes
use miniraft_cpp.Messages.{LogEntry, log_entry_len}
use miniraft_cpp.State
use miniraft_cpp.State.{State, term_or_zero}
use miniraft_cpp.Disk
use miniraft_cpp.Disk.{Disk, entry_bytes, load, read_entry}
use miniraft_cpp.Disk.Fstream
use miniraft_cpp.Disk.Fstream.Blocks.{stream}
use miniraft_cpp.Disk.Layout.{FitsEntry, FitsLog, log_bytes, slots}
use miniraft_cpp.Disk.Entries.{read_entry-entry_bytes}
use miniraft_cpp.Disk.Fields.{field_bytes}
use miniraft_cpp.Disk.Stores.{Stores}
use miniraft_cpp.Disk.Refinement.{
  Call, append_entry, remove_entry, get_entry, set_vote, reopen, AllPermitted, run_disk, run_memory,
  memory_call, run_disk-run_memory,
}
use miniraft_cpp.Disk.Restart.{restart, restart-Stores}
use miniraft_cpp.Disk.Shrunk.{replace_first, replace_first-stale}
use miniraft_cpp.Disk.Lost.{load-short_index, load-short_entries}

abbrev pub first_entry : LogEntry
first_entry = record { term = 1; flags = 0; data_bytes = 7 ∷ 8 ∷ [] }

abbrev pub second_entry : LogEntry
second_entry = record { term = 3; flags = 0; data_bytes = 9 ∷ [] }

-- The state of a process that starts without files.
abbrev fresh_disk : Disk
fresh_disk = record {
  entries = stream [] 0;
  index = stream [] 0;
  state = stream (field_bytes 0 1 0) 20;
  current_term = 1;
  voted_for = 0;
  last_log_index = 0;
  last_log_term = 0;
}

abbrev fresh_state : State
fresh_state = record {
  current_term = 1;
  voted_for = 0;
  last_log_index = 0;
  last_log_term = 0;
  log = [];
}

fresh_load : load [] [] [] ≡ ok fresh_disk
unfolding load Disk.blank Disk.commit Disk.write_or_abort Disk.reload_term Disk.tell
    Fstream.open_stream Fstream.seek Fstream.write Bytes.to_bytes
fresh_load = refl

fresh_disk-Stores : Stores fresh_disk fresh_state
unfolding log_bytes slots
fresh_disk-Stores = record {
  holds = record {
    entries_rest = [];
    entries_position = 0;
    entries_hold = refl;
    index_rest = [];
    index_position = 0;
    index_hold = refl;
    counted = refl;
  };
  fits = (tt, omega arith);
  index_cached = refl;
  at_start = λ e. refl;
  state_position = 20;
  state_hold = refl;
  term_kept = refl;
  vote_kept = refl;
  term_fits = omega arith;
  vote_fits = omega arith;
}

pub first_fits : FitsEntry first_entry
first_fits = (omega arith, omega arith, omega arith)

pub second_fits : FitsEntry second_entry
second_fits = (omega arith, omega arith, omega arith)

abbrev calls : List Call
calls =
    append_entry first_entry
    ∷ append_entry second_entry
    ∷ get_entry 1
    ∷ set_vote 3 2
    ∷ remove_entry
    ∷ reopen
    ∷ append_entry first_entry
    ∷ get_entry 2
    ∷ []

calls_permitted : AllPermitted calls fresh_state
unfolding AllPermitted memory_call State.append State.remove_last log_bytes entry_bytes
    Bytes.to_bytes
calls_permitted =
    let only_first : FitsLog (first_entry ∷ []) = ((first_fits, tt), omega arith) in
    let both : FitsLog (first_entry ∷ second_entry ∷ []) =
      ((first_fits, (second_fits, tt)), omega arith) in
    let twice : FitsLog (first_entry ∷ first_entry ∷ []) =
      ((first_fits, (first_fits, tt)), omega arith) in
    let vote_fits : (3 < 2 ^ 64) × (2 < 2 ^ 32) = (omega arith, omega arith) in
    (only_first, (both, (tt, (vote_fits, (omega arith, (tt, (twice, (tt, tt))))))))

abbrev one_disk : Disk
one_disk = record {
  entries = stream (entry_bytes first_entry) 26;
  index = stream (0 ∷ 0 ∷ 0 ∷ 0 ∷ 0 ∷ 0 ∷ 0 ∷ 0 ∷ []) 8;
  state = stream (field_bytes 1 1 0) 20;
  current_term = 1;
  voted_for = 0;
  last_log_index = 1;
  last_log_term = 1;
}

abbrev one_state : State
one_state = record fresh_state { last_log_index = 1; last_log_term = 1; log = first_entry ∷ [] }

one_disk-Stores : Stores one_disk one_state
unfolding log_bytes slots entry_bytes Bytes.to_bytes
one_disk-Stores = record {
  holds = record {
    entries_rest = [];
    entries_position = 26;
    entries_hold = refl;
    index_rest = [];
    index_position = 8;
    index_hold = refl;
    counted = refl;
  };
  fits = ((first_fits, tt), omega arith);
  index_cached = refl;
  at_start = λ e. absurd (omega (arith, e));
  state_position = 20;
  state_hold = refl;
  term_kept = refl;
  vote_kept = refl;
  term_fits = omega arith;
  vote_fits = omega arith;
}

read_entry-entry_bytes_example :
    read_entry (stream (5 ∷ 6 ∷ [] ++ (entry_bytes first_entry ++ 4 ∷ [])) 2)
    ≡ ok (
      stream (5 ∷ 6 ∷ [] ++ (entry_bytes first_entry ++ 4 ∷ [])) (2 + log_entry_len first_entry),
      first_entry,
    )
read_entry-entry_bytes_example =
    read_entry-entry_bytes (5 ∷ 6 ∷ []) (4 ∷ []) (5 ∷ 6 ∷ [] ++ (entry_bytes first_entry ++ 4 ∷ []))
      2 first_entry first_fits refl refl

run_disk-run_memory_example : Returns (run_disk calls fresh_disk) (λ r.
    Stores r.0 (run_memory calls fresh_state 0).0 × (r.1 ≡ (run_memory calls fresh_state 0).1))
run_disk-run_memory_example =
    run_disk-run_memory calls fresh_disk fresh_state fresh_disk-Stores calls_permitted

restart-Stores_example :
    Returns
      (restart one_disk)
      (λ t. Stores t one_state × (t.last_log_term ≡ term_or_zero (get_last? one_state.log)))
restart-Stores_example = restart-Stores one_disk one_state one_disk-Stores

replace_first-stale_example :
    Returns (replace_first second_entry one_disk) (λ r. r.1 ≡ some first_entry)
replace_first-stale_example =
    replace_first-stale one_disk one_state first_entry second_entry one_disk-Stores refl

load-short_index_example : load (1 ∷ []) (0 ∷ 0 ∷ []) one_disk.state.bytes ≡ err null_message
load-short_index_example =
    load-short_index one_disk one_state one_disk-Stores (omega arith) (1 ∷ []) (0 ∷ 0 ∷ [])
      (omega arith)

load-short_entries_example : load [] one_disk.index.bytes one_disk.state.bytes ≡ err runtime_error
load-short_entries_example =
    load-short_entries one_disk one_state one_disk-Stores (omega arith) [] (omega arith)
