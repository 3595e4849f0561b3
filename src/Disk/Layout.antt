-- ===== src/Disk/Layout.antt =====
-- miniraft/persist.cpp: how a log lies in the entries file and in the index file.
use miniraft_cpp.Prelude.{
  ℕ, suc, ◌+◌, ◌*◌, ◌^◌, ◌≤◌, ◌<◌, ◌≡◌, refl, ap, sym, subst, ◌∙◌, List, [], ◌∷◌, ◌++◌, length,
  arith, length-append, All,
}
use miniraft_cpp.Prelude.Bytes.{to_bytes, length-to_bytes, append_assoc, append_nil}
use miniraft_cpp.Messages.{LogEntry, log_entry_len}
use miniraft_cpp.Disk.{entry_bytes}

-- The entries, one after another.
unfoldable pub log_bytes : List LogEntry → List ℕ
unfolding entry_bytes
log_bytes [] = []
log_bytes (e ∷ es) = entry_bytes e ++ log_bytes es

-- Their offsets, the first one at `offset`.
unfoldable pub slots : ℕ → List LogEntry → List ℕ
unfolding to_bytes
slots offset [] = []
slots offset (e ∷ es) = to_bytes 8 offset ++ slots (offset + log_entry_len e) es

-- The numbers of an entry fit the fields of its struct.
abbrev pub FitsEntry : LogEntry → Type 0
FitsEntry e = (e.term < 2 ^ 64) × (e.flags < 2 ^ 64) × (log_entry_len e < 2 ^ 32)

-- Every entry fits its struct, and the offsets fit 64 bits.
abbrev pub FitsLog : List LogEntry → Type 0
FitsLog log = All FitsEntry log × (length (log_bytes log) < 2 ^ 64)

pub length-entry_bytes : (e : LogEntry) → length (entry_bytes e) ≡ log_entry_len e
unfolding entry_bytes to_bytes
length-entry_bytes e = omega arith

pub log_bytes-append : (xs ys : List LogEntry) → log_bytes (xs ++ ys) ≡ log_bytes xs ++ log_bytes ys
unfolding log_bytes
log_bytes-append [] ys = refl
log_bytes-append (x ∷ xs) ys =
    ap (◌++◌ (entry_bytes x)) (log_bytes-append xs ys)
    ∙ sym (append_assoc (entry_bytes x) (log_bytes xs) (log_bytes ys))

pub slots-append :
    (xs ys : List LogEntry) (n : ℕ)
    → slots n (xs ++ ys) ≡ slots n xs ++ slots (n + length (log_bytes xs)) ys
unfolding slots log_bytes
slots-append [] ys n = ap (λ k. slots k ys) (let e : n ≡ n + 0 = omega arith in e)
slots-append (x ∷ xs) ys n =
    let width = length-entry_bytes x in
    let e : n + log_entry_len x + length (log_bytes xs)
        ≡ n + length (entry_bytes x ++ log_bytes xs) =
      omega (arith, length-append (entry_bytes x) (log_bytes xs)) in
    ap (◌++◌ (to_bytes 8 n)) (
      slots-append xs ys (n + log_entry_len x)
      ∙ ap (λ k. slots (n + log_entry_len x) xs ++ slots k ys) e)
    ∙ sym (
        append_assoc (to_bytes 8 n) (slots (n + log_entry_len x) xs)
          (slots (n + length (entry_bytes x ++ log_bytes xs)) ys))

pub length-slots : (n : ℕ) (xs : List LogEntry) → length (slots n xs) ≡ length xs * 8
unfolding slots
length-slots n [] = omega arith
length-slots n (x ∷ xs) = omega (
  arith,
  length-append (to_bytes 8 n) (slots (n + log_entry_len x) xs),
  length-to_bytes 8 n,
  length-slots (n + log_entry_len x) xs,
)

-- A log that grows at its end.
pub log_bytes-append_one :
    (xs : List LogEntry) (e : LogEntry) → log_bytes (xs ++ e ∷ []) ≡ log_bytes xs ++ entry_bytes e
unfolding log_bytes
log_bytes-append_one xs e =
    log_bytes-append xs (e ∷ []) ∙ ap (◌++◌ (log_bytes xs)) (append_nil (entry_bytes e))

pub slots-append_one :
    (xs : List LogEntry) (e : LogEntry)
    → slots 0 (xs ++ e ∷ []) ≡ slots 0 xs ++ to_bytes 8 (length (log_bytes xs))
unfolding slots
slots-append_one xs e =
    let offset = length (log_bytes xs) in
    let start : 0 + offset ≡ offset = omega arith in
    rw (slots-append xs (e ∷ []) 0, start) (ap (◌++◌ (slots 0 xs)) (append_nil (to_bytes 8 offset)))

-- Each entry takes at least 24 bytes.
pub length-log_bytes : (xs : List LogEntry) → 24 * length xs ≤ length (log_bytes xs)
unfolding log_bytes
length-log_bytes [] = omega arith
length-log_bytes (x ∷ xs) =
    omega (
      arith,
      length-append (entry_bytes x) (log_bytes xs),
      length-entry_bytes x,
      length-log_bytes xs,
    )

-- The files around one entry of a log.
pub log_bytes-middle :
    (xs ys : List LogEntry) (e : LogEntry) (rest : List ℕ)
    → log_bytes (xs ++ e ∷ ys) ++ rest ≡ log_bytes xs ++ (entry_bytes e ++ (log_bytes ys ++ rest))
unfolding log_bytes
log_bytes-middle xs ys e rest = rw (log_bytes-append xs (e ∷ ys)) (simp append_assoc)

pub slots-middle :
    (xs ys : List LogEntry) (e : LogEntry) (rest : List ℕ)
    → let offset = length (log_bytes xs) in
      slots 0 (xs ++ e ∷ ys) ++ rest
      ≡ slots 0 xs ++ (to_bytes 8 offset ++ (slots (offset + log_entry_len e) ys ++ rest))
unfolding slots
slots-middle xs ys e rest =
    let offset = length (log_bytes xs) in
    let start : 0 + offset ≡ offset = omega arith in
    rw (slots-append xs (e ∷ ys) 0, start) (simp append_assoc)

-- The number of entries, and the offset of one of them, fit 64 bits as the file's size does.
pub FitsLog-bounds :
    (log xs ys : List LogEntry) (e : LogEntry)
    → log ≡ xs ++ e ∷ ys
    → FitsLog log
    → FitsEntry e
      × (length log ≡ length xs + suc (length ys))
      × (length log * 8 < 2 ^ 64)
      × (length (log_bytes xs) < 2 ^ 64)
FitsLog-bounds log xs ys e split fits =
    let many : length log ≡ length xs + suc (length ys) =
      ap length split ∙ length-append xs (e ∷ ys) in
    let size : length (log_bytes log) ≡ length (log_bytes xs) + length (log_bytes (e ∷ ys)) =
      ap (λ l. length (log_bytes l)) split
      ∙ ap length (log_bytes-append xs (e ∷ ys))
      ∙ length-append (log_bytes xs) (log_bytes (e ∷ ys)) in
    (
      middle xs (subst (All FitsEntry) split fits.0),
      many,
      omega (arith, length-log_bytes log, fits.1),
      omega (arith, size, fits.1),
    )
  where
    middle : (xs : List LogEntry) → All FitsEntry (xs ++ e ∷ ys) → FitsEntry e
    middle [] h = h.0
    middle (x ∷ xs) h = middle xs h.1
