-- ===== src/Disk/Fstream.antt =====
-- A binary std::fstream, as far as miniraft/persist.cpp uses it: one position for reading and
-- writing, and a state that a failed read leaves bad. What is written is what a later read sees.
pub mod Blocks
use miniraft_cpp.Prelude.{
  ℕ, zero, suc, ◌+◌, ◌≡◌, refl, Bool, true, false, List, [], ◌∷◌, ◌++◌, Option, none, some, ◌==◌,
  if◌then◌else◌, length, take, drop,
}

pub record Stream : Type 0 where
  pub bytes : List ℕ
  pub position : ℕ
  pub good : Bool

-- A file that is opened: the stream stands at its start.
unfoldable pub open_stream : List ℕ → Stream
open_stream bytes = record { bytes = bytes; position = 0; good = true }

-- seekg; a bad stream stays where it is.
unfoldable pub seek : ℕ → Stream → Stream
seek n s = if s.good then record s { position = n } else s

-- read: all `n` bytes, or the stream turns bad.
unfoldable pub read : ℕ → Stream → Stream × Option (List ℕ)
read n s =
    let block = take n (drop s.position s.bytes) in
    if s.good
    then if length block == n
      then (record s { position = s.position + n }, some block)
      else (record s { position = s.position + length block; good = false }, none)
    else (s, none)

-- The first `n` bytes of a file; what lies past its end is zero.
unfoldable pub padded : ℕ → List ℕ → List ℕ
padded zero bytes = []
padded (suc n) [] = 0 ∷ padded n []
padded (suc n) (b ∷ bytes) = b ∷ padded n bytes

-- write: over the bytes at the position, and past the end if there are fewer. A bad stream is not
-- written to.
unfoldable pub write : List ℕ → Stream → Stream
unfolding padded
write block s =
    if s.good
    then record {
      bytes = padded s.position s.bytes ++ block ++ drop (s.position + length block) s.bytes;
      position = s.position + length block;
      good = true;
    }
    else s
