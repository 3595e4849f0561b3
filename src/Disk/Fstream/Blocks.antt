-- ===== src/Disk/Fstream/Blocks.antt =====
-- Reads and writes of a block of a file whose bytes are known up to the block.
use miniraft_cpp.Prelude.{
  ℕ, suc, ◌+◌, ◌≡◌, refl, ap, ◌∙◌, true, List, [], ◌∷◌, ◌++◌, some, none, false, ◌<◌, ◌==◌, length,
  take, drop, arith, length-take, length-drop, ==_iff,
}
use miniraft_cpp.Prelude.Bytes.{take-drop_append}
use miniraft_cpp.Disk.Fstream.{Stream, seek, read, padded, write}

-- A stream in a good state.
abbrev pub stream : List ℕ → ℕ → Stream
stream bytes n = record { bytes = bytes; position = n; good = true }

drop_further : (xs ys : List ℕ) (n : ℕ) → drop (length xs + n) (xs ++ ys) ≡ drop n ys
drop_further [] ys n = ap (λ k. drop k ys) (let e : 0 + n ≡ n = omega arith in e)
drop_further (x ∷ xs) ys n =
    let e : length (x ∷ xs) + n ≡ suc (length xs + n) = omega arith in
    ap (λ k. drop k (x ∷ xs ++ ys)) e ∙ drop_further xs ys n

padded-append : (xs ys : List ℕ) → padded (length xs) (xs ++ ys) ≡ xs
unfolding padded
padded-append [] ys = refl
padded-append (x ∷ xs) ys = ap (◌∷◌ x) (padded-append xs ys)

pub seek-stream : (n m : ℕ) (bytes : List ℕ) → seek n (stream bytes m) ≡ stream bytes n
unfolding seek
seek-stream n m bytes = refl

-- A read of the block that stands at the position.
pub read-block :
    (before block after bytes : List ℕ) (n w : ℕ)
    → bytes ≡ before ++ (block ++ after)
    → n ≡ length before
    → w ≡ length block
    → read w (stream bytes n) ≡ (stream bytes (n + w), some block)
unfolding read
read-block before block after bytes n w b hn hw =
    let cut = take-drop_append before block after in
    rw (b, hn, hw, cut, (==_iff (length block) (length block)).1 refl) refl

-- A read past the end of the file.
pub read-past :
    (bytes : List ℕ) (n w : ℕ)
    → length bytes < n + w
    → 0 < w
    → read w (stream bytes n) ≡ (
      record { bytes = bytes; position = n + length (take w (drop n bytes)); good = false },
      none,
    )
unfolding read
read-past bytes n w h some_bytes =
    let len = length-take w (drop n bytes) in
    let rest = length-drop n bytes in
    let fewer : (length (take w (drop n bytes)) == w) ≡ false = ground (arith, len, rest) in
    rw fewer refl

-- A write at the end of the known bytes.
pub write-block :
    (before block rest bytes : List ℕ) (n : ℕ)
    → bytes ≡ before ++ rest
    → n ≡ length before
    → write block (stream bytes n)
      ≡ stream (before ++ block ++ drop (length block) rest) (n + length block)
unfolding write
write-block before block rest bytes n b hn =
    rw (b, hn, padded-append before rest, drop_further before rest (length block)) refl
