-- ===== src/Wire/Transfer.antt =====
-- miniraft/net/server.cpp: what TMessageWriter writes, TMessageReader reads back.
use miniraft_cpp.Prelude.{
  ℕ, zero, suc, ◌+◌, ◌-◌, ◌^◌, ◌≤◌, ◌<◌, max, ◌≡◌, refl, ap, sym, subst, ◌∙◌, List, [], ◌∷◌, ◌++◌,
  length, take, drop, arith, length-append, le→leb, ==_iff, ok, Returns, Returns_bind, Returns_map,
}
use miniraft_cpp.Prelude.Bytes.{
  from_bytes, to_bytes, length-to_bytes, from_bytes-to_bytes, append_assoc, append_nil,
  take-length_append, drop-length_append,
}
use miniraft_cpp.Wire.{
  Frame, Frames, frame, no_frames, more_frames, Socket, message_bytes, payload_size, read_payload,
  write, write_payload, read_word, read,
}
use miniraft_cpp.Wire.Sockets.{IsReliable}

-- The bytes of a message and of its payload.
unfoldable mutual
  pub frame_bytes : Frame → List ℕ
  frame_bytes (frame type value payload) = message_bytes type value ++ frames_bytes payload

  pub frames_bytes : Frames → List ℕ
  frames_bytes no_frames = []
  frames_bytes (more_frames f fs) = frame_bytes f ++ frames_bytes fs

unfoldable pub count : Frames → ℕ
count no_frames = 0
count (more_frames f fs) = suc (count fs)

-- How deep payloads lie in payloads.
unfoldable mutual
  pub depth : Frame → ℕ
  depth (frame type value payload) = suc (depth_payload payload)

  pub depth_payload : Frames → ℕ
  depth_payload no_frames = 0
  depth_payload (more_frames f fs) = max (depth f) (depth_payload fs)

-- The type and the size fit their fields, and the payload has as many messages as the message says.
unfoldable mutual
  pub IsWellFormed : Frame → Type 0
  IsWellFormed (frame type value payload) =
      (type < 2 ^ 32)
      × (8 + length value < 2 ^ 32)
      × (payload_size type value ≡ ok (count payload))
      × AreWellFormed payload

  pub AreWellFormed : Frames → Type 0
  AreWellFormed no_frames = Unit
  AreWellFormed (more_frames f fs) = IsWellFormed f × AreWellFormed fs

-- The sizes of messages, in bytes.
pub length-frame_bytes :
    (type : ℕ) (value : List ℕ) (payload : Frames)
    → length (frame_bytes (frame type value payload))
      ≡ 8 + length value + length (frames_bytes payload)
unfolding frame_bytes message_bytes to_bytes
length-frame_bytes type value payload =
    omega (arith, length-append (message_bytes type value) (frames_bytes payload))

length-frames_bytes :
    (f : Frame) (fs : Frames)
    → length (frames_bytes (more_frames f fs)) ≡ length (frame_bytes f) + length (frames_bytes fs)
unfolding frame_bytes
length-frames_bytes f fs = length-append (frame_bytes f) (frames_bytes fs)

append_cancel :
    (xs ys us vs : List ℕ) → length xs ≡ length ys → xs ++ us ≡ ys ++ vs → (xs ≡ ys) × (us ≡ vs)
append_cancel [] [] us vs h e = (refl, e)
append_cancel [] (y ∷ ys) us vs h e = absurd (omega (arith, h))
append_cancel (x ∷ xs) [] us vs h e = absurd (omega (arith, h))
append_cancel (x ∷ xs) (y ∷ ys) us vs h e =
    let head : x ≡ y = cc in
    let rest = append_cancel xs ys us vs (omega (arith, h)) cc in
    (ap (λ l. l) (let r = rest.0 in cc), rest.1)

module _ (sock : Socket) (reliable : IsReliable sock) where
  open sock use {Connection}
  open reliable use {incoming, arrived, outgoing}

  mutual
    unfolding write frame_bytes

    -- The writer sends the bytes of the message and of its payload, in order.
    pub write-frame_bytes :
        (f : Frame) (s : Connection)
        → Returns (write sock f s) (λ t. outgoing t ≡ outgoing s ++ frame_bytes f)
    write-frame_bytes (frame type value payload) s =
        let block = message_bytes type value in
        Returns_bind (sock.write_all block s) _ _ _ (reliable.write_all_bytes block s) (λ t h.
          Returns_map (write_payload sock payload t) _ _ (write_payload-frames_bytes payload t)
            (λ r k.
              k
              ∙ ap (λ b. b ++ frames_bytes payload) h
              ∙ append_assoc (outgoing s) block (frames_bytes payload)))

    write_payload-frames_bytes :
        (fs : Frames) (s : Connection)
        → Returns (write_payload sock fs s) (λ t. outgoing t ≡ outgoing s ++ frames_bytes fs)
    write_payload-frames_bytes no_frames s = sym (append_nil (outgoing s))
    write_payload-frames_bytes (more_frames f fs) s =
        Returns_bind (write sock f s) _ _ _ (write-frame_bytes f s) (λ t h.
          Returns_map (write_payload sock fs t) _ _ (write_payload-frames_bytes fs t) (λ r k.
            k
            ∙ ap (λ b. b ++ frames_bytes fs) h
            ∙ append_assoc (outgoing s) (frame_bytes f) (frames_bytes fs)))

  written-outgoing :
      (f : Frame) (a sent : Connection)
      → write sock f a ≡ ok sent
      → outgoing sent ≡ outgoing a ++ frame_bytes f
  written-outgoing f a sent written =
      subst (λ r. Returns r (λ t. outgoing t ≡ outgoing a ++ frame_bytes f)) written
        (write-frame_bytes f a)

  pub written-length :
      (f : Frame) (a sent : Connection)
      → write sock f a ≡ ok sent
      → length (outgoing sent) ≡ length (outgoing a) + length (frame_bytes f)
  written-length f a sent written =
      ap length (written-outgoing f a sent written) ∙ length-append (outgoing a) (frame_bytes f)

  -- What the other end of a connection has to read after a message was written: its bytes, and then
  -- whatever follows.
  pub written-incoming :
      (f : Frame) (a sent b : Connection) (rest : List ℕ)
      → write sock f a ≡ ok sent
      → outgoing a ++ incoming b ≡ outgoing sent ++ rest
      → incoming b ≡ frame_bytes f ++ rest
  written-incoming f a sent b rest written arrives =
      let out = written-outgoing f a sent written in
      (append_cancel (outgoing a) (outgoing a) (incoming b) (frame_bytes f ++ rest) refl
        (arrives ∙ ap (λ o. o ++ rest) out ∙ append_assoc (outgoing a) (frame_bytes f) rest)).1

  read_word-to_bytes :
      (n : ℕ) (rest : List ℕ) (s : Connection)
      → n < 2 ^ 32
      → incoming s ≡ to_bytes 4 n ++ rest
      → 4 ≤ arrived s
      → Returns
          (read_word sock s)
          (λ r. (r.1 ≡ n) × (incoming r.0 ≡ rest) × (arrived s ≤ arrived r.0 + 4))
  unfolding read_word
  read_word-to_bytes n rest s small there in_time =
      let t = sock.read_some 4 s in
      let width = length-to_bytes 4 n in
      let four = reliable.read_some_arrived 4 s in_time in
      let same =
        append_cancel t.1 (to_bytes 4 n) (incoming t.0) rest (four ∙ sym width)
          (sym (reliable.read_some_bytes 4 s) ∙ there) in
      rw ((==_iff (length t.1) 4).1 four)
        (ap from_bytes same.0 ∙ from_bytes-to_bytes 4 n small, same.1, reliable.read_some_left 4 s)

  -- Value, after the header.
  read_all-append :
      (block rest : List ℕ) (n : ℕ) (s : Connection)
      → n ≡ length block
      → incoming s ≡ block ++ rest
      → Returns
          (sock.read_all n s)
          (λ r. (r.1 ≡ block) × (incoming r.0 ≡ rest) × (arrived s ≤ arrived r.0 + n))
  read_all-append block rest n s size there =
      let long : n ≤ length (incoming s) =
        omega (arith, ap length there, length-append block rest, size) in
      Returns_map (sock.read_all n s) _ _ (reliable.read_all_bytes n s long) (λ r h. (
        h.0
            ∙ ap (take n) there
            ∙ ap (λ k. take k (block ++ rest)) size
            ∙ take-length_append block rest,
        h.1
            ∙ ap (drop n) there
            ∙ ap (λ k. drop k (block ++ rest)) size
            ∙ drop-length_append block rest,
        h.2,
      ))

  mutual
    unfolding read frame_bytes message_bytes depth IsWellFormed read_payload count

    -- On fuel for the depth of a message, the reader reads the message from its bytes and leaves the
    -- bytes that follow.
    pub read-frame_bytes :
        (f : Frame) (fuel : ℕ) (rest : List ℕ) (s : Connection)
        → depth f ≤ fuel
        → IsWellFormed f
        → incoming s ≡ frame_bytes f ++ rest
        → length (frame_bytes f) ≤ arrived s
        → Returns (read sock fuel s) (λ r.
          (r.1 ≡ f) × (incoming r.0 ≡ rest) × (arrived s ≤ arrived r.0 + length (frame_bytes f)))
    read-frame_bytes (frame type value payload) zero rest s deep well there in_time =
        absurd (omega arith)
    read-frame_bytes (frame type value payload) (suc fuel) rest s deep well there in_time =
        let long = length-frame_bytes type value payload in
        let size = 8 + length value in
        let after = frames_bytes payload ++ rest in
        let split : incoming s ≡ to_bytes 4 type ++ (to_bytes 4 size ++ (value ++ after)) =
          there ∙ simp append_assoc in
        Returns_bind (read_word sock s) _ _ _
          (read_word-to_bytes type (to_bytes 4 size ++ (value ++ after)) s well.0 split
            (omega (arith, in_time, long)))
          (λ a ha.
            Returns_bind (read_word sock a.0) _ _ _
              (read_word-to_bytes size (value ++ after) a.0 well.1 ha.1
                (omega (arith, in_time, long, ha.2)))
              (λ b hb. rw (le→leb 8 b.1 (omega (arith, hb.0))) (
                Returns_bind (sock.read_all (b.1 - 8) b.0) _ _ _
                  (read_all-append value after (b.1 - 8) b.0 (omega (arith, hb.0)) hb.1)
                  (λ v hv.
                    let sized =
                      ap (λ t. payload_size t v.1) ha.0 ∙ ap (payload_size type) hv.0 ∙ well.2 in
                    rw sized (
                      Returns_bind (read_payload (read sock fuel) (count payload) v.0) _ _ _
                        (read_payload-frames_bytes payload fuel rest v.0 (omega arith) well.3 hv.1
                          (omega (arith, in_time, long, ha.2, hb.0, hb.2, hv.2)))
                        (λ r hr. (
                          ap (λ t. frame t v.1 r.1) ha.0
                              ∙ ap (λ w. frame type w r.1) hv.0
                              ∙ ap (frame type value) hr.0,
                          hr.1,
                          omega (arith, long, ha.2, hb.0, hb.2, hv.2, hr.2),
                        )))))))

    read_payload-frames_bytes :
        (fs : Frames) (fuel : ℕ) (rest : List ℕ) (s : Connection)
        → depth_payload fs ≤ fuel
        → AreWellFormed fs
        → incoming s ≡ frames_bytes fs ++ rest
        → length (frames_bytes fs) ≤ arrived s
        → Returns (read_payload (read sock fuel) (count fs) s) (λ r.
          (r.1 ≡ fs) × (incoming r.0 ≡ rest) × (arrived s ≤ arrived r.0 + length (frames_bytes fs)))
    read_payload-frames_bytes no_frames fuel rest s deep well there in_time =
        (refl, there, omega arith)
    read_payload-frames_bytes (more_frames f fs) fuel rest s deep well there in_time =
        let long = length-frames_bytes f fs in
        Returns_bind (read sock fuel s) _ _ _
          (read-frame_bytes f fuel (frames_bytes fs ++ rest) s (omega arith) well.0
            (there ∙ append_assoc (frame_bytes f) (frames_bytes fs) rest)
            (omega (arith, in_time, long)))
          (λ a ha.
            Returns_bind (read_payload (read sock fuel) (count fs) a.0) _ _ _
              (read_payload-frames_bytes fs fuel rest a.0 (omega arith) well.1 ha.1
                (omega (arith, in_time, long, ha.2)))
              (λ b hb. (
                ap (λ g. more_frames g b.1) ha.0 ∙ ap (more_frames f) hb.0,
                hb.1,
                omega (arith, long, ha.2, hb.2),
              )))
