-- ===== src/Guidance/Stream/Numbering.antt =====
-- How the packets of a stream are numbered.
use xylitol.Base.{
  ℕ, zero, suc, ◌+◌, ◌*◌, ◌%◌, ◌^◌, Bool, true, false, List, [], ◌∷◌, drop, Bytes, ◌≡◌, refl, arith,
}
use xylitol.Guidance.Stream.{
  Packet, Read, end_of_file, read_error, samples, Counters, advance, packet, stream,
  stream_wav_file,
}

-- The counters of packet `k`.
abbrev pub counters_at : ℕ → Counters
counters_at k = record { seq_num = k % 2 ^ 16; timestamp = 160 * k % 2 ^ 32 }

seq_num_lem : (k : ℕ) → (k % 2 ^ 16 + 1) % 2 ^ 16 ≡ suc k % 2 ^ 16
seq_num_lem k = omega arith

timestamp_lem : (k : ℕ) → (160 * k % 2 ^ 32 + 160) % 2 ^ 32 ≡ 160 * suc k % 2 ^ 32
timestamp_lem k = omega arith

advance-counters_at : (k : ℕ) → advance (counters_at k) ≡ counters_at (suc k)
unfolding advance
advance-counters_at k = rw (seq_num_lem k, timestamp_lem k) refl

-- A list of packets with the numbers from `k` on.
abbrev pub NumberedFrom : ℕ → List Packet → Type 0
NumberedFrom k [] = Unit
NumberedFrom k (p ∷ packets) =
    (p.sequence_number ≡ k % 2 ^ 16)
    × ((p.timestamp ≡ 160 * k % 2 ^ 32) × NumberedFrom (suc k) packets)

module _ (encode_ulaw : Bytes → Bytes) (ssrc : ℕ) where
  stream-NumberedFrom :
      (reads : List (Read × Bool)) (k : ℕ)
      → NumberedFrom k (stream encode_ulaw ssrc reads (counters_at k)).0
  unfolding stream packet
  stream-NumberedFrom [] k = tt
  stream-NumberedFrom ((end_of_file, fails) ∷ reads) k = tt
  stream-NumberedFrom ((read_error, fails) ∷ reads) k = tt
  stream-NumberedFrom ((samples [], fails) ∷ reads) k = stream-NumberedFrom reads k
  stream-NumberedFrom ((samples (s ∷ rest), true) ∷ reads) k = tt
  stream-NumberedFrom ((samples (s ∷ rest), false) ∷ reads) k =
      (refl, (refl, rw (advance-counters_at k) (stream-NumberedFrom reads (suc k))))

  numbered_at :
      (packets : List Packet) (j k : ℕ) (p : Packet) (rest : List Packet)
      → NumberedFrom j packets
      → drop k packets ≡ p ∷ rest
      → (p.sequence_number ≡ (j + k) % 2 ^ 16) × (p.timestamp ≡ 160 * (j + k) % 2 ^ 32)
  numbered_at [] j (suc k) p rest numbered h = cc
  numbered_at [] j zero p rest numbered h = cc
  numbered_at (q ∷ packets) j zero p rest numbered h = ground arith
  numbered_at (q ∷ packets) j (suc k) p rest numbered h =
      let (n, t) = numbered_at packets (suc j) k p rest numbered.1.1 h in ground arith

  -- The packet at place k of a stream, counted from 0, has the sequence number k modulo 2^16 and
  -- the timestamp 160 k modulo 2^32, whatever was read and however many samples the packets hold.
  pub packet_numbers :
      (reads : List (Read × Bool)) (k : ℕ) (p : Packet) (rest : List Packet)
      → drop k (stream_wav_file encode_ulaw ssrc reads).0 ≡ p ∷ rest
      → (p.sequence_number ≡ k % 2 ^ 16) × (p.timestamp ≡ 160 * k % 2 ^ 32)
  unfolding stream_wav_file
  packet_numbers reads k p rest h =
      let (n, t) = numbered_at _ 0 k p rest (stream-NumberedFrom reads 0) h in ground arith
