-- ===== src/Guidance/Stream.antt =====
-- `streamWavFile`: the packets of the file.
pub mod Numbering
use xylitol.Base.{
  ℕ, suc, ◌+◌, ◌-◌, ◌*◌, ◌/◌, ◌%◌, ◌^◌, Bool, true, false, not, List, [], ◌∷◌, ◌++◌, Option, none,
  some, if◌then◌else◌, ◌==◌, ◌||◌, is_nil, Bytes, ℤ, pos, negsuc,
}

abbrev pub rtp_sample_rate : ℕ
rtp_sample_rate = 8000

abbrev pub rtp_packet_duration : ℕ
rtp_packet_duration = 20

abbrev pub samples_per_packet : ℕ
samples_per_packet = rtp_sample_rate * rtp_packet_duration / 1000

pub record Packet : Type 0 where
  pub sequence_number : ℕ
  pub timestamp : ℕ
  pub ssrc : ℕ
  pub payload : Bytes

-- One call of `PCMBuffer`: the samples `Data[:n]`, `io.EOF`, or another error.
pub data Read : Type 0 where
  end_of_file read_error : Read
  samples : List ℤ → Read

-- `int16(s)`, as the number of its 16 bits.
unfoldable pub bits16 : ℤ → ℕ
bits16 (pos n) = n % 2 ^ 16
bits16 (negsuc n) = 2 ^ 16 - 1 - n % 2 ^ 16

-- `binary.Write` in little-endian order.
unfoldable pub pcm_bytes : List ℤ → Bytes
unfolding bits16
pcm_bytes [] = []
pcm_bytes (s ∷ rest) = bits16 s % 256 ∷ bits16 s / 256 ∷ pcm_bytes rest

-- The variables of the loop: `uint16` and `uint32`.
pub record Counters : Type 0 where
  pub seq_num : ℕ
  pub timestamp : ℕ

unfoldable pub advance : Counters → Counters
advance c = record {
  seq_num = (c.seq_num + 1) % 2 ^ 16;
  timestamp = (c.timestamp + samples_per_packet) % 2 ^ 32;
}

-- Why the loop has ended; `running` where it waits for the next tick.
pub data Ending : Type 0 where
  at_end failed_read failed_write running : Ending

module _ (encode_ulaw : Bytes → Bytes) (ssrc : ℕ) where
  unfoldable pub packet : Counters → List ℤ → Packet
  unfolding pcm_bytes
  packet c data_ = record {
    sequence_number = c.seq_num;
    timestamp = c.timestamp;
    ssrc = ssrc;
    payload = encode_ulaw (pcm_bytes data_);
  }

  abbrev sent_first : Packet → List Packet × Ending → List Packet × Ending
  sent_first p (packets, ending) = (p ∷ packets, ending)

  -- The loop over the outcomes of the reads, each with whether `WriteRTP` fails on its packet.
  unfoldable pub stream : List (Read × Bool) → Counters → List Packet × Ending
  unfolding packet advance
  stream [] c = ([], running)
  stream ((end_of_file, fails) ∷ reads) c = ([], at_end)
  stream ((read_error, fails) ∷ reads) c = ([], failed_read)
  stream ((samples [], fails) ∷ reads) c = stream reads c
  stream ((samples (s ∷ rest), true) ∷ reads) c = ([], failed_write)
  stream ((samples (s ∷ rest), false) ∷ reads) c =
      sent_first (packet c (s ∷ rest)) (stream reads (advance c))

  -- The two counters start at 0.
  unfoldable pub stream_wav_file : List (Read × Bool) → List Packet × Ending
  unfolding stream
  stream_wav_file reads = stream reads (record { seq_num = 0; timestamp = 0 })
