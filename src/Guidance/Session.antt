-- ===== src/Guidance/Session.antt =====
-- The end of `Run`, `OnConnectionStateChange` and `streamWavFile` (internal/sip/app_guidance.go):
-- how long a guidance call lasts, what is played to it, and how often it is ended.
pub mod Byes
use xylitol.Base.{
  ℕ, zero, suc, ◌+◌, ◌-◌, ◌&&◌, Bool, true, false, not, List, [], ◌∷◌, if◌then◌else◌, ◌==◌, Bytes,
}
use xylitol.Guidance.{App, next_cseq}
use xylitol.Guidance.Stream.{Packet, Read, Ending, rtp_sample_rate, stream_wav_file}

-- The file as `os.Open` and the WAV decoder find it: it cannot be opened, it is no WAV file, or it
-- has a rate, a number of channels and a number of bits.
pub data WavFile : Type 0 where
  not_opened invalid : WavFile
  wav : ℕ → ℕ → ℕ → WavFile

-- Why `streamWavFile` ends.
pub data Played : Type 0 where
  no_file no_wav unsupported : Played
  played : Ending → Played

is_supported : ℕ → ℕ → ℕ → Bool
is_supported rate channels depth = rate == rtp_sample_rate && channels == 1 && depth == 16

abbrev as_played : List Packet × Ending → List Packet × Played
as_played (packets, ending) = (packets, played ending)

-- `streamWavFile` without its deferred call: the packets, and why it ends.
unfoldable pub play : (Bytes → Bytes) → ℕ → WavFile → List (Read × Bool) → List Packet × Played
unfolding is_supported stream_wav_file
play encode_ulaw ssrc not_opened reads = ([], no_file)
play encode_ulaw ssrc invalid reads = ([], no_wav)
play encode_ulaw ssrc (wav rate channels depth) reads =
    if is_supported rate channels depth
    then as_played (stream_wav_file encode_ulaw ssrc reads)
    else ([], unsupported)

-- `webrtc.PeerConnectionState`
pub data ConnectionState : Type 0 where
  fresh connecting connected disconnected failed closed : ConnectionState

-- What the goroutines of one call share: whether the INVITE's transaction is done, whether
-- `a.done` is closed, how many goroutines are in `streamWavFile`, and the number of each BYE that
-- they tried to send, the last one first.
pub record Session : Type 0 where
  pub app : App
  pub invite_done : Bool
  pub done : Bool
  pub streams : ℕ
  pub byes : List ℕ

-- A call that was answered.
unfoldable pub answered : App → Session
answered a = record { app = a; invite_done = false; done = false; streams = 0; byes = [] }

-- The `select` closes `a.done` once.
close_done : Session → Session
close_done s = if s.done then s else record s { done = true }

-- `OnConnectionStateChange`
unfoldable pub on_connection_state_change : ConnectionState → Session → Session
unfolding close_done
on_connection_state_change connected s = record s { streams = suc s.streams }
on_connection_state_change failed s = close_done s
on_connection_state_change closed s = close_done s
on_connection_state_change _ s = s

-- The deferred call of `streamWavFile`, however it ends: `sendBye` takes the next CSeq. The `Close`
-- behind it shows in the changes of the connection state that follow.
unfoldable pub finish_stream : Session → Session
unfolding next_cseq
finish_stream s =
    let a = next_cseq s.app in record s { app = a; streams = s.streams - 1; byes = a.cseq ∷ s.byes }

-- `Run` returns behind both waits.
unfoldable pub is_finished : Session → Bool
is_finished s = s.invite_done && s.done

pub data SessionEvent : Type 0 where
  state_changed : ConnectionState → SessionEvent
  invite_ended stream_ended : SessionEvent

-- A stream ends only where one runs.
unfoldable pub session_step : SessionEvent → Session → Session
unfolding on_connection_state_change finish_stream
session_step (state_changed state) s = on_connection_state_change state s
session_step invite_ended s = record s { invite_done = true }
session_step stream_ended s = if s.streams == 0 then s else finish_stream s

unfoldable pub session_steps : List SessionEvent → Session → Session
unfolding session_step
session_steps [] s = s
session_steps (e ∷ es) s = session_steps es (session_step e s)
