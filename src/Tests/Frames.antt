-- ===== src/Tests/Frames.antt =====
-- The theorems on the sessions, for a library that reads one byte as a control frame.
use pktvisor.Prelude.{◌≡◌, true, Option, none, some, List, [], ◌∷◌, ◌==◌, if◌then◌else◌}
use pktvisor.Metrics.Utf8.{Bytes}
use pktvisor.Frames.{Fstrm, ControlType, start_frame, stop_frame, new_session}
use pktvisor.Frames.Buffer.{connected, read, read_all}
use pktvisor.Frames.Chunks.{concat, read_all-concat}
use pktvisor.Frames.Protocol.{Reads}
use pktvisor.Frames.Protocol.Refines.{read_all-Reads}

abbrev one_byte : Bytes → Option ControlType
one_byte [] = none
one_byte (c ∷ cs) = if c == 2 then some start_frame else some stop_frame

abbrev lib : Fstrm
lib = record {
  max_frame = 100;
  max_control = 50;
  decode = one_byte;
  match_content_type = λ frame. true;
  encode = λ type with_content_type. some (1 ∷ []);
  write = λ before frame. true;
}

-- A START frame and a data frame of two bytes, cut in the middle of their lengths.
abbrev chunks : List Bytes
chunks =
    (0 ∷ 0 ∷ 0 ∷ [])
    ∷ (0 ∷ 0 ∷ 0 ∷ 0 ∷ 1 ∷ 2 ∷ 0 ∷ 0 ∷ [])
    ∷ []
    ∷ (0 ∷ 2 ∷ 7 ∷ [])
    ∷ (8 ∷ 0 ∷ [])
    ∷ []

read_all-concat_example : read_all lib connected chunks ≡ read lib connected (concat chunks)
read_all-concat_example = read_all-concat lib chunks

read_all-Reads_example : Reads lib new_session (concat chunks) (read_all lib connected chunks)
read_all-Reads_example = read_all-Reads lib chunks
