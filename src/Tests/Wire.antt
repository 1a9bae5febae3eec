-- ===== src/Tests/Wire.antt =====
-- JSON for the runs of internal/client/client.go and cmd/ht: a codec that takes one value, and one for
-- frames that takes every frame.
use headless_terminal.Base.{refl, Option, none, some, [], ◌∷◌, Bytes, codes, ◌==◌, if◌then◌else◌}
use headless_terminal.Daemon.Handlers.Run.{Frame, data_frame, eof_frame}
use headless_terminal.Wire.{Op, op_name, Params, Reply, Response, Codec, Json}
use headless_terminal.Wire.Lines.{Carries}

abbrev pub constant : {A : Type 0} → A → Codec A
constant a = record { marshal = λ x. some (codes "{}"); unmarshal = λ b. some a }

abbrev pub refusing : {A : Type 0} → Codec A
refusing = record { marshal = λ x. none; unmarshal = λ b. none }

pub constant-Carries : {A : Type 0} (a : A) → Carries (constant a) a
constant-Carries a = record {
  text = codes "{}";
  marshals = refl;
  one_line = refl;
  unmarshals = refl;
}

abbrev chop : Bytes → Bytes
chop [] = []
chop (c ∷ []) = []
chop (c ∷ d ∷ s) = c ∷ chop (d ∷ s)

-- The letter d and the data, or the letter e.
abbrev frame_text : Frame → Option Bytes
frame_text (data_frame b) = some (0x64 ∷ b)
frame_text eof_frame = some (0x65 ∷ [])

abbrev text_frame : Bytes → Option Frame
text_frame [] = none
text_frame (c ∷ s) =
    if c == 0x64 then some (data_frame (chop s)) else if c == 0x65 then some eof_frame else none

-- JSON for a request of the operation that has these params, and its response.
abbrev pub json_for :
    (op : Op) → ((o : Op) → Codec (Params o)) → ((o : Op) → Codec (Reply o)) → Response → Json
json_for op params reply response = record {
  params = params;
  reply = reply;
  request = constant (record { op = op_name op; params = some (codes "{}") });
  response = constant response;
  frame = record { marshal = frame_text; unmarshal = text_frame };
}
